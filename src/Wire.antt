-- ===== src/Wire.antt =====
-- The pieces that the messages of DGDB.cpp are made of: lists of texts, attributes and hosts, each
-- text behind its length, as the `parseNew…` functions write them and `runConnection` reads them.
pub mod Hosts
pub mod Pieces
pub mod Counts
pub mod Create
pub mod Query
pub mod Update
pub mod Delete
pub mod Written
pub mod Reply
use mathlib.Core.List.{map}
use distributed_graph_databa.Prelude.{
  ℕ, zero, suc, ◌+◌, ◌-◌, ◌%◌, ◌^◌, [], ◌∷◌, ◌++◌, List, Bytes, length, Option, none, some, Outcome,
  ok, fault, ◌==◌, if◌then◌else◌, ◌>>=◌, take, drop,
}
use distributed_graph_databa.Text.{ℤ, pos, neg, to_size, substr, find, stoi, at}
use distributed_graph_databa.Text.Decimal.{to_string, sprintf}
use distributed_graph_databa.Text.Field.{take_number, take_field, digit_at}
use distributed_graph_databa.Schema.{Attribute}

-- `DGDB::Host`
pub record Host : Type 0 where
  pub ip : Bytes
  pub port : ℕ

-- `Host(ip, port)` keeps the port in a `uint16_t`.
unfoldable pub make_host : Bytes → ℤ → Host
make_host ip port = record { ip = ip; port = to_size port % 2 ^ 16 }

-- `repo.ip + ":" + std::to_string(repo.port)`
unfoldable pub host_text : Host → Bytes
host_text repo = repo.ip ++ (b':' ∷ to_string repo.port)

-- The two parts of the text of a host, given where its colon stands.
host_at : Bytes → Option ℕ → Outcome Host
host_at host none = do port ← stoi host; ok (make_host host port)
host_at host (some separator) = do
  port_text ← substr host (separator + 1) (length host)
  port ← stoi port_text
  ok (make_host (take separator host) port)

-- `stringToHost`: without a colon both parts are the whole text.
unfoldable pub string_to_host : Bytes → Outcome Host
unfolding host_at
string_to_host host = host_at host (find b':' host)

-- `sprintf(tamano, "%03lu", text.length()); buffer += tamano + text;`
unfoldable pub sized : Bytes → Outcome Bytes
sized text = do size ← sprintf 3 (length text); ok (size ++ text)

-- The loop over `relations`.
unfoldable pub put_texts : List Bytes → Outcome Bytes
unfolding sized
put_texts [] = ok []
put_texts (node ∷ nodes) = do first ← sized node; rest ← put_texts nodes; ok (first ++ rest)

-- The loop over `attributes`.
unfoldable pub put_attributes : List Attribute → Outcome Bytes
unfolding sized
put_attributes [] = ok []
put_attributes (attr ∷ attrs) = do
  key ← sized attr.key
  value ← sized attr.value
  rest ← put_attributes attrs
  ok (key ++ (value ++ rest))

-- The loop over `master_repos`, whose lengths have two digits.
unfoldable pub put_hosts : List Host → Outcome Bytes
put_hosts [] = ok []
put_hosts (repo ∷ repos) = do
  size ← sprintf 2 (length (host_text repo))
  rest ← put_hosts repos
  ok (size ++ (host_text repo ++ rest))

-- `char('0' + n)`
abbrev pub digit_char : ℕ → ℕ
digit_char n = (b'0' + n) % 256

-- How often `while (count--)` runs. A negative count goes on until a read fails.
unfoldable pub rounds : ℤ → ℕ
rounds (pos n) = n
rounds (neg n) = if n == 0 then 0 else 2 ^ 32 - n

-- The loop that reads relations at a place of the buffer.
unfoldable pub take_texts : ℕ → ℕ → Bytes → Outcome (List Bytes × Bytes)
take_texts zero place buffer = ok ([], buffer)
take_texts (suc n) place buffer = do
  (text, buffer') ← take_field 3 place buffer
  (texts, rest) ← take_texts n place buffer'
  ok (text ∷ texts, rest)

-- The loop that reads attributes: `attributes.push_back({"", key, value})`.
unfoldable pub take_attributes : ℕ → ℕ → Bytes → Outcome (List Attribute × Bytes)
take_attributes zero place buffer = ok ([], buffer)
take_attributes (suc n) place buffer = do
  (key, after_key) ← take_field 3 place buffer
  (value, after_value) ← take_field 3 place after_key
  (attrs, rest) ← take_attributes n place after_value
  ok (record { node_name = []; key = key; value = value } ∷ attrs, rest)

-- The loop that reads the hosts of the repositories.
unfoldable pub take_hosts : ℕ → ℕ → Bytes → Outcome (List Host × Bytes)
take_hosts zero place buffer = ok ([], buffer)
take_hosts (suc n) place buffer = do
  (info, buffer') ← take_field 2 place buffer
  host ← string_to_host info
  (hosts, rest) ← take_hosts n place buffer'
  ok (host ∷ hosts, rest)

-- `repo_count = stoi(s_buffer.substr(s, 1)); s_buffer.erase(s, 1);` and the loop.
unfoldable pub take_repos : ℕ → Bytes → Outcome (List Host × Bytes)
take_repos place buffer = do
  (count, buffer') ← take_number 1 place buffer
  take_hosts (rounds count) place buffer'
