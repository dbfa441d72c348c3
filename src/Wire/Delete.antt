-- ===== src/Wire/Delete.antt =====
-- The message 'D': `parseNewDelete` writes it, and the branch 'D' of `runConnection` reads it.
pub mod RoundTrip
use distributed_graph_databa.Prelude.{
  ℕ, ◌-◌, [], ◌∷◌, ◌++◌, List, Bytes, length, Bool, false, ◌+◌, Outcome, ok, ltb, ◌==◌,
  if◌then◌else◌, ◌>>=◌,
}
use distributed_graph_databa.Text.{ℤ, pos, neg, to_size, substr, erase, at}
use distributed_graph_databa.Text.Decimal.{sprintf, to_string}
use distributed_graph_databa.Text.Field.{take_number, take_field}
use distributed_graph_databa.Wire.{Host, sized, put_hosts, take_repos}

abbrev pub is_positive : ℤ → Bool
is_positive (pos n) = ltb 0 n
is_positive (neg n) = false

-- `std::to_string` of an `int`
int_to_string : ℤ → Bytes
int_to_string (pos n) = to_string n
int_to_string (neg n) = if n == 0 then to_string 0 else b'-' ∷ to_string n

-- The buffer of `parseNewDelete`: `object` is 0 for a node, 1 for an attribute, 2 for a relation.
unfoldable pub new_delete_text : Bytes → ℤ → Bytes → ℕ → List Host → Outcome Bytes
unfolding sized put_hosts int_to_string
new_delete_text name object attr_or_rel request_id master_repos = do
  header ← sized name
  target ← if is_positive object then sized attr_or_rel else ok []
  id ← sprintf 3 request_id
  count ← sprintf 1 (length master_repos)
  repos ← put_hosts master_repos
  ok (b'D' ∷ (int_to_string object ++ (header ++ (target ++ (id ++ (count ++ repos))))))

-- `c - '0'` of a `char`, which is signed.
unfoldable pub char_digit : ℕ → ℤ
char_digit c =
    if ltb c b'0'
    then neg (b'0' - c)
    else if ltb c 128
    then pos (c - b'0')
    else neg (256 + b'0' - c)

pub record DeleteRequest : Type 0 where
  pub node_name : Bytes
  pub object : ℤ
  pub attr_or_rel : Bytes
  pub request_id : ℤ
  pub place : ℕ
  pub buffer : Bytes

-- The branch 'D', behind its first character and up to the node's name.
unfoldable pub take_delete : Bytes → Outcome DeleteRequest
unfolding char_digit
take_delete buffer = do
  flag ← at buffer 0
  sized_name ← erase buffer 0 1
  (s, named) ← take_number 3 0 sized_name
  let size = to_size s
  let object = char_digit flag
  (attr_or_rel, with_id) ← if is_positive object then take_field 3 size named else ok ([], named)
  (request_id, rest) ← take_number 3 size with_id
  node_name ← substr rest 0 size
  ok (record {
    node_name = node_name;
    object = object;
    attr_or_rel = attr_or_rel;
    request_id = request_id;
    place = size;
    buffer = rest;
  })

-- What a repository takes from a message 'D'.
abbrev pub Deleted : Type 0
Deleted = Bytes × ℤ × Bytes × ℤ × List Host

-- The reads of a repository: the first character is erased, then the request and the hosts are read.
unfoldable pub receive_delete : Bytes → Outcome Deleted
receive_delete text = do
  buffer ← erase text 0 1
  r ← take_delete buffer
  (repos, _) ← take_repos r.place r.buffer
  ok (r.node_name, r.object, r.attr_or_rel, r.request_id, repos)
