-- ===== src/Wire/Create.antt =====
-- The message 'C': `parseNewNode` writes it, and the branch 'C' of `runConnection` reads it.
pub mod RoundTrip
pub mod Limits
use distributed_graph_databa.Prelude.{
  ℕ, ◌+◌, [], ◌∷◌, ◌++◌, List, Bytes, length, Outcome, ok, ◌==◌, if◌then◌else◌, ◌>>=◌,
}
use distributed_graph_databa.Text.{ℤ, to_size, substr, erase, at}
use distributed_graph_databa.Text.Decimal.{sprintf}
use distributed_graph_databa.Text.Field.{take_number, digit_at}
use distributed_graph_databa.Schema.{Attribute}
use distributed_graph_databa.Wire.{
  Host, sized, put_texts, put_attributes, put_hosts, digit_char, rounds, take_texts,
  take_attributes, take_repos,
}

-- The buffer of `parseNewNode`.
unfoldable pub new_node_text : Bytes → List Attribute → List Bytes → ℕ → List Host → Outcome Bytes
unfolding sized put_texts put_attributes put_hosts
new_node_text name attributes relations request_id master_repos = do
  header ← sized name
  nodes ← put_texts relations
  attrs ← put_attributes attributes
  id ← sprintf 3 request_id
  count ← sprintf 1 (length master_repos)
  repos ← put_hosts master_repos
  let counts = digit_char (length relations) ∷ digit_char (length attributes) ∷ []
  ok (b'C' ∷ (header ++ (counts ++ (nodes ++ (attrs ++ (id ++ (count ++ repos)))))))

-- What the branch 'C' knows when it has read the request id: `place` is its `s`.
pub record CreateRequest : Type 0 where
  pub node_name : Bytes
  pub attributes : List Attribute
  pub relations : List Bytes
  pub request_id : ℤ
  pub place : ℕ
  pub buffer : Bytes

-- `if (s_buffer[s - 2] == '0') … else …`, with the texts standing at `s`.
take_relations : ℕ → Bytes → Outcome (List Bytes × Bytes)
take_relations size buffer = do
  c ← at buffer size
  if c == b'0'
      then ok ([], buffer)
      else do cantidad ← digit_at buffer size; take_texts (rounds cantidad) (size + 2) buffer

-- `if (s_buffer[s - 1] == '0') … else …`
take_pairs : ℕ → Bytes → Outcome (List Attribute × Bytes)
take_pairs size buffer = do
  c ← at buffer (size + 1)
  if c == b'0' then ok ([], buffer) else do
    cantidad ← digit_at buffer (size + 1)
    take_attributes (rounds cantidad) (size + 2) buffer

-- The branch 'C', behind its first character and up to the request id.
unfoldable pub take_create : Bytes → Outcome CreateRequest
unfolding take_relations take_pairs
take_create buffer = do
  (s, named) ← take_number 3 0 buffer
  let size = to_size s
  (relations, with_pairs) ← take_relations size named
  (attributes, with_id) ← take_pairs size with_pairs
  (request_id, rest) ← take_number 3 (size + 2) with_id
  node_name ← substr rest 0 size
  ok (record {
    node_name = node_name;
    attributes = attributes;
    relations = relations;
    request_id = request_id;
    place = size + 2;
    buffer = rest;
  })

-- What a repository takes from a message 'C'.
abbrev pub Created : Type 0
Created = Bytes × List Attribute × List Bytes × ℤ × List Host

-- The reads of a repository: the first character is erased, then the request and the hosts are read.
unfoldable pub receive_create : Bytes → Outcome Created
receive_create text = do
  buffer ← erase text 0 1
  r ← take_create buffer
  (repos, _) ← take_repos r.place r.buffer
  ok (r.node_name, r.attributes, r.relations, r.request_id, repos)
