-- ===== src/Wire/Reply.antt =====
-- The answers: 'M', a text for the client, and 'I', what a repository knows of a node.
pub mod RoundTrip
use distributed_graph_databa.Prelude.{
  ℕ, ◌+◌, [], ◌∷◌, ◌++◌, List, Bytes, length, Bool, true, Outcome, ok, ◌==◌, if◌then◌else◌, ◌>>=◌,
}
use distributed_graph_databa.Text.{ℤ, to_size, substr, erase, at, stoi}
use distributed_graph_databa.Text.Decimal.{sprintf}
use distributed_graph_databa.Text.Field.{take_number, take_text, digit_at}
use distributed_graph_databa.Schema.{Attribute}
use distributed_graph_databa.Wire.{
  sized, put_texts, put_attributes, digit_char, rounds, take_texts, take_attributes,
}
use distributed_graph_databa.Wire.Query.{truth}

-- The buffer of `parseNewMessageResponse`.
unfoldable pub message_text : Bytes → ℕ → Outcome Bytes
unfolding sized
message_text message request_id = do
  body ← sized message
  id ← sprintf 3 request_id
  ok (b'M' ∷ (body ++ id))

-- The branch 'M', behind its first character: the text and the request id.
unfoldable pub take_message : Bytes → Outcome (Bytes × ℤ)
take_message buffer = do
  (s, with_text) ← take_number 3 0 buffer
  (text, with_id) ← take_text (to_size s) 0 with_text
  digits ← substr with_id 0 3
  request_id ← stoi digits
  ok (text, request_id)

-- The buffer of `parseNewInfoResponse`.
unfoldable pub info_text : Bytes → List Attribute → List Bytes → ℕ → Bool → Outcome Bytes
unfolding sized put_texts put_attributes
info_text name attributes relations request_id valid_node = do
  header ← sized name
  nodes ← put_texts relations
  attrs ← put_attributes attributes
  id ← sprintf 3 request_id
  valid ← sprintf 1 (if valid_node then 1 else 0)
  let counts = digit_char (length relations) ∷ digit_char (length attributes) ∷ []
  ok (b'I' ∷ (header ++ (counts ++ (nodes ++ (attrs ++ (id ++ valid))))))

pub record Info : Type 0 where
  pub node_name : Bytes
  pub attributes : List Attribute
  pub relations : List Bytes
  pub request_id : ℤ
  pub valid_node : Bool

-- The branch 'I', behind its first character and up to the node's name.
unfoldable pub take_info : Bytes → Outcome Info
take_info buffer = do
  (s, named) ← take_number 3 0 buffer
  let size = to_size s
  relation_count ← digit_at named size
  (relations, with_pairs) ← take_texts (rounds relation_count) (size + 2) named
  attribute_count ← digit_at with_pairs (size + 1)
  (attributes, with_id) ← take_attributes (rounds attribute_count) (size + 2) with_pairs
  (request_id, with_flag) ← take_number 3 (size + 2) with_id
  (valid_node, rest) ← take_number 1 (size + 2) with_flag
  node_name ← substr rest 0 size
  ok (record {
    node_name = node_name;
    attributes = attributes;
    relations = relations;
    request_id = request_id;
    valid_node = truth valid_node;
  })
