-- ===== src/Wire/Update.antt =====
-- The message 'U': `parseNewUpdate` writes it, and the branch 'U' of `runConnection` reads it.
pub mod RoundTrip
use distributed_graph_databa.Prelude.{
  ℕ, [], ◌∷◌, ◌++◌, Bytes, Bool, true, false, not, Outcome, ok, ◌==◌, if◌then◌else◌, ◌>>=◌,
}
use distributed_graph_databa.Text.{ℤ, to_size, substr, erase, at}
use distributed_graph_databa.Text.Decimal.{sprintf}
use distributed_graph_databa.Text.Field.{take_number, take_field}
use distributed_graph_databa.Wire.{sized}

-- The two forms of the message: a new name of the node, or an attribute and its new value.
put_change : Bool → Bytes → Bytes → Outcome Bytes
unfolding sized
put_change true set_value attr = sized set_value
put_change false set_value attr = do key ← sized attr; value ← sized set_value; ok (key ++ value)

-- The buffer of `parseNewUpdate`.
unfoldable pub new_update_text : Bytes → Bool → Bytes → Bytes → ℕ → Outcome Bytes
unfolding put_change
new_update_text name is_node set_value attr request_id = do
  header ← sized name
  change ← put_change is_node set_value attr
  id ← sprintf 3 request_id
  ok (b'U' ∷ (if is_node then b'1' else b'0') ∷ (header ++ (change ++ id)))

pub record UpdateRequest : Type 0 where
  pub node_name : Bytes
  pub is_node : Bool
  pub set_value : Bytes
  pub attr : Bytes
  pub request_id : ℤ
  pub buffer : Bytes

-- `if (is_node) … else …`: the attribute, the value and the buffer behind them.
take_change : Bool → ℕ → Bytes → Outcome (Bytes × Bytes × Bytes)
take_change true size named = do
  (set_value, with_id) ← take_field 3 size named
  ok ([], set_value, with_id)
take_change false size named = do
  (attr, at_value) ← take_field 3 size named
  (set_value, with_id) ← take_field 3 size at_value
  ok (attr, set_value, with_id)

-- The branch 'U', behind its first character and up to the node's name.
unfoldable pub take_update : Bytes → Outcome UpdateRequest
unfolding take_change
take_update buffer = do
  flag ← at buffer 0
  sized_name ← erase buffer 0 1
  (s, named) ← take_number 3 0 sized_name
  let size = to_size s
  let is_node = not (flag == b'0')
  (attr, set_value, with_id) ← take_change is_node size named
  (request_id, rest) ← take_number 3 size with_id
  node_name ← substr rest 0 size
  ok (record {
    node_name = node_name;
    is_node = is_node;
    set_value = set_value;
    attr = attr;
    request_id = request_id;
    buffer = rest;
  })
