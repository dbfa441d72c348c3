-- ===== src/Wire/Query.antt =====
-- The message 'R': `parseNewQuery` writes it, and the branch 'R' of `runConnection` reads it.
pub mod Conditions
pub mod RoundTrip
use distributed_graph_databa.Prelude.{
  ℕ, zero, suc, ◌+◌, ◌-◌, [], ◌∷◌, ◌++◌, List, Bytes, length, Bool, true, false, not, Option, none,
  some, Outcome, ok, fault, undefined, ltb, ◌==◌, if◌then◌else◌, ◌>>=◌,
}
use distributed_graph_databa.Text.{ℤ, pos, neg, to_size, substr, erase, at, stoi}
use distributed_graph_databa.Text.Decimal.{sprintf, to_string}
use distributed_graph_databa.Text.Field.{take_number, take_field, digit_at}
use distributed_graph_databa.Schema.{Operator, equal, less, greater, like, Condition}
use distributed_graph_databa.Wire.{sized, rounds}

-- `int(condition.op)`. To read an operator that was never stored has no behaviour.
unfoldable pub operator_code : Option Operator → Outcome ℕ
operator_code none = fault undefined
operator_code (some equal) = ok 0
operator_code (some less) = ok 1
operator_code (some greater) = ok 2
operator_code (some like) = ok 3

-- `Condition::Operator(c - '0')`: other values lie outside the enumeration.
unfoldable pub operator_of_digit : ℕ → Outcome (Option Operator)
operator_of_digit c =
    if c == b'0'
    then ok (some equal)
    else if c == b'1'
    then ok (some less)
    else if c == b'2'
    then ok (some greater)
    else if c == b'3'
    then ok (some like)
    else fault undefined

-- An `int` as a `bool`.
unfoldable pub truth : ℤ → Bool
truth (pos n) = not (n == 0)
truth (neg n) = not (n == 0)

abbrev pub bit_char : Bool → ℕ
bit_char b = if b then b'1' else b'0'

-- The loop over `conditions`.
unfoldable pub put_conditions : List Condition → Outcome Bytes
unfolding sized
put_conditions [] = ok []
put_conditions (condition ∷ conditions) = do
  key ← sized condition.key
  op ← operator_code condition.op
  value ← sized condition.value
  rest ← put_conditions conditions
  ok (key ++ (to_string op ++ (value ++ (bit_char condition.is_or ∷ rest))))

-- The buffer of `parseNewQuery`.
unfoldable pub new_query_text : Bytes → ℤ → Bool → Bool → List Condition → ℕ → Outcome Bytes
unfolding sized put_conditions
new_query_text name depth leaf attr conditions request_id = do
  header ← sized name
  depth_text ← sprintf 1 (to_size depth)
  count ← sprintf 2 (length conditions)
  conds ← put_conditions conditions
  id ← sprintf 3 request_id
  let flags = bit_char leaf ∷ bit_char attr ∷ []
  ok (b'R' ∷ (header ++ (depth_text ++ (flags ++ (count ++ (conds ++ id))))))

-- One round of the loop `while (cnt--)`.
unfoldable pub take_condition : ℕ → Bytes → Outcome (Condition × Bytes)
unfolding operator_of_digit
take_condition place buffer = do
  (key, at_op) ← take_field 3 place buffer
  op_char ← at at_op place
  op ← operator_of_digit op_char
  at_value ← erase at_op place 1
  (value, at_or) ← take_field 3 place at_value
  or_char ← at at_or place
  rest ← erase at_or place 1
  let is_or = not (or_char == b'0')
  ok (record { key = key; value = value; op = op; is_or = is_or }, rest)

unfoldable pub take_conditions : ℕ → ℕ → Bytes → Outcome (List Condition × Bytes)
unfolding take_condition
take_conditions zero place buffer = ok ([], buffer)
take_conditions (suc n) place buffer = do
  (condition, buffer') ← take_condition place buffer
  (conditions, rest) ← take_conditions n place buffer'
  ok (condition ∷ conditions, rest)

-- What the branch 'R' knows when it has read the request id; `buffer` is what is left of it.
pub record QueryRequest : Type 0 where
  pub node_name : Bytes
  pub depth : ℤ
  pub leaf : Bool
  pub attr : Bool
  pub conditions : List Condition
  pub request_id : ℤ
  pub buffer : Bytes

-- The branch 'R', behind its first character and up to the node's name.
unfoldable pub take_query : Bytes → Outcome QueryRequest
unfolding truth
take_query buffer = do
  (s, named) ← take_number 3 0 buffer
  let size = to_size s
  depth ← digit_at named size
  leaf ← digit_at named (size + 1)
  attr ← digit_at named (size + 2)
  tens ← at named (size + 3)
  units ← at named (size + 4)
  cnt ← stoi (tens ∷ units ∷ [])
  (conditions, with_id) ← take_conditions (rounds cnt) (size + 5) named
  (request_id, rest) ← take_number 3 (size + 5) with_id
  node_name ← substr rest 0 size
  ok (record {
    node_name = node_name;
    depth = depth;
    leaf = truth leaf;
    attr = truth attr;
    conditions = conditions;
    request_id = request_id;
    buffer = rest;
  })
