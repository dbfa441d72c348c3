-- ===== src/Wire/Query/Conditions.antt =====
-- The conditions of the message 'R', written and read back.
use distributed_graph_databa.Prelude.{
  ℕ, ◌≡◌, ◌≢◌, refl, [], ◌∷◌, ◌++◌, List, Bytes, length, append_assoc, All, Bool, true, false, not,
  Option, none, some, ok, ◌==◌,
}
use distributed_graph_databa.Text.{erase}
use distributed_graph_databa.Text.Decimal.{to_string}
use distributed_graph_databa.Text.Laws.{erase_mid, at-append}
use distributed_graph_databa.Schema.{Operator, equal, less, greater, like, Condition}
use distributed_graph_databa.Wire.Pieces.{Fits, sized_text, sized-eq, take_field-sized}
use distributed_graph_databa.Wire.Query.{
  operator_code, operator_of_digit, bit_char, put_conditions, take_condition, take_conditions,
}

-- The digit of an operator.
abbrev operator_char : Option Operator → ℕ
operator_char none = b'0'
operator_char (some equal) = b'0'
operator_char (some less) = b'1'
operator_char (some greater) = b'2'
operator_char (some like) = b'3'

-- Texts that fit, and an operator that was stored.
pub record ConditionFits (c : Condition) : Type 0 where
  pub key_fits : Fits c.key
  pub value_fits : Fits c.value
  pub stored : c.op ≢ none

operator_written :
    (op : Option Operator)
    → op ≢ none
    → (n : ℕ) × (operator_code op ≡ ok n) × (to_string n ≡ operator_char op ∷ [])
unfolding operator_code to_string
operator_written none h = absurd (h refl)
operator_written (some equal) h = (0, refl, refl)
operator_written (some less) h = (1, refl, refl)
operator_written (some greater) h = (2, refl, refl)
operator_written (some like) h = (3, refl, refl)

operator_read : (op : Option Operator) → op ≢ none → operator_of_digit (operator_char op) ≡ ok op
unfolding operator_of_digit
operator_read none h = absurd (h refl)
operator_read (some equal) h = refl
operator_read (some less) h = refl
operator_read (some greater) h = refl
operator_read (some like) h = refl

bit_read : (b : Bool) → not (bit_char b == b'0') ≡ b
bit_read true = refl
bit_read false = refl

unfoldable pub conditions_text : List Condition → Bytes
conditions_text [] = []
conditions_text (c ∷ cs) =
    sized_text c.key
    ++ (operator_char c.op ∷ (sized_text c.value ++ (bit_char c.is_or ∷ conditions_text cs)))

pub put_conditions-eq :
    (cs : List Condition) → All ConditionFits cs → put_conditions cs ≡ ok (conditions_text cs)
unfolding put_conditions conditions_text
put_conditions-eq [] h = refl
put_conditions-eq (c ∷ cs) h =
    let (n, code, digit) = operator_written c.op h.0.stored in
    rw (
      sized-eq c.key h.0.key_fits,
      code,
      sized-eq c.value h.0.value_fits,
      put_conditions-eq cs h.1,
      digit,
    )

module _ (pre : Bytes) (place : ℕ) (h : length pre ≡ place) where
  drop_char : (c : ℕ) (rest : Bytes) → erase (pre ++ (c ∷ rest)) place 1 ≡ ok (pre ++ rest)
  drop_char c rest = erase_mid pre (c ∷ []) rest place 1 h refl

  take_condition-eq :
      (c : Condition) (rest : Bytes)
      → ConditionFits c
      → take_condition place (
          pre
          ++ (sized_text c.key
              ++ (operator_char c.op ∷ (sized_text c.value ++ (bit_char c.is_or ∷ rest)))))
        ≡ ok (c, pre ++ rest)
  unfolding take_condition
  take_condition-eq c rest fits =
      let at_or = bit_char c.is_or ∷ rest in
      let at_value = sized_text c.value ++ at_or in
      let at_op = operator_char c.op ∷ at_value in
      rw (
        take_field-sized pre c.key at_op place h fits.key_fits,
        at-append pre at_value (operator_char c.op) place h,
        operator_read c.op fits.stored,
        drop_char (operator_char c.op) at_value,
        take_field-sized pre c.value at_or place h fits.value_fits,
        at-append pre rest (bit_char c.is_or) place h,
        drop_char (bit_char c.is_or) rest,
        bit_read c.is_or,
      )

  pub take_conditions-eq :
      (cs : List Condition) (rest : Bytes)
      → All ConditionFits cs
      → take_conditions (length cs) place (pre ++ (conditions_text cs ++ rest))
        ≡ ok (cs, pre ++ rest)
  unfolding take_conditions conditions_text
  take_conditions-eq [] rest fits = refl
  take_conditions-eq (c ∷ cs) rest fits =
      rw
        (
          append_assoc (sized_text c.key)
              (operator_char c.op ∷ (sized_text c.value ++ (bit_char c.is_or ∷ conditions_text cs)))
              rest,
          append_assoc (sized_text c.value) (bit_char c.is_or ∷ conditions_text cs) rest,
        )
        (rw (
          take_condition-eq c (conditions_text cs ++ rest) fits.0,
          take_conditions-eq cs rest fits.1,
        ))
