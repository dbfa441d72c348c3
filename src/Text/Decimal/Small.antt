-- ===== src/Text/Decimal/Small.antt =====
-- The decimal prints of one and two digits, character by character.
use distributed_graph_databa.Prelude.{
  ℕ, zero, suc, ◌+◌, ◌/◌, ◌%◌, ◌<◌, ◌≤◌, ◌≡◌, refl, [], ◌∷◌, Bytes, arith, ltb, Bool-cases, inl,
  inr,
}
use distributed_graph_databa.Text.Decimal.{digits, to_string, padded}

digits-small : (f n : ℕ) (out : Bytes) → n < 10 → digits (suc f) n out ≡ (b'0' + n) ∷ out
unfolding digits
digits-small f n out h = ground arith

digits-two :
    (f n : ℕ) (out : Bytes)
    → 10 ≤ n
    → n < 100
    → digits (suc (suc f)) n out ≡ (b'0' + n / 10) ∷ (b'0' + n % 10) ∷ out
unfolding digits
digits-two f n out h k = ground arith

pub one_digit : (n : ℕ) → n < 10 → padded 1 n ≡ (b'0' + n) ∷ []
unfolding padded to_string
one_digit n h = rw (digits-small n n [] h)

pub two_digits : (n : ℕ) → n < 100 → padded 2 n ≡ (b'0' + n / 10) ∷ (b'0' + n % 10) ∷ []
two_digits zero h = unfold padded to_string in refl
two_digits (suc m) h = elim (Bool-cases (ltb (suc m) 10)) [
  | inl small ↦
      unfold padded to_string in rw (digits-small (suc m) (suc m) [] (ground arith)) (ground arith)
  | inr large ↦ unfold padded to_string in rw (digits-two m (suc m) [] (ground arith) h)
]
