-- ===== src/Text/Decimal/Value.antt =====
-- What the decimal prints read back as.
use distributed_graph_databa.Prelude.{
  ap, ℕ, zero, suc, ◌+◌, ◌-◌, ◌*◌, ◌/◌, ◌%◌, ◌^◌, ◌<◌, ◌≤◌, ◌≡◌, refl, ◌∙◌, [], ◌∷◌, ◌++◌, Bytes,
  length, All, replicate, ok, ◌≢◌, arith,
}
use distributed_graph_databa.Text.{pos, is_digit, digits_value, skip_spaces, is_space, stoi}
use distributed_graph_databa.Text.Decimal.Length.{length-to_string-pos}
use distributed_graph_databa.Text.Decimal.{digits, to_string, padded}

abbrev pub IsDigit : ℕ → Type 0
IsDigit c = (b'0' ≤ c) × (c ≤ b'9')

-- The number that digits spell behind `n`.
value : Bytes → ℕ → ℕ
value [] n = n
value (c ∷ s) n = value s (n * 10 + (c - b'0'))

value-digits : (f n : ℕ) (out : Bytes) → n < f → value (digits f n out) 0 ≡ value out n
unfolding digits value
value-digits zero n out h = absurd (omega arith)
value-digits (suc f) n out h = ground (arith, value-digits f (n / 10) ((b'0' + n % 10) ∷ out))

digits-IsDigit : (f n : ℕ) (out : Bytes) → All IsDigit out → All IsDigit (digits f n out)
unfolding digits
digits-IsDigit zero n out h = h
digits-IsDigit (suc f) n out h = ground (arith, digits-IsDigit f (n / 10) ((b'0' + n % 10) ∷ out))

value-zeros : (k : ℕ) (s : Bytes) → value (replicate k b'0' ++ s) 0 ≡ value s 0
unfolding value
value-zeros zero s = refl
value-zeros (suc k) s = value-zeros k s

zeros-IsDigit : (k : ℕ) (s : Bytes) → All IsDigit s → All IsDigit (replicate k b'0' ++ s)
zeros-IsDigit zero s h = h
zeros-IsDigit (suc k) s h = (omega arith, zeros-IsDigit k s h)

value-padded : (k n : ℕ) → value (padded k n) 0 ≡ n
unfolding padded to_string value
value-padded k n =
    value-zeros (k - length (to_string n)) (to_string n) ∙ value-digits (suc n) n [] (omega arith)

value-to_string : (n : ℕ) → value (to_string n) 0 ≡ n
unfolding to_string value
value-to_string n = value-digits (suc n) n [] (omega arith)

pub to_string-IsDigit : (n : ℕ) → All IsDigit (to_string n)
unfolding to_string
to_string-IsDigit n = digits-IsDigit (suc n) n [] tt

pub padded-IsDigit : (k n : ℕ) → All IsDigit (padded k n)
unfolding padded
padded-IsDigit k n = zeros-IsDigit _ (to_string n) (to_string-IsDigit n)

digits_value-eq-value : (s : Bytes) (n : ℕ) → All IsDigit s → digits_value s n ≡ value s n
unfolding digits_value value is_digit
digits_value-eq-value [] n h = refl
digits_value-eq-value (c ∷ s) n h =
    ground (arith, digits_value-eq-value s (n * 10 + (c - b'0')) h.1)

skip_spaces-digit : (c : ℕ) (s : Bytes) → IsDigit c → skip_spaces (c ∷ s) ≡ c ∷ s
unfolding skip_spaces is_space
skip_spaces-digit c s h = ground arith

-- Digits alone are read as the number that they spell.
stoi-digits :
    (s : Bytes) → s ≢ [] → All IsDigit s → value s 0 < 2 ^ 31 → stoi s ≡ ok (pos (value s 0))
unfolding stoi
stoi-digits [] h _ _ = absurd (h refl)
stoi-digits (c ∷ s) _ h fits =
    rw (skip_spaces-digit c s h.0) (ground (arith, digits_value-eq-value (c ∷ s) 0 h))

nonempty : (s : Bytes) → 0 < length s → s ≢ []
nonempty [] h = absurd (omega arith)
nonempty (c ∷ s) h = λ e. cc

-- Reading back a padded number gives the number.
pub stoi-padded : (k n : ℕ) → 0 < length (padded k n) → n < 2 ^ 31 → stoi (padded k n) ≡ ok (pos n)
stoi-padded k n some_digit fits =
    let h : value (padded k n) 0 < 2 ^ 31 = rw value-padded fits in
    stoi-digits (padded k n) (nonempty _ some_digit) (padded-IsDigit k n) h
    ∙ ap (λ (m : ℕ). ok (pos m)) (value-padded k n)

-- Every number of the type `int` is read back from its print.
pub stoi-to_string : (n : ℕ) → n < 2 ^ 31 → stoi (to_string n) ≡ ok (pos n)
stoi-to_string n fits =
    let h : value (to_string n) 0 < 2 ^ 31 = rw value-to_string fits in
    stoi-digits (to_string n) (nonempty _ (length-to_string-pos n)) (to_string-IsDigit n) h
    ∙ ap (λ (m : ℕ). ok (pos m)) (value-to_string n)

-- One digit, written as a character and read by `stoi`.
pub stoi_char : (n : ℕ) → n < 10 → stoi ((b'0' + n) ∷ []) ≡ ok (pos n)
unfolding value
stoi_char n h =
    let e : value ((b'0' + n) ∷ []) 0 ≡ n = omega arith in
    let fits : value ((b'0' + n) ∷ []) 0 < 2 ^ 31 = omega arith in
    let is : IsDigit (b'0' + n) × Unit {0} = omega arith in
    stoi-digits ((b'0' + n) ∷ []) (nonempty _ (omega arith)) is fits ∙ ap (λ (m : ℕ). ok (pos m)) e
