-- ===== src/Text/Decimal/Length.antt =====
-- How many bytes the decimal prints take.
use native.Mathlib.Nat.{pow-suc, one-le-pow}
use distributed_graph_databa.Prelude.{
  ℕ, zero, suc, ◌+◌, ◌-◌, ◌/◌, ◌%◌, ◌^◌, ◌<◌, ◌≤◌, ◌≡◌, [], ◌∷◌, Bytes, length, length-append,
  length-replicate, replicate, ok, fault, undefined, arith,
}
use distributed_graph_databa.Text.Decimal.{digits, to_string, padded, sprintf}

length-digits-le :
    (f n k : ℕ) (out : Bytes) → n < 10 ^ suc k → length (digits f n out) ≤ suc k + length out
unfolding digits
length-digits-le zero n k out h = omega arith
length-digits-le (suc f) n zero out h = ground arith
length-digits-le (suc f) n (suc k) out h =
    let small : n / 10 < 10 ^ suc k = omega (arith, pow-suc 10 (suc k)) in
    ground (arith, length-digits-le f (n / 10) k ((b'0' + n % 10) ∷ out) small)

length-digits-pos : (f n : ℕ) (out : Bytes) → length out ≤ length (digits f n out)
unfolding digits
length-digits-pos zero n out = omega arith
length-digits-pos (suc f) n out =
    ground (arith, length-digits-pos f (n / 10) ((b'0' + n % 10) ∷ out))

length-digits-ge :
    (f n k : ℕ) (out : Bytes) → n < f → 10 ^ k ≤ n → suc k + length out ≤ length (digits f n out)
unfolding digits
length-digits-ge zero n k out h p = absurd (omega arith)
length-digits-ge (suc f) n zero out h p =
    ground (arith, length-digits-pos f (n / 10) ((b'0' + n % 10) ∷ out))
length-digits-ge (suc f) n (suc k) out h p =
    let big : 10 ^ k ≤ n / 10 = omega (arith, pow-suc 10 k) in
    let two_digits : 10 ≤ n = omega (arith, pow-suc 10 k, one-le-pow k 10 (omega arith)) in
    let below : n / 10 < f = omega arith in
    ground (arith, length-digits-ge f (n / 10) k ((b'0' + n % 10) ∷ out) below big)

pub length-to_string-le : (n k : ℕ) → n < 10 ^ suc k → length (to_string n) ≤ suc k
unfolding to_string
length-to_string-le n k h = omega (arith, length-digits-le (suc n) n k [] h)

-- A print is never empty.
pub length-to_string-pos : (n : ℕ) → 0 < length (to_string n)
unfolding to_string digits
length-to_string-pos n = ground (arith, length-digits-pos n (n / 10) ((b'0' + n % 10) ∷ []))

pub length-to_string-ge : (n k : ℕ) → 10 ^ k ≤ n → suc k ≤ length (to_string n)
unfolding to_string
length-to_string-ge n k h = omega (arith, length-digits-ge (suc n) n k [] (omega arith) h)

-- A number that fits its width is printed at that width.
pub length-padded : (k n : ℕ) → n < 10 ^ suc k → length (padded (suc k) n) ≡ suc k
unfolding padded
length-padded k n h = omega (
  arith,
  length-append (replicate (suc k - length (to_string n)) b'0') (to_string n),
  length-replicate {A = ℕ} (suc k - length (to_string n)) b'0',
  length-to_string-le n k h,
)

pub length-padded-ge : (k n : ℕ) → length (to_string n) ≤ length (padded k n)
unfolding padded
length-padded-ge k n =
    omega (arith, length-append (replicate (k - length (to_string n)) b'0') (to_string n))

-- Three digits and the end fill `tamano`.
pub sprintf_fits : (k n : ℕ) → k < 3 → n < 10 ^ suc k → sprintf (suc k) n ≡ ok (padded (suc k) n)
unfolding sprintf
sprintf_fits k n h p = ground (arith, length-padded k n p)

-- A number of four digits writes past the end of `tamano`, whatever the width.
pub sprintf_overflows : (k n : ℕ) → 1000 ≤ n → sprintf k n ≡ fault undefined
unfolding sprintf
sprintf_overflows k n h = ground (arith, length-padded-ge k n, length-to_string-ge n 3 h)
