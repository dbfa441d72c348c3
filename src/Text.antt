-- ===== src/Text.antt =====
-- The operations of `std::string` and of the C library on text that the program calls, each with
-- what it does out of range. An `int` that is used as a size is converted as C++ converts it.
pub mod Decimal
pub mod Field
pub mod Laws
pub mod Equality
use mathlib.Core.List.{reverse}
use distributed_graph_databa.Prelude.{
  ℕ, zero, suc, ◌+◌, ◌-◌, ◌*◌, ◌%◌, ◌^◌, [], ◌∷◌, ◌++◌, Bytes, length, take, drop, Bool, ◌&&◌, ◌||◌,
  Option, none, some, Outcome, ok, fault, out_of_range, invalid_argument, undefined, ltb, leb, ◌==◌,
  if◌then◌else◌, ◌>>=◌, true, false,
}

-- `s.substr(pos, n)`
unfoldable pub substr : Bytes → ℕ → ℕ → Outcome Bytes
substr s pos n = if ltb (length s) pos then fault out_of_range else ok (take n (drop pos s))

-- `s.erase(pos, n)`
unfoldable pub erase : Bytes → ℕ → ℕ → Outcome Bytes
erase s pos n =
    if ltb (length s) pos then fault out_of_range else ok (take pos s ++ drop (pos + n) s)

-- `s[i]`: the end of the text reads as 0, and past it there is no behaviour.
unfoldable pub at : Bytes → ℕ → Outcome ℕ
at [] zero = ok 0
at [] (suc i) = fault undefined
at (c ∷ s) zero = ok c
at (c ∷ s) (suc i) = at s i

-- `s == t`
unfoldable pub same : Bytes → Bytes → Bool
same [] [] = true
same [] (d ∷ t) = false
same (c ∷ s) [] = false
same (c ∷ s) (d ∷ t) = c == d && same s t

-- `s.find(c)` for one byte; `none` is `npos`.
unfoldable pub find : ℕ → Bytes → Option ℕ
find c [] = none
find c (d ∷ s) =
    let rest = find c s in
    if d == c then some 0 else elim rest [ none ↦ none | some i ↦ some (i + 1) ]

-- The number that an `int` becomes where a `size_t` is wanted.
pub data ℤ : Type 0 where
  pos : ℕ → ℤ
  neg : ℕ → ℤ

abbrev pub size_mod : ℕ
size_mod = 2 ^ 64

unfoldable pub to_size : ℤ → ℕ
to_size (pos n) = n
to_size (neg n) = if n == 0 then 0 else size_mod - n

-- A `size_t` as an `int`.
unfoldable pub to_int : ℕ → ℤ
to_int n = let low = n % 2 ^ 32 in if ltb low (2 ^ 31) then pos low else neg (2 ^ 32 - low)

unfoldable pub is_digit : ℕ → Bool
is_digit c = leb b'0' c && leb c b'9'

is_space : ℕ → Bool
is_space c = c == 32 || (leb 9 c && leb c 13)

skip_spaces : Bytes → Bytes
skip_spaces [] = []
skip_spaces (c ∷ s) = let rest = skip_spaces s in if is_space c then rest else c ∷ s

-- The digits in front of a text, read behind the number `n`.
digits_value : Bytes → ℕ → ℕ
digits_value [] n = n
digits_value (c ∷ s) n =
    let rest = digits_value s (n * 10 + (c - b'0')) in if is_digit c then rest else n

magnitude : Bytes → Outcome ℕ
magnitude [] = fault invalid_argument
magnitude (c ∷ s) = if is_digit c then ok (digits_value (c ∷ s) 0) else fault invalid_argument

signed : Bytes → Outcome ℤ
signed [] = fault invalid_argument
signed (c ∷ s) =
    if c == b'-'
    then (do n ← magnitude s; if ltb (2 ^ 31) n then fault out_of_range else ok (neg n))
    else do
      n ← magnitude (if c == b'+' then s else c ∷ s)
      if leb (2 ^ 31) n then fault out_of_range else ok (pos n)

-- `std::stoi(s)`: spaces, a sign and at least one digit; what stands behind the digits is left.
unfoldable pub stoi : Bytes → Outcome ℤ
unfolding signed magnitude digits_value skip_spaces is_space is_digit
stoi s = signed (skip_spaces s)

-- `atoi(s)`: as `stoi`, but a text without digits is 0, and a number that is no `int` has no behaviour.
unfoldable pub atoi : Bytes → Outcome ℤ
unfolding stoi
atoi s = elim (stoi s) [
  | ok n ↦ ok n
  | fault e ↦ elim e [ invalid_argument ↦ ok (pos 0) | _ ↦ fault undefined ]
]

-- `s.find(c, from)`
unfoldable pub find_from : ℕ → ℕ → Bytes → Option ℕ
unfolding find
find_from c from s = elim (find c (drop from s)) [ none ↦ none | some i ↦ some (from + i) ]
