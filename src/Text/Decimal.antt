-- ===== src/Text/Decimal.antt =====
-- `std::to_string` of an unsigned number, and `sprintf` with "%01lu", "%02lu" or "%03lu".
pub mod Length
pub mod Value
pub mod Small
use distributed_graph_databa.Prelude.{
  ℕ, zero, suc, ◌+◌, ◌-◌, ◌/◌, ◌%◌, [], ◌∷◌, ◌++◌, Bytes, length, replicate, Outcome, ok, fault,
  undefined, ltb, if◌then◌else◌,
}

unfoldable pub digits : ℕ → ℕ → Bytes → Bytes
digits zero n out = out
digits (suc f) n out =
    let rest = digits f (n / 10) ((b'0' + n % 10) ∷ out) in
    if ltb n 10 then (b'0' + n) ∷ out else rest

-- `std::to_string(n)`: a number has fewer digits than its value plus one.
unfoldable pub to_string : ℕ → Bytes
unfolding digits
to_string n = digits (suc n) n []

-- "%0<width>lu"
unfoldable pub padded : ℕ → ℕ → Bytes
padded width n = replicate (width - length (to_string n)) b'0' ++ to_string n

-- `char tamano[4]; sprintf(tamano, "%0<width>lu", n)`: four bytes hold three digits and the end.
unfoldable pub sprintf : ℕ → ℕ → Outcome Bytes
sprintf width n = if ltb (length (padded width n)) 4 then ok (padded width n) else fault undefined
