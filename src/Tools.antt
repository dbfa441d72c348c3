-- ===== src/Tools.antt =====
-- src/tools.h
use mathlib.Core.List.{reverse}
use distributed_graph_databa.Prelude.{[], ◌∷◌, Bytes, Bool, true, false, ◌&&◌, ◌==◌, if◌then◌else◌}
use distributed_graph_databa.Text.{is_digit}

-- `str.erase(0, str.find_first_not_of(' '))`
unfoldable pub drop_spaces : Bytes → Bytes
drop_spaces [] = []
drop_spaces (c ∷ s) = let rest = drop_spaces s in if c == 32 then rest else c ∷ s

-- `trim`: the spaces behind are those in front of the reverse.
unfoldable pub trim : Bytes → Bytes
unfolding drop_spaces
trim s = reverse (drop_spaces (reverse (drop_spaces s)))

-- The loop of `is_number`: whether it comes to the end.
unfoldable pub all_digits : Bytes → Bool
unfolding is_digit
all_digits [] = true
all_digits (c ∷ s) = is_digit c && all_digits s

unfoldable pub is_number : Bytes → Bool
unfolding all_digits
is_number [] = false
is_number (c ∷ s) = all_digits (c ∷ s)
