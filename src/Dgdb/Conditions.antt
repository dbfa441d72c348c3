-- ===== src/Dgdb/Conditions.antt =====
-- The conditions of a query, as a repository tests them on the attributes of a node.
pub mod Meaning
use distributed_graph_databa.Prelude.{
  [], ◌∷◌, List, Bytes, Bool, true, false, ◌&&◌, ◌||◌, not, Option, none, some, ltb, ◌==◌,
  if◌then◌else◌, codes,
}
use distributed_graph_databa.Text.{same, ℤ, pos, neg}
use distributed_graph_databa.Schema.{
  Operator, equal, less, greater, like, Condition, Attribute, is_or_to_string,
}

-- `s < t` of `std::string`: by the bytes, then by the length.
unfoldable pub text_lt : Bytes → Bytes → Bool
text_lt s [] = false
text_lt [] (d ∷ t) = true
text_lt (c ∷ s) (d ∷ t) = ltb c d || (c == d && text_lt s t)

unfoldable pub starts_with : Bytes → Bytes → Bool
starts_with [] s = true
starts_with (d ∷ t) [] = false
starts_with (d ∷ t) (c ∷ s) = c == d && starts_with t s

-- `s.find(t) != npos`
unfoldable pub includes : Bytes → Bytes → Bool
unfolding starts_with
includes [] t = starts_with t []
includes (c ∷ s) t = starts_with t (c ∷ s) || includes s t

-- The loop that looks for an attribute with the key.
unfoldable pub find_attribute : Bytes → List Attribute → Option Attribute
unfolding same
find_attribute key [] = none
find_attribute key (attr ∷ attrs) =
    if same attr.key key then some attr else find_attribute key attrs

-- The tests on the operator. None of them is met by an operator that was not stored.
unfoldable pub compare_values : Option Operator → Bytes → Bytes → Bool
unfolding same text_lt includes
compare_values none attr_value value = true
compare_values (some equal) attr_value value = same attr_value value
compare_values (some less) attr_value value = text_lt attr_value value
compare_values (some greater) attr_value value = text_lt value attr_value
compare_values (some like) attr_value value = includes value attr_value

-- `current`
unfoldable pub holds : List Attribute → Condition → Bool
unfolding find_attribute compare_values
holds attributes condition = elim (find_attribute condition.key attributes) [
  | none ↦ false
  | some attr ↦ compare_values condition.op attr.value condition.value
]

-- The loop over `conditions`: each condition joins the next one to what holds so far.
unfoldable pub check_conditions : List Attribute → List Condition → Bytes → Bool → Bool
unfolding holds same is_or_to_string
check_conditions attributes [] next_lop valid_node = valid_node
check_conditions attributes (condition ∷ conditions) next_lop valid_node =
    check_conditions attributes conditions (is_or_to_string condition) (
      if same next_lop (codes "&")
      then valid_node && holds attributes condition
      else valid_node || holds attributes condition)

-- `bool valid_node = (depth == 0 || !leaf);` and the loop.
unfoldable pub is_valid_node : ℤ → Bool → List Attribute → List Condition → Bool
unfolding check_conditions
is_valid_node (pos n) leaf attributes conditions =
    check_conditions attributes conditions (codes "&") (n == 0 || not leaf)
is_valid_node (neg n) leaf attributes conditions =
    check_conditions attributes conditions (codes "&") (n == 0 || not leaf)
