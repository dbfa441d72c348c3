-- ===== src/Tests/Conditions.antt =====
-- The conditions of a query at concrete inputs.
use distributed_graph_databa.Prelude.{
  ℕ, ◌≡◌, ◌↔◌, ◌⊎◌, refl, [], ◌∷◌, List, All, true, false, some, codes, arith,
}
use distributed_graph_databa.Text.{pos, same}
use distributed_graph_databa.Schema.{Condition, Attribute, equal, less, greater, like}
use distributed_graph_databa.Dgdb.Conditions.{
  compare_values, find_attribute, holds, text_lt, is_valid_node,
}
use distributed_graph_databa.Dgdb.Conditions.Meaning.{
  Before, Inside, Holds, compare_values_lem, is_valid_node_iff, is_valid_node_or,
}

abbrev attributes : List Attribute
attributes =
    record { node_name = codes "A"; key = codes "edad"; value = codes "48" }
    ∷ record { node_name = codes "A"; key = codes "grado"; value = codes "MSc" }
    ∷ []

abbrev young : Condition
young = record { key = codes "edad"; value = codes "50"; op = some less; is_or = false }

abbrev old : Condition
old = record { key = codes "edad"; value = codes "90"; op = some greater; is_or = true }

abbrev educated : Condition
educated = record { key = codes "grado"; value = codes "MSc"; op = some equal; is_or = false }

compare_example :
    ((compare_values (some equal) (codes "Dr") (codes "Dra") ≡ true) ↔ (codes "Dr" ≡ codes "Dra"))
    × ((compare_values (some less) (codes "Dr") (codes "Dra") ≡ true)
        ↔ Before (codes "Dr") (codes "Dra"))
    × ((compare_values (some greater) (codes "Dr") (codes "Dra") ≡ true)
        ↔ Before (codes "Dra") (codes "Dr"))
    × ((compare_values (some like) (codes "Dr") (codes "Dra") ≡ true)
        ↔ Inside (codes "Dr") (codes "Dra"))
compare_example = compare_values_lem (codes "Dr") (codes "Dra")

and_example :
    (is_valid_node (pos 0) true attributes (young ∷ educated ∷ []) ≡ true)
    ↔ ((◌≡◌ {A = ℕ} 0 0 ⊎ (true ≡ false)) × All (Holds attributes) (young ∷ educated ∷ []))
and_example = is_valid_node_iff 0 true attributes (young ∷ educated ∷ []) (refl, tt)

or_example : is_valid_node (pos 2) true attributes (old ∷ young ∷ []) ≡ true
unfolding holds find_attribute compare_values text_lt same
or_example =
    is_valid_node_or 2 true attributes [] old (young ∷ []) refl tt (λ e. ground (arith, e))
      (refl, tt)
