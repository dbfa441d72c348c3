-- ===== src/Dgdb/Conditions/Meaning.antt =====
-- What the conditions of a query say of a node's attributes.
use mathlib.Core.Path.{subst}
use distributed_graph_databa.Prelude.{
  Bool-cases, ltb→lt, ℕ, zero, suc, ◌<◌, ◌≡◌, ◌≢◌, ◌↔◌, ◌⊎◌, inl, inr, refl, sym, ap, ◌∙◌, [], ◌∷◌,
  ◌++◌, List, Bytes, All, Bool, true, false, ◌&&◌, ◌||◌, not, some, ltb, ◌==◌, if◌then◌else◌, codes,
  arith,
}
use distributed_graph_databa.Text.{pos, same}
use distributed_graph_databa.Text.Equality.{same_refl, eq_of_same}
use distributed_graph_databa.Schema.{
  equal, less, greater, like, Condition, Attribute, is_or_to_string,
}
use distributed_graph_databa.Dgdb.Conditions.{
  text_lt, starts_with, includes, compare_values, holds, check_conditions, is_valid_node,
}

-- The order of a dictionary.
pub data Before : Bytes → Bytes → Type 0 where
  shorter : (d : ℕ) (t : Bytes) → Before [] (d ∷ t)
  smaller : (c d : ℕ) (s t : Bytes) → c < d → Before (c ∷ s) (d ∷ t)
  later : (c : ℕ) (s t : Bytes) → Before s t → Before (c ∷ s) (c ∷ t)

-- A text stands somewhere in another one.
abbrev pub Inside : Bytes → Bytes → Type 0
Inside part whole = (front : Bytes) × (back : Bytes) × (whole ≡ front ++ (part ++ back))

text_lt-Before : (s t : Bytes) → Before s t → text_lt s t ≡ true
unfolding text_lt
text_lt-Before _ _ (shorter d t) = refl
text_lt-Before _ _ (smaller c d s t h) = ground arith
text_lt-Before _ _ (later c s t h) = ground (arith, text_lt-Before s t h)

Before-text_lt : (s t : Bytes) → text_lt s t ≡ true → Before s t
unfolding text_lt
Before-text_lt s [] h = absurd (ground (arith, h))
Before-text_lt [] (d ∷ t) h = shorter d t
Before-text_lt (c ∷ s) (d ∷ t) h = elim (Bool-cases (ltb c d)) [
  | inl low ↦ smaller c d s t (ltb→lt c d low)
  | inr high ↦
      let both : (c == d && text_lt s t) ≡ true = ground (arith, h, high) in
      let same_byte : c ≡ d = ground (arith, both) in
      subst (λ x. Before (c ∷ s) (x ∷ t)) same_byte
        (later c s t (Before-text_lt s t (ground (arith, both))))
]

starts_with-append : (part back : Bytes) → starts_with part (part ++ back) ≡ true
unfolding starts_with
starts_with-append [] back = refl
starts_with-append (c ∷ part) back = ground (arith, starts_with-append part back)

starts_with-rest :
    (part s : Bytes) → starts_with part s ≡ true → (back : Bytes) × (s ≡ part ++ back)
unfolding starts_with
starts_with-rest [] s h = (s, refl)
starts_with-rest (d ∷ part) [] h = absurd (ground (arith, h))
starts_with-rest (d ∷ part) (c ∷ s) h =
    let (back, e) = starts_with-rest part s (ground (arith, h)) in
    let same_byte : c ≡ d = ground (arith, h) in (back, λ i. same_byte i ∷ e i)

includes-append : (front part back : Bytes) → includes (front ++ (part ++ back)) part ≡ true
unfolding includes
includes-append [] [] [] = refl
includes-append [] [] (c ∷ back) = refl
includes-append [] (c ∷ part) back = ground (arith, starts_with-append (c ∷ part) back)
includes-append (c ∷ front) part back = ground (arith, includes-append front part back)

includes-Inside : (whole part : Bytes) → includes whole part ≡ true → Inside part whole
unfolding includes
includes-Inside [] part h = let (back, e) = starts_with-rest part [] h in ([], back, e)
includes-Inside (c ∷ whole) part h = elim (Bool-cases (starts_with part (c ∷ whole))) [
  | inl now ↦ (let (back, e) = starts_with-rest part (c ∷ whole) now in ([], back, e))
  | inr not_now ↦
      (let (front, back, e) = includes-Inside whole part (ground (arith, h, not_now)) in
        (c ∷ front, back, ap (λ r. c ∷ r) e))
]

-- The tests of a condition on the value of an attribute: '=' holds of equal texts, '<' and '>' of
-- texts in the order of a dictionary by bytes, and '%' if the value of the attribute stands somewhere
-- in the value of the condition (not the other way round).
pub compare_values_lem :
    (attr_value value : Bytes)
    → ((compare_values (some equal) attr_value value ≡ true) ↔ (attr_value ≡ value))
      × ((compare_values (some less) attr_value value ≡ true) ↔ Before attr_value value)
      × ((compare_values (some greater) attr_value value ≡ true) ↔ Before value attr_value)
      × ((compare_values (some like) attr_value value ≡ true) ↔ Inside attr_value value)
unfolding compare_values
compare_values_lem attr_value value = (
  (
    eq_of_same attr_value value,
    λ e. subst (λ v. same attr_value v ≡ true) e (same_refl attr_value),
  ),
  (Before-text_lt attr_value value, text_lt-Before attr_value value),
  (Before-text_lt value attr_value, text_lt-Before value attr_value),
  (
    includes-Inside value attr_value,
    λ (front, back, e).
        subst (λ v. includes v attr_value ≡ true) (sym e) (includes-append front attr_value back),
  ),
)

-- All conditions but the last name '&' as what joins them to the next one.
abbrev pub JoinedByAnd : List Condition → Type 0
JoinedByAnd [] = Unit
JoinedByAnd (c ∷ []) = Unit
JoinedByAnd (c ∷ d ∷ conditions) = (c.is_or ≡ false) × JoinedByAnd (d ∷ conditions)

abbrev pub Holds : List Attribute → Condition → Type 0
Holds attributes c = holds attributes c ≡ true

check_all :
    (attributes : List Attribute) (conditions : List Condition) (v : Bool)
    → JoinedByAnd conditions
    → (check_conditions attributes conditions (codes "&") v ≡ true)
      ↔ ((v ≡ true) × All (Holds attributes) conditions)
unfolding check_conditions same is_or_to_string
check_all attributes [] v h = ((λ e. (e, tt)), (λ p. p.0))
check_all attributes (c ∷ []) v h =
    ((λ e. (ground (arith, e), (ground (arith, e), tt))), (λ p. ground (arith, p.0, p.1.0)))
check_all attributes (c ∷ d ∷ conditions) v h =
    let rest = check_all attributes (d ∷ conditions) (v && holds attributes c) h.1 in
    let v' = v && holds attributes c in
    let word : is_or_to_string c ≡ codes "&" = ap (λ b. if b then codes "|" else codes "&") h.0 in
    let step = ap (λ w. check_conditions attributes (d ∷ conditions) w v') word in
    (
      (λ e.
          let (both, later_hold) = rest.0 (sym step ∙ e) in
          (ground (arith, both), (ground (arith, both), later_hold))),
      (λ p. step ∙ rest.1 (ground (arith, p.0, p.1.0), p.1.1)),
    )

or_holds : (v b : Bool) → b ≡ true → (v || b) ≡ true
or_holds v b h = ground (arith, h)

check_behind_or :
    (attributes : List Attribute) (d : Condition) (back : List Condition) (v : Bool)
    → JoinedByAnd (d ∷ back)
    → All (Holds attributes) (d ∷ back)
    → check_conditions attributes (d ∷ back) (codes "|") v ≡ true
unfolding check_conditions same is_or_to_string
check_behind_or attributes d [] v joined good = or_holds v (holds attributes d) good.0
check_behind_or attributes d (e ∷ back) v joined good =
    let v' = v || holds attributes d in
    let word : is_or_to_string d ≡ codes "&" =
      ap (λ b. if b then codes "|" else codes "&") joined.0 in
    ap (λ w. check_conditions attributes (e ∷ back) w v') word
    ∙ (check_all attributes (e ∷ back) v' joined.1).1
        (or_holds v (holds attributes d) good.0, good.1)

check_or :
    (attributes : List Attribute) (front : List Condition) (c : Condition) (back : List Condition)
    (lop : Bytes) (v : Bool)
    → c.is_or ≡ true
    → JoinedByAnd back
    → back ≢ []
    → All (Holds attributes) back
    → check_conditions attributes (front ++ c ∷ back) lop v ≡ true
unfolding check_conditions same is_or_to_string
check_or attributes [] c [] lop v h joined some_back good = absurd (some_back refl)
check_or attributes [] c (d ∷ back) lop v h joined some_back good =
    let v' = if same lop (codes "&") then v && holds attributes c else v || holds attributes c in
    let word : is_or_to_string c ≡ codes "|" = ap (λ b. if b then codes "|" else codes "&") h in
    ap (λ w. check_conditions attributes (d ∷ back) w v') word
    ∙ check_behind_or attributes d back v' joined good
check_or attributes (b ∷ front) c back lop v h joined some_back good =
    check_or attributes front c back (is_or_to_string b)
      (if same lop (codes "&") then v && holds attributes b else v || holds attributes b) h joined
      some_back good

start_iff :
    (depth : ℕ) (leaf : Bool) → ((depth == 0 || not leaf) ≡ true) ↔ ((depth ≡ 0) ⊎ (leaf ≡ false))
start_iff zero leaf = ((λ e. inl refl), (λ p. refl))
start_iff (suc depth) true = (
  (λ e. absurd (ground (arith, e))),
  (λ p. absurd (elim p [ inl e ↦ omega arith | inr e ↦ ground (arith, e) ])),
)
start_iff (suc depth) false = ((λ e. inr refl), (λ p. ground arith))

-- If every condition but the last is joined to the next by '&' and the depth that is left is not
-- negative, a node is valid exactly if that depth is 0 or leaves were not asked for, and every
-- condition holds.
pub is_valid_node_iff :
    (depth : ℕ) (leaf : Bool) (attributes : List Attribute) (conditions : List Condition)
    → JoinedByAnd conditions
    → (is_valid_node (pos depth) leaf attributes conditions ≡ true)
      ↔ (((depth ≡ 0) ⊎ (leaf ≡ false)) × All (Holds attributes) conditions)
unfolding is_valid_node
is_valid_node_iff depth leaf attributes conditions h =
    let whole = check_all attributes conditions (depth == 0 || not leaf) h in
    let start = start_iff depth leaf in
    ((λ e. let (a, b) = whole.0 e in (start.0 a, b)), (λ p. whole.1 (start.1 p.0, p.1)))

-- What stands behind a '|' is enough: if a condition names '|' as what joins it to the next one,
-- and the conditions behind it (one or more) are joined by '&' and hold, the node is valid,
-- whatever it and the conditions in front of it say and whether or not leaves were asked for, at
-- any depth from 0 on.
pub is_valid_node_or :
    (depth : ℕ) (leaf : Bool) (attributes : List Attribute) (front : List Condition) (c : Condition)
    (back : List Condition)
    → c.is_or ≡ true
    → JoinedByAnd back
    → back ≢ []
    → All (Holds attributes) back
    → is_valid_node (pos depth) leaf attributes (front ++ c ∷ back) ≡ true
unfolding is_valid_node
is_valid_node_or depth leaf attributes front c back h joined some_back good =
    check_or attributes front c back (codes "&") (depth == 0 || not leaf) h joined some_back good
