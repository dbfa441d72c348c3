-- ===== src/Store/Named.antt =====
-- What `create` adds to the rows of a node and to the names of the nodes.
use distributed_graph_databa.Prelude.{
  ◌≡◌, refl, sym, ap, ◌∙◌, [], ◌∷◌, ◌++◌, append-nil, append_assoc, List, Bytes, Bool-cases, inl,
  inr, true, ◌||◌, arith,
}
use distributed_graph_databa.Text.{same}
use distributed_graph_databa.Text.Equality.{same_refl}
use distributed_graph_databa.Schema.{Attribute, Relation}
use distributed_graph_databa.Dgdb.Answers.{contains}
use distributed_graph_databa.Store.{
  Graph, add_node, add_attribute, add_attributes, add_relation, add_relations, create, rows_named,
  attributes_named, relations_named,
}

-- The rows that `create` adds.
unfoldable pub owned : Bytes → List Attribute → List Attribute
owned name [] = []
owned name (attr ∷ attrs) = record attr { node_name = name } ∷ owned name attrs

unfoldable pub related : Bytes → List Bytes → List Relation
related name [] = []
related name (rel ∷ rels) = record { node_name1 = name; node_name2 = rel } ∷ related name rels

rows_named-append :
    {A : Type 0} (column : A → Bytes) (name : Bytes) (xs : List A) (row : A)
    → column row ≡ name
    → rows_named column name (xs ++ row ∷ []) ≡ rows_named column name xs ++ row ∷ []
unfolding rows_named
rows_named-append column name [] row e = rw (e, same_refl name) refl
rows_named-append column name (x ∷ xs) row e =
    let rest = rows_named-append column name xs row e in
    elim (Bool-cases (same (column x) name)) [
      | inl here ↦ rw here (ap (λ r. x ∷ r) rest)
      | inr other ↦ rw other rest
    ]

add_node-attributes : (name : Bytes) (g : Graph) → (add_node name g).attributes ≡ g.attributes
unfolding add_node
add_node-attributes name g = elim (Bool-cases (contains g.nodes name)) [
  | inl here ↦ rw here refl
  | inr other ↦ rw other refl
]

add_node-relations : (name : Bytes) (g : Graph) → (add_node name g).relations ≡ g.relations
unfolding add_node
add_node-relations name g = elim (Bool-cases (contains g.nodes name)) [
  | inl here ↦ rw here refl
  | inr other ↦ rw other refl
]

add_relations-attributes :
    (name : Bytes) (rels : List Bytes) (g : Graph)
    → (add_relations name rels g).attributes ≡ g.attributes
unfolding add_relations add_relation
add_relations-attributes name [] g = refl
add_relations-attributes name (rel ∷ rels) g =
    add_relations-attributes name rels _ ∙ add_node-attributes rel g

add_attributes-relations :
    (name : Bytes) (attrs : List Attribute) (g : Graph)
    → (add_attributes name attrs g).relations ≡ g.relations
unfolding add_attributes add_attribute
add_attributes-relations name [] g = refl
add_attributes-relations name (attr ∷ attrs) g = add_attributes-relations name attrs _

add_attributes-named :
    (name : Bytes) (attrs : List Attribute) (g : Graph)
    → attributes_named name (add_attributes name attrs g)
      ≡ attributes_named name g ++ owned name attrs
unfolding add_attributes add_attribute owned
add_attributes-named name [] g = sym (append-nil (attributes_named name g))
add_attributes-named name (attr ∷ attrs) g =
    let row = record attr { node_name = name } in
    add_attributes-named name attrs (add_attribute row g)
    ∙ ap (λ r. r ++ owned name attrs)
        (rows_named-append (λ (a : Attribute). a.node_name) name g.attributes row refl)
    ∙ append_assoc (attributes_named name g) (row ∷ []) (owned name attrs)

add_relations-named :
    (name : Bytes) (rels : List Bytes) (g : Graph)
    → relations_named name (add_relations name rels g) ≡ relations_named name g ++ related name rels
unfolding add_relations add_relation related
add_relations-named name [] g = sym (append-nil (relations_named name g))
add_relations-named name (rel ∷ rels) g =
    let row : Relation = record { node_name1 = name; node_name2 = rel } in
    let column = λ (r : Relation). r.node_name1 in
    add_relations-named name rels (add_relation row (add_node rel g))
    ∙ ap (λ r. r ++ related name rels)
        (rows_named-append column name (add_node rel g).relations row refl
          ∙ ap (λ rows. rows_named column name rows ++ row ∷ []) (add_node-relations rel g))
    ∙ append_assoc (relations_named name g) (row ∷ []) (related name rels)

pub create-named :
    (name : Bytes) (attrs : List Attribute) (rels : List Bytes) (g : Graph)
    → (attributes_named name (create name attrs rels g)
        ≡ attributes_named name g ++ owned name attrs)
      × (relations_named name (create name attrs rels g)
          ≡ relations_named name g ++ related name rels)
unfolding create
create-named name attrs rels g =
    let attributes_in = rows_named (λ (a : Attribute). a.node_name) name in
    let relations_in = rows_named (λ (r : Relation). r.node_name1) name in
    let with_node = add_node name g in
    (
      ap attributes_in (add_relations-attributes name rels (add_attributes name attrs with_node))
          ∙ add_attributes-named name attrs with_node
          ∙ ap (λ a. attributes_in a ++ owned name attrs) (add_node-attributes name g),
      add_relations-named name rels (add_attributes name attrs with_node)
          ∙ ap (λ r. relations_in r ++ related name rels)
              (add_attributes-relations name attrs with_node ∙ add_node-relations name g),
    )

contains-last : (names : List Bytes) (name : Bytes) → contains (names ++ name ∷ []) name ≡ true
unfolding contains
contains-last [] name = rw (same_refl name) refl
contains-last (n ∷ names) name = elim (Bool-cases (same n name)) [
  | inl here ↦ rw here refl
  | inr other ↦ rw (other, contains-last names name) refl
]

contains-front :
    (names more : List Bytes) (name : Bytes)
    → contains names name ≡ true
    → contains (names ++ more) name ≡ true
unfolding contains
contains-front [] more name h = absurd (ground (arith, h))
contains-front (n ∷ names) more name h = elim (Bool-cases (same n name)) [
  | inl here ↦ rw here refl
  | inr other ↦
      rw other (contains-front names more name (ap (λ b. b || contains names name) (sym other) ∙ h))
]

add_node-contains : (name : Bytes) (g : Graph) → contains (add_node name g).nodes name ≡ true
unfolding add_node
add_node-contains name g = elim (Bool-cases (contains g.nodes name)) [
  | inl here ↦ rw (here, here) refl
  | inr other ↦ rw other (contains-last g.nodes name)
]

add_node-keeps :
    (name rel : Bytes) (g : Graph)
    → contains g.nodes name ≡ true
    → contains (add_node rel g).nodes name ≡ true
unfolding add_node
add_node-keeps name rel g h = elim (Bool-cases (contains g.nodes rel)) [
  | inl here ↦ rw here h
  | inr other ↦ rw other (contains-front g.nodes (rel ∷ []) name h)
]

add_attributes-nodes :
    (name : Bytes) (attrs : List Attribute) (g : Graph)
    → (add_attributes name attrs g).nodes ≡ g.nodes
unfolding add_attributes add_attribute
add_attributes-nodes name [] g = refl
add_attributes-nodes name (attr ∷ attrs) g = add_attributes-nodes name attrs _

add_relations-keeps :
    (name node : Bytes) (rels : List Bytes) (g : Graph)
    → contains g.nodes node ≡ true
    → contains (add_relations name rels g).nodes node ≡ true
unfolding add_relations add_relation
add_relations-keeps name node [] g h = h
add_relations-keeps name node (rel ∷ rels) g h =
    add_relations-keeps name node rels _ (add_node-keeps node rel g h)

-- A node that is created is there.
pub create-contains :
    (name : Bytes) (attrs : List Attribute) (rels : List Bytes) (g : Graph)
    → contains (create name attrs rels g).nodes name ≡ true
unfolding create
create-contains name attrs rels g =
    add_relations-keeps name name rels (add_attributes name attrs (add_node name g)) (
      ap (λ names. contains names name) (add_attributes-nodes name attrs (add_node name g))
      ∙ add_node-contains name g)
