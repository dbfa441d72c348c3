-- ===== src/Store.antt =====
-- The graph that a repository's store holds, as the program sees it through sqlite_orm: the laws that
-- its calls rely on, and what the branch 'C' of src/DGDB.cpp makes of the graph.
pub mod Nodes
pub mod Rest
pub mod Rows
pub mod Creates
pub mod Named
pub mod Answers
pub mod Serves
pub mod EndToEnd
use mathlib.Core.List.{map, Perm}
use distributed_graph_databa.Prelude.{
  ◌≡◌, [], ◌∷◌, ◌++◌, List, Bytes, Bool, true, false, if◌then◌else◌,
}
use distributed_graph_databa.Text.{same}
use distributed_graph_databa.Schema.{Node, Attribute, Relation, Storage, Stored, done}
use distributed_graph_databa.Dgdb.Answers.{contains}

-- The names of the nodes, and the rows of the other two tables.
pub record Graph : Type 0 where
  pub nodes : List Bytes
  pub attributes : List Attribute
  pub relations : List Relation

unfoldable pub add_node : Bytes → Graph → Graph
unfolding contains
add_node name g = if contains g.nodes name then g else record g { nodes = g.nodes ++ name ∷ [] }

unfoldable pub add_attribute : Attribute → Graph → Graph
add_attribute attr g = record g { attributes = g.attributes ++ attr ∷ [] }

unfoldable pub add_relation : Relation → Graph → Graph
add_relation relation g = record g { relations = g.relations ++ relation ∷ [] }

-- The attributes of a node.
unfoldable pub add_attributes : Bytes → List Attribute → Graph → Graph
unfolding add_attribute
add_attributes name [] g = g
add_attributes name (attr ∷ attrs) g =
    add_attributes name attrs (add_attribute (record attr { node_name = name }) g)

-- The relations of a node; the nodes that they name are there too.
unfoldable pub add_relations : Bytes → List Bytes → Graph → Graph
unfolding add_relation add_node
add_relations name [] g = g
add_relations name (rel ∷ rels) g =
    add_relations name rels
      (add_relation (record { node_name1 = name; node_name2 = rel }) (add_node rel g))

-- A node with its attributes and its relations.
unfoldable pub create : Bytes → List Attribute → List Bytes → Graph → Graph
unfolding add_node add_attributes add_relations
create name attrs rels g = add_relations name rels (add_attributes name attrs (add_node name g))

-- The rows that a column names.
unfoldable pub rows_named : {A : Type 0} → (A → Bytes) → Bytes → List A → List A
rows_named column name [] = []
rows_named column name (row ∷ rows) =
    let rest = rows_named column name rows in if same (column row) name then row ∷ rest else rest

abbrev pub attributes_named : Bytes → Graph → List Attribute
attributes_named name g = rows_named (λ attr. attr.node_name) name g.attributes

abbrev pub relations_named : Bytes → Graph → List Relation
relations_named name g = rows_named (λ rel. rel.node_name1) name g.relations

-- What a search of the table of nodes gives, where the name is there or not.
abbrev pub Found : Bool → Stored (List Node) → Type 0
Found true rows = (node : Node) × (more : List Node) × (rows ≡ done (node ∷ more))
Found false rows = rows ≡ done []

-- The store behaves as three tables of rows: a search by name finds a node that is there, and an
-- insert that keeps the names of nodes different succeeds and adds its row; a search of the other
-- tables gives the rows of the name, in any order.
pub record Laws (storage : Storage) : Type 0 where
  pub view : storage.Db → Graph
  pub finds :
      (db : storage.Db) (name : Bytes)
      → Found (contains (view db).nodes name) (storage.nodes_named db name)
  pub inserts_node :
      (db : storage.Db) (name : Bytes)
      → contains (view db).nodes name ≡ false
      → (db' : storage.Db) × (storage.insert_node db name ≡ done db')
        × (view db' ≡ add_node name (view db))
  pub inserts_attribute :
      (db : storage.Db) (attr : Attribute)
      → (db' : storage.Db) × (storage.insert_attribute db attr ≡ done db')
        × (view db' ≡ add_attribute attr (view db))
  pub inserts_relation :
      (db : storage.Db) (relation : Relation)
      → (db' : storage.Db) × (storage.insert_relation db relation ≡ done db')
        × (view db' ≡ add_relation relation (view db))
  pub gives_attributes :
      (db : storage.Db) (name : Bytes)
      → (rows : List Attribute) × (storage.attributes_of db name ≡ done rows)
        × Perm rows (attributes_named name (view db))
  pub gives_relations :
      (db : storage.Db) (name : Bytes)
      → (rows : List Relation) × (storage.relations_from db name ≡ done rows)
        × Perm rows (relations_named name (view db))
