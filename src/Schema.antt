-- ===== src/Schema.antt =====
-- src/DBSchema.h: the rows of the store and the conditions of a query.
use distributed_graph_databa.Prelude.{
  ℕ, Bool, ◌==◌, if◌then◌else◌, Bytes, codes, Option, none, some, List, [], ◌∷◌,
}

-- `Condition::Operator`, with its values 0 to 3 in this order.
pub data Operator : Type 0 where
  equal less greater like : Operator

-- `op` is `none` where the constructor stores nothing in it.
pub record Condition : Type 0 where
  pub key : Bytes
  pub value : Bytes
  pub op : Option Operator
  pub is_or : Bool

-- The tests of the constructor of `Condition` on the character of the operator.
operator_of_char : ℕ → Option Operator
operator_of_char c =
    if c == b'='
    then some equal
    else if c == b'<'
    then some less
    else if c == b'>'
    then some greater
    else if c == b'%'
    then some like
    else none

-- `Condition(_key, _value, _op, _lo)`
unfoldable pub make_condition : Bytes → Bytes → ℕ → ℕ → Condition
unfolding operator_of_char
make_condition key value op lo = record {
  key = key;
  value = value;
  op = operator_of_char op;
  is_or = lo == b'|';
}

-- `op_to_string`
unfoldable pub op_to_string : Condition → Bytes
op_to_string c = elim c.op [
  | none ↦ codes "~"
  | some op ↦ elim op [
    | equal ↦ codes "="
    | less ↦ codes "<"
    | greater ↦ codes ">"
    | like ↦ codes "%"
  ]
]

-- `is_or_to_string`
unfoldable pub is_or_to_string : Condition → Bytes
is_or_to_string c = if c.is_or then codes "|" else codes "&"

pub record Node : Type 0 where
  pub id : ℕ
  pub name : Bytes

pub record Attribute : Type 0 where
  pub node_name : Bytes
  pub key : Bytes
  pub value : Bytes

pub record Relation : Type 0 where
  pub node_name1 : Bytes
  pub node_name2 : Bytes

-- What a call of the store comes to: a result, or a `std::system_error` with its text.
pub data Stored {ℓ} (A : Type ℓ) : Type ℓ where
  done : A → Stored A
  thrown : Bytes → Stored A

-- The store that `InitStorage` opens, as the program calls it: `get_all` with a condition on one
-- column, and `insert` into each table.
pub record Storage : Type 1 where
  pub Db : Type 0
  pub nodes_named : Db → Bytes → Stored (List Node)
  pub attributes_of : Db → Bytes → Stored (List Attribute)
  pub relations_from : Db → Bytes → Stored (List Relation)
  pub insert_node : Db → Bytes → Stored Db
  pub insert_attribute : Db → Attribute → Stored Db
  pub insert_relation : Db → Relation → Stored Db

-- What `InitStorage` asks of sqlite_orm: the tables of the file, with their columns.
data Constraint : Type 0 where
  primary_key unique : Constraint

record Column : Type 0 where
  name : Bytes
  constraint : Option Constraint

record Table : Type 0 where
  name : Bytes
  columns : List Column

unfoldable init_storage : List Table
init_storage =
    record {
      name = codes "Nodes";
      columns =
          record { name = codes "id"; constraint = some primary_key }
          ∷ record { name = codes "name"; constraint = some unique }
          ∷ [];
    }
    ∷ record {
      name = codes "Attributes";
      columns =
          record { name = codes "node_name"; constraint = none }
          ∷ record { name = codes "key"; constraint = none }
          ∷ record { name = codes "value"; constraint = none }
          ∷ [];
    }
    ∷ record {
      name = codes "Relations";
      columns =
          record { name = codes "node_name1"; constraint = none }
          ∷ record { name = codes "node_name2"; constraint = none }
          ∷ [];
    }
    ∷ []
