-- ===== src/Client.antt =====
-- The client's side of DGDB.cpp: `setNode`, `setQuery`, `setUpdate` and `setDelete` read the arguments
-- of the command line and send one message, and `WaitResponse` reads the answer.
pub mod Arguments
pub mod Spelling
pub mod Queries
use distributed_graph_databa.Prelude.{
  ℕ, zero, suc, ◌+◌, ◌-◌, ◌%◌, ◌^◌, [], ◌∷◌, ◌++◌, List, Bytes, length, take, drop, Bool, true,
  false, ◌&&◌, Option, none, some, Outcome, ok, ltb, ◌==◌, if◌then◌else◌, ◌>>=◌, codes,
}
use distributed_graph_databa.Text.{ℤ, pos, neg, substr, at, same, find, find_from, atoi, size_mod}
use distributed_graph_databa.Schema.{Attribute, Condition, make_condition}
use distributed_graph_databa.Wire.{Host}
use distributed_graph_databa.Dgdb.{
  Platform, Dgdb, host_at, parse_new_node, parse_new_query, parse_new_update, parse_new_delete,
}

-- The text in front of the first '=' and the text behind it. Without one, `npos` makes both the whole.
unfoldable pub split_equal : Bytes → Bytes × Bytes
split_equal text = elim (find b'=' text) [
  | none ↦ (text, text)
  | some equal_pos ↦ (take equal_pos text, drop (equal_pos + 1) text)
]

-- The variables of the loop of `setNode`.
pub record NodeArgs : Type 0 where
  pub attributes : List Attribute
  pub relations : List Bytes
  pub error : Bool

-- The loop over pairs of arguments.
unfoldable pub node_args : List Bytes → NodeArgs → NodeArgs
unfolding split_equal same
node_args [] a = a
node_args (flag ∷ []) a = record a { error = true }
node_args (flag ∷ value ∷ args) a = node_args args (
    if same flag (codes "-a")
    then record a {
      attributes =
          a.attributes
          ++ record { node_name = []; key = (split_equal value).0; value = (split_equal value).1 }
            ∷ [];
    }
    else if same flag (codes "-r")
    then record a { relations = a.relations ++ value ∷ [] }
    else record a { error = true })

-- The condition that an argument of "-c" spells: key, operator, value and connective.
unfoldable pub condition_of : Bytes → Outcome Condition
unfolding make_condition
condition_of text = do
  let space = find 32 text
  let start : ℕ = elim space [ none ↦ 0 | some i ↦ i + 1 ]
  let key : Bytes = elim space [ none ↦ text | some i ↦ take i text ]
  let stop : ℕ = elim (find_from 32 (start + 2) text) [ none ↦ length text | some i ↦ i ]
  value ← substr text (start + 2) (stop - (start + 2))
  op ← at text start
  lo ← if ltb (stop + 1) (length text) then at text (stop + 1) else ok b'&'
  ok (make_condition key value op lo)

-- The variables of the loop of `setQuery`.
pub record QueryArgs : Type 0 where
  pub depth : ℤ
  pub leaf : Bool
  pub attr : Bool
  pub conditions : List Condition
  pub error : Bool

-- A flag that stands alone.
unfoldable pub query_flag : Bytes → QueryArgs → QueryArgs
query_flag flag a =
    if same flag (codes "--leaf")
    then record a { leaf = true }
    else if same flag (codes "--attr")
    then record a { attr = true }
    else record a { error = true }

-- The loop of `setQuery`.
unfoldable pub query_args : List Bytes → QueryArgs → Outcome QueryArgs
unfolding query_flag condition_of same
query_args [] a = ok a
query_args (flag ∷ []) a = ok (query_flag flag a)
query_args (flag ∷ value ∷ args) a =
    let with_depth = (do n ← atoi value; query_args args (record a { depth = n })) in
    let with_condition = (do
      c ← condition_of value
      query_args args (record a { conditions = a.conditions ++ c ∷ [] })) in
    let alone = query_args (value ∷ args) (query_flag flag a) in
    if same flag (codes "-d")
    then with_depth
    else if same flag (codes "-c")
    then with_condition
    else alone

-- What `setUpdate` sends, if its arguments are right.
pub record UpdateArgs : Type 0 where
  pub is_node : Bool
  pub set_value : Bytes
  pub attr : Bytes

unfoldable pub update_args : List Bytes → Option UpdateArgs
unfolding split_equal same
update_args [] = none
update_args (flag ∷ []) = none
update_args (flag ∷ value ∷ args) =
    if same flag (codes "--attr")
    then some (record {
      is_node = false;
      set_value = (split_equal value).1;
      attr = (split_equal value).0;
    })
    else if same flag (codes "--name")
    then some (record { is_node = true; set_value = value; attr = [] })
    else none

-- What `setDelete` sends: the object, and the attribute or relation.
unfoldable pub delete_args : List Bytes → Option (ℕ × Bytes)
unfolding same
delete_args [] = some (0, [])
delete_args (flag ∷ []) = none
delete_args (flag ∷ value ∷ args) =
    if same flag (codes "--relation")
    then some (2, value)
    else if same flag (codes "--attr")
    then some (1, value)
    else none

module _ (platform : Platform) where
  -- `setNode`, with `args[0]` and the arguments behind it.
  unfoldable pub set_node : Bytes → List Bytes → Dgdb platform → Outcome (Bool × Dgdb platform)
  unfolding node_args host_at
  set_node name args db =
      let a = node_args args (record { attributes = []; relations = []; error = false }) in
      if a.error then ok (false, db) else do
        host ← host_at db.repositories 0
        db' ← parse_new_node platform name host a.attributes a.relations 0 [] db
        ok (true, db')

  -- `setQuery`
  unfoldable pub set_query : Bytes → List Bytes → Dgdb platform → Outcome (Bool × Dgdb platform)
  unfolding query_args host_at
  set_query name args db = do
    a ←
        query_args args
          (record { depth = pos 0; leaf = false; attr = false; conditions = []; error = false })
    if a.error then ok (false, db) else do
      host ← host_at db.repositories 0
      db' ← parse_new_query platform name a.depth a.leaf a.attr host a.conditions 0 db
      ok (true, db')

  -- `setUpdate`
  unfoldable pub set_update : Bytes → List Bytes → Dgdb platform → Outcome (Bool × Dgdb platform)
  unfolding update_args host_at
  set_update name args db = elim (update_args args) [
    | none ↦ ok (false, db)
    | some a ↦ (do
      host ← host_at db.repositories 0
      db' ← parse_new_update platform name a.is_node a.set_value host a.attr 0 db
      ok (true, db'))
  ]

  -- `setDelete`
  unfoldable pub set_delete : Bytes → List Bytes → Dgdb platform → Outcome (Bool × Dgdb platform)
  unfolding delete_args host_at
  set_delete name args db = elim (delete_args args) [
    | none ↦ ok (false, db)
    | some (object, target) ↦ (do
      host ← host_at db.repositories 0
      db' ← parse_new_delete platform name (pos object) host target 0 [] db
      ok (true, db'))
  ]

-- `find("\\n")` and `replace`, over and over: each backslash with an 'n' behind it becomes a newline.
unfoldable pub break_lines : Bytes → Bytes
break_lines [] = []
break_lines (c ∷ []) = c ∷ []
break_lines (c ∷ d ∷ text) =
    let both = break_lines text in
    let one = break_lines (d ∷ text) in if c == b'\\' && d == b'n' then 10 ∷ both else c ∷ one

-- The loop of `WaitResponse`, over what each `RecvFrom` brings: `message` is never cleared, and a
-- text that comes stands behind those before it.
unfoldable pub wait_from : Bytes → List Bytes → Outcome (Option Bytes)
unfolding break_lines
wait_from message [] = ok none
wait_from message (received ∷ later) =
    let message' = message ++ received in
    let text = break_lines message' in
    let rest = wait_from message' later in
    let printed = (do p ← substr text 4 ((length text + size_mod - 7) % size_mod); ok (some p)) in
    elim message' [ [] ↦ rest | (c ∷ bytes) ↦ if c == b'M' then printed else rest ]

-- `WaitResponse`: what it prints when a message 'M' comes first; `none` while it still waits.
unfoldable pub wait_response : List Bytes → Outcome (Option Bytes)
unfolding wait_from
wait_response messages = wait_from [] messages
