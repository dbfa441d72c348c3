-- ===== src/Dgdb/Running/Rules.antt =====
-- A way to prove that a server's round keeps a predicate: the predicate is shown for each change that
-- a branch of `runConnection` makes, and the branches follow.
pub mod Round
use mathlib.Core.Path.{subst}
use distributed_graph_databa.Prelude.{
  ℕ, ◌+◌, ◌≡◌, refl, sym, [], ◌∷◌, ◌++◌, List, Bytes, length, Bool, true, false, Option, none, some,
  Outcome, ok, fault, ltb, ◌==◌, if◌then◌else◌, ◌>>=◌, arith,
}
use distributed_graph_databa.Text.{same, to_size, at}
use distributed_graph_databa.Wire.{Host}
use distributed_graph_databa.Wire.Create.{take_create, new_node_text}
use distributed_graph_databa.Wire.Query.{QueryRequest, take_query, new_query_text}
use distributed_graph_databa.Wire.Update.{take_update, new_update_text}
use distributed_graph_databa.Wire.Delete.{take_delete, new_delete_text}
use distributed_graph_databa.Wire.Reply.{Info, take_message, take_info, message_text}
use distributed_graph_databa.Network.{Sockaddr}
use distributed_graph_databa.Dgdb.{
  QueryState, Pending, Platform, Dgdb, host_at, send_to, sockaddr_to_host, find_pending,
  erase_pending, put_pending, parse_new_node, parse_new_query, parse_new_update, parse_new_delete,
  parse_new_message_response,
}
use distributed_graph_databa.Dgdb.Placement.{server_slot}
use distributed_graph_databa.Dgdb.Answers.{
  handle_message, finish, ask_next, go_on, advance, answer, answer_of, handle_info, visit,
}
use distributed_graph_databa.Dgdb.Creating.{
  not_attached, register, next_request, pass_create, server_create, handle_create,
}
use distributed_graph_databa.Dgdb.Querying.{query_entry, begin_query, server_query, handle_query}
use distributed_graph_databa.Dgdb.Changing.{
  pass_update, server_update, handle_update, pass_delete, server_delete, handle_delete,
}
use distributed_graph_databa.Dgdb.Running.{busy, handle_register, dispatch, receive}

-- A predicate on the result, where there is one.
abbrev pub Gives {ℓ κ} : {A : Type ℓ} → (A → Type κ) → Outcome A → Type κ
Gives P (ok a) = P a
Gives P (fault e) = Unit

pub bind {ℓ κ μ ν} :
    {A : Type ℓ} {B : Type κ} (P : A → Type μ) (Q : B → Type ν) (o : Outcome A) (f : A → Outcome B)
    → Gives P o
    → ((a : A) → P a → Gives Q (f a))
    → Gives Q (o >>= f)
bind P Q (ok a) f h k = k a h
bind P Q (fault e) f h k = tt

pub after_read {ℓ κ ν} :
    {A : Type ℓ} {B : Type κ} (Q : B → Type ν) (o : Outcome A) (f : A → Outcome B)
    → ((a : A) → Gives Q (f a))
    → Gives Q (o >>= f)
after_read Q (ok a) f k = k a
after_read Q (fault e) f k = tt

pub either {ℓ ν} :
    {A : Type ℓ} (Q : A → Type ν) (b : Bool) (x y : Outcome A)
    → Gives Q x
    → Gives Q y
    → Gives Q (if b then x else y)
either Q true x y h k = h
either Q false x y h k = k

pub chosen {ℓ ν} :
    {A : Type ℓ} (Q : A → Type ν) (b : Bool) (x y : Outcome A)
    → b ≡ true
    → Gives Q x
    → Gives Q (if b then x else y)
chosen Q true x y e h = h
chosen Q false x y e h = absurd (ground (arith, e))

module _ (platform : Platform) where
  -- The object with another entry of `pending`.
  abbrev pub with_entry : ℕ → Pending → Dgdb platform → Dgdb platform
  with_entry id entry db = record db { pending = put_pending id entry db.pending }

  -- The object without an entry.
  abbrev pub without_entry : ℕ → Dgdb platform → Dgdb platform
  without_entry id db = record db { pending = erase_pending id db.pending }

  -- The entry of a query with the state that an answer makes.
  abbrev pub answered_entry : ℕ → QueryState → Dgdb platform → Pending
  answered_entry id state db = record (find_pending id db.pending) { state = some state }

  -- What a server makes of itself in one round, one field for each kind of change.
  pub record Rules (db : Dgdb platform) (Good : Dgdb platform → Type 0) : Type 0 where
    pub unchanged : Good db
    pub sends :
        (now : Dgdb platform) (host : Host) (text : Bytes)
        → Good now
        → Good (send_to platform host text now)
    pub answers : (now : Dgdb platform) (id : ℕ) → Good now → Good (without_entry id now)
    pub unblocks : (now : Dgdb platform) → Good now → Good (record now { cud_blocking = false })
    pub searches :
        (id left : ℕ) (node : Bytes) (queue : List (Bytes × ℕ)) (info : Info) (state : QueryState)
        (next : Bytes × ℕ) (rest : List (Bytes × ℕ))
        → (find_pending id db.pending).state ≡ some state
        → state.node_queue ≡ (node, left) ∷ queue
        → (visit left queue info state).node_queue ≡ next ∷ rest
        → Good (with_entry id (answered_entry id (visit left queue info state) db) db)
    pub ends :
        (id : ℕ) (entry : Pending) (host : Host) (text : Bytes)
        → Good (
            without_entry id (record (send_to platform host text (with_entry id entry db)) {
              cud_blocking = false;
            }))
    pub passes :
        (from_addr : Sockaddr) (host : Host) (text : Bytes)
        → Good (next_request platform (send_to platform host text (register platform from_addr db)))
    pub begins :
        (from_addr : Sockaddr) (r : QueryRequest) (host : Host) (text : Bytes)
        → Good (
            next_request platform (
              send_to platform host text
                (record (with_entry db.current_request (query_entry from_addr r) db) {
                  cud_blocking = true;
                })))
    pub attaches : (from_addr : Sockaddr) → Good (handle_register platform from_addr db)
