-- ===== src/Dgdb/Running/Waiting.antt =====
-- The requests that wait at a server: their ids were given before, and every search among them is
-- valid and waits for the node in front of its queue.
use mathlib.Core.Path.{subst}
use distributed_graph_databa.Prelude.{
  ℕ, ◌+◌, ◌<◌, ◌≡◌, ◌≢◌, refl, sym, ap, ◌∙◌, [], ◌∷◌, List, Bytes, All, All-imp, Bool, Bool-cases,
  inl, inr, true, false, Option, none, some, ◌==◌, if◌then◌else◌, arith,
}
use distributed_graph_databa.Wire.Query.{QueryRequest}
use distributed_graph_databa.Dgdb.{
  QueryState, Pending, no_pending, Platform, Dgdb, find_pending, erase_pending, put_pending,
  send_to,
}
use distributed_graph_databa.Dgdb.Answers.Search.{SearchIsValid, visit-SearchIsValid}
use distributed_graph_databa.Dgdb.Creating.{register, next_request}
use distributed_graph_databa.Dgdb.Querying.{start_state, query_entry}
use distributed_graph_databa.Dgdb.Querying.Reaches.{start_state-SearchIsValid}
use distributed_graph_databa.Dgdb.Running.{handle_register, conn_master_repository}
use distributed_graph_databa.Dgdb.Running.Rules.{Rules}

-- A search is valid and has a node to wait for; a change has no state.
abbrev pub StateIsValid : Option QueryState → Type 0
StateIsValid none = Unit
StateIsValid (some state) = SearchIsValid state × (state.node_queue ≢ [])

-- An entry under an id that was given before `fresh`.
abbrev pub EntryIsValid : ℕ → ℕ × Pending → Type 0
EntryIsValid fresh (id, entry) = (id < fresh) × StateIsValid entry.state

All-erase :
    (P : ℕ × Pending → Type 0) (id : ℕ) (m : List (ℕ × Pending))
    → All P m
    → All P (erase_pending id m)
unfolding erase_pending
All-erase P id [] h = tt
All-erase P id ((key, entry) ∷ m) h =
    elim (key == id)
      as (λ b. All P (if b then erase_pending id m else (key, entry) ∷ erase_pending id m)) [
        | true ↦ All-erase P id m h.1
        | false ↦ (h.0, All-erase P id m h.1)
      ]

erase-put :
    (id : ℕ) (entry : Pending) (m : List (ℕ × Pending))
    → erase_pending id (put_pending id entry m) ≡ erase_pending id (erase_pending id m)
unfolding erase_pending put_pending
erase-put id entry m = ground arith

find-EntryIsValid :
    (fresh id : ℕ) (m : List (ℕ × Pending)) (state : QueryState)
    → All (EntryIsValid fresh) m
    → (find_pending id m).state ≡ some state
    → (id < fresh) × StateIsValid (some state)
unfolding find_pending
find-EntryIsValid fresh id [] state h e = absurd (ground (arith, e))
find-EntryIsValid fresh id ((key, entry) ∷ m) state h e =
    let pick = λ (b : Bool). (if b then entry else find_pending id m).state in
    elim (Bool-cases (key == id)) [
      | inl here ↦ (ground (arith, here, h.0.0), subst StateIsValid (sym (ap pick here) ∙ e) h.0.1)
      | inr there ↦ find-EntryIsValid fresh id m state h.1 (sym (ap pick there) ∙ e)
    ]

pub find-fresh :
    (fresh : ℕ) (m : List (ℕ × Pending))
    → All (EntryIsValid fresh) m
    → find_pending fresh m ≡ no_pending
unfolding find_pending
find-fresh fresh [] h = refl
find-fresh fresh ((key, entry) ∷ m) h =
    let old : (key == fresh) ≡ false = ground (arith, h.0.0) in rw old (find-fresh fresh m h.1)

cons_not_nil : (p : Bytes × ℕ) (q : List (Bytes × ℕ)) → p ∷ q ≢ []
cons_not_nil p q e = ground (arith, e)

start_not_empty : (r : QueryRequest) → (start_state r).node_queue ≢ []
unfolding start_state
start_not_empty r e = ground (arith, e)

module _ (platform : Platform) where
  abbrev pub WaitingIsValid : Dgdb platform → Type 0
  WaitingIsValid db = All (EntryIsValid db.current_request) db.pending

  aged :
      (fresh : ℕ) (m : List (ℕ × Pending))
      → All (EntryIsValid fresh) m
      → All (EntryIsValid (fresh + 1)) m
  aged fresh m h =
      All-imp (EntryIsValid fresh) (EntryIsValid (fresh + 1)) m (λ p k. (omega (arith, k.0), k.1)) h

  -- The object where a new request has taken the next id.
  registered :
      (fresh : ℕ) (entry : Pending) (m : List (ℕ × Pending))
      → All (EntryIsValid fresh) m
      → StateIsValid entry.state
      → All (EntryIsValid (fresh + 1)) (put_pending fresh entry m)
  unfolding put_pending
  registered fresh entry m h k =
      ((omega arith, k), All-erase (EntryIsValid (fresh + 1)) fresh m (aged fresh m h))

  pub Waiting-Rules : (db : Dgdb platform) → WaitingIsValid db → Rules platform db WaitingIsValid
  unfolding send_to next_request register query_entry put_pending handle_register
      conn_master_repository
  Waiting-Rules db h = record {
    unchanged = h;
    sends = λ now host text k. k;
    answers = λ now id k. All-erase (EntryIsValid now.current_request) id now.pending k;
    unblocks = λ now k. k;
    searches = λ id left node queue info state next rest e f g.
        let old = find-EntryIsValid db.current_request id db.pending state h e in
        (
          (
            old.0,
            (
              visit-SearchIsValid node left queue info state old.1.0 f,
              λ empty. cons_not_nil next rest (sym g ∙ empty),
            ),
          ),
          All-erase (EntryIsValid db.current_request) id db.pending h,
        );
    ends = λ id entry host text.
        subst (All (EntryIsValid db.current_request)) (sym (erase-put id entry db.pending)) (
          All-erase (EntryIsValid db.current_request) id (erase_pending id db.pending)
            (All-erase (EntryIsValid db.current_request) id db.pending h));
    passes = λ from_addr host text.
        registered db.current_request (record { client_sock = from_addr; state = none }) db.pending
          h tt;
    begins = λ from_addr r host text.
        registered db.current_request (query_entry from_addr r) db.pending h
          (start_state-SearchIsValid r, λ empty. start_not_empty r empty);
    attaches = λ from_addr. h;
  }
