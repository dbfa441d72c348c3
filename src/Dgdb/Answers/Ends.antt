-- ===== src/Dgdb/Answers/Ends.antt =====
-- A search ends: each answer takes one node out of the queue, and each node enters it once.
use mathlib.Core.Path.{subst}
use distributed_graph_databa.Prelude.{
  sym, ℕ, zero, suc, ◌+◌, ◌-◌, ◌≤◌, ◌≡◌, refl, ap, [], ◌∷◌, List, Bytes, length, length-append, All,
  true, false, Option, none, some, if◌then◌else◌, arith, Bool-cases, inl, inr,
}
use distributed_graph_databa.Text.{same}
use distributed_graph_databa.Text.Equality.{eq_of_same, same_comm}
use distributed_graph_databa.Wire.Reply.{Info}
use distributed_graph_databa.Dgdb.{QueryState}
use distributed_graph_databa.Dgdb.Answers.{contains, enqueue, enqueue_all, visit}
use distributed_graph_databa.Dgdb.Answers.Search.{
  Distinct, same_state, new_node, enqueue_cases, visit-popped, SearchIsValid, visit-SearchIsValid,
}

-- How many more nodes were visited than wait.
abbrev Balanced : QueryState → QueryState → Type 0
Balanced s t = length t.node_queue + length s.visited ≡ length s.node_queue + length t.visited

enqueue-Balanced : (left : ℕ) (node : Bytes) (s : QueryState) → Balanced s (enqueue left node s)
enqueue-Balanced left node s = elim (enqueue_cases left node s) [
  | same_state e _ ↦ subst (Balanced s) (sym e) refl
  | new_node new deep e ↦
      subst (Balanced s) (sym e) (omega (arith, length-append s.node_queue ((node, left - 1) ∷ [])))
]

enqueue_all-Balanced :
    (left : ℕ) (nodes : List Bytes) (s : QueryState) → Balanced s (enqueue_all left nodes s)
unfolding enqueue_all
enqueue_all-Balanced left [] s = refl
enqueue_all-Balanced left (node ∷ nodes) s =
    omega
      (arith, enqueue_all-Balanced left nodes (enqueue left node s), enqueue-Balanced left node s)

-- An answer for the node in front takes it out of the queue, and every node that it brings in is
-- newly visited: the visited nodes that no longer wait are one more than before.
pub visit_counts :
    (left : ℕ) (queue : List (Bytes × ℕ)) (info : Info) (state : QueryState)
    → (node : Bytes) → state.node_queue ≡ (node, left) ∷ queue
    → (let after = visit left queue info state in
        suc (length after.node_queue) + length state.visited
        ≡ length state.node_queue + length after.visited)
visit_counts left queue info state node e =
    let (text, step) = visit-popped left queue info state in
    let n : length state.node_queue ≡ suc (length queue) = ap length e in
    subst
      (λ (t : QueryState).
        suc (length t.node_queue) + length state.visited
        ≡ length state.node_queue + length t.visited)
      (sym step)
      (omega (
        arith,
        enqueue_all-Balanced left info.relations
            (record state { node_queue = queue; response = text }),
      ))

-- Membership, by `contains`.
abbrev pub In : List Bytes → Bytes → Type 0
In xs x = contains xs x ≡ true

drop_first : Bytes → List Bytes → List Bytes
drop_first x [] = []
drop_first x (y ∷ ys) = let rest = drop_first x ys in if same y x then ys else y ∷ rest

length-drop_first :
    (x : Bytes) (ys : List Bytes) → In ys x → suc (length (drop_first x ys)) ≡ length ys
unfolding drop_first contains
length-drop_first x [] h = cc
length-drop_first x (y ∷ ys) h = ground (arith, length-drop_first x ys)

In-drop_first :
    (x z : Bytes) (ys : List Bytes) → In ys z → same x z ≡ false → In (drop_first x ys) z
unfolding drop_first contains
In-drop_first x z [] h n = cc
In-drop_first x z (y ∷ ys) h n = elim (Bool-cases (same y x)) [
  | inl e ↦
      let differs : same y z ≡ false = subst (λ w. same w z ≡ false) (sym (eq_of_same y x e)) n in
      ground arith
  | inr e ↦ ground (arith, In-drop_first x z ys)
]

Others-drop_first :
    (x : Bytes) (xs ys : List Bytes)
    → contains xs x ≡ false
    → All (In ys) xs
    → All (In (drop_first x ys)) xs
unfolding contains
Others-drop_first x [] ys new h = tt
Others-drop_first x (z ∷ xs) ys new h = (
  In-drop_first x z ys h.0 (ground (arith, same_comm x z)),
  Others-drop_first x xs ys (ground arith) h.1,
)

-- Distinct members of a list are no more than its length.
Distinct-length-le : (xs ys : List Bytes) → Distinct xs → All (In ys) xs → length xs ≤ length ys
Distinct-length-le [] ys d h = omega arith
Distinct-length-le (x ∷ xs) ys d h = omega (
  arith,
  Distinct-length-le xs (drop_first x ys) d.1 (Others-drop_first x xs ys d.0 h.1),
  length-drop_first x ys h.0,
)

enqueue-In :
    (all : List Bytes) (left : ℕ) (node : Bytes) (s : QueryState)
    → In all node
    → All (In all) s.visited
    → All (In all) (enqueue left node s).visited
enqueue-In all left node s h v = elim (enqueue_cases left node s) [
  | same_state e _ ↦ subst (λ (t : QueryState). All (In all) t.visited) (sym e) v
  | new_node new deep e ↦ subst (λ (t : QueryState). All (In all) t.visited) (sym e) (h, v)
]

enqueue_all-In :
    (all : List Bytes) (left : ℕ) (nodes : List Bytes) (s : QueryState)
    → All (In all) nodes
    → All (In all) s.visited
    → All (In all) (enqueue_all left nodes s).visited
unfolding enqueue_all
enqueue_all-In all left [] s h v = v
enqueue_all-In all left (node ∷ nodes) s h v =
    enqueue_all-In all left nodes (enqueue left node s) h.1 (enqueue-In all left node s h.0 v)

visit-In :
    (all : List Bytes) (left : ℕ) (queue : List (Bytes × ℕ)) (info : Info) (s : QueryState)
    → All (In all) info.relations
    → All (In all) s.visited
    → All (In all) (visit left queue info s).visited
visit-In all left queue info s h v =
    let (text, step) = visit-popped left queue info s in
    subst (λ (t : QueryState). All (In all) t.visited) (sym step)
      (enqueue_all-In all left info.relations (record s { node_queue = queue; response = text }) h
        v)

-- The answers of the repositories to one query, one after the other: `ask` is what the repository of
-- a node answers. `none` is for fuel that ran out.
unfoldable pub search_from : (Bytes → Info) → ℕ → List (Bytes × ℕ) → QueryState → Option QueryState
search_from ask zero [] state = some state
search_from ask zero (p ∷ queue) state = none
search_from ask (suc fuel) [] state = some state
search_from ask (suc fuel) ((node, left) ∷ queue) state =
    let next = visit left queue (ask node) state in search_from ask fuel next.node_queue next

unfoldable pub search : (Bytes → Info) → ℕ → QueryState → Option QueryState
unfolding search_from
search ask fuel state = search_from ask fuel state.node_queue state

module _ (ask : Bytes → Info) (all : List Bytes)
    (closed : (node : Bytes) → All (In all) (ask node).relations) where
  search_from_total :
      (fuel : ℕ) (queue : List (Bytes × ℕ)) (s : QueryState)
      → s.node_queue ≡ queue
      → SearchIsValid s
      → All (In all) s.visited
      → length all + length queue ≤ fuel + length s.visited
      → (t : QueryState) × (search_from ask fuel queue s ≡ some t)
        × (t.node_queue ≡ [])
        × SearchIsValid t
  unfolding search_from
  search_from_total zero [] s e v h m = (s, refl, e, v)
  search_from_total zero (p ∷ queue) s e v h m =
      absurd (omega (arith, Distinct-length-le s.visited all v.distinct_visited h))
  search_from_total (suc fuel) [] s e v h m = (s, refl, e, v)
  search_from_total (suc fuel) ((node, left) ∷ queue) s e v h m =
      search_from_total fuel (visit left queue (ask node) s).node_queue
        (visit left queue (ask node) s) refl (visit-SearchIsValid node left queue (ask node) s v e)
        (visit-In all left queue (ask node) s (closed node) h)
        (omega (arith, visit_counts left queue (ask node) s node e, ap length e))

-- If the nodes that the repositories can name are those of a finite list, a valid search ends: as
-- many answers as the list has names, and the nodes that already wait, are enough to empty the queue.
pub search_ends :
    (ask : Bytes → Info) (all : List Bytes) (state : QueryState)
    → ((node : Bytes) → All (In all) (ask node).relations)
    → SearchIsValid state
    → All (In all) state.visited
    → (t : QueryState) × (search ask (length all + length state.node_queue) state ≡ some t)
      × (t.node_queue ≡ [])
      × SearchIsValid t
unfolding search
search_ends ask all state closed v h =
    search_from_total ask all closed (length all + length state.node_queue) state.node_queue state
      refl v h (omega arith)
