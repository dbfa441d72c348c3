-- ===== src/Dgdb/Answers/Search.antt =====
-- The search of one query: no node is asked twice, the depth falls, and it ends.
use mathlib.Core.Bool.{false≢true}
use mathlib.Core.Path.{subst}
use distributed_graph_databa.Prelude.{
  sym, ◌∙◌, ℕ, ◌-◌, ◌<◌, ◌≤◌, ◌≡◌, inl, inr, refl, ap, [], ◌∷◌, ◌++◌, List, Bytes, All, Bool, true,
  false, ◌||◌, ltb, if◌then◌else◌, arith, Bool-cases,
}
use distributed_graph_databa.Text.{same}
use distributed_graph_databa.Text.Equality.{same_refl, eq_of_same, same_comm}
use distributed_graph_databa.Schema.{Attribute}
use distributed_graph_databa.Wire.Reply.{Info}
use distributed_graph_databa.Dgdb.{QueryState}
use distributed_graph_databa.Dgdb.Answers.{contains, enqueue, enqueue_all, visit, add_response}

-- No text stands twice in the list.
abbrev pub Distinct : List Bytes → Type 0
Distinct [] = Unit
Distinct (x ∷ xs) = (contains xs x ≡ false) × Distinct xs

abbrev pub names : List (Bytes × ℕ) → List Bytes
names [] = []
names ((node, left) ∷ queue) = node ∷ names queue

-- Every waiting node is visited, and waits with a depth that the query allows.
abbrev pub Waits : QueryState → Bytes × ℕ → Type 0
Waits state (node, left) = (contains state.visited node ≡ true) × (left ≤ state.depth)

pub record SearchIsValid (state : QueryState) : Type 0 where
  pub distinct_visited : Distinct state.visited
  pub distinct_queue : Distinct (names state.node_queue)
  pub waiting : All (Waits state) state.node_queue

contains-append_one :
    (xs : List (Bytes × ℕ)) (p : Bytes × ℕ) (x : Bytes)
    → contains (names (xs ++ p ∷ [])) x ≡ (contains (names xs) x || same p.0 x)
unfolding contains
contains-append_one [] (n, l) x = ground arith
contains-append_one (q ∷ xs) p x = ground (arith, contains-append_one xs p x)

Distinct-append_one :
    (xs : List (Bytes × ℕ)) (p : Bytes × ℕ)
    → Distinct (names xs)
    → contains (names xs) p.0 ≡ false
    → Distinct (names (xs ++ p ∷ []))
unfolding contains
Distinct-append_one [] (n, l) d h = ground arith
Distinct-append_one ((m, k) ∷ xs) (n, l) d h =
    let rest_lacks : contains (names xs) n ≡ false = ground arith in
    let other : same n m ≡ false = ground (arith, same_comm n m) in
    (
      rw (contains-append_one xs (n, l) m) (ground arith),
      Distinct-append_one xs (n, l) d.1 rest_lacks,
    )

-- A node that is not visited waits for nothing.
not-waiting :
    (state : QueryState) (node : Bytes) (queue : List (Bytes × ℕ))
    → All (Waits state) queue
    → contains state.visited node ≡ false
    → contains (names queue) node ≡ false
unfolding contains
not-waiting state node [] h new = refl
not-waiting state node ((m, k) ∷ queue) h new = elim (Bool-cases (same m node)) [
  | inl e ↦
      absurd
        (false≢true (sym new ∙ ap (contains state.visited) (sym (eq_of_same m node e)) ∙ h.0.0))
  | inr e ↦ rw e (not-waiting state node queue h.1 new)
]

-- What waits goes on waiting when a node is visited.
Waits-visit :
    (state : QueryState) (node : Bytes) (queue new_queue : List (Bytes × ℕ))
    → All (Waits state) queue
    → All (Waits (record state { visited = node ∷ state.visited; node_queue = new_queue })) queue
unfolding contains
Waits-visit state node [] q h = tt
Waits-visit state node ((m, k) ∷ queue) q h =
    ((ground arith, h.0.1), Waits-visit state node queue q h.1)

All-append_one {ℓ κ} :
    {A : Type ℓ} (P : A → Type κ) (xs : List A) (x : A) → All P xs → P x → All P (xs ++ x ∷ [])
All-append_one P [] x h p = (p, tt)
All-append_one P (y ∷ xs) x h p = (h.0, All-append_one P xs x h.1 p)

-- The state with a new node behind its queue.
abbrev pub added : ℕ → Bytes → QueryState → QueryState
added left node state = record state {
  node_queue = state.node_queue ++ (node, left - 1) ∷ [];
  visited = node ∷ state.visited;
}

-- A round of the loop adds a new node, or changes nothing.
pub data Round (left : ℕ) (node : Bytes) (state : QueryState) : Type 0 where
  same_state :
      enqueue left node state ≡ state
      → (0 < left → contains state.visited node ≡ true)
      → Round left node state
  new_node :
      contains state.visited node ≡ false
      → 0 < left
      → enqueue left node state ≡ added left node state
      → Round left node state

pub enqueue_cases : (left : ℕ) (node : Bytes) (state : QueryState) → Round left node state
unfolding enqueue
enqueue_cases left node state = elim (Bool-cases (contains state.visited node)) [
  | inl old ↦ same_state (ground arith) (λ _. old)
  | inr new ↦ elim (Bool-cases (ltb 0 left)) [
    | inl deep ↦ new_node new (ground arith) (ground arith)
    | inr last ↦ same_state (ground arith) (λ deep. ground arith)
  ]
]

added-SearchIsValid :
    (left : ℕ) (node : Bytes) (state : QueryState)
    → contains state.visited node ≡ false
    → left ≤ state.depth
    → SearchIsValid state
    → SearchIsValid (added left node state)
unfolding contains
added-SearchIsValid left node state new h v = record {
  distinct_visited = (new, v.distinct_visited);
  distinct_queue =
      Distinct-append_one state.node_queue (node, left - 1) v.distinct_queue
        (not-waiting state node state.node_queue v.waiting new);
  waiting =
      All-append_one (Waits (added left node state)) state.node_queue (node, left - 1)
        (Waits-visit state node state.node_queue (state.node_queue ++ (node, left - 1) ∷ [])
          v.waiting)
        (rw (same_refl node) refl, omega arith);
}

enqueue-SearchIsValid :
    (left : ℕ) (node : Bytes) (state : QueryState)
    → left ≤ state.depth
    → SearchIsValid state
    → SearchIsValid (enqueue left node state)
enqueue-SearchIsValid left node state h v = elim (enqueue_cases left node state) [
  | same_state e _ ↦ subst SearchIsValid (sym e) v
  | new_node new deep e ↦ subst SearchIsValid (sym e) (added-SearchIsValid left node state new h v)
]

depth-enqueue :
    (left : ℕ) (node : Bytes) (state : QueryState) → (enqueue left node state).depth ≡ state.depth
unfolding enqueue
depth-enqueue left node state = ground arith

enqueue_all-SearchIsValid :
    (left : ℕ) (nodes : List Bytes) (state : QueryState)
    → left ≤ state.depth
    → SearchIsValid state
    → SearchIsValid (enqueue_all left nodes state)
unfolding enqueue_all
enqueue_all-SearchIsValid left [] state h v = v
enqueue_all-SearchIsValid left (node ∷ nodes) state h v =
    enqueue_all-SearchIsValid left nodes (enqueue left node state) (rw depth-enqueue h)
      (enqueue-SearchIsValid left node state h v)

-- The front of the queue leaves it, and the response may grow.
abbrev popped : List (Bytes × ℕ) → Bytes → QueryState → QueryState
popped queue text state = record state { node_queue = queue; response = text }

-- A valid node writes to the response alone.
written : Bool → Bytes → ℕ → List Attribute → QueryState → QueryState
written b node left attributes state = if b then add_response node left attributes state else state

written-response :
    (b : Bool) (node : Bytes) (left : ℕ) (attributes : List Attribute) (state : QueryState)
    → written b node left attributes state
      ≡ record state { response = (written b node left attributes state).response }
unfolding written add_response
written-response true node left attributes state = refl
written-response false node left attributes state = refl

-- `visit` is `enqueue_all` from a state whose queue has lost its front.
pub visit-popped :
    (left : ℕ) (queue : List (Bytes × ℕ)) (info : Info) (state : QueryState)
    → (text : Bytes) × (visit left queue info state
        ≡ enqueue_all left info.relations (popped queue text state))
unfolding visit written
visit-popped left queue info state = (
  (written info.valid_node info.node_name left info.attributes
      (record state { node_queue = queue })).response,
  ap (enqueue_all left info.relations) (
      written-response info.valid_node info.node_name left info.attributes
        (record state { node_queue = queue })),
)

-- An answer for the node in front of the queue keeps a valid search valid: visited nodes and
-- waiting nodes are distinct, every waiting node is visited, and no depth exceeds that of the
-- query.
pub visit-SearchIsValid :
    (node : Bytes) (left : ℕ) (queue : List (Bytes × ℕ)) (info : Info) (state : QueryState)
    → SearchIsValid state
    → state.node_queue ≡ (node, left) ∷ queue
    → SearchIsValid (visit left queue info state)
visit-SearchIsValid node left queue info state v e =
    let (text, step) = visit-popped left queue info state in
    let d : Distinct (node ∷ names queue) = subst (λ q. Distinct (names q)) e v.distinct_queue in
    let w : All (Waits state) ((node, left) ∷ queue) = subst (All (Waits state)) e v.waiting in
    subst SearchIsValid (sym step) (
      enqueue_all-SearchIsValid left info.relations (popped queue text state) w.0.1
        (record { distinct_visited = v.distinct_visited; distinct_queue = d.1; waiting = w.1 }))
