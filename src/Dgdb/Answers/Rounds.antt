-- ===== src/Dgdb/Answers/Rounds.antt =====
-- What one answer adds to the queue, and which nodes stand in the log of all entries afterwards.
use mathlib.Core.Path.{subst}
use distributed_graph_databa.Prelude.{
  sym, ◌∙◌, ℕ, ◌+◌, ◌-◌, ◌<◌, ◌≤◌, ◌≡◌, ◌⊎◌, refl, ap, [], ◌∷◌, ◌++◌, List, Bytes, append_assoc,
  append-nil, All, All-append, All-imp, arith, Bool-cases, inl, inr,
}
use distributed_graph_databa.Text.{same}
use distributed_graph_databa.Text.Equality.{same_refl, eq_of_same}
use distributed_graph_databa.Dgdb.{QueryState}
use distributed_graph_databa.Dgdb.Answers.{contains, enqueue, enqueue_all}
use distributed_graph_databa.Dgdb.Answers.Search.{added, same_state, new_node, enqueue_cases}
use distributed_graph_databa.Dgdb.Answers.Ends.{In}

-- A node stands in the list with at least that depth left.
abbrev pub Has : List (Bytes × ℕ) → Bytes → ℕ → Type 0
Has [] n b = ⊥
Has ((m, l) ∷ xs) n b = ((m ≡ n) × (b ≤ l)) ⊎ Has xs n b

pub Has-append : (xs ys : List (Bytes × ℕ)) (n : Bytes) (b : ℕ) → Has xs n b → Has (xs ++ ys) n b
Has-append [] ys n b h = absurd h
Has-append ((m, l) ∷ xs) ys n b (inl h) = inl h
Has-append ((m, l) ∷ xs) ys n b (inr h) = inr (Has-append xs ys n b h)

pub Has-append_one :
    (xs : List (Bytes × ℕ)) (n : Bytes) (l b : ℕ) → b ≤ l → Has (xs ++ (n, l) ∷ []) n b
Has-append_one [] n l b h = inl (refl, h)
Has-append_one ((m, k) ∷ xs) n l b h = inr (Has-append_one xs n l b h)

pub Has-le : (xs : List (Bytes × ℕ)) (n : Bytes) (b c : ℕ) → c ≤ b → Has xs n b → Has xs n c
Has-le [] n b c h k = absurd k
Has-le ((m, l) ∷ xs) n b c h (inl k) = inl (k.0, omega arith)
Has-le ((m, l) ∷ xs) n b c h (inr k) = inr (Has-le xs n b c h k)

abbrev pub Found : ℕ → List (Bytes × ℕ) → QueryState → Type 0
Found b log s = (n : Bytes) → In s.visited n → Has log n b

-- A node of the list, one step deeper.
abbrev pub Level : ℕ → List Bytes → Bytes × ℕ → Type 0
Level left nodes p = (p.1 + 1 ≡ left) × In nodes p.0

abbrev pub Seen : QueryState → Bytes × ℕ → Type 0
Seen t p = In t.visited p.0

-- What a round, or a loop over several nodes, adds to the queue of a search whose entries so far
-- are `log`.
pub record Extends (left : ℕ) (nodes : List Bytes) (log : List (Bytes × ℕ)) (s t : QueryState)
    : Type 0 where
  pub new : List (Bytes × ℕ)
  pub queue : t.node_queue ≡ s.node_queue ++ new
  pub level : All (Level left nodes) new
  pub found : Found (left - 1) (log ++ new) t
  pub kept : (n : Bytes) → In s.visited n → In t.visited n
  pub seen : All (Seen t) new
  pub reached : 0 < left → All (λ (m : Bytes). Has (log ++ new) m (left - 1)) nodes

no_change :
    (left : ℕ) (node : Bytes) (log : List (Bytes × ℕ)) (s : QueryState)
    → Found (left - 1) log s
    → (0 < left → In s.visited node)
    → Extends left (node ∷ []) log s s
no_change left node log s f old = record {
  new = [];
  queue = sym (append-nil s.node_queue);
  level = tt;
  found = λ n h. subst (λ l. Has l n (left - 1)) (sym (append-nil log)) (f n h);
  kept = λ n h. h;
  seen = tt;
  reached =
      λ deep. (subst (λ l. Has l node (left - 1)) (sym (append-nil log)) (f node (old deep)), tt);
}

one_added :
    (left : ℕ) (node : Bytes) (log : List (Bytes × ℕ)) (s : QueryState)
    → Found (left - 1) log s
    → 0 < left
    → Extends left (node ∷ []) log s (added left node s)
unfolding contains
one_added left node log s f deep = record {
  new = (node, left - 1) ∷ [];
  queue = refl;
  level = ((omega arith, rw (same_refl node)), tt);
  found = λ n h. elim (Bool-cases (same node n)) [
    | inl e ↦
        subst (λ m. Has (log ++ (node, left - 1) ∷ []) m (left - 1)) (eq_of_same node n e)
          (Has-append_one log node (left - 1) (left - 1) (omega arith))
    | inr e ↦ Has-append log ((node, left - 1) ∷ []) n (left - 1) (f n (ground arith))
  ];
  kept = λ n h. ground arith;
  seen = (rw (same_refl node), tt);
  reached = λ _. (Has-append_one log node (left - 1) (left - 1) (omega arith), tt);
}

enqueue-Extends :
    (left : ℕ) (node : Bytes) (log : List (Bytes × ℕ)) (s : QueryState)
    → Found (left - 1) log s
    → Extends left (node ∷ []) log s (enqueue left node s)
enqueue-Extends left node log s f = elim (enqueue_cases left node s) [
  | same_state e old ↦
      subst (Extends left (node ∷ []) log s) (sym e) (no_change left node log s f old)
  | new_node fresh deep e ↦
      subst (Extends left (node ∷ []) log s) (sym e) (one_added left node log s f deep)
]

nothing_added :
    (left : ℕ) (log : List (Bytes × ℕ)) (s : QueryState)
    → Found (left - 1) log s
    → Extends left [] log s s
nothing_added left log s f = record {
  new = [];
  queue = sym (append-nil s.node_queue);
  level = tt;
  found = λ n h. subst (λ l. Has l n (left - 1)) (sym (append-nil log)) (f n h);
  kept = λ n h. h;
  seen = tt;
  reached = λ _. tt;
}

In-first : (node : Bytes) (nodes : List Bytes) (m : Bytes) → In (node ∷ []) m → In (node ∷ nodes) m
unfolding contains
In-first node nodes m h = ground arith

In-later : (node : Bytes) (nodes : List Bytes) (m : Bytes) → In nodes m → In (node ∷ nodes) m
unfolding contains
In-later node nodes m h = ground arith

Extends-trans :
    (left : ℕ) (node : Bytes) (nodes : List Bytes) (log : List (Bytes × ℕ)) (s t u : QueryState)
    (e : Extends left (node ∷ []) log s t)
    → Extends left nodes (log ++ e.new) t u
    → Extends left (node ∷ nodes) log s u
Extends-trans left node nodes log s t u e f = record {
  new = e.new ++ f.new;
  queue = f.queue ∙ ap (λ q. q ++ f.new) e.queue ∙ append_assoc s.node_queue e.new f.new;
  level =
      All-append (Level left (node ∷ nodes)) e.new f.new
        (All-imp (Level left (node ∷ [])) (Level left (node ∷ nodes)) e.new
          (λ p h. (h.0, In-first node nodes p.0 h.1)) e.level)
        (All-imp (Level left nodes) (Level left (node ∷ nodes)) f.new
          (λ p h. (h.0, In-later node nodes p.0 h.1)) f.level);
  found = λ n h. subst (λ l. Has l n (left - 1)) (append_assoc log e.new f.new) (f.found n h);
  kept = λ n h. f.kept n (e.kept n h);
  seen =
      All-append (Seen u) e.new f.new (All-imp (Seen t) (Seen u) e.new (λ p h. f.kept p.0 h) e.seen)
        f.seen;
  reached = λ deep. (
    subst (λ l. Has l node (left - 1)) (append_assoc log e.new f.new)
        (Has-append (log ++ e.new) f.new node (left - 1) (e.reached deep).0),
    subst (λ l. All (λ (m : Bytes). Has l m (left - 1)) nodes) (append_assoc log e.new f.new)
        (f.reached deep),
  );
}

pub enqueue_all-Extends :
    (left : ℕ) (nodes : List Bytes) (log : List (Bytes × ℕ)) (s : QueryState)
    → Found (left - 1) log s
    → Extends left nodes log s (enqueue_all left nodes s)
unfolding enqueue_all
enqueue_all-Extends left [] log s f = nothing_added left log s f
enqueue_all-Extends left (node ∷ nodes) log s f =
    let e = enqueue-Extends left node log s f in
    Extends-trans left node nodes log s (enqueue left node s) _ e
      (enqueue_all-Extends left nodes (log ++ e.new) (enqueue left node s) e.found)
