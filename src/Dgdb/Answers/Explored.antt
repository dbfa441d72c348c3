-- ===== src/Dgdb/Answers/Explored.antt =====
-- What stays true of a search: the entries that were asked and those that wait are walks, and the
-- relations of those that were asked are among them.
use mathlib.Core.Bool.{false≢true}
use mathlib.Core.Path.{subst}
use mathlib.Core.Option.{some-injective}
use distributed_graph_databa.Prelude.{
  sym, ◌∙◌, ℕ, zero, suc, ◌+◌, ◌-◌, ◌<◌, ◌≤◌, ◌≡◌, [], ◌∷◌, ◌++◌, List, Bytes, append_assoc, All,
  All-append, All-imp, some, arith, Bool-cases, inl, inr,
}
use distributed_graph_databa.Text.{same}
use distributed_graph_databa.Text.Equality.{eq_of_same}
use distributed_graph_databa.Wire.Reply.{Info}
use distributed_graph_databa.Dgdb.{QueryState}
use distributed_graph_databa.Dgdb.Answers.{contains, enqueue_all, visit}
use distributed_graph_databa.Dgdb.Answers.Search.{visit-popped}
use distributed_graph_databa.Dgdb.Answers.Ends.{In, search_from}
use distributed_graph_databa.Dgdb.Answers.Rounds.{
  Has, Has-append, Has-le, Found, Level, Seen, Extends, enqueue_all-Extends,
}

-- The entries of a queue fall from `hi`, and not below `low`.
abbrev pub Falls : ℕ → ℕ → List (Bytes × ℕ) → Type 0
Falls hi low [] = Unit
Falls hi low ((n, l) ∷ q) = (l ≤ hi) × (low ≤ l) × Falls l low q

Falls-append :
    (hi left : ℕ) (q new : List (Bytes × ℕ))
    → left ≤ hi + 1
    → Falls hi (left - 1) q
    → All (λ (p : Bytes × ℕ). p.1 + 1 ≡ left) new
    → Falls hi (left - 1) (q ++ new)
Falls-append hi left [] [] h f a = tt
Falls-append hi left [] ((n, l) ∷ new) h f a =
    (omega arith, omega arith, Falls-append l left [] new (omega arith) tt a.1)
Falls-append hi left ((n, l) ∷ q) new h f a =
    (f.0, f.1, Falls-append l left q new (omega arith) f.2 a)

Falls-low : (hi low low' : ℕ) (q : List (Bytes × ℕ)) → low' ≤ low → Falls hi low q → Falls hi low' q
Falls-low hi low low' [] h f = tt
Falls-low hi low low' ((n, l) ∷ q) h f = (f.0, omega arith, Falls-low l low low' q h f.2)

pub All-In {κ} : (P : Bytes → Type κ) (xs : List Bytes) (x : Bytes) → All P xs → In xs x → P x
unfolding contains
All-In P [] x a h = absurd (false≢true h)
All-In P (y ∷ xs) x a h = elim (Bool-cases (same y x)) [
  | inl e ↦ subst P (eq_of_same y x e) a.0
  | inr e ↦ All-In P xs x a.1 (ground arith)
]

module _ (start : Bytes) where
  pub first_only : (m : Bytes) → In (start ∷ []) m → start ≡ m
  unfolding contains
  first_only m h = eq_of_same start m (ground arith)

module _ (ask : Bytes → Info) (start : Bytes) where
  -- A walk along relations, with its number of steps.
  pub data Walk : ℕ → Bytes → Type 0 where
    here : (n : Bytes) → start ≡ n → Walk zero n
    step : {k : ℕ} {m : Bytes} (n : Bytes) → Walk k m → In (ask m).relations n → Walk (suc k) n

  module _ (depth : ℕ) where
    -- An entry of the log is a walk whose length and depth left make the depth of the query.
    abbrev pub Sound : Bytes × ℕ → Type 0
    Sound p = (k : ℕ) × Walk k p.0 × (k + p.1 ≡ depth)

    -- The relations of an entry stand in the log, at most one step deeper.
    abbrev pub Closed : List (Bytes × ℕ) → Bytes × ℕ → Type 0
    Closed log p = 0 < p.1 → All (λ (m : Bytes). Has log m (p.1 - 1)) (ask p.0).relations

    -- The queue from its front on: its depths fall by one at most, and every visited node stands in
    -- the log no deeper than that.
    abbrev pub Front : List (Bytes × ℕ) → List (Bytes × ℕ) → QueryState → Type 0
    Front log [] s = Found 0 log s
    Front log ((n, l) ∷ q) s = Falls l (l - 1) q × Found (l - 1) log s

    pub record Explored (asked queue : List (Bytes × ℕ)) (s : QueryState) : Type 0 where
      pub sound : All Sound (asked ++ queue)
      pub closed : All (Closed (asked ++ queue)) asked
      pub front : Front (asked ++ queue) queue s
      pub begun : Has (asked ++ queue) start depth
      pub seen : All (Seen s) (asked ++ queue)

    Sound-Level :
        (node : Bytes) (left : ℕ) (new : List (Bytes × ℕ))
        → Sound (node, left)
        → All (Level left (ask node).relations) new
        → All Sound new
    Sound-Level node left [] h a = tt
    Sound-Level node left (p ∷ new) h a =
        ((suc h.0, step p.0 h.1 a.0.1, omega (arith, a.0.0, h.2)), Sound-Level node left new h a.1)

    front_of :
        (left : ℕ) (log queue : List (Bytes × ℕ)) (t : QueryState)
        → Falls left (left - 1) queue
        → Found (left - 1) log t
        → Front log queue t
    front_of left log [] t f h = λ n v. Has-le log n (left - 1) 0 (omega arith) (h n v)
    front_of left log ((n, l) ∷ q) t f h = (
      Falls-low l (left - 1) (l - 1) q (omega arith) f.2,
      λ m v. Has-le log m (left - 1) (l - 1) (omega arith) (h m v),
    )

    All-mid {κ} :
        (P : Bytes × ℕ → Type κ) (xs : List (Bytes × ℕ)) (p : Bytes × ℕ) (ys : List (Bytes × ℕ))
        → All P (xs ++ p ∷ ys)
        → P p
    All-mid P [] p ys h = h.0
    All-mid P (x ∷ xs) p ys h = All-mid P xs p ys h.1

    module _ (asked queue : List (Bytes × ℕ)) (node : Bytes) (left : ℕ) (s t : QueryState)
        (x : Explored asked ((node, left) ∷ queue) s)
        (e : Extends left
          (ask node).relations
          (asked ++ (node, left) ∷ queue)
          (record s { node_queue = queue })
          t) where
      abbrev log' : List (Bytes × ℕ)
      log' = (asked ++ (node, left) ∷ queue) ++ e.new

      regroup : log' ≡ (asked ++ (node, left) ∷ []) ++ (queue ++ e.new)
      regroup =
          append_assoc asked ((node, left) ∷ queue) e.new
          ∙ sym (append_assoc asked ((node, left) ∷ []) (queue ++ e.new))

      Closed-all : All (Closed log') (asked ++ (node, left) ∷ [])
      Closed-all =
          All-append (Closed log') asked ((node, left) ∷ [])
            (All-imp (Closed (asked ++ (node, left) ∷ queue)) (Closed log') asked
              (λ p h deep.
                All-imp _ _ (ask p.0).relations
                  (λ m k. Has-append (asked ++ (node, left) ∷ queue) e.new m (p.1 - 1) k) (h deep))
              x.closed)
            (e.reached, tt)

      Explored-next : Explored (asked ++ (node, left) ∷ []) (queue ++ e.new) t
      Explored-next = record {
        sound = subst (All Sound) regroup (
            All-append Sound (asked ++ (node, left) ∷ queue) e.new x.sound (
              Sound-Level node left e.new (All-mid Sound asked (node, left) queue x.sound)
                e.level));
        closed = subst (λ l. All (Closed l) (asked ++ (node, left) ∷ [])) regroup Closed-all;
        front =
            front_of left ((asked ++ (node, left) ∷ []) ++ (queue ++ e.new)) (queue ++ e.new) t
              (Falls-append left left queue e.new (omega arith) x.front.0 (
                All-imp (Level left (ask node).relations) (λ (p : Bytes × ℕ). p.1 + 1 ≡ left) e.new
                  (λ p h. h.0) e.level))
              (subst (λ l. Found (left - 1) l t) regroup e.found);
        begun =
            subst (λ l. Has l start depth) regroup
              (Has-append (asked ++ (node, left) ∷ queue) e.new start depth x.begun);
        seen = subst (All (Seen t)) regroup (
            All-append (Seen t) (asked ++ (node, left) ∷ queue) e.new
              (All-imp (Seen s) (Seen t) (asked ++ (node, left) ∷ queue) (λ p h. e.kept p.0 h)
                x.seen)
              e.seen);
      }

    Explored-visit :
        (asked queue : List (Bytes × ℕ)) (node : Bytes) (left : ℕ) (s : QueryState)
        → Explored asked ((node, left) ∷ queue) s
        → (let t = visit left queue (ask node) s in
            Explored (asked ++ (node, left) ∷ []) t.node_queue t)
    Explored-visit asked queue node left s x =
        let (text, same_step) = visit-popped left queue (ask node) s in
        let s' = record s { node_queue = queue; response = text } in
        let e =
          enqueue_all-Extends left (ask node).relations (asked ++ (node, left) ∷ queue) s'
            x.front.1 in
        subst (λ (t : QueryState). Explored (asked ++ (node, left) ∷ []) t.node_queue t)
          (sym same_step)
          (subst
            (λ q.
              Explored (asked ++ (node, left) ∷ []) q (enqueue_all left (ask node).relations s'))
            (sym e.queue)
            (Explored-next asked queue node left s' (enqueue_all left (ask node).relations s')
              (record {
                sound = x.sound;
                closed = x.closed;
                front = x.front;
                begun = x.begun;
                seen = x.seen;
              })
              e))

    -- The end of a search: every node is asked.
    pub Explored-end :
        (fuel : ℕ) (asked queue : List (Bytes × ℕ)) (s t : QueryState)
        → Explored asked queue s
        → search_from ask fuel queue s ≡ some t
        → (log : List (Bytes × ℕ)) × Explored log [] t
    unfolding search_from
    Explored-end zero asked [] s t x e = (asked, subst (Explored asked []) (some-injective s t e) x)
    Explored-end zero asked (p ∷ queue) s t x e = cc
    Explored-end (suc fuel) asked [] s t x e =
        (asked, subst (Explored asked []) (some-injective s t e) x)
    Explored-end (suc fuel) asked ((node, left) ∷ queue) s t x e =
        Explored-end fuel (asked ++ (node, left) ∷ []) (visit left queue (ask node) s).node_queue
          (visit left queue (ask node) s) t (Explored-visit asked queue node left s x) e
