-- ===== src/Dgdb/Answers/Exact.antt =====
-- A search that has ended has visited exactly the nodes within its depth.
use mathlib.Core.Path.{subst}
use distributed_graph_databa.Prelude.{
  sym, ℕ, zero, suc, ◌+◌, ◌-◌, ◌<◌, ◌≤◌, ◌≡◌, ◌↔◌, refl, [], ◌∷◌, List, Bytes, append-nil, All,
  some, arith, inl, inr,
}
use distributed_graph_databa.Text.Equality.{same_refl}
use distributed_graph_databa.Wire.Reply.{Info}
use distributed_graph_databa.Dgdb.{QueryState}
use distributed_graph_databa.Dgdb.Answers.{contains}
use distributed_graph_databa.Dgdb.Answers.Ends.{In, search, search_from}
use distributed_graph_databa.Dgdb.Answers.Rounds.{Has, Has-le, Found, Seen}
use distributed_graph_databa.Dgdb.Answers.Explored.{
  All-In, first_only, Walk, here, step, Sound, Closed, Explored, Explored-end,
}

module _ (ask : Bytes → Info) (start : Bytes) where
  module _ (depth : ℕ) where
    Has-Sound :
        (log : List (Bytes × ℕ)) (n : Bytes) (b : ℕ)
        → All (Sound ask start depth) log
        → Has log n b
        → (k : ℕ) × (k ≤ depth) × Walk ask start k n
    Has-Sound [] n b s h = absurd h
    Has-Sound ((m, l) ∷ log) n b s (inl h) =
        (s.0.0, omega (arith, s.0.2), subst (Walk ask start s.0.0) h.0 s.0.1)
    Has-Sound ((m, l) ∷ log) n b s (inr h) = Has-Sound log n b s.1 h

    Has-related :
        (whole log : List (Bytes × ℕ)) (m n : Bytes) (b : ℕ)
        → All (Closed ask start depth whole) log
        → Has log m (suc b)
        → In (ask m).relations n
        → Has whole n b
    Has-related whole [] m n b c h r = absurd h
    Has-related whole ((p, l) ∷ log) m n b c (inl h) r =
        let deep : 0 < l = omega (arith, h.1) in
        let related : In (ask p).relations n = subst (λ q. In (ask q).relations n) (sym h.0) r in
        Has-le whole n (l - 1) b (omega (arith, h.1)) (pick (ask p).relations (c.0 deep) related)
      where
        pick :
            (xs : List Bytes)
            → All (λ (q : Bytes). Has whole q (l - 1)) xs
            → In xs n
            → Has whole n (l - 1)
        pick xs a i = All-In (λ (q : Bytes). Has whole q (l - 1)) xs n a i
    Has-related whole ((p, l) ∷ log) m n b c (inr h) r = Has-related whole log m n b c.1 h r

    Walk-Has :
        (log : List (Bytes × ℕ)) (k b : ℕ) (n : Bytes)
        → All (Closed ask start depth log) log
        → Has log start depth
        → Walk ask start k n
        → k + b ≡ depth
        → Has log n b
    Walk-Has log zero b n c h (here m e) eq =
        subst (λ q. Has log q b) e (Has-le log start depth b (omega arith) h)
    Walk-Has log (suc k) b n c h (step {m = m} n' w r) eq =
        Has-related log log m n b c (Walk-Has log k (suc b) m c h w (omega arith)) r

    Has-Seen :
        (log : List (Bytes × ℕ)) (t : QueryState) (n : Bytes) (b : ℕ)
        → All (Seen t) log
        → Has log n b
        → In t.visited n
    Has-Seen [] t n b a h = absurd h
    Has-Seen (p ∷ log) t n b a (inl h) = subst (In t.visited) h.0 a.0
    Has-Seen (p ∷ log) t n b a (inr h) = Has-Seen log t n b a.1 h

    -- The visited nodes of a search that began with one node and has ended.
    pub exact :
        (fuel : ℕ) (s t : QueryState)
        → s.node_queue ≡ (start, depth) ∷ []
        → s.visited ≡ start ∷ []
        → search ask fuel s ≡ some t
        → (n : Bytes) → In t.visited n ↔ ((k : ℕ) × (k ≤ depth) × Walk ask start k n)
    unfolding search contains
    exact fuel s t eq ev e n =
        let first : Found (depth - 1) ((start, depth) ∷ []) s =
          λ m h. inl (first_only start m (subst (λ v. In v m) ev h), omega arith) in
        let x : Explored ask start depth [] ((start, depth) ∷ []) s = record {
          sound = ((zero, here start refl, omega arith), tt);
          closed = tt;
          front = (tt, first);
          begun = inl (refl, omega arith);
          seen = (subst (λ v. In v start) (sym ev) (rw (same_refl start)), tt);
        } in
        let run = subst (λ q. search_from ask fuel q s ≡ some t) eq e in
        let (log, end) = Explored-end ask start depth fuel [] ((start, depth) ∷ []) s t x run in
        let whole : All (Sound ask start depth) log =
          subst (All (Sound ask start depth)) (append-nil log) end.sound in
        let shut : All (Closed ask start depth log) log =
          subst (λ l. All (Closed ask start depth l) log) (append-nil log) end.closed in
        let all_seen : All (Seen t) log = subst (All (Seen t)) (append-nil log) end.seen in
        let first_has : Has log start depth =
          subst (λ l. Has l start depth) (append-nil log) end.begun in
        (
          λ h. Has-Sound log n 0 whole (subst (λ l. Has l n 0) (append-nil log) (end.front n h)),
          λ (k, short, w).
              Has-Seen log t n (depth - k) all_seen
                (Walk-Has log k (depth - k) n shut first_has w (omega arith)),
        )
