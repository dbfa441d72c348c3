-- ===== src/Dgdb/Running/Invariant.antt =====
-- The invariants of the main loop of a server.
use mathlib.Core.Path.{subst}
use distributed_graph_databa.Prelude.{◌≡◌, [], ◌∷◌, List, Bytes, true, ◌||◌, ok}
use distributed_graph_databa.Network.{Sockaddr}
use distributed_graph_databa.Dgdb.{Platform, Dgdb, no_pending, find_pending}
use distributed_graph_databa.Dgdb.Running.{receive, run_connection}
use distributed_graph_databa.Dgdb.Running.Rules.{Gives, bind, either, Rules}
use distributed_graph_databa.Dgdb.Running.Rules.Round.{receive-Good}
use distributed_graph_databa.Dgdb.Running.Keeps.{Kept, Kept-self, Kept-Rules}
use distributed_graph_databa.Dgdb.Running.Waiting.{WaitingIsValid, Waiting-Rules, find-fresh}

module _ (platform : Platform) where
  -- What follows the rules at a server, round for round, is kept by the loop.
  module _ (Good : Dgdb platform → Type 0)
      (serves : (db : Dgdb platform) → Good db → db.server ≡ true)
      (rules : (db : Dgdb platform) → Good db → Rules platform db Good) where
    run-Good :
        (messages : List (Sockaddr × Bytes)) (db : Dgdb platform)
        → Good db
        → Gives Good (run_connection platform messages db)
    unfolding run_connection
    run-Good [] db k = k
    run-Good ((from_addr, text) ∷ rest) db k =
        either Good (db.server || db.repository) _ _
          (bind Good Good (receive platform from_addr text db)
            (λ next. run_connection platform rest next)
            (receive-Good platform db Good (rules db k) (serves db k) from_addr text)
            (λ next h. run-Good rest next h))
          k

    run_to-Good :
        (messages : List (Sockaddr × Bytes)) (db db' : Dgdb platform)
        → Good db
        → run_connection platform messages db ≡ ok db'
        → Good db'
    run_to-Good messages db db' k e = subst (Gives Good) e (run-Good messages db k)

  both-Rules :
      (db : Dgdb platform) (P Q : Dgdb platform → Type 0)
      → Rules platform db P
      → Rules platform db Q
      → Rules platform db (λ x. P x × Q x)
  both-Rules db P Q p q = record {
    unchanged = (p.unchanged, q.unchanged);
    sends = λ now host text k. (p.sends now host text k.0, q.sends now host text k.1);
    answers = λ now id k. (p.answers now id k.0, q.answers now id k.1);
    unblocks = λ now k. (p.unblocks now k.0, q.unblocks now k.1);
    searches = λ id left node queue info state next rest e f g. (
      p.searches id left node queue info state next rest e f g,
      q.searches id left node queue info state next rest e f g,
    );
    ends = λ id entry host text. (p.ends id entry host text, q.ends id entry host text);
    passes = λ from_addr host text. (p.passes from_addr host text, q.passes from_addr host text);
    begins =
        λ from_addr r host text. (p.begins from_addr r host text, q.begins from_addr r host text);
    attaches = λ from_addr. (p.attaches from_addr, q.attaches from_addr);
  }

  -- Whatever messages come to a server, one after the other and with no fault: the server stays a
  -- server, it never changes its own store, every host that it knew stays at its place with new ones
  -- only behind them, and request ids only grow.
  pub run_connection-Kept :
      (messages : List (Sockaddr × Bytes)) (db db' : Dgdb platform)
      → db.server ≡ true
      → run_connection platform messages db ≡ ok db'
      → Kept platform db db'
  run_connection-Kept messages db db' s e =
      run_to-Good (Kept platform db) (λ now k. k.still_server) (Kept-Rules platform db) messages db
        db' (Kept-self platform db s) e

  -- Whatever messages come to a server, one after the other and with no fault: if at first every id
  -- that waits was given before and every search that waits is valid with a node in front of its
  -- queue, it is so at the end; and the id that the next request takes then stands for no entry.
  pub run_connection-WaitingIsValid :
      (messages : List (Sockaddr × Bytes)) (db db' : Dgdb platform)
      → db.server ≡ true
      → WaitingIsValid platform db
      → run_connection platform messages db ≡ ok db'
      → WaitingIsValid platform db' × (find_pending db'.current_request db'.pending ≡ no_pending)
  run_connection-WaitingIsValid messages db db' s h e =
      let Good = λ (now : Dgdb platform). Kept platform db now × WaitingIsValid platform now in
      let (_, valid) =
        run_to-Good Good (λ now k. k.0.still_server)
          (λ now k.
            both-Rules now (Kept platform db) (WaitingIsValid platform)
              (Kept-Rules platform db now k.0) (Waiting-Rules platform now k.1))
          messages db db' (Kept-self platform db s, h) e in
      (valid, find-fresh db'.current_request db'.pending valid)
