-- ===== src/Main/Serves.antt =====
-- src/main.cpp: the server that the arguments start, and what it keeps whatever it receives.
use distributed_graph_databa.Prelude.{
  ◌%◌, ◌^◌, ◌≡◌, refl, sym, ap, ◌∙◌, [], ◌∷◌, List, Bytes, true, some, ok, codes,
}
use distributed_graph_databa.Text.{ℤ, to_size, same, atoi}
use distributed_graph_databa.Tools.{is_number}
use distributed_graph_databa.Network.{Sockaddr}
use distributed_graph_databa.Dgdb.{Platform, Dgdb, bound, no_pending, find_pending}
use distributed_graph_databa.Dgdb.Running.{new_dgdb, run_connection, set_server, call}
use distributed_graph_databa.Dgdb.Running.Keeps.{Kept}
use distributed_graph_databa.Dgdb.Running.Waiting.{WaitingIsValid}
use distributed_graph_databa.Dgdb.Running.Invariant.{
  run_connection-Kept, run_connection-WaitingIsValid,
}
use distributed_graph_databa.Dgdb.Setup.{set_mode, set_port, run_server}
use distributed_graph_databa.Main
use distributed_graph_databa.Main.{
  Ending, serves, has_arg, find_port, PortArgs, port_given, mode_letter, start_server, run_mode,
  main,
}

module _ (platform : Platform) where
  -- The object of a server on a port, over a new store.
  abbrev pub started : ℤ → platform.storage.Db → Dgdb platform
  started port store = record (new_dgdb platform b'S' store) {
    port = to_size port;
    mode = b'S';
    server = true;
    calls = bound (to_size port % 2 ^ 16) ∷ [];
  }

  found :
      (value : Bytes)
      → is_number value ≡ true
      → find_port [] (codes "-p" ∷ value ∷ codes "--server" ∷ [])
        ≡ port_given value (codes "--server" ∷ [])
  unfolding find_port same
  found value digits = rw (find_port, digits) refl

  run-found :
      (args rest : List Bytes) (value : Bytes) (port : ℤ) (db : Dgdb platform)
      → find_port [] args ≡ port_given value rest
      → atoi value ≡ ok port
      → Main.run_server platform args db ≡ ok (run_mode platform (some (to_size port)) rest db)
  unfolding Main.run_server
  run-found args rest value port db e f = rw (Main.run_server, e, f) refl

  by_mode :
      (args : List Bytes) (db : Dgdb platform)
      → main platform (codes "S" ∷ args) db ≡ Main.run_server platform args db
  unfolding main mode_letter
  by_mode args db = refl

  as_server :
      (port : ℤ) (store : platform.storage.Db)
      → run_mode platform
          (some (to_size port))
          (codes "--server" ∷ [])
          (new_dgdb platform b'S' store)
        ≡ (serves, started port store)
  unfolding run_mode has_arg same start_server set_server set_mode set_port call new_dgdb
  as_server port store = refl

  starts :
      (value : Bytes) (port : ℤ) (store : platform.storage.Db)
      → is_number value ≡ true
      → atoi value ≡ ok port
      → main platform
          (codes "S" ∷ codes "-p" ∷ value ∷ codes "--server" ∷ [])
          (new_dgdb platform b'S' store)
        ≡ ok (serves, started port store)
  starts value port store digits read =
      by_mode (codes "-p" ∷ value ∷ codes "--server" ∷ []) (new_dgdb platform b'S' store)
      ∙ run-found (codes "-p" ∷ value ∷ codes "--server" ∷ []) (codes "--server" ∷ []) value port
          (new_dgdb platform b'S' store) (found value digits) read
      ∙ ap ok (as_server port store)

  runs :
      (port : ℤ) (store : platform.storage.Db) (messages : List (Sockaddr × Bytes))
      → run_server platform messages (started port store)
        ≡ run_connection platform messages (started port store)
  unfolding run_server
  runs port store messages = refl

  -- The program is started with 'S', '-p', a number and '--server': it binds the port,
  -- modulo 2 ^ 16, and serves. Then,
  -- whatever messages come, one after the other and with no fault: it stays a server, it does not
  -- change its store, its own entry stays the first of its hosts and those that attach come behind
  -- it; every search that waits is valid, and the next request's id stands for no entry.
  pub main-Kept :
      (value : Bytes) (port : ℤ) (store : platform.storage.Db) (messages : List (Sockaddr × Bytes))
      (db : Dgdb platform)
      → is_number value ≡ true
      → atoi value ≡ ok port
      → run_server platform messages (started port store) ≡ ok db
      → (main platform
            (codes "S" ∷ codes "-p" ∷ value ∷ codes "--server" ∷ [])
            (new_dgdb platform b'S' store)
          ≡ ok (serves, started port store))
        × Kept platform (started port store) db
        × WaitingIsValid platform db
        × (find_pending db.current_request db.pending ≡ no_pending)
  unfolding new_dgdb
  main-Kept value port store messages db digits read run =
      let loop = sym (runs port store messages) ∙ run in
      let (waiting, fresh) =
        run_connection-WaitingIsValid platform messages (started port store) db refl tt loop in
      (
        starts value port store digits read,
        run_connection-Kept platform messages (started port store) db refl loop,
        waiting,
        fresh,
      )
