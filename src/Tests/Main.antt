-- ===== src/Tests/Main.antt =====
-- src/main.cpp at concrete inputs.
use distributed_graph_databa.Prelude.{◌≡◌, refl, [], ◌∷◌, ◌++◌, List, Bytes, true, ok, codes}
use distributed_graph_databa.Text.{pos, atoi}
use distributed_graph_databa.Tools.{is_number}
use distributed_graph_databa.Network.{Sockaddr}
use distributed_graph_databa.Dgdb.{Dgdb, sockaddr_to_host, no_pending, find_pending}
use distributed_graph_databa.Dgdb.Running.{
  run_connection, receive, dispatch, handle_register, conn_master_repository, new_dgdb,
}
use distributed_graph_databa.Dgdb.Running.Keeps.{Kept}
use distributed_graph_databa.Dgdb.Running.Waiting.{WaitingIsValid}
use distributed_graph_databa.Dgdb.Setup.{run_server}
use distributed_graph_databa.Main.{serves, main}
use distributed_graph_databa.Main.Serves.{started, main-Kept}
use distributed_graph_databa.Tests.Server.{platform, from_addr}

abbrev port_text : Bytes
port_text = codes "50007"

port_digits : is_number port_text ≡ true
unfolding is_number
port_digits = refl

port_read : atoi port_text ≡ ok (pos 50007)
unfolding atoi
port_read = refl

abbrev messages : List (Sockaddr × Bytes)
messages = (from_addr, codes "E") ∷ []

abbrev attached : Dgdb platform
attached = record (started platform (pos 50007) 0) {
  repository = true;
  repositories =
      (started platform (pos 50007) 0).repositories ++ sockaddr_to_host platform from_addr ∷ [];
}

runs_server : run_server platform messages (started platform (pos 50007) 0) ≡ ok attached
unfolding run_server run_connection receive dispatch handle_register conn_master_repository new_dgdb
runs_server = refl

main_example :
    (main platform
        (codes "S" ∷ codes "-p" ∷ port_text ∷ codes "--server" ∷ [])
        (new_dgdb platform b'S' 0)
      ≡ ok (serves, started platform (pos 50007) 0))
    × Kept platform (started platform (pos 50007) 0) attached
    × WaitingIsValid platform attached
    × (find_pending attached.current_request attached.pending ≡ no_pending)
main_example =
    main-Kept platform port_text (pos 50007) 0 messages attached port_digits port_read runs_server
