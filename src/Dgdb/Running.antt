-- ===== src/Dgdb/Running.antt =====
-- `runConnection`: a message is told apart by its first character, and the loop goes on while the
-- object is a server or a repository. The branch 'E', and the methods that set the object up.
pub mod Gate
pub mod Rules
pub mod Keeps
pub mod Waiting
pub mod Invariant
use distributed_graph_databa.Prelude.{
  ℕ, zero, suc, ◌+◌, ◌%◌, ◌^◌, [], ◌∷◌, ◌++◌, List, Bytes, length, Bool, true, false, not, ◌||◌,
  Option, none, some, Outcome, ok, fault, undefined, ltb, ◌==◌, if◌then◌else◌, ◌>>=◌, codes,
}
use distributed_graph_databa.Text.{at, erase}
use distributed_graph_databa.Wire.{Host}
use distributed_graph_databa.Network.{Sockaddr}
use distributed_graph_databa.Dgdb.{
  Call, sent, bound, shut, closed, Platform, Dgdb, sockaddr_to_host, send_to,
  parse_new_message_response,
}
use distributed_graph_databa.Dgdb.Answers.{handle_message, handle_info}
use distributed_graph_databa.Dgdb.Creating.{handle_create}
use distributed_graph_databa.Dgdb.Querying.{handle_query}
use distributed_graph_databa.Dgdb.Changing.{handle_update, handle_delete}

module _ (platform : Platform) where
  open platform use {storage.{Db}}

  -- `if (cud_blocking)`: a client is sent away while the flag is set.
  unfoldable pub busy : Sockaddr → Dgdb platform → Outcome (Dgdb platform)
  busy from_addr db =
      parse_new_message_response platform (sockaddr_to_host platform from_addr)
        (codes "[ERROR] Bussy Server. Try again later") 0 db

  -- `connMasterRepository`
  unfoldable pub conn_master_repository : Dgdb platform → Dgdb platform
  conn_master_repository db = record db { repository = true }

  -- The branch 'E': the sender is attached as a repository.
  unfoldable pub handle_register : Sockaddr → Dgdb platform → Dgdb platform
  unfolding conn_master_repository sockaddr_to_host
  handle_register from_addr db =
      let db' = conn_master_repository db in
      if db'.repository
      then record db' {
        repositories = db'.repositories ++ sockaddr_to_host platform from_addr ∷ [];
      }
      else db'

  -- The branch that the first character chooses; another character chooses none.
  unfoldable pub dispatch : ℕ → Sockaddr → Bytes → Dgdb platform → Outcome (Dgdb platform)
  unfolding busy
  dispatch c from_addr buffer db =
      if c == b'M'
      then handle_message platform buffer db
      else if c == b'I'
      then handle_info platform buffer db
      else if c == b'C'
      then (if db.cud_blocking
          then busy from_addr db
          else handle_create platform from_addr buffer db)
      else if c == b'R'
      then handle_query platform from_addr buffer db
      else if c == b'U'
      then (if db.cud_blocking
          then busy from_addr db
          else handle_update platform from_addr buffer db)
      else if c == b'D'
      then (if db.cud_blocking
          then busy from_addr db
          else handle_delete platform from_addr buffer db)
      else if c == b'E'
      then ok (handle_register from_addr db)
      else ok db

  -- One round of the loop of `runConnection`.
  unfoldable pub receive : Sockaddr → Bytes → Dgdb platform → Outcome (Dgdb platform)
  unfolding dispatch
  receive from_addr [] db = ok db
  receive from_addr (c ∷ buffer) db = dispatch c from_addr buffer db

  -- `while (server || repository)`, over the messages that arrive.
  unfoldable pub run_connection : List (Sockaddr × Bytes) → Dgdb platform → Outcome (Dgdb platform)
  unfolding receive
  run_connection [] db = ok db
  run_connection ((from_addr, text) ∷ rest) db =
      let go = (do db' ← receive from_addr text db; run_connection rest db') in
      if db.server || db.repository then go else ok db

  -- `DGDB(Pmode)`, over the store that it opens.
  unfoldable pub new_dgdb : ℕ → Db → Dgdb platform
  new_dgdb mode db = record {
    storage = db;
    port = 50000;
    ip = codes "127.0.0.1";
    connection = false;
    server = false;
    mode = mode;
    number_repositories = 0;
    repository = false;
    main_port = 0;
    main_ip = [];
    repositories = record { ip = codes "127.0.0.1"; port = 50000 } ∷ [];
    cud_blocking = false;
    current_request = 1;
    pending = [];
    calls = [];
  }

  on_first : (Host → Host) → List Host → List Host
  on_first f [] = []
  on_first f (host ∷ hosts) = f host ∷ hosts

  -- `setMainIp`
  unfoldable pub set_main_ip : Bytes → Dgdb platform → Dgdb platform
  unfolding on_first
  set_main_ip ip db = record db {
    main_ip = ip;
    repositories = on_first (λ (host : Host). record host { ip = ip }) db.repositories;
  }

  -- `setMainPort`
  unfoldable pub set_main_port : ℕ → Dgdb platform → Dgdb platform
  unfolding on_first
  set_main_port port db = record db {
    main_port = port;
    repositories = on_first (λ (host : Host). record host { port = port % 2 ^ 16 }) db.repositories;
  }

  unfoldable pub call : Call → Dgdb platform → Dgdb platform
  call c db = record db { calls = db.calls ++ c ∷ [] }

  unfoldable pub set_client : Dgdb platform → Dgdb platform
  set_client db = record db { connection = true }

  unfoldable pub close_client : Dgdb platform → Dgdb platform
  unfolding call
  close_client db = call closed (call shut (record db { connection = false }))

  -- `setServer`: `Bind` takes a `uint16_t`.
  unfoldable pub set_server : Dgdb platform → Dgdb platform
  unfolding call
  set_server db = let db' = call (bound (db.port % 2 ^ 16)) db in record db' { server = true }

  unfoldable pub close_server : Dgdb platform → Dgdb platform
  unfolding call
  close_server db = call closed (record db { server = false })

  -- `registerRepository`
  unfoldable pub register_repository : Dgdb platform → Dgdb platform
  unfolding send_to
  register_repository db =
      send_to platform (record { ip = db.main_ip; port = db.main_port % 2 ^ 16 }) (codes "E") db

  -- `setRepository`
  unfoldable pub set_repository : Dgdb platform → Dgdb platform
  unfolding call register_repository
  set_repository db =
      let db' = register_repository (call (bound (db.port % 2 ^ 16)) db) in
      record db' { repository = true }
