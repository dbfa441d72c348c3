-- ===== src/Main.antt =====
-- src/main.cpp: the arguments choose what the program does.
pub mod Serves
use distributed_graph_databa.Prelude.{
  ℕ, [], ◌∷◌, ◌++◌, List, Bytes, Bool, false, ◌||◌, Option, none, some, Outcome, ok, ◌==◌,
  if◌then◌else◌, ◌>>=◌, codes,
}
use distributed_graph_databa.Text.{to_size, same, atoi}
use distributed_graph_databa.Tools.{is_number}
use distributed_graph_databa.Dgdb.{Platform, Dgdb}
use distributed_graph_databa.Dgdb.Running.{
  set_main_ip, set_main_port, set_client, set_server, set_repository,
}
use distributed_graph_databa.Dgdb.Setup.{set_mode, set_port, set_ip}
use distributed_graph_databa.Client.{set_node, set_query, set_update, set_delete}

-- How `main` ends, or what it goes on with.
pub data Ending : Type 0 where
  nothing_to_do : Ending
  greeting : Ending
  node_missing : Ending
  refused : Ending
  waits_for_response : Ending
  invalid_input : Ending
  port_missing : Ending
  mode_missing : Ending
  serves : Ending

-- `std::find`: whether the argument is there.
unfoldable pub has_arg : Bytes → List Bytes → Bool
unfolding same
has_arg flag [] = false
has_arg flag (arg ∷ args) = same arg flag || has_arg flag args

-- What "-p" makes of the arguments: no port, a port and the other arguments, or an error.
pub data PortArgs : Type 0 where
  no_port : PortArgs
  port_given : Bytes → List Bytes → PortArgs
  bad_port : PortArgs

-- The argument behind the first "-p", with the arguments in front of it kept.
unfoldable pub find_port : List Bytes → List Bytes → PortArgs
unfolding same is_number
find_port before [] = no_port
find_port before (arg ∷ []) = if same arg (codes "-p") then bad_port else no_port
find_port before (arg ∷ value ∷ args) =
    let later = find_port (before ++ arg ∷ []) (value ∷ args) in
    if same arg (codes "-p")
    then (if is_number value then port_given value (before ++ args) else bad_port)
    else later

-- The first letter of `argv[1]`: the NUL behind the text where it is empty.
unfoldable pub mode_letter : Bytes → ℕ
mode_letter [] = 0
mode_letter (c ∷ arg) = c

module _ (platform : Platform) where
  ended : Bool × Dgdb platform → Ending × Dgdb platform
  ended (st, db) = (if st then waits_for_response else refused, db)

  -- The command of the letter, on the node and the arguments behind it.
  unfoldable run_command : ℕ → List Bytes → Dgdb platform → Outcome (Ending × Dgdb platform)
  unfolding ended set_node set_query set_update set_delete
  run_command mode [] db = ok (node_missing, db)
  run_command mode (name ∷ rest) db = do
    r ←
        (if mode == b'C'
          then set_node platform name rest db
          else if mode == b'R'
          then set_query platform name rest db
          else if mode == b'U'
          then set_update platform name rest db
          else set_delete platform name rest db)
    ok (ended r)

  -- The branch of 'C', 'R', 'U' and 'D'.
  unfoldable pub run_client : ℕ → List Bytes → Dgdb platform → Outcome (Ending × Dgdb platform)
  unfolding run_command set_client set_main_ip set_main_port set_mode
  run_client mode args db = run_command mode args (
      set_main_port platform 50000 (
        set_main_ip platform (codes "35.240.132.238")
          (set_client platform (set_mode platform mode db))))

  -- The server of "--server", on the port or on 50000.
  unfoldable pub start_server : Option ℕ → Dgdb platform → Dgdb platform
  unfolding set_server set_mode set_port
  start_server port db =
      set_server platform
        (set_mode platform b'S' (set_port platform (elim port [ none ↦ 50000 | some p ↦ p ]) db))

  -- The repository of "--repository", which has to be given its port.
  unfoldable pub start_repository : Option ℕ → Dgdb platform → Ending × Dgdb platform
  unfolding set_repository set_main_ip set_main_port set_mode set_port set_ip
  start_repository none db = (port_missing, db)
  start_repository (some port) db = (
    serves,
    set_repository platform (
        set_mode platform b'E' (
          set_main_port platform 50000 (
            set_main_ip platform (codes "35.240.132.238")
              (set_ip platform (codes "127.0.0.1") (set_port platform port db))))),
  )

  -- The mode of the branch 'S'.
  unfoldable run_mode : Option ℕ → List Bytes → Dgdb platform → Ending × Dgdb platform
  unfolding has_arg start_server start_repository
  run_mode port args db =
      if has_arg (codes "--server") args
      then (serves, start_server port db)
      else if has_arg (codes "--repository") args
      then start_repository port db
      else (mode_missing, db)

  -- The branch 'S'.
  unfoldable pub run_server : List Bytes → Dgdb platform → Outcome (Ending × Dgdb platform)
  unfolding find_port run_mode to_size
  run_server args db = elim (find_port [] args) [
    | no_port ↦ ok (run_mode none args db)
    | port_given value rest ↦ (do port ← atoi value; ok (run_mode (some (to_size port)) rest db))
    | bad_port ↦ ok (invalid_input, db)
  ]

  -- `main`, on the arguments behind the name of the program.
  unfoldable pub main : List Bytes → Dgdb platform → Outcome (Ending × Dgdb platform)
  unfolding mode_letter run_client run_server
  main [] db = ok (greeting, db)
  main (arg ∷ args) db =
      let c = mode_letter arg in
      if c == b'C' || c == b'R' || c == b'U' || c == b'D'
      then run_client c args db
      else if c == b'S'
      then run_server args db
      else ok (nothing_to_do, db)
