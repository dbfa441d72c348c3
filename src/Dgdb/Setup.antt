-- ===== src/Dgdb/Setup.antt =====
-- src/DGDB.h and src/DGDB.cpp: the setters that `main` calls, and `runServer`, whose thread is joined at
-- once.
use distributed_graph_databa.Prelude.{ℕ, List, Bytes, Outcome, ok, ◌==◌, if◌then◌else◌}
use distributed_graph_databa.Network.{Sockaddr}
use distributed_graph_databa.Dgdb.{Platform, Dgdb}
use distributed_graph_databa.Dgdb.Running.{run_connection}

module _ (platform : Platform) where
  -- `setMode`, `setPort`, `setIp`, `setNumberRepositories`
  unfoldable pub set_mode : ℕ → Dgdb platform → Dgdb platform
  set_mode mode db = record db { mode = mode }

  unfoldable pub set_port : ℕ → Dgdb platform → Dgdb platform
  set_port port db = record db { port = port }

  unfoldable pub set_ip : Bytes → Dgdb platform → Dgdb platform
  set_ip ip db = record db { ip = ip }

  unfoldable set_number_repositories : ℕ → Dgdb platform → Dgdb platform
  set_number_repositories r db = record db { number_repositories = r }

  -- `runMainServer` and `runRepository`
  unfoldable run_main_server : List (Sockaddr × Bytes) → Dgdb platform → Outcome (Dgdb platform)
  run_main_server messages db = run_connection platform messages db

  unfoldable run_repository : List (Sockaddr × Bytes) → Dgdb platform → Outcome (Dgdb platform)
  run_repository messages db = run_connection platform messages db

  -- `runServer`, over the messages that arrive.
  unfoldable pub run_server : List (Sockaddr × Bytes) → Dgdb platform → Outcome (Dgdb platform)
  unfolding run_main_server run_repository
  run_server messages db =
      if db.mode == b'S'
      then run_main_server messages db
      else if db.mode == b'E'
      then run_repository messages db
      else ok db
