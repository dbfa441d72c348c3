-- ===== src/Dgdb/Changing/Passed.antt =====
-- A server passes an update or a deletion on, and tells the client where no repository is attached.
use distributed_graph_databa.Prelude.{◌+◌, [], ◌∷◌, ◌++◌, Bytes}
use distributed_graph_databa.Wire.{Host}
use distributed_graph_databa.Network.{Sockaddr}
use distributed_graph_databa.Dgdb.{sent, Platform, Dgdb, put_pending}
use distributed_graph_databa.Dgdb.Creating.Passed.{waits}

module _ (platform : Platform) (from_addr : Sockaddr) (buffer : Bytes) (db : Dgdb platform) where
  -- What the object becomes where a request is passed on.
  abbrev passed : Host → Bytes → Dgdb platform
  passed host text = record db {
    pending = put_pending db.current_request (waits platform from_addr) db.pending;
    calls = db.calls ++ sent host text ∷ [];
    current_request = db.current_request + 1;
  }
