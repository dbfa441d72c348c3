-- ===== src/Dgdb/Querying/Begins.antt =====
-- A server begins the search of a request 'R'.
use distributed_graph_databa.Prelude.{
  ℕ, ◌+◌, ◌^◌, ◌<◌, ◌≤◌, ◌≡◌, [], ◌∷◌, ◌++◌, length, get_elem?, true, false, some, ok, ltb, arith,
  Bytes,
}
use distributed_graph_databa.Text.{at, to_size}
use distributed_graph_databa.Wire.{Host}
use distributed_graph_databa.Wire.Query.{QueryRequest, take_query, new_query_text}
use distributed_graph_databa.Network.{Sockaddr}
use distributed_graph_databa.Dgdb.{
  Pending, sent, Platform, Dgdb, put_pending, send_to, parse_new_query,
}
use distributed_graph_databa.Dgdb.Entries.{host_at-within}
use distributed_graph_databa.Dgdb.Placement.Agreement.{server_slot_bounds}
use distributed_graph_databa.Dgdb.Creating.{next_request}
use distributed_graph_databa.Dgdb.Querying.{
  start_state, query_entry, begin_query, server_query, handle_query,
}

module _ (platform : Platform) where
  -- The entry of a client whose query begins.
  abbrev pub searching : Sockaddr → QueryRequest → Pending
  searching from_addr r = record { client_sock = from_addr; state = some (start_state r) }

  -- A server with an attached repository (and fewer than 2 ^ 31 hosts) passes a request
  -- 'R' that it can read and write on to one of the attached repositories, never to its own entry,
  -- under a new request id that is bound to the client and to the state in which the search
  -- begins, and sets the flag that blocks changes; the other entries, its store and everything else
  -- are as before.
  pub handle_query-begins :
      (from_addr : Sockaddr) (buffer : Bytes) (db : Dgdb platform) (r : QueryRequest) (c : ℕ)
      (text : Bytes)
      → take_query buffer ≡ ok r
      → at r.buffer 0 ≡ ok c
      → db.server ≡ true
      → 2 ≤ length db.repositories
      → length db.repositories < 2 ^ 31
      → new_query_text r.node_name r.depth r.leaf r.attr r.conditions db.current_request ≡ ok text
      → (slot : ℕ) × (host : Host) × (1 ≤ slot)
        × (get_elem? db.repositories slot ≡ some host)
        × (handle_query platform from_addr buffer db
            ≡ ok (record db {
              pending = put_pending db.current_request (searching from_addr r) db.pending;
              cud_blocking = true;
              calls = db.calls ++ sent host text ∷ [];
              current_request = db.current_request + 1;
            }))
  unfolding handle_query server_query begin_query parse_new_query send_to next_request query_entry
      to_size
  handle_query-begins from_addr buffer db r c text read first serving some_repo few written =
      let (slot, placed, low, high) = server_slot_bounds c (length db.repositories) some_repo few in
      let (host, stands, found) = host_at-within db.repositories slot high in
      let attached : ltb (length db.repositories) 2 ≡ false = ground arith in
      (slot, host, low, stands, rw (read, serving, attached, first, placed, found, written))
