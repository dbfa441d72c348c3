-- ===== src/Dgdb/Creating/Passed.antt =====
-- A server passes a new node on, and the answer of the repository goes back to the client.
use distributed_graph_databa.Prelude.{
  ℕ, ◌+◌, ◌≤◌, ◌≡◌, refl, [], ◌∷◌, ◌++◌, Bytes, length, get_elem?, true, false, none, some, ok, ltb,
  ◌==◌, if◌then◌else◌, arith,
}
use distributed_graph_databa.Text.{pos, to_size, at}
use distributed_graph_databa.Wire.{Host}
use distributed_graph_databa.Wire.Create.{CreateRequest, take_create, new_node_text}
use distributed_graph_databa.Wire.Written.{new_node_text-few}
use distributed_graph_databa.Wire.Reply.{take_message, message_text}
use distributed_graph_databa.Network.{Sockaddr}
use distributed_graph_databa.Dgdb.{
  Pending, sent, no_pending, Platform, Dgdb, find_pending, erase_pending, put_pending,
  sockaddr_to_host, send_to, parse_new_node, parse_new_message_response,
}
use distributed_graph_databa.Dgdb.Entries.{find-erase, host_at-within}
use distributed_graph_databa.Dgdb.Placement.Agreement.{server_slot_bounds}
use distributed_graph_databa.Dgdb.Answers.{handle_message}
use distributed_graph_databa.Dgdb.Creating.{
  register, next_request, pass_create, server_create, handle_create,
}

module _ (platform : Platform) where
  -- The entry of a client that waits for a change.
  abbrev pub waits : Sockaddr → Pending
  waits from_addr = record { client_sock = from_addr; state = none }

  pub handle_create-passes :
      (from_addr : Sockaddr) (buffer : Bytes) (db : Dgdb platform) (r : CreateRequest) (c : ℕ)
      (text : Bytes)
      → take_create buffer ≡ ok r
      → at r.buffer 0 ≡ ok c
      → db.server ≡ true
      → 2 ≤ length db.repositories
      → new_node_text r.node_name r.attributes r.relations db.current_request db.repositories
        ≡ ok text
      → (slot : ℕ) × (host : Host) × (1 ≤ slot)
        × (get_elem? db.repositories slot ≡ some host)
        × (handle_create platform from_addr buffer db
            ≡ ok (record db {
              pending = put_pending db.current_request (waits from_addr) db.pending;
              calls = db.calls ++ sent host text ∷ [];
              current_request = db.current_request + 1;
            }))
  unfolding handle_create server_create pass_create parse_new_node send_to register next_request
      to_size
  handle_create-passes from_addr buffer db r c text read first serving some_repo written =
      let few =
        new_node_text-few r.node_name r.attributes r.relations db.current_request db.repositories
          text written in
      let (slot, placed, low, high) =
        server_slot_bounds c (length db.repositories) some_repo (omega (arith, few)) in
      let (host, stands, found) = host_at-within db.repositories slot high in
      let attached : ltb (length db.repositories) 2 ≡ false = ground arith in
      (slot, host, low, stands, rw (read, serving, attached, first, placed, found, written))

  -- An answer 'M' that can be read, and written again, goes under the id that it carries to the
  -- client that is bound to the id, and the entry of that id and no other is erased.
  pub handle_message-answers :
      (buffer : Bytes) (db : Dgdb platform) (message : Bytes) (id : ℕ) (text : Bytes)
      → take_message buffer ≡ ok (message, pos id)
      → message_text message id ≡ ok text
      → (db' : Dgdb platform) × (handle_message platform buffer db ≡ ok db')
        × (db'.calls
            ≡ db.calls
              ++ sent (sockaddr_to_host platform (find_pending id db.pending).client_sock) text
                ∷ [])
        × ((key : ℕ)
            → find_pending key db'.pending
              ≡ (if id == key then no_pending else find_pending key db.pending))
  unfolding handle_message parse_new_message_response send_to to_size
  handle_message-answers buffer db message id text read written = (
    record db {
      calls =
          db.calls
          ++ sent (sockaddr_to_host platform (find_pending id db.pending).client_sock) text ∷ [];
      pending = erase_pending id db.pending;
    },
    rw (read, written),
    refl,
    λ key. find-erase id key db.pending,
  )
