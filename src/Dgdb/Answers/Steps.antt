-- ===== src/Dgdb/Answers/Steps.antt =====
-- What the branch 'I' does with the answer of the node in front of a query's queue.
use distributed_graph_databa.Prelude.{
  ℕ, ◌^◌, ◌<◌, ◌≤◌, ◌≡◌, refl, ap, ◌∙◌, [], ◌∷◌, ◌++◌, List, Bytes, length, get_elem?, false, some,
  ok, fault, undefined, ◌==◌, if◌then◌else◌, codes, arith,
}
use distributed_graph_databa.Text.{to_int, pos, to_size}
use distributed_graph_databa.Text.Equality.{same_refl}
use distributed_graph_databa.Text.Decimal.Length.{sprintf_overflows}
use distributed_graph_databa.Wire.{Host, sized}
use distributed_graph_databa.Wire.Query.{new_query_text}
use distributed_graph_databa.Wire.Reply.{Info, take_info, message_text}
use distributed_graph_databa.Dgdb.{
  Call, sent, QueryState, Pending, no_pending, Platform, Dgdb, find_pending, erase_pending,
  put_pending, sockaddr_to_host, parse_new_query, parse_new_message_response,
}
use distributed_graph_databa.Dgdb.Entries.{find-erase, find-put, host_at-within}
use distributed_graph_databa.Dgdb.Placement.{first_char, server_slot}
use distributed_graph_databa.Dgdb.Placement.Agreement.{server_slot_bounds}
use distributed_graph_databa.Dgdb.Answers.{
  visit, finish, ask_next, go_on, advance, answer, answer_of, handle_info,
}

module _ (platform : Platform) where
  -- The call of `SendTo` behind those that were made.
  abbrev pub then_sent : Dgdb platform → Host → Bytes → List Call
  then_sent db host text = db.calls ++ sent host text ∷ []

  ask_next-eq :
      (id : ℕ) (node : Bytes) (left : ℕ) (state : QueryState) (text : Bytes) (db : Dgdb platform)
      → 2 ≤ length db.repositories
      → length db.repositories < 2 ^ 31
      → new_query_text node (to_int left) state.leaf state.attr state.conditions id ≡ ok text
      → (r : ℕ) × (host : Host) × (server_slot (first_char node) (length db.repositories)
          ≡ ok (pos r))
        × (1 ≤ r)
        × (get_elem? db.repositories r ≡ some host)
        × (ask_next platform id node left state db
            ≡ ok (record db { calls = then_sent db host text }))
  unfolding ask_next parse_new_query to_size
  ask_next-eq id node left state text db some_repo few e =
      let (r, slot, low, high) =
        server_slot_bounds (first_char node) (length db.repositories) some_repo few in
      let (host, stands, found) = host_at-within db.repositories r high in
      (r, host, slot, low, stands, rw (slot, found, e))

  finish-eq :
      (id : ℕ) (message text : Bytes) (db : Dgdb platform)
      → message_text message id ≡ ok text
      → finish platform id message db
        ≡ ok (record db {
          calls =
              then_sent db
                (sockaddr_to_host platform (find_pending id db.pending).client_sock)
                text;
          cud_blocking = false;
          pending = erase_pending id db.pending;
        })
  unfolding finish parse_new_message_response
  finish-eq id message text db e = rw e

  -- Where the queue of a search is empty and its response has 980 bytes or more, the length of the
  -- message, with the words in front of the response, is written past the end of its buffer: the
  -- end of the search has no defined behaviour.
  pub go_on-overflows :
      (id : ℕ) (state : QueryState) (db : Dgdb platform)
      → state.node_queue ≡ []
      → 980 ≤ length state.response
      → go_on platform id state.node_queue state db ≡ fault undefined
  unfolding go_on finish parse_new_message_response message_text sized
  go_on-overflows id state db empty long =
      ap (λ q. go_on platform id q state db) empty
      ∙ rw (
          sprintf_overflows 3 (length (codes "OK! Query complete\\n" ++ state.response))
            (omega arith))

  module _ (buffer : Bytes) (db : Dgdb platform) (info : Info) (state : QueryState) (left : ℕ)
      (queue : List (Bytes × ℕ)) (read : take_info buffer ≡ ok info)
      (running : (find_pending (to_size info.request_id) db.pending).state ≡ some state)
      (front : state.node_queue ≡ (info.node_name, left) ∷ queue) where
    abbrev pub id : ℕ
    id = to_size info.request_id

    abbrev pub next : QueryState
    next = visit left queue info state

    -- The entry with the state that the answer makes.
    abbrev pub entry' : Pending
    entry' = record (find_pending id db.pending) { state = some next }

    handle_info-go_on :
        handle_info platform buffer db
        ≡ go_on platform id next.node_queue next
            (record db { pending = put_pending id entry' db.pending })
    unfolding handle_info
    handle_info-go_on =
        rw (read, running, answer_of, front, answer, same_refl info.node_name)
          (unfold advance in refl)

    -- If an answer 'I' is read, the query that its id names is pending with the answered node in
    -- front of its queue, the visit of that node leaves a node in the queue, a repository is
    -- attached, the hosts are fewer than 2 ^ 31, and the next message 'R' can be written,
    -- then the handler sends that message for the next node to an attached repository (never to
    -- the server's own entry); the entry of the query holds the visited state, and every other
    -- entry and everything else is as before.
    pub handle_info-asks :
        (node : Bytes) (depth_left : ℕ) (rest : List (Bytes × ℕ)) (text : Bytes)
        → next.node_queue ≡ (node, depth_left) ∷ rest
        → 2 ≤ length db.repositories
        → length db.repositories < 2 ^ 31
        → new_query_text node (to_int depth_left) next.leaf next.attr next.conditions id ≡ ok text
        → (r : ℕ) × (host : Host) × (1 ≤ r)
          × (get_elem? db.repositories r ≡ some host)
          × (handle_info platform buffer db
              ≡ ok (record db {
                pending = put_pending id entry' db.pending;
                calls = then_sent db host text;
              }))
    unfolding go_on
    handle_info-asks node depth_left rest text more some_repo few e =
        let (r, host, _, low, stands, asked) =
          ask_next-eq id node depth_left next text
            (record db { pending = put_pending id entry' db.pending }) some_repo few e in
        (
          r,
          host,
          low,
          stands,
          handle_info-go_on
              ∙ ap
                  (λ q.
                    go_on platform id q next
                      (record db { pending = put_pending id entry' db.pending }))
                  more
              ∙ asked,
        )

    abbrev pub complete : Bytes
    complete = codes "OK! Query complete\\n" ++ next.response

    abbrev pub client : Host
    client = sockaddr_to_host platform (find_pending id db.pending).client_sock

    find-put_self :
        (m : List (ℕ × Pending)) (e : Pending) → find_pending id (put_pending id e m) ≡ e
    find-put_self m e = find-put id id e m ∙ ground arith

    -- If an answer 'I' is read, the query that its id names is pending with the answered node in
    -- front of its queue, the visit of that node leaves the queue empty, and the response can be
    -- written, then the handler sends the response to the client of that entry, that entry and no
    -- other is gone, and the server takes changes again.
    pub handle_info-finishes :
        (text : Bytes)
        → next.node_queue ≡ []
        → message_text complete id ≡ ok text
        → (db' : Dgdb platform) × (handle_info platform buffer db ≡ ok db')
          × (db'.calls ≡ then_sent db client text)
          × (db'.cud_blocking ≡ false)
          × ((key : ℕ)
              → find_pending key db'.pending
                ≡ (if id == key then no_pending else find_pending key db.pending))
    unfolding go_on
    handle_info-finishes text empty e = (
      record db {
        calls = then_sent db client text;
        cud_blocking = false;
        pending = erase_pending id (put_pending id entry' db.pending);
      },
      handle_info-go_on
          ∙ ap
              (λ q.
                go_on platform id q next (record db { pending = put_pending id entry' db.pending }))
              empty
          ∙ finish-eq id complete text (record db { pending = put_pending id entry' db.pending }) e
          ∙ ap
              (λ (p : Pending). ok (record db {
                calls = then_sent db (sockaddr_to_host platform p.client_sock) text;
                cud_blocking = false;
                pending = erase_pending id (put_pending id entry' db.pending);
              }))
              (find-put_self db.pending entry'),
      refl,
      refl,
      λ key.
          find-erase id key (put_pending id entry' db.pending)
          ∙ ground (arith, find-put id key entry' db.pending),
    )
