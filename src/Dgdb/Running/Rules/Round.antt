-- ===== src/Dgdb/Running/Rules/Round.antt =====
-- The branches of `runConnection`, one after the other, under the rules.
use mathlib.Core.Path.{subst}
use distributed_graph_databa.Prelude.{
  ℕ, ◌≡◌, refl, sym, [], ◌∷◌, List, Bytes, length, true, false, Option, none, some, Outcome, ok,
  fault, ltb, ◌==◌, if◌then◌else◌, ◌>>=◌,
}
use distributed_graph_databa.Text.{same, to_size, at}
use distributed_graph_databa.Wire.{Host}
use distributed_graph_databa.Wire.Create.{take_create, new_node_text}
use distributed_graph_databa.Wire.Query.{take_query, new_query_text}
use distributed_graph_databa.Wire.Update.{take_update, new_update_text}
use distributed_graph_databa.Wire.Delete.{take_delete, new_delete_text}
use distributed_graph_databa.Wire.Reply.{Info, take_message, take_info, message_text}
use distributed_graph_databa.Network.{Sockaddr}
use distributed_graph_databa.Dgdb.{
  QueryState, Pending, Platform, Dgdb, host_at, send_to, sockaddr_to_host, find_pending,
  erase_pending, put_pending, parse_new_node, parse_new_query, parse_new_update, parse_new_delete,
  parse_new_message_response,
}
use distributed_graph_databa.Dgdb.Placement.{server_slot}
use distributed_graph_databa.Dgdb.Answers.{
  handle_message, finish, ask_next, go_on, advance, answer, answer_of, handle_info, visit,
}
use distributed_graph_databa.Dgdb.Creating.{
  not_attached, register, next_request, pass_create, server_create, handle_create,
}
use distributed_graph_databa.Dgdb.Querying.{begin_query, server_query, handle_query}
use distributed_graph_databa.Dgdb.Changing.{
  pass_update, server_update, handle_update, pass_delete, server_delete, handle_delete,
}
use distributed_graph_databa.Dgdb.Running.{busy, dispatch, receive}
use distributed_graph_databa.Dgdb.Running.Rules.{
  Gives, bind, after_read, either, chosen, with_entry, answered_entry, Rules,
}

module _ (platform : Platform) where
  module _ (db : Dgdb platform) (Good : Dgdb platform → Type 0)
      (rules : Rules platform db Good) where
    message_sent :
        (host : Host) (words : Bytes) (id : ℕ) (now : Dgdb platform)
        → Good now
        → Gives Good (parse_new_message_response platform host words id now)
    unfolding parse_new_message_response
    message_sent host words id now k =
        after_read Good (message_text words id) _ (λ text. rules.sends now host text k)

    -- The branches 'M' and 'I'.
    message_branch : (buffer : Bytes) → Gives Good (handle_message platform buffer db)
    unfolding handle_message
    message_branch buffer = after_read Good (take_message buffer) _ (λ read.
        bind Good Good _ _ (message_sent _ read.0 (to_size read.1) db rules.unchanged)
          (λ next h. rules.answers next (to_size read.1) h))

    failed : (id : ℕ) (words : Bytes) → Gives Good (finish platform id words db)
    unfolding finish
    failed id words =
        bind Good Good _ _ (message_sent _ words id db rules.unchanged)
          (λ next h. rules.answers _ id (rules.unblocks next h))

    finished :
        (id : ℕ) (entry : Pending) (words : Bytes)
        → Gives Good (finish platform id words (with_entry platform id entry db))
    unfolding finish parse_new_message_response
    finished id entry words = written (message_text words id)
      where
        written :
            (o : Outcome Bytes)
            → Gives Good (do
              next ← (do
                text ← o
                ok (
                    send_to platform
                      (sockaddr_to_host platform
                        (find_pending id (put_pending id entry db.pending)).client_sock)
                      text
                      (with_entry platform id entry db)))
              ok (record next { cud_blocking = false; pending = erase_pending id next.pending }))
        written (ok text) = rules.ends id entry _ text
        written (fault e) = tt

    next_asked :
        (id left : ℕ) (node : Bytes) (state : QueryState) (now : Dgdb platform)
        → Good now
        → Gives Good (ask_next platform id node left state now)
    unfolding ask_next parse_new_query
    next_asked id left node state now k = after_read Good (server_slot _ _) _ (λ slot.
        after_read Good (host_at now.repositories (to_size slot)) _ (λ host.
          after_read Good (new_query_text _ _ _ _ _ _) _ (λ text. rules.sends now host text k)))

    gone_on :
        (id left : ℕ) (node : Bytes) (before : List (Bytes × ℕ)) (info : Info) (state : QueryState)
        (queue : List (Bytes × ℕ))
        → (find_pending id db.pending).state ≡ some state
        → state.node_queue ≡ (node, left) ∷ before
        → (visit left before info state).node_queue ≡ queue
        → Gives Good (
            go_on platform id queue (visit left before info state) (
              with_entry platform id
                (answered_entry platform id (visit left before info state) db)
                db))
    unfolding go_on
    gone_on id left node before info state [] e f g = finished id _ _
    gone_on id left node before info state (next ∷ rest) e f g =
        next_asked id next.1 next.0 (visit left before info state) _
          (rules.searches id left node before info state next rest e f g)

    matched :
        (id : ℕ) (info : Info) (state : QueryState) (queue : List (Bytes × ℕ))
        → (find_pending id db.pending).state ≡ some state
        → state.node_queue ≡ queue
        → Gives Good (answer platform id info (find_pending id db.pending) state queue db)
    unfolding answer advance
    matched id info state [] e f = tt
    matched id info state ((node, left) ∷ queue) e f =
        either Good (same node info.node_name) _ _
          (gone_on id left node queue info state (visit left queue info state).node_queue e f refl)
          (failed id _)

    answered :
        (id : ℕ) (info : Info) (state : Option QueryState)
        → (find_pending id db.pending).state ≡ state
        → Gives Good (answer_of platform id info (find_pending id db.pending) state db)
    unfolding answer_of
    answered id info none e = tt
    answered id info (some state) e = matched id info state state.node_queue e refl

    info_branch : (buffer : Bytes) → Gives Good (handle_info platform buffer db)
    unfolding handle_info
    info_branch buffer =
        after_read Good (take_info buffer) _
          (λ info. answered (to_size info.request_id) info _ refl)

    -- A server that knows no repository tells the client.
    unattached :
        (from_addr : Sockaddr) (id : ℕ) (now : Dgdb platform)
        → Good now
        → Gives Good (not_attached platform from_addr id now)
    unfolding not_attached
    unattached from_addr id now k = message_sent _ _ id now k

    -- A request that is placed, written and passed on, whatever its text.
    passed :
        (first : Outcome ℕ) (written : Outcome Bytes) (now : Dgdb platform)
        → ((host : Host) (text : Bytes)
            → Good (next_request platform (send_to platform host text now)))
        → Gives Good (do
          c ← first
          slot ← server_slot c (length db.repositories)
          host ← host_at db.repositories (to_size slot)
          next ← (do text ← written; ok (send_to platform host text now))
          ok (next_request platform next))
    passed first written now k = after_read Good first _ (λ c.
        after_read Good (server_slot c (length db.repositories)) _ (λ slot.
          after_read Good (host_at db.repositories (to_size slot)) _ (λ host.
            bind (λ next. (text : Bytes) × (next ≡ send_to platform host text now)) Good
              (do text ← written; ok (send_to platform host text now)) _
              (after_read _ written _ (λ text. (text, refl)))
              (λ next (text, e).
                subst (λ t. Good (next_request platform t)) (sym e) (k host text)))))

    module _ (serving : db.server ≡ true) (from_addr : Sockaddr) (buffer : Bytes) where
      create_branch : Gives Good (handle_create platform from_addr buffer db)
      unfolding handle_create server_create pass_create parse_new_node
      create_branch = after_read Good (take_create buffer) _ (λ r.
          chosen Good db.server _ _ serving (
            either Good (ltb (length db.repositories) 2) _ _
              (unattached from_addr (to_size r.request_id) db rules.unchanged)
              (passed (at r.buffer 0)
                (new_node_text r.node_name r.attributes r.relations db.current_request
                  db.repositories)
                (register platform from_addr db) (rules.passes from_addr))))

      update_branch : Gives Good (handle_update platform from_addr buffer db)
      unfolding handle_update server_update pass_update parse_new_update
      update_branch = after_read Good (take_update buffer) _ (λ r.
          chosen Good db.server _ _ serving (
            either Good (ltb (length db.repositories) 2) _ _
              (unattached from_addr (to_size r.request_id) db rules.unchanged)
              (passed (at r.buffer 0)
                (new_update_text r.node_name r.is_node r.set_value r.attr db.current_request)
                (register platform from_addr db) (rules.passes from_addr))))

      delete_branch : Gives Good (handle_delete platform from_addr buffer db)
      unfolding handle_delete server_delete pass_delete parse_new_delete
      delete_branch = after_read Good (take_delete buffer) _ (λ r.
          chosen Good db.server _ _ serving (
            either Good (ltb (length db.repositories) 2) _ _
              (unattached from_addr (to_size r.request_id) db rules.unchanged)
              (passed (at r.buffer 0)
                (new_delete_text r.node_name r.object r.attr_or_rel db.current_request
                  db.repositories)
                (register platform from_addr db) (rules.passes from_addr))))

      query_branch : Gives Good (handle_query platform from_addr buffer db)
      unfolding handle_query server_query begin_query parse_new_query
      query_branch = after_read Good (take_query buffer) _ (λ r. chosen Good db.server _ _ serving (
          either Good (ltb (length db.repositories) 2) _ _
            (unattached from_addr (to_size r.request_id) _ (rules.unblocks db rules.unchanged))
            (passed (at r.buffer 0)
              (new_query_text r.node_name r.depth r.leaf r.attr r.conditions db.current_request) _
              (rules.begins from_addr r))))

      refused : Gives Good (busy platform from_addr db)
      unfolding busy
      refused = message_sent _ _ 0 db rules.unchanged

      unless_blocked :
          (branch : Outcome (Dgdb platform))
          → Gives Good branch
          → Gives Good (if db.cud_blocking then busy platform from_addr db else branch)
      unless_blocked branch k = either Good db.cud_blocking _ _ refused k

      dispatched : (c : ℕ) → Gives Good (dispatch platform c from_addr buffer db)
      unfolding dispatch
      dispatched c = either Good (c == b'M') _ _ (message_branch buffer) (
          either Good (c == b'I') _ _ (info_branch buffer) (
            either Good (c == b'C') _ _ (unless_blocked _ create_branch) (
              either Good (c == b'R') _ _ query_branch (
                either Good (c == b'U') _ _ (unless_blocked _ update_branch) (
                  either Good (c == b'D') _ _ (unless_blocked _ delete_branch)
                    (either Good (c == b'E') _ _ (rules.attaches from_addr) rules.unchanged))))))

    -- Where the rules hold of a server, its round gives what is good, if it gives anything.
    pub receive-Good :
        db.server ≡ true
        → (from_addr : Sockaddr) (text : Bytes) → Gives Good (receive platform from_addr text db)
    unfolding receive
    receive-Good serving from_addr [] = rules.unchanged
    receive-Good serving from_addr (c ∷ buffer) = dispatched serving from_addr buffer c
