-- ===== src/Dgdb/Running/Gate.antt =====
-- What `runConnection` does with a message before it comes to its branch, and who is attached.
use mathlib.Core.List.{map}
use distributed_graph_databa.Prelude.{
  ℕ, ◌≡◌, sym, ap, ◌∙◌, [], ◌∷◌, ◌++◌, List, Bytes, All, append-nil, append_assoc, true, ◌||◌,
  Outcome, ok, if◌then◌else◌, codes, arith,
}
use distributed_graph_databa.Text.Decimal.{padded}
use distributed_graph_databa.Wire.Pieces.{sized_text}
use distributed_graph_databa.Wire.Reply.RoundTrip.{message_text-eq}
use distributed_graph_databa.Network.{Sockaddr}
use distributed_graph_databa.Dgdb.{
  Call, sent, Platform, Dgdb, sockaddr_to_host, send_to, parse_new_message_response,
}
use distributed_graph_databa.Dgdb.Creating.{handle_create}
use distributed_graph_databa.Dgdb.Changing.{handle_update, handle_delete}
use distributed_graph_databa.Dgdb.Running.{busy, dispatch, receive, run_connection}

-- A message 'M', as it is sent.
abbrev pub message : Bytes → ℕ → Bytes
message text request_id = b'M' ∷ (sized_text text ++ padded 3 request_id)

abbrev pub busy_words : Bytes
busy_words = codes "[ERROR] Bussy Server. Try again later"

-- The characters of the requests that change the graph.
pub data Changes : ℕ → Type 0 where
  create : Changes b'C'
  update : Changes b'U'
  delete : Changes b'D'

module _ (platform : Platform) where
  busy-eq :
      (from_addr : Sockaddr) (db : Dgdb platform)
      → busy platform from_addr db
        ≡ ok (send_to platform (sockaddr_to_host platform from_addr) (message busy_words 0) db)
  unfolding busy parse_new_message_response
  busy-eq from_addr db = rw (message_text-eq busy_words 0 (omega arith) (omega arith))

  gated :
      (from_addr : Sockaddr) (db : Dgdb platform) (branch : Outcome (Dgdb platform))
      → db.cud_blocking ≡ true
      → (if db.cud_blocking then busy platform from_addr db else branch)
        ≡ ok (send_to platform (sockaddr_to_host platform from_addr) (message busy_words 0) db)
  gated from_addr db branch blocked =
      ap (λ b. if b then busy platform from_addr db else branch) blocked ∙ busy-eq from_addr db

  receive_blocked :
      (from_addr : Sockaddr) (c : ℕ) (buffer : Bytes) (db : Dgdb platform)
      → Changes c
      → db.cud_blocking ≡ true
      → receive platform from_addr (c ∷ buffer) db
        ≡ ok (send_to platform (sockaddr_to_host platform from_addr) (message busy_words 0) db)
  unfolding receive dispatch
  receive_blocked from_addr c buffer db create blocked =
      gated from_addr db (handle_create platform from_addr buffer db) blocked
  receive_blocked from_addr c buffer db update blocked =
      gated from_addr db (handle_update platform from_addr buffer db) blocked
  receive_blocked from_addr c buffer db delete blocked =
      gated from_addr db (handle_delete platform from_addr buffer db) blocked

  -- A message that begins as a request to change the graph.
  abbrev pub IsChange : Sockaddr × Bytes → Type 0
  IsChange (from_addr, []) = ⊥
  IsChange (from_addr, c ∷ buffer) = Changes c

  -- What the sender of a message is told.
  abbrev pub refusal : Sockaddr × Bytes → Call
  refusal (from_addr, text) = sent (sockaddr_to_host platform from_addr) (message busy_words 0)

  -- The loop of a server or a repository whose flag that blocks changes is set is sent any number of
  -- requests that change the graph (messages that begin with 'C', 'U' or 'D', whatever stands behind
  -- the first character). It ends with no fault: each sender is told, in the order of the messages,
  -- that the server is busy, the flag is still set, and nothing else of the object has changed.
  pub run_connection-blocked :
      (messages : List (Sockaddr × Bytes)) (db : Dgdb platform)
      → db.cud_blocking ≡ true
      → (db.server || db.repository) ≡ true
      → All IsChange messages
      → run_connection platform messages db
        ≡ ok (record db { calls = db.calls ++ map refusal messages })
  unfolding run_connection send_to
  run_connection-blocked [] db blocked runs changes =
      ap (λ c. ok (record db { calls = c })) (sym (append-nil db.calls))
  run_connection-blocked ((from_addr, []) ∷ rest) db blocked runs changes = absurd changes.0
  run_connection-blocked ((from_addr, c ∷ buffer) ∷ rest) db blocked runs changes =
      let told = send_to platform (sockaddr_to_host platform from_addr) (message busy_words 0) db in
      rw (runs, receive_blocked from_addr c buffer db changes.0 blocked)
        (run_connection-blocked rest told blocked runs changes.1
          ∙ ap (λ calls. ok (record db { calls = calls }))
              (append_assoc db.calls (refusal (from_addr, []) ∷ []) (map refusal rest)))
