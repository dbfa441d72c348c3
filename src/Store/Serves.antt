-- ===== src/Store/Serves.antt =====
-- The server's part in the creation of a node: the branches 'C' and 'M' of src/DGDB.cpp.
use mathlib.Core.List.{map}
use distributed_graph_databa.Prelude.{
  ℕ, ◌+◌, ◌<◌, ◌≤◌, ◌≡◌, refl, ap, ◌∙◌, [], ◌∷◌, ◌++◌, List, Bytes, length, get_elem?, Bool, true,
  false, some, ok, ◌==◌, if◌then◌else◌, arith,
}
use distributed_graph_databa.Text.{pos, at}
use distributed_graph_databa.Text.Decimal.{padded}
use distributed_graph_databa.Schema.{Attribute}
use distributed_graph_databa.Wire.{Host}
use distributed_graph_databa.Wire.Counts.{counted}
use distributed_graph_databa.Wire.Hosts.{hosts_text}
use distributed_graph_databa.Wire.Pieces.{sized_text, unowned}
use distributed_graph_databa.Wire.Create.{CreateRequest, take_create}
use distributed_graph_databa.Wire.Create.RoundTrip.{
  create_body, CreateFits, new_node_text-eq, take_create-eq,
}
use distributed_graph_databa.Wire.Reply.RoundTrip.{message_text-eq, take_message-eq}
use distributed_graph_databa.Network.{Sockaddr}
use distributed_graph_databa.Dgdb.{
  Pending, sent, no_pending, Platform, Dgdb, find_pending, put_pending, sockaddr_to_host,
}
use distributed_graph_databa.Dgdb.Answers.{handle_message}
use distributed_graph_databa.Dgdb.Creating.{handle_create}
use distributed_graph_databa.Dgdb.Creating.Passed.{
  waits, handle_create-passes, handle_message-answers,
}
use distributed_graph_databa.Dgdb.Running.{busy, dispatch, receive}
use distributed_graph_databa.Store.Rest.{answer_text, warning-Fits}

pub receive-create :
    (platform : Platform) (from_addr : Sockaddr) (buffer : Bytes) (db : Dgdb platform)
    → db.cud_blocking ≡ false
    → receive platform from_addr (b'C' ∷ buffer) db ≡ handle_create platform from_addr buffer db
unfolding receive dispatch
receive-create platform from_addr buffer db free =
    ap (λ b. if b then busy platform from_addr db else handle_create platform from_addr buffer db)
      free

receive-message :
    (platform : Platform) (from_addr : Sockaddr) (buffer : Bytes) (db : Dgdb platform)
    → receive platform from_addr (b'M' ∷ buffer) db ≡ handle_message platform buffer db
unfolding receive dispatch
receive-message platform from_addr buffer db = refl

find-put :
    (id : ℕ) (entry : Pending) (m : List (ℕ × Pending))
    → find_pending id (put_pending id entry m) ≡ entry
unfolding find_pending put_pending
find-put id entry m = ground arith

first_byte :
    (name : Bytes) (c d : ℕ) (tail : Bytes) → (b : ℕ) × (at (counted name c d ++ tail) 0 ≡ ok b)
unfolding at
first_byte [] c d tail = (c, refl)
first_byte (b ∷ name) c d tail = (b, refl)

==_refl : (n : ℕ) → (n == n) ≡ true
==_refl n = ground arith

-- The message 'M' of the repository, behind its first character.
abbrev pub reply_body : Bool → ℕ → Bytes
reply_body known id = sized_text (answer_text known) ++ padded 3 id

module _ (main_platform : Platform) where
  -- What the server does with the command of a client, and what it sends the repository.
  abbrev pub Passes :
      Sockaddr
      → Bytes
      → List Attribute
      → List Bytes
      → Dgdb main_platform
      → Dgdb main_platform
      → Type 0
  Passes client name attrs rels server server' =
      (slot : ℕ) × (host : Host) × (1 ≤ slot)
      × (get_elem? server.repositories slot ≡ some host)
      × (receive main_platform client (b'C' ∷ create_body name attrs rels 0 []) server ≡ ok server')
      × (server'.calls
          ≡ server.calls
            ++ sent host
                (b'C' ∷ create_body name attrs rels server.current_request server.repositories)
              ∷ [])
      × (find_pending server.current_request server'.pending ≡ waits main_platform client)

  pub server-Passes :
      (client : Sockaddr) (name : Bytes) (attrs : List Attribute) (rels : List Bytes)
      (server : Dgdb main_platform)
      → CreateFits name attrs rels server.current_request server.repositories
      → map unowned attrs ≡ attrs
      → server.server ≡ true
      → server.cud_blocking ≡ false
      → 2 ≤ length server.repositories
      → (server' : Dgdb main_platform) × Passes client name attrs rels server server'
  server-Passes client name attrs rels server fits plain serving free some_repo =
      let fits0 : CreateFits name attrs rels 0 [] = record {
        name_fits = fits.name_fits;
        few_relations = fits.few_relations;
        few_attributes = fits.few_attributes;
        relations_fit = fits.relations_fit;
        attributes_fit = fits.attributes_fit;
        id_fits = omega arith;
        few_repos = omega arith;
        repos_fit = tt;
      } in
      let c = b'0' + length rels in
      let d = b'0' + length attrs in
      let tail = padded 1 0 ++ hosts_text [] in
      let r : CreateRequest = record {
        node_name = name;
        attributes = attrs;
        relations = rels;
        request_id = pos 0;
        place = length name + 2;
        buffer = counted name c d ++ tail;
      } in
      let read : take_create (create_body name attrs rels 0 []) ≡ ok r =
        take_create-eq name attrs rels 0 [] fits0 tail
        ∙ ap (λ (a : List Attribute). ok (record r { attributes = a })) plain in
      let (b, first) = first_byte name c d tail in
      let written =
        new_node_text-eq name attrs rels server.current_request server.repositories fits in
      let (slot, host, low, stands, run) =
        handle_create-passes main_platform client (create_body name attrs rels 0 []) server r b _
          read first serving some_repo written in
      let server' = record server {
        pending = put_pending server.current_request (waits main_platform client) server.pending;
        calls =
            server.calls
            ++ sent host
                (b'C' ∷ create_body name attrs rels server.current_request server.repositories)
              ∷ [];
        current_request = server.current_request + 1;
      } in
      (
        server',
        (
          slot,
          host,
          low,
          stands,
          receive-create main_platform client (create_body name attrs rels 0 []) server free ∙ run,
          refl,
          find-put server.current_request (waits main_platform client) server.pending,
        ),
      )

  -- What the server does with the answer of the repository, for the client.
  abbrev pub Replies : Sockaddr → Sockaddr → Bool → ℕ → Dgdb main_platform → Type 0
  Replies from_addr client known id server =
      (server' : Dgdb main_platform) × (receive main_platform from_addr (b'M' ∷ reply_body known id)
          server
        ≡ ok server')
      × (server'.calls
          ≡ server.calls
            ++ sent (sockaddr_to_host main_platform client) (b'M' ∷ reply_body known id) ∷ [])
      × (find_pending id server'.pending ≡ no_pending)

  pub server-Replies :
      (from_addr client : Sockaddr) (known : Bool) (id : ℕ) (server : Dgdb main_platform)
      → id < 1000
      → find_pending id server.pending ≡ waits main_platform client
      → Replies from_addr client known id server
  server-Replies from_addr client known id server small waiting =
      let answer = answer_text known in
      let (server', run, calls, erased) =
        handle_message-answers main_platform (reply_body known id) server answer id
          (b'M' ∷ reply_body known id) (take_message-eq answer id (warning-Fits known) small)
          (message_text-eq answer id (warning-Fits known) small) in
      (
        server',
        receive-message main_platform from_addr (reply_body known id) server ∙ run,
        calls
            ∙ ap
                (λ (entry : Pending).
                  server.calls
                  ++ sent (sockaddr_to_host main_platform entry.client_sock)
                      (b'M' ∷ reply_body known id)
                    ∷ [])
                waiting,
        erased id ∙ rw (==_refl id) refl,
      )
