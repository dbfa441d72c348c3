-- ===== src/Dgdb/Creating.antt =====
-- The branch 'C' of `runConnection`, behind the test of `cud_blocking`: the server passes a node on,
-- a repository stores it.
pub mod Passed
use distributed_graph_databa.Prelude.{
  ℕ, zero, suc, ◌+◌, [], ◌∷◌, ◌++◌, List, Bytes, length, Bool, true, false, Option, none, some,
  Outcome, ok, fault, undefined, ltb, ◌==◌, if◌then◌else◌, ◌>>=◌, codes,
}
use distributed_graph_databa.Text.{ℤ, pos, neg, to_size, at}
use distributed_graph_databa.Schema.{Node, Attribute, Relation, Storage, Stored, done, thrown}
use distributed_graph_databa.Wire.{Host, take_repos}
use distributed_graph_databa.Wire.Create.{CreateRequest, take_create}
use distributed_graph_databa.Network.{Sockaddr}
use distributed_graph_databa.Dgdb.{
  Pending, Platform, Dgdb, put_pending, host_at, uncaught, sockaddr_to_host, parse_new_node,
  parse_new_message_response,
}
use distributed_graph_databa.Dgdb.Placement.{first_char, server_slot, repository_slot}

module _ (platform : Platform) where
  open platform use {storage.{nodes_named, insert_node, insert_attribute, insert_relation}}

  -- `[ERROR] Repository has not been attached`, sent back to where the request came from.
  unfoldable pub not_attached : Sockaddr → ℕ → Dgdb platform → Outcome (Dgdb platform)
  not_attached from_addr request_id db =
      parse_new_message_response platform (sockaddr_to_host platform from_addr)
        (codes "[ERROR] Repository has not been attached") request_id db

  -- A new entry of `pending` for the client at an address, under the current request.
  unfoldable pub register : Sockaddr → Dgdb platform → Dgdb platform
  unfolding put_pending
  register from_addr db = record db {
    pending =
        put_pending db.current_request (record { client_sock = from_addr; state = none })
          db.pending;
  }

  unfoldable pub next_request : Dgdb platform → Dgdb platform
  next_request db = record db { current_request = db.current_request + 1 }

  -- `if (server)`, where a repository is attached.
  unfoldable pub pass_create : Sockaddr → CreateRequest → Dgdb platform → Outcome (Dgdb platform)
  unfolding host_at register next_request
  pass_create from_addr r db = do
    c ← at r.buffer 0
    slot ← server_slot c (length db.repositories)
    host ← host_at db.repositories (to_size slot)
    db' ←
        parse_new_node platform r.node_name host r.attributes r.relations db.current_request
          db.repositories (register from_addr db)
    ok (next_request db')

  unfoldable pub server_create : Sockaddr → CreateRequest → Dgdb platform → Outcome (Dgdb platform)
  unfolding pass_create not_attached
  server_create from_addr r db =
      if ltb (length db.repositories) 2
      then not_attached from_addr (to_size r.request_id) db
      else pass_create from_addr r db

  -- `storage.insert(attr)` for each attribute, with the node as its owner.
  unfoldable pub insert_attributes :
      Bytes → List Attribute → Dgdb platform → Outcome (Dgdb platform)
  insert_attributes node_name [] db = ok db
  insert_attributes node_name (attr ∷ attrs) db = do
    stored ← uncaught (insert_attribute db.storage (record attr { node_name = node_name }))
    insert_attributes node_name attrs (record db { storage = stored })

  -- The relation is stored, and if the message named repositories the related node is sent to its
  -- own, with the relation back.
  unfoldable pub insert_relation_to :
      Bytes → Bytes → List Host → Dgdb platform → Outcome (Dgdb platform)
  unfolding host_at first_char
  insert_relation_to node_name rel master_repos db = do
    stored ←
        uncaught (insert_relation db.storage (record { node_name1 = node_name; node_name2 = rel }))
    let db' = record db { storage = stored }
    if length master_repos == 0 then ok db' else do
      new_r ← repository_slot (first_char rel) (length master_repos)
      host ← host_at master_repos (to_size new_r)
      parse_new_node platform rel host [] (node_name ∷ []) 0 [] db'

  -- The `try` block around a node: the store that has the node, or the text of the exception.
  unfoldable pub ensure_node : Bytes → Dgdb platform → Stored (Bool × Dgdb platform)
  ensure_node name db = elim (nodes_named db.storage name) [
    | thrown what ↦ thrown what
    | done [] ↦ elim (insert_node db.storage name) [
      | thrown what ↦ thrown what
      | done stored ↦ done (true, record db { storage = stored })
    ]
    | done (node ∷ nodes) ↦ done (false, db)
  ]

  -- `"[ERROR] " + e.what()`
  abbrev error_of : Bytes → Bytes
  error_of what = codes "[ERROR] " ++ what

  -- One round of the loop over `relations`, with the message so far.
  unfoldable pub relate :
      Sockaddr
      → ℕ
      → Bytes
      → List Host
      → Bytes
      → Stored (Bool × Dgdb platform)
      → Bytes
      → Dgdb platform
      → Outcome (Bytes × Dgdb platform)
  unfolding insert_relation_to
  relate from_addr request_id node_name master_repos rel (thrown what) message db = do
    db' ←
        parse_new_message_response platform (sockaddr_to_host platform from_addr) (error_of what)
          request_id db
    ok (error_of what, db')
  relate from_addr request_id node_name master_repos rel (done (_, db')) message db = do
    db'' ← insert_relation_to node_name rel master_repos db'
    ok (message, db'')

  unfoldable pub relate_all :
      Sockaddr
      → ℕ
      → Bytes
      → List Host
      → List Bytes
      → Bytes
      → Dgdb platform
      → Outcome (Bytes × Dgdb platform)
  unfolding relate ensure_node
  relate_all from_addr request_id node_name master_repos [] message db = ok (message, db)
  relate_all from_addr request_id node_name master_repos (rel ∷ rels) message db = do
    (message', db') ←
        relate from_addr request_id node_name master_repos rel (ensure_node rel db) message db
    relate_all from_addr request_id node_name master_repos rels message' db'

  -- `if (request_id)` the server is told.
  unfoldable pub tell_server : ℕ → Bytes → Dgdb platform → Outcome (Dgdb platform)
  unfolding host_at
  tell_server request_id message db = if request_id == 0 then ok db else do
    master ← host_at db.repositories 0
    parse_new_message_response platform master message request_id db

  -- What follows the node itself: attributes, relations and the answer.
  unfoldable pub store_rest :
      Sockaddr → CreateRequest → List Host → Bytes → Dgdb platform → Outcome (Dgdb platform)
  unfolding insert_attributes relate_all tell_server
  store_rest from_addr r master_repos message db = do
    db' ← insert_attributes r.node_name r.attributes db
    (message', db'') ←
        relate_all from_addr (to_size r.request_id) r.node_name master_repos r.relations message db'
    tell_server (to_size r.request_id) (message' ++ codes "OK! Node stored successfully") db''

  unfoldable pub store_found :
      Sockaddr
      → CreateRequest
      → List Host
      → Stored (Bool × Dgdb platform)
      → Dgdb platform
      → Outcome (Dgdb platform)
  unfolding store_rest
  store_found from_addr r master_repos (thrown what) db =
      parse_new_message_response platform (sockaddr_to_host platform from_addr) (error_of what)
        (to_size r.request_id) db
  store_found from_addr r master_repos (done (true, db')) db =
      store_rest from_addr r master_repos [] db'
  store_found from_addr r master_repos (done (false, db')) db =
      store_rest from_addr r master_repos (codes "[WARNING] Node already exists. Skipping\\n") db'

  -- `else if (repository)`
  unfoldable pub repository_create :
      Sockaddr → CreateRequest → Dgdb platform → Outcome (Dgdb platform)
  unfolding store_found ensure_node
  repository_create from_addr r db = do
    (master_repos, _) ← take_repos r.place r.buffer
    store_found from_addr r master_repos (ensure_node r.node_name db) db

  -- The branch 'C', behind its first character.
  unfoldable pub handle_create : Sockaddr → Bytes → Dgdb platform → Outcome (Dgdb platform)
  unfolding server_create repository_create
  handle_create from_addr buffer db = do
    r ← take_create buffer
    if db.server
        then server_create from_addr r db
        else if db.repository
        then repository_create from_addr r db
        else ok db
