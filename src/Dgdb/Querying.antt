-- ===== src/Dgdb/Querying.antt =====
-- The branch 'R' of `runConnection`: the server begins a search, a repository answers for a node.
pub mod Reaches
pub mod Begins
use mathlib.Core.List.{map}
use distributed_graph_databa.Prelude.{
  ℕ, zero, suc, ◌+◌, [], ◌∷◌, ◌++◌, List, Bytes, length, Bool, true, false, Option, none, some,
  Outcome, ok, fault, undefined, ltb, ◌==◌, if◌then◌else◌, ◌>>=◌, codes,
}
use distributed_graph_databa.Text.{ℤ, pos, neg, to_size, at}
use distributed_graph_databa.Schema.{Attribute, Relation, Storage}
use distributed_graph_databa.Wire.{Host}
use distributed_graph_databa.Wire.Query.{QueryRequest, take_query}
use distributed_graph_databa.Network.{Sockaddr}
use distributed_graph_databa.Dgdb.{
  QueryState, Pending, Platform, Dgdb, put_pending, host_at, uncaught, parse_new_query,
  parse_new_info_response,
}
use distributed_graph_databa.Dgdb.Placement.{server_slot}
use distributed_graph_databa.Dgdb.Conditions.{is_valid_node}
use distributed_graph_databa.Dgdb.Creating.{not_attached, next_request}

-- `new QueryState(leaf, attr, depth)`, with the node in its queue and among the visited ones.
unfoldable pub start_state : QueryRequest → QueryState
start_state r = record {
  leaf = r.leaf;
  attr = r.attr;
  depth = to_size r.depth;
  conditions = r.conditions;
  node_queue = (r.node_name, to_size r.depth) ∷ [];
  visited = r.node_name ∷ [];
  response = [];
}

-- `c_pending`
unfoldable pub query_entry : Sockaddr → QueryRequest → Pending
unfolding start_state
query_entry from_addr r = record { client_sock = from_addr; state = some (start_state r) }

module _ (platform : Platform) where
  open platform use {storage.{attributes_of, relations_from}}

  -- `if (server)`, where a repository is attached.
  unfoldable pub begin_query : Sockaddr → QueryRequest → Dgdb platform → Outcome (Dgdb platform)
  unfolding host_at put_pending next_request query_entry
  begin_query from_addr r db = do
    c ← at r.buffer 0
    slot ← server_slot c (length db.repositories)
    host ← host_at db.repositories (to_size slot)
    db' ←
        parse_new_query platform r.node_name r.depth r.leaf r.attr host r.conditions
          db.current_request
          (record db {
            pending = put_pending db.current_request (query_entry from_addr r) db.pending;
            cud_blocking = true;
          })
    ok (next_request platform db')

  unfoldable pub server_query : Sockaddr → QueryRequest → Dgdb platform → Outcome (Dgdb platform)
  unfolding begin_query not_attached
  server_query from_addr r db =
      if ltb (length db.repositories) 2
      then not_attached platform from_addr (to_size r.request_id)
          (record db { cud_blocking = false })
      else begin_query from_addr r db

  -- `else if (repository)`
  unfoldable pub repository_query : QueryRequest → Dgdb platform → Outcome (Dgdb platform)
  unfolding host_at
  repository_query r db = do
    attributes ← uncaught (attributes_of db.storage r.node_name)
    db_rels ← uncaught (relations_from db.storage r.node_name)
    let relations = map (λ (rel : Relation). rel.node_name2) db_rels
    master ← host_at db.repositories 0
    parse_new_info_response platform r.node_name master attributes relations (to_size r.request_id)
        (is_valid_node r.depth r.leaf attributes r.conditions) db

  -- The branch 'R', behind its first character.
  unfoldable pub handle_query : Sockaddr → Bytes → Dgdb platform → Outcome (Dgdb platform)
  unfolding server_query repository_query
  handle_query from_addr buffer db = do
    r ← take_query buffer
    if db.server
        then server_query from_addr r db
        else if db.repository
        then repository_query r db
        else ok db
