-- ===== src/Dgdb/Answers.antt =====
-- The branches 'M' and 'I' of `runConnection`: a repository has answered. An answer 'I' is a step
-- of a search by breadth, which asks for one node at a time.
pub mod Search
pub mod Ends
pub mod Rounds
pub mod Explored
pub mod Exact
pub mod Steps
use distributed_graph_databa.Prelude.{
  ℕ, zero, suc, ◌+◌, ◌-◌, ◌%◌, ◌^◌, [], ◌∷◌, ◌++◌, List, Bytes, length, Bool, true, false, ◌||◌,
  Option, none, some, Outcome, ok, fault, undefined, ltb, ◌==◌, if◌then◌else◌, ◌>>=◌, codes,
}
use distributed_graph_databa.Text.{to_int, ℤ, pos, neg, to_size, same, size_mod}
use distributed_graph_databa.Text.Decimal.{to_string}
use distributed_graph_databa.Schema.{Attribute}
use distributed_graph_databa.Wire.{Host}
use distributed_graph_databa.Wire.Reply.{Info, take_message, take_info}
use distributed_graph_databa.Dgdb.{
  QueryState, Pending, Platform, Dgdb, find_pending, erase_pending, put_pending, host_at,
  sockaddr_to_host, parse_new_query, parse_new_message_response,
}
use distributed_graph_databa.Dgdb.Placement.{first_char, server_slot}

-- `visited.find(node) != visited.end()`
unfoldable pub contains : List Bytes → Bytes → Bool
unfolding same
contains [] node = false
contains (v ∷ visited) node = same v node || contains visited node

-- The lines of the attributes.
unfoldable pub attribute_lines : List Attribute → Bytes
attribute_lines [] = []
attribute_lines (attr ∷ attrs) =
    codes "  "
    ++ (attr.key ++ (codes ": " ++ (attr.value ++ (codes "\\n" ++ attribute_lines attrs))))

-- What a valid node adds to the response; `left` is the depth that was left at the node.
unfoldable pub add_response : Bytes → ℕ → List Attribute → QueryState → QueryState
unfolding attribute_lines
add_response node left attributes state = record state {
  response =
      state.response
      ++ (node
          ++ (codes " [Depth = "
              ++ (to_string ((state.depth + size_mod - left) % size_mod)
                  ++ (codes "]\\n" ++ (if state.attr then attribute_lines attributes else [])))));
}

-- One round of the loop over `relations`.
unfoldable pub enqueue : ℕ → Bytes → QueryState → QueryState
unfolding contains
enqueue left node state =
    if contains state.visited node
    then state
    else if ltb 0 left
    then record state {
      node_queue = state.node_queue ++ (node, left - 1) ∷ [];
      visited = node ∷ state.visited;
    }
    else state

unfoldable pub enqueue_all : ℕ → List Bytes → QueryState → QueryState
unfolding enqueue
enqueue_all left [] state = state
enqueue_all left (node ∷ nodes) state = enqueue_all left nodes (enqueue left node state)

-- What the answer of the node in front makes of the search: the node leaves the queue, adds to the
-- response, and brings in the nodes that it is related to.
unfoldable pub visit : ℕ → List (Bytes × ℕ) → Info → QueryState → QueryState
unfolding add_response enqueue_all
visit left queue info state =
    let popped = record state { node_queue = queue } in
    let written =
      if info.valid_node then add_response info.node_name left info.attributes popped else popped in
    enqueue_all left info.relations written

module _ (platform : Platform) where
  -- The branch 'M', behind its first character.
  unfoldable pub handle_message : Bytes → Dgdb platform → Outcome (Dgdb platform)
  unfolding find_pending erase_pending
  handle_message buffer db = do
    (message, id) ← take_message buffer
    let request_id = to_size id
    let client = sockaddr_to_host platform (find_pending request_id db.pending).client_sock
    db' ← parse_new_message_response platform client message request_id db
    ok (record db' { pending = erase_pending request_id db'.pending })

  -- The end of a search: the response goes to the client, and the entry is erased.
  unfoldable pub finish : ℕ → Bytes → Dgdb platform → Outcome (Dgdb platform)
  unfolding find_pending erase_pending
  finish request_id text db = do
    let client = sockaddr_to_host platform (find_pending request_id db.pending).client_sock
    db' ← parse_new_message_response platform client text request_id db
    ok (record db' { cud_blocking = false; pending = erase_pending request_id db'.pending })

  -- The next node is asked of the repository that it belongs to.
  unfoldable pub ask_next : ℕ → Bytes → ℕ → QueryState → Dgdb platform → Outcome (Dgdb platform)
  unfolding first_char host_at
  ask_next request_id next_node left state db = do
    r ← server_slot (first_char next_node) (length db.repositories)
    host ← host_at db.repositories (to_size r)
    parse_new_query platform next_node (to_int left) state.leaf state.attr host state.conditions
        request_id db

  -- `if (node_queue.empty()) … else …`
  unfoldable pub go_on : ℕ → List (Bytes × ℕ) → QueryState → Dgdb platform → Outcome (Dgdb platform)
  unfolding finish ask_next
  go_on request_id [] state db =
      finish request_id (codes "OK! Query complete\\n" ++ state.response) db
  go_on request_id ((next_node, left) ∷ queue) state db =
      ask_next request_id next_node left state db

  -- The answer is that of the front of the queue: the search goes on from the state that it makes.
  unfoldable pub advance : ℕ → Pending → QueryState → Dgdb platform → Outcome (Dgdb platform)
  unfolding go_on put_pending
  advance request_id entry state db = go_on request_id state.node_queue state (record db {
    pending = put_pending request_id (record entry { state = some state }) db.pending;
  })

  -- The answer is compared with the front of the queue. The front of an empty queue has no
  -- behaviour.
  unfoldable pub answer :
      ℕ → Info → Pending → QueryState → List (Bytes × ℕ) → Dgdb platform → Outcome (Dgdb platform)
  unfolding advance finish visit
  answer request_id info entry state [] db = fault undefined
  answer request_id info entry state ((top_node, left) ∷ queue) db =
      if same top_node info.node_name
      then advance request_id entry (visit left queue info state) db
      else finish request_id (codes "[ERROR] Internal Error") db

  -- A null pointer has no behaviour.
  unfoldable pub answer_of :
      ℕ → Info → Pending → Option QueryState → Dgdb platform → Outcome (Dgdb platform)
  unfolding answer
  answer_of request_id info entry none db = fault undefined
  answer_of request_id info entry (some state) db =
      answer request_id info entry state state.node_queue db

  -- The branch 'I', behind its first character.
  unfoldable pub handle_info : Bytes → Dgdb platform → Outcome (Dgdb platform)
  unfolding answer_of find_pending
  handle_info buffer db = do
    info ← take_info buffer
    let request_id = to_size info.request_id
    let entry = find_pending request_id db.pending
    answer_of request_id info entry entry.state db
