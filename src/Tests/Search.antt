-- ===== src/Tests/Search.antt =====
-- A search over three nodes that are related in a cycle, at concrete inputs.
use distributed_graph_databa.Prelude.{
  ℕ, ◌+◌, ◌≤◌, ◌≡◌, ◌↔◌, refl, [], ◌∷◌, List, Bytes, length, All, Bool, true, false, some, codes,
  arith,
}
use distributed_graph_databa.Text.{pos, to_size, same}
use distributed_graph_databa.Wire.Query.{QueryRequest}
use distributed_graph_databa.Wire.Reply.{Info}
use distributed_graph_databa.Dgdb.{QueryState}
use distributed_graph_databa.Dgdb.Answers.{contains, visit}
use distributed_graph_databa.Dgdb.Answers.Search.{SearchIsValid, visit-SearchIsValid}
use distributed_graph_databa.Dgdb.Answers.Ends.{In, search}
use distributed_graph_databa.Dgdb.Answers.Explored.{Walk}
use distributed_graph_databa.Dgdb.Querying.{start_state}
use distributed_graph_databa.Dgdb.Querying.Reaches.{query_reaches}

abbrev first : Bytes
first = codes "A"

abbrev second : Bytes
second = codes "B"

abbrev third : Bytes
third = codes "C"

abbrev all_nodes : List Bytes
all_nodes = first ∷ second ∷ third ∷ []

abbrev answer_with : Bytes → List Bytes → Info
answer_with node relations = record {
  node_name = node;
  attributes = [];
  relations = relations;
  request_id = pos 1;
  valid_node = true;
}

-- "A" names "B", "B" names "C", and every other node names "A".
abbrev ask_from : Bool → Bool → Bytes → Info
ask_from true is_second node = answer_with node (second ∷ [])
ask_from false true node = answer_with node (third ∷ first ∷ [])
ask_from false false node = answer_with node (first ∷ [])

abbrev ask : Bytes → Info
ask node = ask_from (same node first) (same node second) node

abbrev request : QueryRequest
request = record {
  node_name = first;
  depth = pos 2;
  leaf = false;
  attr = false;
  conditions = [];
  request_id = pos 0;
  buffer = first;
}

abbrev begun : QueryState
begun = record {
  leaf = false;
  attr = false;
  depth = 2;
  conditions = [];
  node_queue = (first, 2) ∷ [];
  visited = first ∷ [];
  response = [];
}

ask_from-In :
    (is_first is_second : Bool) (node : Bytes)
    → All (In all_nodes) (ask_from is_first is_second node).relations
unfolding contains same
ask_from-In true is_second node = (refl, tt)
ask_from-In false true node = (refl, (refl, tt))
ask_from-In false false node = (refl, tt)

ask-In : (node : Bytes) → All (In all_nodes) (ask node).relations
ask-In node = ask_from-In (same node first) (same node second) node

begun-SearchIsValid : SearchIsValid begun
unfolding contains same
begun-SearchIsValid = record {
  distinct_visited = (refl, tt);
  distinct_queue = (refl, tt);
  waiting = ((refl, omega arith), tt);
}

query_reaches_example :
    (t : QueryState) × (search ask (length all_nodes + 1) (start_state request) ≡ some t)
    × (t.node_queue ≡ [])
    × ((n : Bytes)
        → In t.visited n ↔ ((k : ℕ) × (k ≤ to_size request.depth) × Walk ask request.node_name k n))
unfolding contains same
query_reaches_example = query_reaches ask all_nodes request ask-In refl

visit_valid_example : SearchIsValid (visit 2 [] (ask first) begun)
visit_valid_example = visit-SearchIsValid first 2 [] (ask first) begun begun-SearchIsValid refl
