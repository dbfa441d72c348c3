-- ===== src/Dgdb/Querying/Reaches.antt =====
-- The search that the branch 'R' begins, answered to its end.
use distributed_graph_databa.Prelude.{
  ℕ, ◌+◌, ◌≤◌, ◌≡◌, ◌↔◌, refl, [], List, Bytes, length, All, some, arith,
}
use distributed_graph_databa.Text.{to_size}
use distributed_graph_databa.Text.Equality.{same_refl}
use distributed_graph_databa.Wire.Reply.{Info}
use distributed_graph_databa.Wire.Query.{QueryRequest}
use distributed_graph_databa.Dgdb.{QueryState}
use distributed_graph_databa.Dgdb.Answers.{contains}
use distributed_graph_databa.Dgdb.Answers.Search.{SearchIsValid}
use distributed_graph_databa.Dgdb.Answers.Ends.{In, search, search_ends}
use distributed_graph_databa.Dgdb.Answers.Explored.{Walk}
use distributed_graph_databa.Dgdb.Answers.Exact.{exact}
use distributed_graph_databa.Dgdb.Querying.{start_state}

-- The state in which the search of a request begins is valid.
pub start_state-SearchIsValid : (r : QueryRequest) → SearchIsValid (start_state r)
unfolding start_state contains
start_state-SearchIsValid r = record {
  distinct_visited = (refl, tt);
  distinct_queue = (refl, tt);
  waiting = ((rw (same_refl r.node_name), omega arith), tt);
}

-- If the nodes that the repositories can name are those of a finite list, then the search of a
-- request ends, with no more answers than the list has names and one, and it has visited exactly the nodes
-- that a walk along at most as many relations as its depth reaches from its first node.
pub query_reaches :
    (ask : Bytes → Info) (all : List Bytes) (r : QueryRequest)
    → ((node : Bytes) → All (In all) (ask node).relations)
    → In all r.node_name
    → (t : QueryState) × (search ask (length all + 1) (start_state r) ≡ some t)
      × (t.node_queue ≡ [])
      × ((n : Bytes)
          → In t.visited n ↔ ((k : ℕ) × (k ≤ to_size r.depth) × Walk ask r.node_name k n))
unfolding start_state
query_reaches ask all r closed known =
    let (t, run, empty, _) =
      search_ends ask all (start_state r) closed (start_state-SearchIsValid r) (known, tt) in
    (
      t,
      run,
      empty,
      exact ask r.node_name (to_size r.depth) (length all + 1) (start_state r) t refl refl run,
    )
