-- ===== src/Tests/Passing.antt =====
-- What the server passes on, at concrete inputs.
use distributed_graph_databa.Prelude.{List, Bytes, ◌++◌, ◌∷◌}
use distributed_graph_databa.Network.{Sockaddr}
use distributed_graph_databa.Dgdb.{Dgdb, sockaddr_to_host}
use distributed_graph_databa.Dgdb.Running.{
  run_connection, receive, dispatch, handle_register, conn_master_repository,
}
use distributed_graph_databa.Dgdb.Running.Keeps.{Kept}
use distributed_graph_databa.Dgdb.Running.Invariant.{
  run_connection-Kept, run_connection-WaitingIsValid,
}
use distributed_graph_databa.Dgdb.Running.Waiting.{WaitingIsValid}
use distributed_graph_databa.Dgdb.Answers.{contains}
use distributed_graph_databa.Dgdb.Answers.Search.{SearchIsValid}
use distributed_graph_databa.Text.{same}
use distributed_graph_databa.Dgdb.{find_pending, no_pending}
use distributed_graph_databa.Prelude.{◌≢◌}
use distributed_graph_databa.Prelude.{
  ℕ, ◌<◌, ◌≤◌, ◌≡◌, refl, [], ◌∷◌, ◌++◌, Bytes, get_elem?, true, false, some, ok, codes, arith,
}
use distributed_graph_databa.Text.{pos, at}
use distributed_graph_databa.Text.Decimal.{to_string, digits, padded}
use distributed_graph_databa.Wire.{Host}
use distributed_graph_databa.Wire.Query.{QueryRequest, take_query, new_query_text}
use distributed_graph_databa.Wire.Query.Conditions.{conditions_text}
use distributed_graph_databa.Wire.Query.RoundTrip.{QueryFits, new_query_text-eq, take_query-eq}
use distributed_graph_databa.Wire.Update.{UpdateRequest}
use distributed_graph_databa.Wire.Delete.{DeleteRequest}
use distributed_graph_databa.Dgdb.{sent, put_pending}
use distributed_graph_databa.Dgdb.Querying.{handle_query}
use distributed_graph_databa.Dgdb.Querying.Begins.{searching, handle_query-begins}
use distributed_graph_databa.Tests.Server.{platform, repository, from_addr, db, state}
use distributed_graph_databa.Tests.Creating.{idle}

abbrev pub query : QueryRequest
query = record {
  node_name = codes "A";
  depth = pos 1;
  leaf = false;
  attr = false;
  conditions = [];
  request_id = pos 0;
  buffer = codes "A10000";
}

query-QueryFits : (id : ℕ) → id < 1000 → QueryFits (codes "A") 1 [] id
query-QueryFits id h = record {
  name_fits = omega arith;
  one_digit_depth = omega arith;
  few_conditions = omega arith;
  conditions_fit = tt;
  id_fits = h;
}

pub query_read : take_query (codes "001A10000000") ≡ ok query
unfolding padded to_string digits conditions_text
query_read = take_query-eq (codes "A") 1 false false [] 0 (query-QueryFits 0 (omega arith))

query_written : new_query_text (codes "A") (pos 1) false false [] 2 ≡ ok (codes "R001A10000002")
unfolding padded to_string digits conditions_text
query_written = new_query_text-eq (codes "A") 1 false false [] 2 (query-QueryFits 2 (omega arith))

begins_example :
    (slot : ℕ) × (host : Host) × (1 ≤ slot)
    × (get_elem? idle.repositories slot ≡ some host)
    × (handle_query platform from_addr (codes "001A10000000") idle
        ≡ ok (record idle {
          pending = put_pending 2 (searching platform from_addr query) [];
          cud_blocking = true;
          calls = sent host (codes "R001A10000002") ∷ [];
          current_request = 3;
        }))
unfolding at
begins_example =
    handle_query-begins platform from_addr (codes "001A10000000") idle query b'A'
      (codes "R001A10000002") query_read refl refl (omega arith) (omega arith) query_written

abbrev renamed : UpdateRequest
renamed = record {
  node_name = codes "A";
  is_node = true;
  set_value = codes "B";
  attr = [];
  request_id = pos 0;
  buffer = codes "A";
}

abbrev removed : DeleteRequest
removed = record {
  node_name = codes "A";
  object = pos 0;
  attr_or_rel = [];
  request_id = pos 0;
  place = 1;
  buffer = codes "A0";
}

abbrev removal : Bytes
removal = codes "D0001A002215127.0.0.1:5000014" ++ codes "10.0.0.2:50001"

-- A repository attaches itself.
abbrev messages : List (Sockaddr × Bytes)
messages = (from_addr, codes "E") ∷ []

abbrev attached : Dgdb platform
attached = record idle {
  repository = true;
  repositories = idle.repositories ++ sockaddr_to_host platform from_addr ∷ [];
}

attached_run : run_connection platform messages idle ≡ ok attached
unfolding run_connection receive dispatch handle_register conn_master_repository
attached_run = refl

run_example : Kept platform idle attached
run_example = run_connection-Kept platform messages idle attached refl attached_run

-- A repository attaches itself while a search waits.
abbrev attached_db : Dgdb platform
attached_db = record db {
  repositories = db.repositories ++ sockaddr_to_host platform from_addr ∷ [];
}

waiting_run : run_connection platform messages db ≡ ok attached_db
unfolding run_connection receive dispatch handle_register conn_master_repository
waiting_run = refl

state-SearchIsValid : SearchIsValid state
unfolding contains same
state-SearchIsValid = record {
  distinct_visited = (refl, tt);
  distinct_queue = (refl, tt);
  waiting = ((refl, omega arith), tt);
}

queue_not_empty : state.node_queue ≢ []
queue_not_empty e = ground (arith, e)

waiting_example :
    WaitingIsValid platform attached_db
    × (find_pending attached_db.current_request attached_db.pending ≡ no_pending)
waiting_example =
    run_connection-WaitingIsValid platform messages db attached_db refl
      ((omega arith, (state-SearchIsValid, queue_not_empty)), tt) waiting_run
