-- ===== src/Tests/Server.antt =====
-- The server's handlers over a store in lists, at concrete inputs.
use distributed_graph_databa.Prelude.{
  ℕ, ◌+◌, ◌<◌, ◌≤◌, ◌≡◌, refl, [], ◌∷◌, List, Bytes, length, get_elem?, replicate, true, false,
  some, ok, fault, undefined, ◌==◌, if◌then◌else◌, codes, arith,
}
use distributed_graph_databa.Text.{to_int, ℤ, pos, to_size, same}
use distributed_graph_databa.Text.Decimal.{to_string, digits, padded}
use distributed_graph_databa.Schema.{done, Storage}
use distributed_graph_databa.Wire.{Host}
use distributed_graph_databa.Wire.Query.{new_query_text}
use distributed_graph_databa.Wire.Query.Conditions.{conditions_text}
use distributed_graph_databa.Wire.Reply.{Info, take_info, message_text}
use distributed_graph_databa.Network.{Sockaddr}
use distributed_graph_databa.Dgdb.{
  QueryState, sent, Platform, Dgdb, no_pending, find_pending, put_pending, sockaddr_to_host,
}
use distributed_graph_databa.Dgdb.Placement.{server_slot, repository_slot}
use distributed_graph_databa.Dgdb.Placement.Agreement.{
  Misplaced, server_slot_bounds, repository_slot-eq-server_slot, repository_slot_misplaces,
}
use distributed_graph_databa.Dgdb.Answers.{contains, visit, go_on, handle_info}
use distributed_graph_databa.Dgdb.Answers.Steps.{
  handle_info-asks, handle_info-finishes, go_on-overflows,
}
use distributed_graph_databa.Wire.Pieces.{texts_text, attributes_text}
use distributed_graph_databa.Wire.Reply.RoundTrip.{message_text-eq, take_info-eq}
use distributed_graph_databa.Wire.Query.RoundTrip.{new_query_text-eq}
use distributed_graph_databa.Dgdb.Running.{run_connection}
use distributed_graph_databa.Dgdb.Running.Gate.{
  message, create, delete, refusal, run_connection-blocked,
}

-- A store that forgets: the server does not read it.
abbrev no_store : Storage
no_store = record {
  Db = ℕ;
  nodes_named = λ db name. done [];
  attributes_of = λ db name. done [];
  relations_from = λ db name. done [];
  insert_node = λ db name. done (db + 1);
  insert_attribute = λ db attr. done (db + 1);
  insert_relation = λ db rel. done (db + 1);
}

abbrev pub platform : Platform
platform = record { storage = no_store; inet_ntop = λ address. codes "10.0.0.9" }

abbrev pub server : Host
server = record { ip = codes "127.0.0.1"; port = 50000 }

abbrev pub repository : Host
repository = record { ip = codes "10.0.0.2"; port = 50001 }

abbrev pub from_addr : Sockaddr
from_addr = record { sin_addr = 9; sin_port = 4000 }

abbrev pub state : QueryState
state = record {
  leaf = false;
  attr = false;
  depth = 1;
  conditions = [];
  node_queue = (codes "A", 1) ∷ [];
  visited = codes "A" ∷ [];
  response = [];
}

-- A server with one repository, on which one search runs.
abbrev pub db : Dgdb platform
db = record {
  storage = 0;
  port = 50000;
  ip = codes "127.0.0.1";
  connection = false;
  server = true;
  mode = b'S';
  number_repositories = 0;
  repository = true;
  main_port = 0;
  main_ip = [];
  repositories = server ∷ repository ∷ [];
  cud_blocking = true;
  current_request = 2;
  pending = (1, record { client_sock = from_addr; state = some state }) ∷ [];
  calls = [];
}

abbrev changes : List (Sockaddr × Bytes)
changes = (from_addr, codes "C0000") ∷ (from_addr, codes "D") ∷ []

blocked_example :
    run_connection platform changes db
    ≡ ok (record db {
      calls = refusal platform (from_addr, []) ∷ refusal platform (from_addr, []) ∷ [];
    })
blocked_example = run_connection-blocked platform changes db refl refl (create, (delete, tt))

server_slot_example : (r : ℕ) × (server_slot 200 4 ≡ ok (pos r)) × (1 ≤ r) × (r < 4)
server_slot_example = server_slot_bounds 200 4 (omega arith) (omega arith)

same_slot_example : (r : ℕ) × (server_slot 65 4 ≡ ok (pos r)) × (repository_slot 65 4 ≡ ok (pos r))
same_slot_example = repository_slot-eq-server_slot 65 4 (omega arith) (omega arith) (omega arith)

wrong_slot_example :
    (v : ℤ) × (repository_slot 195 (length db.repositories) ≡ ok v) × Misplaced db.repositories v
wrong_slot_example =
    repository_slot_misplaces 195 db.repositories (omega arith) (omega arith) (omega arith)
      (omega arith)

abbrev long_state : QueryState
long_state = record state { node_queue = []; response = replicate 980 b'x' }

overflow_example : go_on platform 1 long_state.node_queue long_state db ≡ fault undefined
overflow_example = go_on-overflows platform 1 long_state db refl (omega arith)

abbrev info : List Bytes → Info
info relations = record {
  node_name = codes "A";
  attributes = [];
  relations = relations;
  request_id = pos 1;
  valid_node = true;
}

related_read : take_info (codes "001A10001B0011") ≡ ok (info (codes "B" ∷ []))
unfolding padded to_string digits texts_text attributes_text
related_read = take_info-eq (codes "A") [] (codes "B" ∷ []) 1 true (record {
  name_fits = omega arith;
  few_relations = omega arith;
  few_attributes = omega arith;
  relations_fit = (omega arith, tt);
  attributes_fit = tt;
  id_fits = omega arith;
})

alone_read : take_info (codes "001A000011") ≡ ok (info [])
unfolding padded to_string digits texts_text attributes_text
alone_read = take_info-eq (codes "A") [] [] 1 true (record {
  name_fits = omega arith;
  few_relations = omega arith;
  few_attributes = omega arith;
  relations_fit = tt;
  attributes_fit = tt;
  id_fits = omega arith;
})

next_asked : new_query_text (codes "B") (to_int 0) false false [] 1 ≡ ok (codes "R001B00000001")
unfolding padded to_string digits to_int conditions_text
next_asked = new_query_text-eq (codes "B") 0 false false [] 1 (record {
  name_fits = omega arith;
  one_digit_depth = omega arith;
  few_conditions = omega arith;
  conditions_fit = tt;
  id_fits = omega arith;
})

abbrev after_asking : QueryState
after_asking = visit 1 [] (info (codes "B" ∷ [])) state

asks_example :
    (r : ℕ) × (host : Host) × (1 ≤ r)
    × (get_elem? db.repositories r ≡ some host)
    × (handle_info platform (codes "001A10001B0011") db
        ≡ ok (record db {
          pending =
              put_pending 1
                (record { client_sock = from_addr; state = some after_asking })
                db.pending;
          calls = sent host (codes "R001B00000001") ∷ [];
        }))
unfolding find_pending visit same contains to_size
asks_example =
    handle_info-asks platform (codes "001A10001B0011") db (info (codes "B" ∷ [])) state 1 []
      related_read refl refl (codes "B") 0 [] (codes "R001B00000001") refl (omega arith)
      (omega arith) next_asked

abbrev finished : Bytes
finished = codes "OK! Query complete\\nA [Depth = 0]\\n"

finished_sent : message_text finished 1 ≡ ok (message finished 1)
finished_sent = message_text-eq finished 1 (omega arith) (omega arith)

finishes_example :
    (db' : Dgdb platform) × (handle_info platform (codes "001A000011") db ≡ ok db')
    × (db'.calls ≡ sent (sockaddr_to_host platform from_addr) (message finished 1) ∷ [])
    × (db'.cud_blocking ≡ false)
    × ((key : ℕ)
        → find_pending key db'.pending
          ≡ (if 1 == key then no_pending else find_pending key db.pending))
unfolding find_pending visit same contains to_size to_string digits
finishes_example =
    handle_info-finishes platform (codes "001A000011") db (info []) state 1 [] alone_read refl refl
      (message finished 1) refl finished_sent
