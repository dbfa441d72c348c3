-- ===== src/Tests/Creating.antt =====
-- A new node at the server, and the answer to the client, at concrete inputs.
use distributed_graph_databa.Prelude.{
  ℕ, ◌≡◌, [], ◌∷◌, ◌++◌, Bytes, false, none, ok, ◌==◌, if◌then◌else◌, codes, arith,
}
use distributed_graph_databa.Text.{pos}
use distributed_graph_databa.Text.Decimal.{to_string, digits, padded}
use distributed_graph_databa.Wire.Create.{CreateRequest}
use distributed_graph_databa.Wire.Reply.{message_text, take_message}
use distributed_graph_databa.Dgdb.{sent, Dgdb, no_pending, find_pending, sockaddr_to_host}
use distributed_graph_databa.Dgdb.Answers.{handle_message}
use distributed_graph_databa.Wire.Reply.RoundTrip.{message_text-eq, take_message-eq}
use distributed_graph_databa.Dgdb.Creating.Passed.{handle_message-answers}
use distributed_graph_databa.Dgdb.Running.Gate.{message}
use distributed_graph_databa.Tests.Server.{platform, from_addr, db}

abbrev asked : CreateRequest
asked = record {
  node_name = codes "A";
  attributes = [];
  relations = [];
  request_id = pos 0;
  place = 3;
  buffer = codes "A000";
}

-- The server without a running search.
abbrev pub idle : Dgdb platform
idle = record db { cud_blocking = false; pending = [] }

abbrev passed : Bytes
passed = codes "C001A00002215127.0.0.1:5000014" ++ codes "10.0.0.2:50001"

-- The server with a client that waits.
abbrev waiting : Dgdb platform
waiting = record idle { pending = (2, record { client_sock = from_addr; state = none }) ∷ [] }

message_read : take_message (codes "003OK!002") ≡ ok (codes "OK!", pos 2)
unfolding padded to_string digits
message_read = take_message-eq (codes "OK!") 2 (omega arith) (omega arith)

message_written : message_text (codes "OK!") 2 ≡ ok (message (codes "OK!") 2)
message_written = message_text-eq (codes "OK!") 2 (omega arith) (omega arith)

answers_example :
    (db' : Dgdb platform) × (handle_message platform (codes "003OK!002") waiting ≡ ok db')
    × (db'.calls ≡ sent (sockaddr_to_host platform from_addr) (message (codes "OK!") 2) ∷ [])
    × ((key : ℕ)
        → find_pending key db'.pending
          ≡ (if 2 == key then no_pending else find_pending key waiting.pending))
unfolding find_pending
answers_example =
    handle_message-answers platform (codes "003OK!002") waiting (codes "OK!") 2
      (message (codes "OK!") 2) message_read message_written
