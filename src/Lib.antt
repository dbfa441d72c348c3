-- ===== src/Lib.antt =====
-- A verification library for the distributed graph database: a client, a main server and its
-- repositories, which speak messages of text over an acknowledged protocol on UDP.
--
-- The parts, and the files that model them:
-- - Schema.antt: src/DBSchema.h, the conditions of a query and the rows of the store. `Storage` is
--   the store of sqlite_orm as the program calls it, a parameter of everything that uses it.
-- - Wire.antt and Wire/: the messages of src/DGDB.cpp. `new_node_text` is the buffer of
--   `parseNewNode` (Wire/Create), `new_query_text` that of `parseNewQuery` (Wire/Query),
--   `new_update_text` and `new_delete_text` those of `parseNewUpdate` and `parseNewDelete`
--   (Wire/Update, Wire/Delete), `message_text` and `info_text` those of
--   `parseNewMessageResponse` and `parseNewInfoResponse` (Wire/Reply). The functions `take_…` are
--   the reads that a branch of `runConnection` begins with.
-- - Dgdb.antt and Dgdb/: the class DGDB of src/DGDB.h and src/DGDB.cpp. The record `Dgdb` has its
--   fields; `pending` is the map of requests that wait, and `calls` lists what the object asks of
--   its socket. Each branch of `runConnection` is a function `handle_…`: Dgdb/Answers has the
--   branches 'M' and 'I', Dgdb/Creating 'C', Dgdb/Querying 'R', Dgdb/Changing 'U' and 'D', and
--   Dgdb/Running the branch 'E', the loop and the constructor, Dgdb/Setup the setters that `main`
--   calls and `runServer`. Dgdb/Placement is the
--   choice of a repository for a node, and Dgdb/Conditions the test of a query's conditions.
--   Dgdb/Running/Rules is the interface of an invariant of the server: a record with one rule for
--   each kind of change; Rules/Round shows that a round of the loop keeps what follows the rules,
--   and Keeps and Waiting fill the record.
-- - Store.antt and Store/: the graph of names, attributes and relations that a repository's store holds,
--   as an abstract specification. The record `Laws` is what the branches 'C' and 'R' rely on in
--   sqlite_orm, and its `view` gives the graph; Tests/Store.antt fills it with a store in lists.
-- - Rdt.antt and Rdt/: src/rdt/. Rdt/Helper cuts a text into packets, Rdt/Packet writes and reads
--   them, Rdt/Transfer has the loops of `SendTo` and `RecvFrom`, and Rdt/Socket the object. Rdt/Link
--   puts a sender and a receiver at the ends of a network that keeps the order and may lose or repeat
--   what it carries: one step is a time-out, the read of one acknowledgement, one round of the
--   receiver, or a loss or copy of one datagram (Rdt/Link/Promise has the abstract stream and what
--   relates it to the two ends).
-- - Network.antt: the receiving calls of `UDPSocket` in src/network/Network.cpp, over what the
--   system calls give. Network/Sockets has the operations of `UDPSocket` and `TCPSocket` with the
--   calls that they make.
-- - Client.antt: the commands of the client (`setNode`, `setQuery`, `setUpdate`, `setDelete`,
--   `WaitResponse`), Tools.antt: src/tools.h, Main.antt and Main/: src/main.cpp.
-- - Prelude.antt, Text.antt and their folders: the shared lemmas, and what the code uses of
--   std::string, stoi, to_string and sprintf. A text is a list of bytes.
-- - Tests.antt and Tests/: the theorems at concrete inputs.
--
-- How the parts meet: a client's message reaches the server, which passes it to a repository under a
-- new request id and keeps the client's address in `pending`; the repository's answer 'M' or 'I'
-- carries the id back. A query is a search by breadth, one message 'R' and one answer 'I' for
-- each node. Every message goes through `SendTo`, which cuts it into packets of 20 bytes.
--
-- Faults: an exception that nothing catches, an exit and undefined behaviour are values of `Fault`,
-- and a handler returns an `Outcome`. `char` is signed, `int` has 32 bits, `size_t` 64.
--
-- Fuel: `split_data` has one step for each byte and one more, `to_string` one for each unit of its
-- number and one more; a search over a finite list of names has one for each name and one more.
-- `send_packets` and `recv_loop` run on the list of what each wait gives and return `none` while
-- they still wait.
--
-- Not modelled: sqlite_orm itself, the
-- thread that `runServer` starts and joins at once, the prints on the terminal, and the system
-- calls themselves.
pub mod Prelude
pub mod Text
pub mod Schema
pub mod Wire
pub mod Network
pub mod Dgdb
pub mod Rdt
pub mod Tools
pub mod Client
pub mod Main
pub mod Store
pub mod Tests
