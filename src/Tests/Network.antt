-- ===== src/Tests/Network.antt =====
-- src/network/ at concrete inputs.
use distributed_graph_databa.Prelude.{[], ◌∷◌, List, codes}
use distributed_graph_databa.Network.{success, failure}
use distributed_graph_databa.Network.Sockets.{new_tcp_socket}
use distributed_graph_databa.Network.Sockets.Operations.{
  Operation, inits, renews, binds, sends, renewals, performs, Tidy,
}
use distributed_graph_databa.Network.Sockets.Owner.{performs-Tidy}

-- A socket that is renewed, and then fails to send.
abbrev operations : List Operation
operations =
    inits (success 3)
    ∷ binds 50000 (success 0)
    ∷ renews (success 4)
    ∷ sends (codes "ab") failure
    ∷ []

Tidy-example : Tidy (renewals operations) (performs operations new_tcp_socket)
Tidy-example = performs-Tidy operations
