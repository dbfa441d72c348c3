-- ===== src/Rdt/Socket.antt =====
-- rdt/RDT_UDP.h and rdt/RDT_UDP.cpp: the object RDT_UDP, a UDP socket and the size of its packets.
use distributed_graph_databa.Prelude.{ℕ}
use distributed_graph_databa.Network.{Returned}
use distributed_graph_databa.Network.Sockets.{
  Socket, Run, returned, stopped, new_udp_socket, udp_bind, udp_shutdown, udp_close,
}

record RdtUdp : Type 0 where
  udp_socket : Socket
  k_max_packet_length : ℕ

-- What an operation of the socket makes of the object.
data RdtRun : Type 0 where
  goes_on : RdtUdp → RdtRun
  ends : RdtRun

unfoldable with_socket : {A : Type 0} → ℕ → Run A → RdtRun
with_socket max_length (returned a s) =
    goes_on (record { udp_socket = s; k_max_packet_length = max_length })
with_socket max_length (stopped e s) = ends

-- `RDT_UDP::RDT_UDP`: the socket is opened first.
unfoldable new_rdt_udp : ℕ → Returned ℕ → RdtRun
unfolding with_socket new_udp_socket
new_rdt_udp max_packet_length r = with_socket max_packet_length (new_udp_socket r)

-- `RDT_UDP::Bind`, `RDT_UDP::Shutdown`, `RDT_UDP::Close`
unfoldable rdt_bind : ℕ → Returned ℕ → RdtUdp → RdtRun
unfolding with_socket udp_bind
rdt_bind port r rdt = with_socket rdt.k_max_packet_length (udp_bind port r rdt.udp_socket)

unfoldable rdt_shutdown : ℕ → RdtUdp → RdtRun
unfolding with_socket udp_shutdown
rdt_shutdown flags rdt = with_socket rdt.k_max_packet_length (udp_shutdown flags rdt.udp_socket)

unfoldable rdt_close : RdtUdp → RdtRun
unfolding with_socket udp_close
rdt_close rdt = with_socket rdt.k_max_packet_length (udp_close rdt.udp_socket)
