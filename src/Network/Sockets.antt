-- ===== src/Network/Sockets.antt =====
-- network/Network.cpp and network/Network.h: the operations of `UDPSocket` and `TCPSocket`, over what
-- the system calls give, with the calls that they make.
pub mod Operations
pub mod Owner
use distributed_graph_databa.Prelude.{
  ℕ, [], ◌∷◌, ◌++◌, List, Bytes, Bool, false, ◌==◌, length, Fault, Outcome, ok, fault, undefined,
  exited, ltb, if◌then◌else◌,
}
use distributed_graph_databa.Text.{ℤ, pos, neg}
use distributed_graph_databa.Network.{
  Sockaddr, Returned, success, failure, Polled, poll_failed, timed_out, readable, other_event,
  Received, recv_from,
}

-- A system call with its arguments; the address of a family, a port and the ip.
pub data Call : Type 0 where
  socket_call : Returned ℕ → Call
  sendto_call : ℤ → Sockaddr → Bytes → Call
  recvfrom_call : ℤ → ℕ → Call
  send_call : ℤ → Bytes → Call
  recv_call : ℤ → ℕ → Call
  bind_call : ℤ → ℕ → Call
  listen_call : ℤ → ℕ → Call
  accept_call : ℤ → Call
  connect_call : ℤ → Sockaddr → Call
  shutdown_call : ℤ → ℕ → Call
  close_call : ℤ → Call

-- The member `sock`, and the calls so far.
pub record Socket : Type 0 where
  pub sock : ℤ
  pub calls : List Call

-- An operation gives a value, or ends the process.
pub data Run (A : Type 0) : Type 0 where
  returned : A → Socket → Run A
  stopped : Fault → Socket → Run A

-- `TCPSocket() : sock(-2)`, and `TCPSocket(int sock)`.
abbrev pub uninitialized : ℤ
uninitialized = neg 2

abbrev pub new_tcp_socket : Socket
new_tcp_socket = record { sock = uninitialized; calls = [] }

unfoldable pub is_uninitialized : ℤ → Bool
is_uninitialized (pos d) = false
is_uninitialized (neg n) = n == 2

unfoldable tcp_socket_of : ℤ → Socket
tcp_socket_of sock = record { sock = sock; calls = [] }

unfoldable pub made : Call → Socket → Socket
made call s = record s { calls = s.calls ++ call ∷ [] }

-- `if (ret < 0) { perror(…); close(sock); exit(1); }` behind a call.
unfoldable pub closed_on_failure : {A : Type 0} → Call → Returned A → Socket → Run A
unfolding made
closed_on_failure call (success a) s = returned a (made call s)
closed_on_failure call failure s = stopped exited (made (close_call s.sock) (made call s))

-- What `UDPSocket::UDPSocket` does, and `TCPSocket::Init` on a socket that has none.
unfoldable pub open_socket : Returned ℕ → Socket → Run Unit
unfolding made
open_socket (success d) s = returned tt (record (made (socket_call (success d)) s) { sock = pos d })
open_socket failure s = stopped exited (record (made (socket_call failure) s) { sock = neg 1 })

unfoldable pub new_udp_socket : Returned ℕ → Run Unit
unfolding open_socket
new_udp_socket r = open_socket r (record { sock = uninitialized; calls = [] })

-- `UDPSocket::GetSocketId`, which `RecvFromTillTimeout` asks for, and `TCPSocket::GetSocketId`.
unfoldable udp_socket_id : Socket → ℤ
udp_socket_id s = s.sock

unfoldable tcp_socket_id : Socket → ℤ
tcp_socket_id s = s.sock

-- `UDPSocket::SendTo`, to the address that `inet_addr` makes of the ip.
unfoldable send_to : (Bytes → ℕ) → Bytes → ℕ → Bytes → Returned ℕ → Socket → Run ℕ
unfolding closed_on_failure
send_to inet_addr ip_addr port buffer r s =
    closed_on_failure
      (sendto_call s.sock (record { sin_addr = inet_addr ip_addr; sin_port = port }) buffer) r s

-- What a call that receives comes to: `exit` behind a `close`, or a byte past the end of the buffer.
unfoldable pub settled : Call → Socket → Outcome Received → Run Received
unfolding made
settled call s (ok got) = returned got (made call s)
settled call s (fault undefined) = stopped undefined (made call s)
settled call s (fault e) = stopped e (made (close_call s.sock) (made call s))

-- `UDPSocket::RecvFrom` and, on a connection, `TCPSocket::Recv`.
unfoldable pub received : Call → ℕ → Returned (Bytes × Sockaddr) → Socket → Run Received
unfolding settled recv_from
received call size r s = settled call s (recv_from size r)

unfoldable udp_recv_from : ℕ → Returned (Bytes × Sockaddr) → Socket → Run Received
unfolding received
udp_recv_from size r s = received (recvfrom_call s.sock size) size r s

unfoldable pub tcp_recv : ℕ → Returned (Bytes × Sockaddr) → Socket → Run Received
unfolding received
tcp_recv size r s = received (recv_call s.sock size) size r s

-- `TCPSocket::Send`
unfoldable pub tcp_send : Bytes → Returned ℕ → Socket → Run ℕ
unfolding closed_on_failure
tcp_send buffer r s = closed_on_failure (send_call s.sock buffer) r s

-- `UDPSocket::Bind`
unfoldable pub udp_bind : ℕ → Returned ℕ → Socket → Run ℕ
unfolding closed_on_failure
udp_bind port r s = closed_on_failure (bind_call s.sock port) r s

-- `TCPSocket::Bind`
unfoldable pub bind : ℕ → Returned ℕ → Socket → Run ℕ
unfolding closed_on_failure
bind port r s = closed_on_failure (bind_call s.sock port) r s

-- `TCPSocket::SetListenerSocket`
unfoldable pub set_listener_socket : Returned ℕ → Socket → Run ℕ
unfolding closed_on_failure
set_listener_socket r s = closed_on_failure (listen_call s.sock 10) r s

-- `UDPSocket::Shutdown` and `UDPSocket::Close`: the results of the calls are not read.
unfoldable pub udp_shutdown : ℕ → Socket → Run Unit
unfolding made
udp_shutdown flags s = returned tt (made (shutdown_call s.sock flags) s)

unfoldable pub udp_close : Socket → Run Unit
unfolding made
udp_close s = returned tt (made (close_call s.sock) s)

-- `TCPSocket::Shutdown` and `TCPSocket::Close`
unfoldable pub shutdown : ℕ → Socket → Run Unit
unfolding made
shutdown flags s = returned tt (made (shutdown_call s.sock flags) s)

unfoldable pub close : Socket → Run Unit
unfolding made
close s = returned tt (made (close_call s.sock) s)

-- `TCPSocket::Init`
unfoldable pub init : Returned ℕ → Socket → Run Unit
unfolding open_socket is_uninitialized
init r s = if is_uninitialized s.sock then open_socket r s else returned tt s

-- `TCPSocket::RenewSocket`
unfoldable pub renew_socket : Returned ℕ → Socket → Run Unit
unfolding init
renew_socket r s = init r (record s { sock = uninitialized })

-- `TCPSocket::AcceptConnection`: on a failure it closes what `accept` gave, -1, and returns it.
unfoldable pub accept_connection : Returned ℕ → Socket → Run ℤ
unfolding made
accept_connection (success d) s = returned (pos d) (made (accept_call s.sock) s)
accept_connection failure s =
    returned (neg 1) (made (close_call (neg 1)) (made (accept_call s.sock) s))

-- What `inet_pton` gives: an address, 0 for a text that is none, or -1.
pub data Parsed : Type 0 where
  address : ℕ → Parsed
  not_address : Parsed
  unknown_family : Parsed

-- `TCPSocket::Connect`
unfoldable pub connect : Parsed → ℕ → Returned ℕ → Socket → Run ℕ
unfolding made closed_on_failure
connect (address ip) port r s =
    closed_on_failure (connect_call s.sock (record { sin_addr = ip; sin_port = port })) r s
connect not_address port r s = stopped exited (made (close_call s.sock) s)
connect unknown_family port r s = stopped exited (made (close_call s.sock) s)
