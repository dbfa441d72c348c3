-- ===== src/Network.antt =====
-- network/Network.cpp: the UDP socket, over the results of the system calls that it makes.
pub mod Sockets
use distributed_graph_databa.Prelude.{
  ℕ, [], ◌∷◌, Bytes, length, Option, none, some, Outcome, ok, fault, undefined, exited, ltb, ◌==◌,
  if◌then◌else◌,
}

-- `sockaddr_in`, its port in the order of the machine.
pub record Sockaddr : Type 0 where
  pub sin_addr : ℕ
  pub sin_port : ℕ

-- What a system call that returns a count or -1 gives.
pub data Returned {ℓ} (A : Type ℓ) : Type ℓ where
  success : A → Returned A
  failure : Returned A

-- `if (ret < 0) { perror(…); close(sock); exit(1); }`
unfoldable pub or_exit {ℓ} : {A : Type ℓ} → Returned A → Outcome A
or_exit (success a) = ok a
or_exit failure = fault exited

-- `std::string(buffer)`: the bytes up to the first that is 0.
unfoldable pub c_string : Bytes → Bytes
c_string [] = []
c_string (c ∷ text) = if c == 0 then [] else c ∷ c_string text

pub record Received : Type 0 where
  pub count : ℕ
  pub from : Sockaddr
  pub text : Bytes

-- `UDPSocket::RecvFrom` into a buffer of a size: the call cuts a longer datagram, and a datagram that
-- fills the buffer leaves no place for the 0 behind it.
unfoldable pub recv_from : ℕ → Returned (Bytes × Sockaddr) → Outcome Received
unfolding c_string
recv_from size failure = fault exited
recv_from size (success (datagram, from)) =
    if ltb (length datagram) size
    then ok (record { count = length datagram; from = from; text = c_string datagram })
    else fault undefined

-- What `poll` reports, and the call of `recvfrom` that follows it.
pub data Polled : Type 0 where
  poll_failed : Polled
  timed_out : Polled
  readable : Returned (Bytes × Sockaddr) → Polled
  other_event : Polled

-- `UDPSocket::RecvFromTillTimeout`: the count, the sender if there is one, and the caller's text.
unfoldable pub recv_from_till_timeout : ℕ → Polled → Bytes → Outcome (ℕ × Option Sockaddr × Bytes)
unfolding recv_from
recv_from_till_timeout size poll_failed s = ok (0, none, s)
recv_from_till_timeout size timed_out s = ok (0, none, s)
recv_from_till_timeout size (readable r) s = elim (recv_from size r) [
  | fault e ↦ fault e
  | ok received ↦ ok (received.count, some received.from, received.text)
]
recv_from_till_timeout size other_event s = ok (0, none, [])
