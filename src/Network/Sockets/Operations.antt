-- ===== src/Network/Sockets/Operations.antt =====
-- network/Network.cpp: a `TCPSocket` over any sequence of its operations.
use distributed_graph_databa.Prelude.{
  ℕ, ◌+◌, ◌≤◌, ◌≡◌, ◌⊎◌, [], ◌∷◌, ◌++◌, List, Bytes, length, exited,
}
use distributed_graph_databa.Text.{pos, neg}
use distributed_graph_databa.Network.{Sockaddr, Returned, success}
use distributed_graph_databa.Network.Sockets.{
  Call, socket_call, close_call, Socket, Run, returned, stopped, uninitialized, tcp_recv, tcp_send,
  bind, set_listener_socket, shutdown, close, init, renew_socket, accept_connection, Parsed,
  connect,
}

-- An operation with what its system calls give.
pub data Operation : Type 0 where
  inits : Returned ℕ → Operation
  renews : Returned ℕ → Operation
  sends : Bytes → Returned ℕ → Operation
  receives : ℕ → Returned (Bytes × Sockaddr) → Operation
  binds : ℕ → Returned ℕ → Operation
  listens : Returned ℕ → Operation
  accepts : Returned ℕ → Operation
  connects : Parsed → ℕ → Returned ℕ → Operation
  shuts_down : ℕ → Operation
  closes : Operation

abbrev pub ignore : {A : Type 0} → Run A → Run Unit
ignore (returned a s) = returned tt s
ignore (stopped e s) = stopped e s

unfoldable pub perform : Operation → Socket → Run Unit
unfolding init renew_socket tcp_send tcp_recv bind set_listener_socket accept_connection connect
    shutdown close
perform (inits r) s = init r s
perform (renews r) s = renew_socket r s
perform (sends buffer r) s = ignore (tcp_send buffer r s)
perform (receives size r) s = ignore (tcp_recv size r s)
perform (binds port r) s = ignore (bind port r s)
perform (listens r) s = ignore (set_listener_socket r s)
perform (accepts r) s = ignore (accept_connection r s)
perform (connects parsed port r) s = ignore (connect parsed port r s)
perform (shuts_down flags) s = shutdown flags s
perform closes s = close s

unfoldable pub performs : List Operation → Socket → Run Unit
unfolding perform
performs [] s = returned tt s
performs (op ∷ ops) s = elim (perform op s) [
  | returned _ s' ↦ performs ops s'
  | stopped e s' ↦ stopped e s'
]

unfoldable pub renewal : Operation → ℕ
renewal (renews r) = 1
renewal _ = 0

unfoldable pub renewals : List Operation → ℕ
unfolding renewal
renewals [] = 0
renewals (op ∷ ops) = renewal op + renewals ops

-- The descriptors that the calls opened.
unfoldable pub descriptor : Call → List ℕ
descriptor (socket_call (success d)) = d ∷ []
descriptor _ = []

unfoldable pub opened : List Call → List ℕ
unfolding descriptor
opened [] = []
opened (call ∷ calls) = descriptor call ++ opened calls

-- A socket that has none, or has the last that was opened, behind at most `k` others.
abbrev pub Owner : ℕ → Socket → Type 0
Owner k s =
    ((s.sock ≡ uninitialized) × (opened s.calls ≡ []))
    ⊎ ((d : ℕ) × (others : List ℕ) × (s.sock ≡ pos d)
        × (opened s.calls ≡ others ++ d ∷ [])
        × (length others ≤ k))

-- The process ends with its socket closed by the last call, if there was a socket.
abbrev pub Ended : Socket → Type 0
Ended s = (s.sock ≡ neg 1) ⊎ ((before : List Call) × (s.calls ≡ before ++ close_call s.sock ∷ []))

abbrev pub Tidy : ℕ → Run Unit → Type 0
Tidy k (returned a s) = Owner k s
Tidy k (stopped exited s) = Ended s
Tidy k (stopped _ s) = Unit
