-- ===== src/Network/Sockets/Owner.antt =====
-- network/Network.cpp: the descriptors of a `TCPSocket` over any sequence of its operations.
use mathlib.Core.Path.{subst}
use distributed_graph_databa.Prelude.{
  ℕ, ◌+◌, ◌≤◌, ◌≡◌, inl, inr, refl, sym, ap, ◌∙◌, [], ◌∷◌, ◌++◌, append-nil, append_assoc, List,
  length, length-append, Outcome, fault, ok, undefined, out_of_range, invalid_argument,
  system_error, exited, if◌then◌else◌, arith,
}
use distributed_graph_databa.Text.{neg}
use distributed_graph_databa.Network.{Received, Returned, success, failure, recv_from}
use distributed_graph_databa.Network.Sockets.{
  Call, socket_call, send_call, recv_call, bind_call, listen_call, connect_call, accept_call,
  shutdown_call, close_call, Socket, Run, returned, stopped, uninitialized, new_tcp_socket, made,
  closed_on_failure, open_socket, is_uninitialized, settled, received, tcp_recv, tcp_send, bind,
  set_listener_socket, shutdown, close, init, renew_socket, accept_connection, address, not_address,
  unknown_family, connect,
}
use distributed_graph_databa.Network.Sockets.Operations.{
  Operation, inits, renews, sends, receives, binds, listens, accepts, connects, shuts_down, closes,
  ignore, perform, performs, renewal, renewals, descriptor, opened, Owner, Tidy,
}

opened-append : (xs ys : List Call) → opened (xs ++ ys) ≡ opened xs ++ opened ys
unfolding opened
opened-append [] ys = refl
opened-append (x ∷ xs) ys =
    ap (λ r. descriptor x ++ r) (opened-append xs ys)
    ∙ sym (append_assoc (descriptor x) (opened xs) (opened ys))

-- A call that opens nothing.
module _ (call : Call) (s : Socket) (none_opened : descriptor call ≡ []) where
  opened-made : opened (made call s).calls ≡ opened s.calls
  unfolding made opened
  opened-made =
      opened-append s.calls (call ∷ [])
      ∙ ap (λ d. opened s.calls ++ (d ++ [])) none_opened
      ∙ append-nil (opened s.calls)

  Owner-made : (k : ℕ) → Owner k s → Owner k (made call s)
  unfolding made
  Owner-made k (inl (unset, nothing)) = inl (unset, opened-made ∙ nothing)
  Owner-made k (inr (d, others, set, list, few)) = inr (d, others, set, opened-made ∙ list, few)

  Tidy-closed : (k : ℕ) (r : Returned ℕ) → Owner k s → Tidy k (ignore (closed_on_failure call r s))
  unfolding closed_on_failure made
  Tidy-closed k (success n) h = Owner-made k h
  Tidy-closed k failure h = inr ((made call s).calls, refl)

Owner-mono : (j k : ℕ) (s : Socket) → j ≤ k → Owner j s → Owner k s
Owner-mono j k s le (inl h) = inl h
Owner-mono j k s le (inr (d, others, set, list, few)) = inr (d, others, set, list, omega arith)

Tidy-opened :
    (k : ℕ) (r : Returned ℕ) (s : Socket) → length (opened s.calls) ≤ k → Tidy k (open_socket r s)
unfolding open_socket made opened descriptor
Tidy-opened k (success d) s few =
    inr (d, opened s.calls, refl, opened-append s.calls (socket_call (success d) ∷ []), few)
Tidy-opened k failure s few = inl refl

none_few : (k : ℕ) (s : Socket) → opened s.calls ≡ [] → length (opened s.calls) ≤ k
none_few k s e = subst (λ xs. length xs ≤ k) (sym e) (omega arith)

Tidy-init : (k : ℕ) (r : Returned ℕ) (s : Socket) → Owner k s → Tidy k (init r s)
unfolding init is_uninitialized
Tidy-init k r s (inl (unset, nothing)) =
    subst (λ z. Tidy k (if is_uninitialized z then open_socket r s else returned tt s)) (sym unset)
      (Tidy-opened k r s (none_few k s nothing))
Tidy-init k r s (inr (d, others, set, list, few)) =
    subst (λ z. Tidy k (if is_uninitialized z then open_socket r s else returned tt s)) (sym set)
      (inr (d, others, set, list, few))

Tidy-renew : (k : ℕ) (r : Returned ℕ) (s : Socket) → Owner k s → Tidy (k + 1) (renew_socket r s)
unfolding renew_socket init is_uninitialized
Tidy-renew k r s (inl (unset, nothing)) =
    Tidy-opened (k + 1) r (record s { sock = uninitialized }) (none_few (k + 1) s nothing)
Tidy-renew k r s (inr (d, others, set, list, few)) =
    Tidy-opened (k + 1) r (record s { sock = uninitialized })
      (subst (λ xs. length xs ≤ k + 1) (sym list) (omega (arith, length-append others (d ∷ []))))

Tidy-settled :
    (k : ℕ) (call : Call) (s : Socket) (o : Outcome Received)
    → descriptor call ≡ []
    → Owner k s
    → Tidy k (ignore (settled call s o))
unfolding settled made
Tidy-settled k call s (ok got) e h = Owner-made call s e k h
Tidy-settled k call s (fault undefined) e h = tt
Tidy-settled k call s (fault exited) e h = inr ((made call s).calls, refl)
Tidy-settled k call s (fault out_of_range) e h = tt
Tidy-settled k call s (fault invalid_argument) e h = tt
Tidy-settled k call s (fault system_error) e h = tt

-- An operation that opens nothing, on a socket as it was.
same-Owner : (k : ℕ) (s : Socket) → Owner k s → Owner (k + 0) s
same-Owner k s h = Owner-mono k (k + 0) s (omega arith) h

-- A process that stops before its call, with the socket closed.
Tidy-closing : (k : ℕ) (s : Socket) → Tidy k (stopped exited (made (close_call s.sock) s))
unfolding made
Tidy-closing k s = inr (s.calls, refl)

perform-Tidy :
    (k : ℕ) (op : Operation) (s : Socket) → Owner k s → Tidy (k + renewal op) (perform op s)
unfolding perform renewal tcp_send tcp_recv bind set_listener_socket accept_connection connect
    shutdown close received descriptor
perform-Tidy k (inits r) s h = Tidy-init (k + 0) r s (same-Owner k s h)
perform-Tidy k (renews r) s h = Tidy-renew k r s h
perform-Tidy k (sends buffer r) s h =
    Tidy-closed (send_call s.sock buffer) s refl (k + 0) r (same-Owner k s h)
perform-Tidy k (receives size r) s h =
    Tidy-settled (k + 0) (recv_call s.sock size) s (recv_from size r) refl (same-Owner k s h)
perform-Tidy k (binds port r) s h =
    Tidy-closed (bind_call s.sock port) s refl (k + 0) r (same-Owner k s h)
perform-Tidy k (listens r) s h =
    Tidy-closed (listen_call s.sock 10) s refl (k + 0) r (same-Owner k s h)
perform-Tidy k (accepts (success d)) s h =
    Owner-made (accept_call s.sock) s refl (k + 0) (same-Owner k s h)
perform-Tidy k (accepts failure) s h =
    Owner-made (close_call (neg 1)) (made (accept_call s.sock) s) refl (k + 0)
      (Owner-made (accept_call s.sock) s refl (k + 0) (same-Owner k s h))
perform-Tidy k (connects (address ip) port r) s h =
    Tidy-closed (connect_call s.sock (record { sin_addr = ip; sin_port = port })) s refl (k + 0) r
      (same-Owner k s h)
perform-Tidy k (connects not_address port r) s h = Tidy-closing (k + 0) s
perform-Tidy k (connects unknown_family port r) s h = Tidy-closing (k + 0) s
perform-Tidy k (shuts_down flags) s h =
    Owner-made (shutdown_call s.sock flags) s refl (k + 0) (same-Owner k s h)
perform-Tidy k closes s h = Owner-made (close_call s.sock) s refl (k + 0) (same-Owner k s h)

-- One operation and what follows it.
Tidy-then :
    (j n : ℕ) (run : Run Unit) (later : Socket → Run Unit)
    → Tidy j run
    → ((s : Socket) → Owner j s → Tidy n (later s))
    → Tidy n (elim run [ returned _ s ↦ later s | stopped e s ↦ stopped e s ])
Tidy-then j n (returned _ s) later h next = next s h
Tidy-then j n (stopped exited s) later h next = h
Tidy-then j n (stopped undefined s) later h next = tt
Tidy-then j n (stopped out_of_range s) later h next = tt
Tidy-then j n (stopped invalid_argument s) later h next = tt
Tidy-then j n (stopped system_error s) later h next = tt

performs-from :
    (k n : ℕ) (ops : List Operation) (s : Socket)
    → n ≡ k + renewals ops
    → Owner k s
    → Tidy n (performs ops s)
unfolding performs renewals
performs-from k n [] s e h = Owner-mono k n s (omega arith) h
performs-from k n (op ∷ ops) s e h =
    Tidy-then (k + renewal op) n (perform op s) (performs ops) (perform-Tidy k op s h)
      (λ s' h'. performs-from (k + renewal op) n ops s' (omega arith) h')

-- Whatever a `TCPSocket` that starts without a descriptor is told to do, and whatever the system calls
-- give: while its operations return, it has no descriptor and opened none, or it has the one that it
-- opened last, and it opened at most as many others before as it was renewed; and where a call that
-- fails ends the process, the socket could not be opened, or the last call closes it.
pub performs-Tidy : (ops : List Operation) → Tidy (renewals ops) (performs ops new_tcp_socket)
unfolding opened
performs-Tidy ops =
    performs-from 0 (renewals ops) ops new_tcp_socket (omega arith) (inl (refl, refl))
