-- ===== src/Rdt/Transfer/Delivery.antt =====
-- What the receiver collects from the packets of a text.
use mathlib.Core.Path.{subst}
use distributed_graph_databa.Prelude.{
  ℕ, zero, suc, ◌≡◌, ◌≢◌, refl, sym, ap, ◌∙◌, [], ◌∷◌, ◌++◌, List, Bytes, append_assoc, append-nil,
  All, All-split, Bool, true, false, not, some, ok, ltb, arith, Bool-cases, inl, inr,
}
use distributed_graph_databa.Network.{Sockaddr, Polled, timed_out}
use distributed_graph_databa.Wire.Hosts.{Lacks}
use distributed_graph_databa.Rdt.Helper.{Packet, make_packets}
use distributed_graph_databa.Rdt.Helper.Split.{
  IsSound, Parts, Alternate, contents, bodies, make_packets_lem,
}
use distributed_graph_databa.Rdt.Packet.{newline, packet_to_string}
use distributed_graph_databa.Rdt.Transfer.{Receiver, take_packet, recv_loop, new_receiver}
use distributed_graph_databa.Rdt.Transfer.Rounds.{
  deliver, IsClean, recv_round-deliver, take_expected, take_again, flips, recv_loop-more,
  recv_loop-stop, recv_loop-timeout,
}

-- The same, a number of times more.
unfoldable pub copies : ℕ → Polled → List Polled → List Polled
copies zero polled rest = rest
copies (suc n) polled rest = polled ∷ copies n polled rest

-- The packets arrive in order, each of them once and as many times more as `again` says for the
-- packets behind it; then nothing arrives.
unfoldable pub arrivals : Sockaddr → (List Packet → ℕ) → List Packet → List Polled
unfolding copies
arrivals sender again [] = timed_out ∷ []
arrivals sender again (p ∷ packets) =
    deliver sender p ∷ copies (again packets) (deliver sender p) (arrivals sender again packets)

-- The receiver has collected the packets behind what it had.
abbrev Collects : List Polled → List Packet → Receiver → Type 0
Collects events packets r =
    (r' : Receiver) × (recv_loop events r ≡ ok (some r'))
    × (r'.collected ≡ r.collected ++ contents packets)

module _ (sender : Sockaddr) where
  go_on :
      (p : Packet) (packets : List Packet) (rest : List Polled) (r : Receiver)
      → IsSound 20 p
      → IsClean p
      → p.sequence_number ≡ r.alternate_bit
      → not (ltb p.len 10) ≡ true
      → Collects rest packets (take_packet r (packet_to_string p) sender p)
      → Collects (deliver sender p ∷ rest) (p ∷ packets) r
  go_on p packets rest r h clean bit long (r', run, e) =
      let taken = take_expected r (packet_to_string p) sender p bit h.not_corrupt in
      let next = take_packet r (packet_to_string p) sender p in
      (
        r',
        recv_loop-more (deliver sender p) rest r next
              (recv_round-deliver sender r p h clean ∙ ap (λ b. ok (next, b)) long)
            ∙ run,
        e
            ∙ ap (λ c. c ++ contents packets) taken.0
            ∙ append_assoc r.collected p.content (contents packets),
      )

  -- Copies of the packet that was taken last are passed over.
  pass_over :
      (n : ℕ) (p : Packet) (packets : List Packet) (rest : List Polled) (r : Receiver)
      → IsSound 20 p
      → IsClean p
      → p.sequence_number ≡ not r.alternate_bit
      → not (ltb p.len 10) ≡ true
      → ((next : Receiver)
          → next.alternate_bit ≡ r.alternate_bit
          → next.collected ≡ r.collected
          → Collects rest packets next)
      → Collects (copies n (deliver sender p) rest) packets r
  unfolding copies
  pass_over zero p packets rest r h clean bit long k = k r refl refl
  pass_over (suc n) p packets rest r h clean bit long k =
      let same_state = take_again r (packet_to_string p) sender p bit in
      let next = take_packet r (packet_to_string p) sender p in
      let (r', run, e) =
        pass_over n p packets rest next h clean (bit ∙ sym (ap not same_state.1)) long
          (λ later e1 e2. k later (e1 ∙ same_state.1) (e2 ∙ same_state.0)) in
      (
        r',
        recv_loop-more (deliver sender p) (copies n (deliver sender p) rest) r next
              (recv_round-deliver sender r p h clean ∙ ap (λ b. ok (next, b)) long)
            ∙ run,
        e ∙ ap (λ c. c ++ contents packets) same_state.0,
      )

  -- A packet and its copies, in front of what the receiver collects.
  take_copies :
      (n : ℕ) (p : Packet) (packets : List Packet) (rest : List Polled) (r : Receiver)
      → IsSound 20 p
      → IsClean p
      → p.sequence_number ≡ r.alternate_bit
      → not (ltb p.len 10) ≡ true
      → ((next : Receiver) → next.alternate_bit ≡ not r.alternate_bit → Collects rest packets next)
      → Collects (deliver sender p ∷ copies n (deliver sender p) rest) (p ∷ packets) r
  take_copies n p packets rest r h clean bit long k =
      let taken = take_expected r (packet_to_string p) sender p bit h.not_corrupt in
      let next = take_packet r (packet_to_string p) sender p in
      go_on p packets (copies n (deliver sender p) rest) r h clean bit long (
        pass_over n p packets rest next h clean
          (flips p.sequence_number r.alternate_bit next.alternate_bit bit taken.1) long
          (λ later e1 e2. k later (e1 ∙ taken.1)))

  stop :
      (p : Packet) (rest : List Polled) (r : Receiver)
      → IsSound 20 p
      → IsClean p
      → p.sequence_number ≡ r.alternate_bit
      → not (ltb p.len 10) ≡ false
      → Collects (deliver sender p ∷ rest) (p ∷ []) r
  stop p rest r h clean bit short =
      let taken = take_expected r (packet_to_string p) sender p bit h.not_corrupt in
      let next = take_packet r (packet_to_string p) sender p in
      (
        next,
        recv_loop-stop (deliver sender p) rest r next
            (recv_round-deliver sender r p h clean ∙ ap (λ b. ok (next, b)) short),
        taken.0 ∙ ap (λ c. r.collected ++ c) (sym (append-nil p.content)),
      )

  at_end : (r : Receiver) → Collects (timed_out ∷ []) [] r
  at_end r = (r, recv_loop-timeout [] r, sym (append-nil r.collected))

  module _ (again : List Packet → ℕ) where
    collects :
        (packets : List Packet) (bit : Bool) (r : Receiver)
        → All (IsSound 20) packets
        → All IsClean packets
        → Alternate bit packets
        → Parts 20 (bodies packets)
        → r.alternate_bit ≡ bit
        → Collects (arrivals sender again packets) packets r
    unfolding arrivals
    collects [] bit r h clean alt parts e = at_end r
    collects (p ∷ []) bit r h clean alt parts e = elim (Bool-cases (not (ltb p.len 10))) [
      | inl long ↦
          take_copies (again []) p [] (timed_out ∷ []) r h.0 clean.0 (alt.0 ∙ sym e) long
            (λ next _. at_end next)
      | inr short ↦
          stop p (copies (again []) (deliver sender p) (timed_out ∷ [])) r h.0 clean.0
            (alt.0 ∙ sym e) short
    ]
    collects (p ∷ q ∷ packets) bit r h clean alt parts e =
        let full : p.len ≡ 20 = omega (arith, h.0.length_sent, parts.0) in
        take_copies (again (q ∷ packets)) p (q ∷ packets) (arrivals sender again (q ∷ packets)) r
          h.0 clean.0 (alt.0 ∙ sym e) (ground arith)
          (λ next flipped.
            collects (q ∷ packets) (not bit) next h.1 clean.1 alt.1 parts.1 (flipped ∙ ap not e))

pub IsClean-contents :
    (packets : List Packet)
    → Lacks newline (contents packets)
    → Lacks 0 (contents packets)
    → All IsClean packets
IsClean-contents [] h k = tt
IsClean-contents (p ∷ packets) h k =
    let (hp, hs) = All-split (λ (d : ℕ). d ≢ newline) p.content (contents packets) h in
    let (kp, ks) = All-split (λ (d : ℕ). d ≢ 0) p.content (contents packets) k in
    ((hp, kp), IsClean-contents packets hs ks)

-- A text with no newline and no 0, cut into packets of 20 bytes that arrive in order, each of them
-- any number of times from one on and nothing behind the last, is what the receiver collects, once and
-- whole, whatever its length; the loop of the receiver ends.
pub recv_loop-make_packets :
    (text : Bytes) (sender : Sockaddr) (again : List Packet → ℕ)
    → Lacks newline text
    → Lacks 0 text
    → (packets : List Packet) × (r : Receiver) × (make_packets 20 text ≡ some packets)
      × (recv_loop (arrivals sender again packets) new_receiver ≡ ok (some r))
      × (r.collected ≡ text)
recv_loop-make_packets text sender again clean whole =
    let (packets, e, same_text, sound, alternate, parts) =
      make_packets_lem 20 text (omega arith) (omega arith) in
    let clean_packets =
      IsClean-contents packets (subst (Lacks newline) (sym same_text) clean)
        (subst (Lacks 0) (sym same_text) whole) in
    let (r, run, collected) =
      collects sender again packets false new_receiver sound clean_packets alternate parts refl in
    (packets, r, e, run, collected ∙ same_text)
