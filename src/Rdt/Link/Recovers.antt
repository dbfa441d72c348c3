-- ===== src/Rdt/Link/Recovers.antt =====
-- Whatever the network did, the transfer can still be completed, even if all that is on its way is
-- lost.
use mathlib.Core.Path.{subst}
use mathlib.Core.Bool.{not-not}
use distributed_graph_databa.Prelude.{
  ◌≡◌, ◌⊎◌, refl, sym, ap, ◌∙◌, inl, inr, [], ◌∷◌, ◌++◌, List, Bytes, append_assoc, append-nil,
  Bool, true, not, ltb, ◌≢◌, arith,
}
use distributed_graph_databa.Network.{Sockaddr}
use distributed_graph_databa.Rdt.Helper.{Packet}
use distributed_graph_databa.Rdt.Helper.Split.{contents}
use distributed_graph_databa.Rdt.Packet.{packet_to_string, ack_to_string}
use distributed_graph_databa.Rdt.Transfer.{Receiver, take_packet}
use distributed_graph_databa.Rdt.Transfer.Rounds.{recv_round-deliver}
use distributed_graph_databa.Rdt.Transfer.Sending.{
  ack_of, acknowledge, wait_ack-ack, wait_ack-silence,
}
use distributed_graph_databa.Rdt.Link.{
  Link, first_sent, Step, times_out, goes_on, takes, loses, loses_ack, Steps, here, next,
}
use distributed_graph_databa.Rdt.Link.Promise.{
  IsSent, Stream, Expects, Holds, Represents, cleared, texts_of, acks-again,
}
use distributed_graph_databa.Rdt.Link.Receives.{Expects-first, Holds-again}
use distributed_graph_databa.Rdt.Link.Sends.{tail, acknowledged, waited-ack}

cons_not_nil : (q : Packet) (rest : List Packet) → q ∷ rest ≢ []
cons_not_nil q rest e = ground (arith, e)

module _ (sender peer : Sockaddr) where
  pub Steps-trans :
      {l m n : Link} → Steps sender peer l m → Steps sender peer m n → Steps sender peer l n
  Steps-trans steps here = steps
  Steps-trans steps (next later step) = next (Steps-trans steps later) step

  one : {l m : Link} → Step sender peer l m → Steps sender peer l m
  one step = next here step

  lose_packets :
      (l : Link) (packets : List Packet)
      → Steps sender peer (record l { forward = packets }) (record l { forward = [] })
  lose_packets l [] = here
  lose_packets l (p ∷ packets) =
      Steps-trans (one (loses [] packets p refl refl)) (lose_packets l packets)

  lose_acks :
      (l : Link) (acks : List Bytes)
      → Steps sender peer (record l { back = acks }) (record l { back = [] })
  lose_acks l [] = here
  lose_acks l (ack ∷ acks) = Steps-trans (one (loses_ack [] acks ack refl refl)) (lose_acks l acks)

  -- All that is on its way is lost, and the packet that the sender waits for is sent again.
  abbrev again : Link → Packet → Link
  again l p = record l { forward = p ∷ []; back = [] }

  send_again :
      (l : Link) (p : Packet) (packets : List Packet)
      → l.unsent ≡ p ∷ packets
      → Steps sender peer l (again l p)
  send_again l p packets u =
      let answered = wait_ack-ack peer p l.bit [] [] in
      let silent =
        wait_ack-silence peer p l.bit (acknowledge peer l.bit ∷ []) [] []
          (ack_to_string (ack_of l.bit)) [] answered in
      Steps-trans (lose_packets l l.forward) (
        next (lose_acks (record l { forward = [] }) l.back)
          (times_out p packets (acknowledge peer l.bit ∷ []) [] [] _ [] u answered silent refl))

  -- What the receiver makes of it.
  abbrev received : Link → Packet → Receiver
  received l p = take_packet (cleared l.receiver) (packet_to_string p) sender p

  abbrev more : Packet → Bool
  more p = not (ltb p.len 10)

  abbrev arrived : Link → Packet → Link
  arrived l p = record (again l p) {
    forward = [];
    back = texts_of (received l p);
    receiver = received l p;
    listening = more p;
  }

  take_again :
      (l : Link) (p : Packet) (packets : List Packet) (bit : Bool) (rest : List Packet)
      → l.unsent ≡ p ∷ packets
      → l.listening ≡ true
      → IsSent bit rest p
      → Steps sender peer l (arrived l p)
  take_again l p packets bit rest u listens h = next (send_again l p packets u) (
      takes p [] (received l p) (more p) listens refl
        (recv_round-deliver sender (cleared l.receiver) p h.sound h.clean) refl)

  from_Expects :
      (l : Link) (delivered : List Packet) (p : Packet) (rest : List Packet)
      → Expects l (record { delivered = delivered; waiting = p ∷ rest })
      → l.listening ≡ true
      → (m : Link) × Steps sender peer l m
        × Holds m (record { delivered = delivered ++ p ∷ []; waiting = rest })
        × ((m.listening ≡ true) ⊎ (rest ≡ []))
  from_Expects l delivered p rest h listens =
      let s : Stream = record { delivered = delivered; waiting = p ∷ rest } in
      let (sent, _) = h.prepared in
      let fresh : Expects (again l p) s = record {
        same_packets = h.same_packets;
        same_bits = h.same_bits;
        in_forward = inr (refl, tt);
        in_back = tt;
        collects = h.collects;
        prepared = h.prepared;
      } in
      let run = recv_round-deliver sender (cleared l.receiver) p sent.sound sent.clean in
      let (rest', e, holds) =
        Expects-first sender peer (again l p) s p [] (received l p) (more p) run fresh refl tt in
      (
        arrived l p,
        take_again l p rest l.bit rest h.same_packets listens sent,
        subst (λ w. Holds (arrived l p) (record { delivered = delivered ++ p ∷ []; waiting = w }))
            (ap tail (sym e)) holds,
        sent.goes_on_or_last,
      )

  from_Holds :
      (l : Link) (delivered : List Packet) (q : Packet) (rest : List Packet)
      → Holds l (record { delivered = delivered; waiting = q ∷ rest })
      → l.listening ≡ true
      → (m : Link) × Steps sender peer l m
        × Expects m (record { delivered = delivered; waiting = q ∷ rest })
        × (m.listening ≡ true)
  from_Holds l delivered q rest h listens =
      let s : Stream = record { delivered = delivered; waiting = q ∷ rest } in
      let p = h.held in
      let fresh : Holds (again l p) s = record {
        held = p;
        unsent_held = h.unsent_held;
        flipped = h.flipped;
        held_sent = h.held_sent;
        in_forward = (h.held_sent, tt);
        in_back = tt;
        collects = h.collects;
        prepared = h.prepared;
      } in
      let run =
        recv_round-deliver sender (cleared l.receiver) p h.held_sent.sound h.held_sent.clean in
      let holds =
        Holds-again sender peer (again l p) s p [] (received l p) (more p) run fresh h.held_sent
          tt in
      let bits : l.bit ≡ not l.receiver.alternate_bit = sym (ap not h.flipped ∙ not-not l.bit) in
      let old = subst (λ b. IsSent b (q ∷ rest) p) bits h.held_sent in
      let acks =
        acks-again sender l.receiver (packet_to_string p) p old.number
        ∙ ap (λ b. ack_to_string (ack_of b) ∷ []) (sym bits) in
      let (last, w) = waited-ack sender peer p l.bit (ack_to_string (ack_of l.bit)) [] refl in
      (
        record (arrived l p) {
          unsent = q ∷ rest;
          bit = not l.bit;
          forward = first_sent (q ∷ rest);
          back = [];
        },
        next (take_again l p (q ∷ rest) l.bit (q ∷ rest) h.unsent_held listens h.held_sent) (
            goes_on p (q ∷ rest) (ack_to_string (ack_of l.bit)) [] [] last h.unsent_held acks w
              refl),
        acknowledged sender peer (arrived l p) s p (q ∷ rest) [] holds h.unsent_held tt,
        listening-more h.held_sent.goes_on_or_last,
      )
    where
      listening-more : ((more h.held ≡ true) ⊎ (q ∷ rest ≡ [])) → more h.held ≡ true
      listening-more (inl e) = e
      listening-more (inr e) = absurd (cons_not_nil q rest e)

  -- What was delivered is all, or the rest can be delivered too.
  delivered_first :
      (m : Link) (delivered : List Packet) (p : Packet) (rest : List Packet) (l : Link)
      → Steps sender peer l m
      → Holds m (record { delivered = delivered ++ p ∷ []; waiting = rest })
      → (m.listening ≡ true) ⊎ (rest ≡ [])
      → (m.listening ≡ true
          → (n : Link) × Steps sender peer m n
            × (n.receiver.collected ≡ contents ((delivered ++ p ∷ []) ++ rest)))
      → (n : Link) × Steps sender peer l n
        × (n.receiver.collected ≡ contents (delivered ++ p ∷ rest))
  delivered_first m delivered p rest l steps holds (inl listens) k =
      let (n, later, e) = k listens in
      (n, Steps-trans steps later, e ∙ ap contents (append_assoc delivered (p ∷ []) rest))
  delivered_first m delivered p rest l steps holds (inr e) k =
      (m, steps, holds.collects ∙ ap (λ r. contents (delivered ++ p ∷ r)) (sym e))

  pub completes :
      (l : Link) (delivered waiting : List Packet)
      → Represents l (record { delivered = delivered; waiting = waiting })
      → l.listening ≡ true
      → (m : Link) × Steps sender peer l m
        × (m.receiver.collected ≡ contents (delivered ++ waiting))
  completes l delivered [] (inl h) listens =
      (l, here, h.collects ∙ ap contents (sym (append-nil delivered)))
  completes l delivered [] (inr h) listens =
      (l, here, h.collects ∙ ap contents (sym (append-nil delivered)))
  completes l delivered (p ∷ rest) (inl h) listens =
      let (m, steps, holds, more_or_last) = from_Expects l delivered p rest h listens in
      delivered_first m delivered p rest l steps holds more_or_last
        (λ listens'. completes m (delivered ++ p ∷ []) rest (inr holds) listens')
  completes l delivered (p ∷ rest) (inr h) listens =
      let (k, before, expects, listens') = from_Holds l delivered p rest h listens in
      let (m, steps, holds, more_or_last) = from_Expects k delivered p rest expects listens' in
      delivered_first m delivered p rest l (Steps-trans before steps) holds more_or_last
        (λ listens''. completes m (delivered ++ p ∷ []) rest (inr holds) listens'')
