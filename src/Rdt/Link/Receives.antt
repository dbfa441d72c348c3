-- ===== src/Rdt/Link/Receives.antt =====
-- What a round of the receiver makes of the promise.
use mathlib.Core.Path.{subst}
use mathlib.Core.Bool.{not-not}
use distributed_graph_databa.Prelude.{
  ◌≡◌, refl, sym, ap, ◌∙◌, inl, inr, [], ◌∷◌, ◌++◌, List, append-nil, All, All-append, All-imp,
  Bool, not, ok, arith,
}
use distributed_graph_databa.Network.{Sockaddr}
use distributed_graph_databa.Rdt.Helper.{Packet}
use distributed_graph_databa.Rdt.Helper.Split.{contents}
use distributed_graph_databa.Rdt.Packet.{packet_to_string, ack_to_string}
use distributed_graph_databa.Rdt.Transfer.{Receiver, take_packet, recv_round}
use distributed_graph_databa.Rdt.Transfer.Rounds.{
  deliver, recv_round-deliver, take_expected, take_again,
}
use distributed_graph_databa.Rdt.Transfer.Sending.{ack_of}
use distributed_graph_databa.Rdt.Link.{Link}
use distributed_graph_databa.Rdt.Link.Order.{Ordered, early-Ordered, Ordered-append}
use distributed_graph_databa.Rdt.Link.Promise.{
  IsSent, Prepared, IsAck, IsFirst, IsFirst-cons, Stream, Advance, stays, delivers, Expects, Holds,
  Represents, contents-append, cleared, texts_of, acks-expected, acks-again,
}

-- What a step may come to.
abbrev pub Advances : Link → Stream → Type 0
Advances l s = (s' : Stream) × Advance s s' × Represents l s'

pub still : (l : Link) (s : Stream) → Represents l s → Advances l s
still l s h = (s, stays refl, h)

module _ (sender peer : Sockaddr) where
  -- A round of the receiver that starts with an empty outbox.
  round_takes :
      (r r' : Receiver) (more : Bool) (bit : Bool) (rest : List Packet) (p : Packet)
      → IsSent bit rest p
      → recv_round (cleared r) (deliver sender p) ≡ ok (r', more)
      → (r' ≡ take_packet (cleared r) (packet_to_string p) sender p)
  round_takes r r' more bit rest p h e =
      let known = recv_round-deliver sender (cleared r) p h.sound h.clean in
      ground (arith, e, known)

  -- A packet that the receiver has is taken again.
  took_again :
      (r r' : Receiver) (more : Bool) (rest : List Packet) (p : Packet)
      → IsSent (not r.alternate_bit) rest p
      → recv_round (cleared r) (deliver sender p) ≡ ok (r', more)
      → (r'.collected ≡ r.collected)
        × (r'.alternate_bit ≡ r.alternate_bit)
        × (texts_of r' ≡ ack_to_string (ack_of (not r.alternate_bit)) ∷ [])
  took_again r r' more rest p h e =
      let taken = round_takes r r' more (not r.alternate_bit) rest p h e in
      let (same_text, same_bit) = take_again (cleared r) (packet_to_string p) sender p h.number in
      (
        ap (λ (x : Receiver). x.collected) taken ∙ same_text,
        ap (λ (x : Receiver). x.alternate_bit) taken ∙ same_bit,
        ap texts_of taken ∙ acks-again sender r (packet_to_string p) p h.number,
      )

  -- A packet that the receiver expects is taken.
  took_expected :
      (r r' : Receiver) (more : Bool) (rest : List Packet) (p : Packet)
      → IsSent r.alternate_bit rest p
      → recv_round (cleared r) (deliver sender p) ≡ ok (r', more)
      → (r'.collected ≡ r.collected ++ p.content)
        × (r'.alternate_bit ≡ not r.alternate_bit)
        × (texts_of r' ≡ ack_to_string (ack_of r.alternate_bit) ∷ [])
  took_expected r r' more rest p h e =
      let taken = round_takes r r' more r.alternate_bit rest p h e in
      let (grown, flipped) =
        take_expected (cleared r) (packet_to_string p) sender p h.number h.sound.not_corrupt in
      (
        ap (λ (x : Receiver). x.collected) taken ∙ grown,
        ap (λ (x : Receiver). x.alternate_bit) taken ∙ flipped,
        ap texts_of taken
            ∙ acks-expected sender r (packet_to_string p) p h.number h.sound.not_corrupt,
      )

  module _ (l : Link) (s : Stream) (p : Packet) (packets : List Packet) (r : Receiver) (more : Bool)
      (run : recv_round (cleared l.receiver) (deliver sender p) ≡ ok (r, more)) where
    abbrev pub after : Link
    after = record l {
      forward = packets;
      back = l.back ++ texts_of r;
      receiver = r;
      listening = more;
    }

    -- The receiver expected another packet than this one, which it had.
    Expects-again :
        Expects l s
        → IsSent (not l.bit) s.waiting p
        → Ordered (IsSent (not l.bit) s.waiting) (IsFirst s.waiting) packets
        → Represents after s
    Expects-again h sent k =
        let old = subst (λ b. IsSent (not b) s.waiting p) (sym h.same_bits) sent in
        let (same_text, same_bit, acks) = took_again l.receiver r more s.waiting p old run in
        inl (record {
          same_packets = h.same_packets;
          same_bits = same_bit ∙ h.same_bits;
          in_forward = k;
          in_back =
              subst (λ a. All (IsAck (not l.bit)) (l.back ++ a)) (sym acks)
                (All-append (IsAck (not l.bit)) l.back _ h.in_back
                  (ap (λ b. ack_to_string (ack_of (not b))) h.same_bits, tt));
          collects = same_text ∙ h.collects;
          prepared = h.prepared;
        })

    pub Holds-again :
        Holds l s → IsSent l.bit s.waiting p → All (IsSent l.bit s.waiting) packets → Holds after s
    Holds-again h sent k =
        let bits : l.bit ≡ not l.receiver.alternate_bit = sym (ap not h.flipped ∙ not-not l.bit) in
        let old = subst (λ b. IsSent b s.waiting p) bits sent in
        let (same_text, same_bit, acks) = took_again l.receiver r more s.waiting p old run in
        record {
          held = h.held;
          unsent_held = h.unsent_held;
          flipped = same_bit ∙ h.flipped;
          held_sent = h.held_sent;
          in_forward = k;
          in_back =
              subst (λ a. Ordered (IsAck (not l.bit)) (IsAck l.bit) (l.back ++ a)) (sym acks)
                (Ordered-append (IsAck (not l.bit)) (IsAck l.bit) l.back _ h.in_back
                  (ap (λ b. ack_to_string (ack_of b)) (sym bits)));
          collects = same_text ∙ h.collects;
          prepared = h.prepared;
        }

    -- The packet that the receiver expected is delivered.
    pub Expects-first :
        Expects l s
        → IsFirst s.waiting p
        → All (IsFirst s.waiting) packets
        → (rest : List Packet) × (s.waiting ≡ p ∷ rest)
          × Holds after (record { delivered = s.delivered ++ p ∷ []; waiting = rest })
    Expects-first h first k =
        let (rest, e) = IsFirst-cons s.waiting p first in
        let (sent, prepared) = subst (Prepared l.bit) e h.prepared in
        let copies_sent =
          All-imp (IsFirst s.waiting) (IsSent l.bit rest) packets
            (λ q m. subst (IsSent l.bit rest) (sym (subst (λ w. IsFirst w q) e m)) sent) k in
        let expected = subst (λ b. IsSent b rest p) (sym h.same_bits) sent in
        let (grown, flipped, acks) = took_expected l.receiver r more rest p expected run in
        (
          rest,
          e,
          record {
            held = p;
            unsent_held = h.same_packets ∙ e;
            flipped = flipped ∙ ap not h.same_bits;
            held_sent = sent;
            in_forward = copies_sent;
            in_back =
                subst (λ a. Ordered (IsAck (not l.bit)) (IsAck l.bit) (l.back ++ a)) (sym acks)
                  (Ordered-append (IsAck (not l.bit)) (IsAck l.bit) l.back _
                    (early-Ordered (IsAck (not l.bit)) (IsAck l.bit) l.back h.in_back)
                    (ap (λ b. ack_to_string (ack_of b)) h.same_bits));
            collects =
                grown
                ∙ ap (λ c. c ++ p.content) h.collects
                ∙ ap (λ c. contents s.delivered ++ c) (sym (append-nil p.content))
                ∙ sym (contents-append s.delivered (p ∷ []));
            prepared = prepared;
          },
        )

    pub taken : Represents l s → l.forward ≡ p ∷ packets → Advances after s
    taken (inl h) e =
        elim (subst (Ordered (IsSent (not l.bit) s.waiting) (IsFirst s.waiting)) e h.in_forward) [
          | inl (old, k) ↦ still after s (Expects-again h old k)
          | inr (first, k) ↦
              let (rest, same, holds) = Expects-first h first k in
              (
                record { delivered = s.delivered ++ p ∷ []; waiting = rest },
                delivers p rest same refl,
                inr holds,
              )
        ]
    taken (inr h) e =
        let (sent, k) = subst (All (IsSent l.bit s.waiting)) e h.in_forward in
        still after s (inr (Holds-again h sent k))
