-- ===== src/Rdt/Link/Promise.antt =====
-- What the two ends of such a network promise together, and what stays true of them when the network
-- changes what is on its way.
use mathlib.Core.Path.{subst}
use distributed_graph_databa.Prelude.{
  ◌≡◌, ◌⊎◌, refl, sym, ap, ◌∙◌, inl, inr, [], ◌∷◌, ◌++◌, List, Bytes, map, append_assoc, All, Bool,
  Bool-cases, true, false, not, ltb, arith,
}
use distributed_graph_databa.Network.{Sockaddr}
use distributed_graph_databa.Rdt.Helper.{Packet, is_corrupt}
use distributed_graph_databa.Rdt.Helper.Split.{IsSound, contents}
use distributed_graph_databa.Rdt.Packet.{ack_to_string}
use distributed_graph_databa.Rdt.Transfer.{Receiver, take_packet}
use distributed_graph_databa.Rdt.Transfer.Rounds.{IsClean}
use distributed_graph_databa.Rdt.Transfer.Sending.{ack_of}
use distributed_graph_databa.Rdt.Link.{Link}
use distributed_graph_databa.Rdt.Link.Order.{Ordered}

-- A packet as the sender makes it, in front of `rest`: only the last may end the receiver's loop.
pub record IsSent (bit : Bool) (rest : List Packet) (p : Packet) : Type 0 where
  pub sound : IsSound 20 p
  pub clean : IsClean p
  pub number : p.sequence_number ≡ bit
  pub goes_on_or_last : (not (ltb p.len 10) ≡ true) ⊎ (rest ≡ [])

abbrev pub Prepared : Bool → List Packet → Type 0
Prepared bit [] = Unit
Prepared bit (p ∷ packets) = IsSent bit packets p × Prepared (not bit) packets

abbrev pub IsAck : Bool → Bytes → Type 0
IsAck bit text = text ≡ ack_to_string (ack_of bit)

abbrev pub IsFirst : List Packet → Packet → Type 0
IsFirst [] p = ⊥
IsFirst (q ∷ packets) p = p ≡ q

pub IsFirst-cons :
    (waiting : List Packet) (p : Packet)
    → IsFirst waiting p
    → (rest : List Packet) × (waiting ≡ p ∷ rest)
IsFirst-cons [] p h = absurd h
IsFirst-cons (q ∷ rest) p h = (rest, ap (λ x. x ∷ rest) (sym h))

pub cons-IsFirst :
    (waiting : List Packet) (p : Packet) (rest : List Packet)
    → waiting ≡ p ∷ rest
    → IsFirst waiting p
cons-IsFirst waiting p rest e = subst (λ w. IsFirst w p) (sym e) refl

-- What the link promises: the packets that were delivered, and those that wait.
pub record Stream : Type 0 where
  pub delivered : List Packet
  pub waiting : List Packet

-- One step of the promise: nothing, or the first packet that waits is delivered.
pub data Advance (s s' : Stream) : Type 0 where
  stays : s' ≡ s → Advance s s'
  delivers :
      (p : Packet) (packets : List Packet)
      → s.waiting ≡ p ∷ packets
      → s' ≡ record { delivered = s.delivered ++ p ∷ []; waiting = packets }
      → Advance s s'

-- The receiver expects the packet that the sender sends.
pub record Expects (l : Link) (s : Stream) : Type 0 where
  pub same_packets : l.unsent ≡ s.waiting
  pub same_bits : l.receiver.alternate_bit ≡ l.bit
  pub in_forward : Ordered (IsSent (not l.bit) s.waiting) (IsFirst s.waiting) l.forward
  pub in_back : All (IsAck (not l.bit)) l.back
  pub collects : l.receiver.collected ≡ contents s.delivered
  pub prepared : Prepared l.bit s.waiting

-- The receiver has the packet that the sender sends.
pub record Holds (l : Link) (s : Stream) : Type 0 where
  pub held : Packet
  pub unsent_held : l.unsent ≡ held ∷ s.waiting
  pub flipped : l.receiver.alternate_bit ≡ not l.bit
  pub held_sent : IsSent l.bit s.waiting held
  pub in_forward : All (IsSent l.bit s.waiting) l.forward
  pub in_back : Ordered (IsAck (not l.bit)) (IsAck l.bit) l.back
  pub collects : l.receiver.collected ≡ contents s.delivered
  pub prepared : Prepared (not l.bit) s.waiting

abbrev pub Represents : Link → Stream → Type 0
Represents l s = Expects l s ⊎ Holds l s

pub contents-append : (ps qs : List Packet) → contents (ps ++ qs) ≡ contents ps ++ contents qs
contents-append [] qs = refl
contents-append (p ∷ ps) qs =
    ap (λ c. p.content ++ c) (contents-append ps qs)
    ∙ sym (append_assoc p.content (contents ps) (contents qs))

-- The outbox of a round that starts with none.
abbrev pub cleared : Receiver → Receiver
cleared r = record r { acks = [] }

abbrev pub texts_of : Receiver → List Bytes
texts_of r = map (λ ack. ack.1) r.acks

module _ (sender : Sockaddr) (r : Receiver) (text : Bytes) (p : Packet) where
  pub acks-expected :
      p.sequence_number ≡ r.alternate_bit
      → is_corrupt p ≡ false
      → texts_of (take_packet (cleared r) text sender p)
        ≡ ack_to_string (ack_of r.alternate_bit) ∷ []
  unfolding take_packet
  acks-expected e h = elim (Bool-cases r.alternate_bit) [
    | inl bit ↦ ground arith
    | inr bit ↦ ground arith
  ]

  pub acks-again :
      p.sequence_number ≡ not r.alternate_bit
      → texts_of (take_packet (cleared r) text sender p)
        ≡ ack_to_string (ack_of (not r.alternate_bit)) ∷ []
  unfolding take_packet
  acks-again e = elim (Bool-cases r.alternate_bit) [
    | inl bit ↦ ground arith
    | inr bit ↦ ground arith
  ]

module _ (l : Link) (s : Stream) where
  pub Expects-forward :
      (packets : List Packet)
      → Expects l s
      → Ordered (IsSent (not l.bit) s.waiting) (IsFirst s.waiting) packets
      → Represents (record l { forward = packets }) s
  Expects-forward packets h k = inl (record {
    same_packets = h.same_packets;
    same_bits = h.same_bits;
    in_forward = k;
    in_back = h.in_back;
    collects = h.collects;
    prepared = h.prepared;
  })

  pub Expects-back :
      (acks : List Bytes) (listening : Bool)
      → Expects l s
      → All (IsAck (not l.bit)) acks
      → Represents (record l { back = acks; listening = listening }) s
  Expects-back acks listening h k = inl (record {
    same_packets = h.same_packets;
    same_bits = h.same_bits;
    in_forward = h.in_forward;
    in_back = k;
    collects = h.collects;
    prepared = h.prepared;
  })

  pub Holds-forward :
      (packets : List Packet)
      → Holds l s
      → All (IsSent l.bit s.waiting) packets
      → Represents (record l { forward = packets }) s
  Holds-forward packets h k = inr (record {
    held = h.held;
    unsent_held = h.unsent_held;
    flipped = h.flipped;
    held_sent = h.held_sent;
    in_forward = k;
    in_back = h.in_back;
    collects = h.collects;
    prepared = h.prepared;
  })

  pub Holds-back :
      (acks : List Bytes) (listening : Bool)
      → Holds l s
      → Ordered (IsAck (not l.bit)) (IsAck l.bit) acks
      → Represents (record l { back = acks; listening = listening }) s
  Holds-back acks listening h k = inr (record {
    held = h.held;
    unsent_held = h.unsent_held;
    flipped = h.flipped;
    held_sent = h.held_sent;
    in_forward = h.in_forward;
    in_back = k;
    collects = h.collects;
    prepared = h.prepared;
  })

  pub stopped : Represents l s → Represents (record l { listening = false }) s
  stopped (inl h) = Expects-back l.back false h h.in_back
  stopped (inr h) = Holds-back l.back false h h.in_back
