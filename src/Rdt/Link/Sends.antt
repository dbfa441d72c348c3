-- ===== src/Rdt/Link/Sends.antt =====
-- What the sender makes of the promise, when it sends again or reads an acknowledgement.
use mathlib.Core.Path.{subst}
use mathlib.Core.Bool.{not-not}
use distributed_graph_databa.Prelude.{
  ◌≡◌, sym, ap, ◌∙◌, inl, inr, [], ◌∷◌, ◌++◌, List, Bytes, All, Bool, not, Outcome, Option, none,
  some, ok, arith, append-nil, All-append,
}
use distributed_graph_databa.Network.{Sockaddr, Polled, readable, success}
use distributed_graph_databa.Rdt.Helper.{Packet}
use distributed_graph_databa.Rdt.Transfer.{wait_ack}
use distributed_graph_databa.Rdt.Transfer.Sending.{wait_ack-ack, wait_ack-late}
use distributed_graph_databa.Rdt.Link.{Link, first_sent}
use distributed_graph_databa.Rdt.Link.Order.{Ordered, early-Ordered, Ordered-append}
use distributed_graph_databa.Rdt.Link.Promise.{
  IsSent, IsAck, IsFirst, cons-IsFirst, Stream, Expects, Holds, Represents, Expects-forward,
  Expects-back, Holds-forward, Holds-back,
}

abbrev pub tail : List Packet → List Packet
tail [] = []
tail (p ∷ packets) = packets

abbrev head : Packet → List Packet → Packet
head other [] = other
head other (p ∷ packets) = p

module _ (sender peer : Sockaddr) where
  abbrev Waited : Type 0
  Waited = Outcome (Option (List Bytes × Bytes × List Polled))

  -- The wait of the sender for one datagram.
  abbrev waited : Packet → Bool → Bytes → Bytes → Waited
  waited p bit ack ack_str = wait_ack p bit (readable (success (ack, peer)) ∷ []) ack_str

  waited-late :
      (p : Packet) (bit : Bool) (ack ack_str : Bytes)
      → IsAck (not bit) ack
      → waited p bit ack ack_str ≡ ok none
  unfolding wait_ack
  waited-late p bit ack ack_str e =
      ap (λ a. waited p bit a ack_str) e ∙ wait_ack-late peer p bit [] ack_str

  pub waited-ack :
      (p : Packet) (bit : Bool) (ack ack_str : Bytes)
      → IsAck bit ack
      → (last : Bytes) × (waited p bit ack ack_str ≡ ok (some ([], last, [])))
  waited-ack p bit ack ack_str e =
      (_, ap (λ a. waited p bit a ack_str) e ∙ wait_ack-ack peer p bit [] ack_str)

  differ : (o : Waited) (w : List Bytes × Bytes × List Polled) → o ≡ ok none → o ≡ ok (some w) → ⊥
  differ o w e f = ground (arith, e, f)

  module _ (l : Link) (s : Stream) where
    IsSent-IsFirst :
        (packets : List Packet) (bit : Bool)
        → packets ≡ s.waiting
        → All (IsSent bit s.waiting) l.forward
        → Ordered (IsSent bit s.waiting) (IsFirst s.waiting) (l.forward ++ first_sent packets)
    unfolding first_sent
    IsSent-IsFirst [] bit e h =
        subst (Ordered (IsSent bit s.waiting) (IsFirst s.waiting)) (sym (append-nil l.forward))
          (early-Ordered (IsSent bit s.waiting) (IsFirst s.waiting) l.forward h)
    IsSent-IsFirst (q ∷ packets) bit e h =
        Ordered-append (IsSent bit s.waiting) (IsFirst s.waiting) l.forward q
          (early-Ordered (IsSent bit s.waiting) (IsFirst s.waiting) l.forward h)
          (cons-IsFirst s.waiting q packets (sym e))

    -- The acknowledgement of the packet that the receiver has, and the next packet.
    pub acknowledged :
        (p : Packet) (packets : List Packet) (acks : List Bytes)
        → Holds l s
        → l.unsent ≡ p ∷ packets
        → All (IsAck l.bit) acks
        → Expects
            (record l {
              unsent = packets;
              bit = not l.bit;
              forward = l.forward ++ first_sent packets;
              back = acks;
            })
            s
    acknowledged p packets acks h u k =
        let same : packets ≡ s.waiting = ap tail (sym u ∙ h.unsent_held) in
        let same_bit = sym (not-not l.bit) in
        record {
          same_packets = same;
          same_bits = h.flipped;
          in_forward =
              IsSent-IsFirst packets (not (not l.bit)) same
                (subst (λ b. All (IsSent b s.waiting) l.forward) same_bit h.in_forward);
          in_back = subst (λ b. All (IsAck b) acks) same_bit k;
          collects = h.collects;
          prepared = h.prepared;
        }

    pub sent_again :
        (p : Packet) (packets : List Packet)
        → Represents l s
        → l.unsent ≡ p ∷ packets
        → Represents (record l { forward = l.forward ++ p ∷ [] }) s
    sent_again p packets (inl h) u = Expects-forward l s _ h (
        Ordered-append (IsSent (not l.bit) s.waiting) (IsFirst s.waiting) l.forward p h.in_forward
          (cons-IsFirst s.waiting p packets (sym h.same_packets ∙ u)))
    sent_again p packets (inr h) u =
        let same : p ≡ h.held = ap (head p) (sym u ∙ h.unsent_held) in
        Holds-forward l s _ h (
          All-append (IsSent l.bit s.waiting) l.forward (p ∷ []) h.in_forward
            (subst (IsSent l.bit s.waiting) (sym same) h.held_sent, tt))

    pub passed_over :
        (p : Packet) (ack : Bytes) (acks : List Bytes) (ack_str : Bytes)
        → Represents l s
        → l.back ≡ ack ∷ acks
        → waited p l.bit ack ack_str ≡ ok none
        → Represents (record l { back = acks }) s
    passed_over p ack acks ack_str (inl h) e w =
        Expects-back l s acks l.listening h (subst (All (IsAck (not l.bit))) e h.in_back).1
    passed_over p ack acks ack_str (inr h) e w =
        elim (subst (Ordered (IsAck (not l.bit)) (IsAck l.bit)) e h.in_back) [
          | inl (_, k) ↦ Holds-back l s acks l.listening h k
          | inr (now, _) ↦ absurd (differ _ _ w (waited-ack p l.bit ack ack_str now).1)
        ]

    pub went_on :
        (p : Packet) (packets : List Packet) (ack : Bytes) (acks : List Bytes)
        (ack_str last : Bytes)
        → Represents l s
        → l.unsent ≡ p ∷ packets
        → l.back ≡ ack ∷ acks
        → waited p l.bit ack ack_str ≡ ok (some ([], last, []))
        → Represents
            (record l {
              unsent = packets;
              bit = not l.bit;
              forward = l.forward ++ first_sent packets;
              back = acks;
            })
            s
    went_on p packets ack acks ack_str last (inl h) u e w =
        let (late, _) = subst (All (IsAck (not l.bit))) e h.in_back in
        absurd (differ _ _ (waited-late p l.bit ack ack_str late) w)
    went_on p packets ack acks ack_str last (inr h) u e w =
        elim (subst (Ordered (IsAck (not l.bit)) (IsAck l.bit)) e h.in_back) [
          | inl (late, _) ↦ absurd (differ _ _ (waited-late p l.bit ack ack_str late) w)
          | inr (_, k) ↦ inl (acknowledged p packets acks h u k)
        ]
