-- ===== src/Rdt/Link/Refines.antt =====
-- Over such a network the receiver's text grows by one packet at a time, in the order of the sender.
use mathlib.Core.Path.{subst}
use distributed_graph_databa.Prelude.{◌≡◌, sym, inl, inr, ◌∷◌, ◌++◌, List, Bytes, All, not}
use distributed_graph_databa.Network.{Sockaddr}
use distributed_graph_databa.Rdt.Helper.{Packet}
use distributed_graph_databa.Rdt.Link.{
  Link, Step, times_out, passes_over, goes_on, takes, gives_up, loses, doubles, loses_ack,
  doubles_ack,
}
use distributed_graph_databa.Rdt.Link.Order.{
  Ordered, Ordered-remove, Ordered-double, All-remove, All-double,
}
use distributed_graph_databa.Rdt.Link.Promise.{
  IsSent, IsAck, IsFirst, Stream, Advance, Represents, Expects-forward, Expects-back, Holds-forward,
  Holds-back, stopped,
}
use distributed_graph_databa.Rdt.Link.Receives.{Advances, still, taken}
use distributed_graph_databa.Rdt.Link.Sends.{sent_again, passed_over, went_on}

-- What the network loses or doubles.
module _ (l : Link) (s : Stream) where
  module _ (front behind : List Packet) (p : Packet) (e : l.forward ≡ front ++ p ∷ behind) where
    lost : Represents l s → Represents (record l { forward = front ++ behind }) s
    lost (inl h) = Expects-forward l s _ h (
        Ordered-remove (IsSent (not l.bit) s.waiting) (IsFirst s.waiting) front behind p
          (subst (Ordered (IsSent (not l.bit) s.waiting) (IsFirst s.waiting)) e h.in_forward))
    lost (inr h) = Holds-forward l s _ h (
        All-remove (IsSent l.bit s.waiting) front behind p
          (subst (All (IsSent l.bit s.waiting)) e h.in_forward))

    doubled : Represents l s → Represents (record l { forward = front ++ p ∷ p ∷ behind }) s
    doubled (inl h) = Expects-forward l s _ h (
        Ordered-double (IsSent (not l.bit) s.waiting) (IsFirst s.waiting) front behind p
          (subst (Ordered (IsSent (not l.bit) s.waiting) (IsFirst s.waiting)) e h.in_forward))
    doubled (inr h) = Holds-forward l s _ h (
        All-double (IsSent l.bit s.waiting) front behind p
          (subst (All (IsSent l.bit s.waiting)) e h.in_forward))

  module _ (front behind : List Bytes) (ack : Bytes) (e : l.back ≡ front ++ ack ∷ behind) where
    lost_ack : Represents l s → Represents (record l { back = front ++ behind }) s
    lost_ack (inl h) = Expects-back l s _ l.listening h (
        All-remove (IsAck (not l.bit)) front behind ack
          (subst (All (IsAck (not l.bit))) e h.in_back))
    lost_ack (inr h) = Holds-back l s _ l.listening h (
        Ordered-remove (IsAck (not l.bit)) (IsAck l.bit) front behind ack
          (subst (Ordered (IsAck (not l.bit)) (IsAck l.bit)) e h.in_back))

    doubled_ack : Represents l s → Represents (record l { back = front ++ ack ∷ ack ∷ behind }) s
    doubled_ack (inl h) = Expects-back l s _ l.listening h (
        All-double (IsAck (not l.bit)) front behind ack
          (subst (All (IsAck (not l.bit))) e h.in_back))
    doubled_ack (inr h) = Holds-back l s _ l.listening h (
        Ordered-double (IsAck (not l.bit)) (IsAck l.bit) front behind ack
          (subst (Ordered (IsAck (not l.bit)) (IsAck l.bit)) e h.in_back))

module _ (sender peer : Sockaddr) where
  -- A state that an equation names, and that represents a stream.
  stays_at : (l l' m : Link) (s : Stream) → l' ≡ m → Represents m s → Advances l' s
  stays_at l l' m s e h = still l' s (subst (λ x. Represents x s) (sym e) h)

  -- Where the two ends and the network represent a stream of packets that were delivered and packets
  -- that wait, every step of them, be it the sender's, the receiver's or the network's, leaves a
  -- state that represents the same stream, or the stream with the first waiting packet delivered.
  pub Step-refines :
      (l l' : Link) (s : Stream)
      → Represents l s
      → Step sender peer l l'
      → (s' : Stream) × Advance s s' × Represents l' s'
  Step-refines l l' s h (times_out p packets events left ack_str last resent u answered silent e) =
      stays_at l l' _ s e (sent_again sender peer l s p packets h u)
  Step-refines l l' s h (passes_over p packets ack acks ack_str u b w e) =
      stays_at l l' _ s e (passed_over sender peer l s p ack acks ack_str h b w)
  Step-refines l l' s h (goes_on p packets ack acks ack_str last u b w e) =
      stays_at l l' _ s e (went_on sender peer l s p packets ack acks ack_str last h u b w)
  Step-refines l l' s h (takes p packets r more listens f run e) =
      subst (λ x. Advances x s) (sym e) (taken sender peer l s p packets r more run h f)
  Step-refines l l' s h (gives_up e) = stays_at l l' _ s e (stopped l s h)
  Step-refines l l' s h (loses front behind p f e) =
      stays_at l l' _ s e (lost l s front behind p f h)
  Step-refines l l' s h (doubles front behind p f e) =
      stays_at l l' _ s e (doubled l s front behind p f h)
  Step-refines l l' s h (loses_ack front behind ack b e) =
      stays_at l l' _ s e (lost_ack l s front behind ack b h)
  Step-refines l l' s h (doubles_ack front behind ack b e) =
      stays_at l l' _ s e (doubled_ack l s front behind ack b h)
