-- ===== src/Rdt/Link.antt =====
-- rdt/RDT_UDP.cpp: a sender in `SendTo` and a receiver in `RecvFrom` at the two ends of a network that
-- keeps the order of the datagrams, but may lose them and may bring them more than once.
pub mod Order
pub mod Promise
pub mod Receives
pub mod Sends
pub mod Refines
pub mod Recovers
pub mod Transfers
use distributed_graph_databa.Prelude.{
  ◌≡◌, [], ◌∷◌, ◌++◌, List, Bytes, map, Bool, true, false, not, none, some, ok,
}
use distributed_graph_databa.Network.{Sockaddr, Polled, timed_out, readable, success}
use distributed_graph_databa.Rdt.Helper.{Packet}
use distributed_graph_databa.Rdt.Packet.{packet_to_string}
use distributed_graph_databa.Rdt.Transfer.{Receiver, new_receiver, wait_ack, recv_round}
use distributed_graph_databa.Rdt.Transfer.Rounds.{deliver}

-- The packets of `SendTo` from the one on that it waits for, with its `alternate_bit`; the datagrams
-- on their way to the receiver and back; and the receiver, while its loop goes on.
pub record Link : Type 0 where
  pub unsent : List Packet
  pub bit : Bool
  pub forward : List Packet
  pub back : List Bytes
  pub receiver : Receiver
  pub listening : Bool

-- The next packet of the loop of `SendTo`, if there is one, is sent.
unfoldable pub first_sent : List Packet → List Packet
first_sent [] = []
first_sent (p ∷ packets) = p ∷ []

unfoldable pub new_link : List Packet → Link
unfolding first_sent
new_link packets = record {
  unsent = packets;
  bit = false;
  forward = first_sent packets;
  back = [];
  receiver = new_receiver;
  listening = true;
}

-- The packets come from `sender`, and the acknowledgements from `peer`. A time-out makes the wait send
-- its packet once more than it sends it without. The receiver's round starts
-- with no acknowledgement to send, and the network takes what it sends.
module _ (sender peer : Sockaddr) where
  pub data Step (l l' : Link) : Type 0 where
    times_out :
        (p : Packet) (packets : List Packet) (events left : List Polled) (ack_str last : Bytes)
        (resent : List Bytes)
        → l.unsent ≡ p ∷ packets
        → wait_ack p l.bit events ack_str ≡ ok (some (resent, last, left))
        → wait_ack p l.bit (timed_out ∷ events) ack_str
          ≡ ok (some (packet_to_string p ∷ resent, last, left))
        → l' ≡ record l { forward = l.forward ++ p ∷ [] }
        → Step l l'
    passes_over :
        (p : Packet) (packets : List Packet) (ack : Bytes) (acks : List Bytes) (ack_str : Bytes)
        → l.unsent ≡ p ∷ packets
        → l.back ≡ ack ∷ acks
        → wait_ack p l.bit (readable (success (ack, peer)) ∷ []) ack_str ≡ ok none
        → l' ≡ record l { back = acks }
        → Step l l'
    goes_on :
        (p : Packet) (packets : List Packet) (ack : Bytes) (acks : List Bytes)
        (ack_str last : Bytes)
        → l.unsent ≡ p ∷ packets
        → l.back ≡ ack ∷ acks
        → wait_ack p l.bit (readable (success (ack, peer)) ∷ []) ack_str ≡ ok (some ([], last, []))
        → l' ≡ record l {
          unsent = packets;
          bit = not l.bit;
          forward = l.forward ++ first_sent packets;
          back = acks;
        }
        → Step l l'
    takes :
        (p : Packet) (packets : List Packet) (r : Receiver) (more : Bool)
        → l.listening ≡ true
        → l.forward ≡ p ∷ packets
        → recv_round (record l.receiver { acks = [] }) (deliver sender p) ≡ ok (r, more)
        → l' ≡ record l {
          forward = packets;
          back = l.back ++ map (λ ack. ack.1) r.acks;
          receiver = r;
          listening = more;
        }
        → Step l l'
    gives_up : l' ≡ record l { listening = false } → Step l l'
    loses :
        (before after : List Packet) (p : Packet)
        → l.forward ≡ before ++ p ∷ after
        → l' ≡ record l { forward = before ++ after }
        → Step l l'
    doubles :
        (before after : List Packet) (p : Packet)
        → l.forward ≡ before ++ p ∷ after
        → l' ≡ record l { forward = before ++ p ∷ p ∷ after }
        → Step l l'
    loses_ack :
        (before after : List Bytes) (ack : Bytes)
        → l.back ≡ before ++ ack ∷ after
        → l' ≡ record l { back = before ++ after }
        → Step l l'
    doubles_ack :
        (before after : List Bytes) (ack : Bytes)
        → l.back ≡ before ++ ack ∷ after
        → l' ≡ record l { back = before ++ ack ∷ ack ∷ after }
        → Step l l'

  -- Any number of steps.
  pub data Steps (l : Link) : Link → Type 0 where
    here : Steps l l
    next : {m n : Link} → Steps l m → Step m n → Steps l n
