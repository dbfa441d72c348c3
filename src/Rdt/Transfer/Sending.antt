-- ===== src/Rdt/Transfer/Sending.antt =====
-- What `SendTo` sends: each packet, and once more for each time-out, until its acknowledgement comes.
use distributed_graph_databa.Prelude.{
  ◌≡◌, refl, ◌∙◌, [], ◌∷◌, ◌++◌, List, Bytes, Bool, true, false, not, some, ok, arith,
}
use distributed_graph_databa.Text.Decimal.{to_string, digits}
use distributed_graph_databa.Network.{
  Sockaddr, Polled, timed_out, readable, success, c_string, recv_from, or_exit,
  recv_from_till_timeout,
}
use distributed_graph_databa.Rdt.Helper.{Packet}
use distributed_graph_databa.Rdt.Packet.{AckPacket, packet_to_string, ack_to_string, parse_ack}
use distributed_graph_databa.Rdt.Packet.RoundTrip.{parse_ack-ack_to_string}
use distributed_graph_databa.Rdt.Transfer.{k_max_ack_size, wait_ack, send_packets}

-- The acknowledgement of a bit, as the receiver sends it.
abbrev pub ack_of : Bool → AckPacket
ack_of bit = record { checksum = 0; len = 0; ack_number = bit }

abbrev pub acknowledge : Sockaddr → Bool → Polled
acknowledge sender bit = readable (success (ack_to_string (ack_of bit), sender))

-- While the sender waits: a time-out, or an acknowledgement of the other bit.
pub data Noise : Type 0 where
  silence : Noise
  late_ack : Noise

-- The noise of one wait, and then the acknowledgement.
unfoldable pub noisy : Sockaddr → Bool → List Noise → List Polled → List Polled
noisy sender bit [] rest = acknowledge sender bit ∷ rest
noisy sender bit (silence ∷ noise) rest = timed_out ∷ noisy sender bit noise rest
noisy sender bit (late_ack ∷ noise) rest =
    acknowledge sender (not bit) ∷ noisy sender bit noise rest

-- What is sent again: the packet, for each time-out.
unfoldable pub resent : Packet → List Noise → List Bytes
resent p [] = []
resent p (silence ∷ noise) = packet_to_string p ∷ resent p noise
resent p (late_ack ∷ noise) = resent p noise

-- The waits for all packets; `noise` gives that of the packet in front of some packets.
unfoldable pub waits : Sockaddr → (List Packet → List Noise) → Bool → List Packet → List Polled
unfolding noisy
waits sender noise bit [] = []
waits sender noise bit (p ∷ packets) =
    noisy sender bit (noise packets) (waits sender noise (not bit) packets)

unfoldable pub datagrams : (List Packet → List Noise) → List Packet → List Bytes
unfolding resent
datagrams noise [] = []
datagrams noise (p ∷ packets) =
    packet_to_string p ∷ (resent p (noise packets) ++ datagrams noise packets)

ack_received :
    (sender : Sockaddr) (bit : Bool) (s : Bytes)
    → recv_from_till_timeout k_max_ack_size (acknowledge sender bit) s
      ≡ ok (5, some sender, ack_to_string (ack_of bit))
unfolding recv_from_till_timeout recv_from or_exit c_string ack_to_string to_string digits
ack_received sender true s = refl
ack_received sender false s = refl

ack_read : (bit : Bool) → parse_ack (ack_to_string (ack_of bit)) ≡ ok (ack_of bit)
ack_read bit = parse_ack-ack_to_string (ack_of bit) (omega arith) (omega arith)

module _ (sender : Sockaddr) (p : Packet) where
  pub wait_ack-ack :
      (bit : Bool) (rest : List Polled) (s : Bytes)
      → wait_ack p bit (acknowledge sender bit ∷ rest) s
        ≡ ok (some ([], ack_to_string (ack_of bit), rest))
  unfolding wait_ack
  wait_ack-ack true rest s = rw (ack_received sender true s, ack_read true)
  wait_ack-ack false rest s = rw (ack_received sender false s, ack_read false)

  pub wait_ack-late :
      (bit : Bool) (rest : List Polled) (s : Bytes)
      → wait_ack p bit (acknowledge sender (not bit) ∷ rest) s
        ≡ wait_ack p bit rest (ack_to_string (ack_of (not bit)))
  unfolding wait_ack
  wait_ack-late true rest s = rw (ack_received sender false s, ack_read false)
  wait_ack-late false rest s = rw (ack_received sender true s, ack_read true)

  pub wait_ack-silence :
      (bit : Bool) (rest left : List Polled) (s last : Bytes) (again : List Bytes)
      → wait_ack p bit rest s ≡ ok (some (again, last, left))
      → wait_ack p bit (timed_out ∷ rest) s ≡ ok (some (packet_to_string p ∷ again, last, left))
  unfolding wait_ack recv_from_till_timeout
  wait_ack-silence bit rest left s last again e = rw e

  wait_ack-noisy :
      (bit : Bool) (noise : List Noise) (rest : List Polled) (s : Bytes)
      → wait_ack p bit (noisy sender bit noise rest) s
        ≡ ok (some (resent p noise, ack_to_string (ack_of bit), rest))
  unfolding noisy resent
  wait_ack-noisy bit [] rest s = wait_ack-ack bit rest s
  wait_ack-noisy bit (silence ∷ noise) rest s =
      wait_ack-silence bit (noisy sender bit noise rest) rest s (ack_to_string (ack_of bit))
        (resent p noise) (wait_ack-noisy bit noise rest s)
  wait_ack-noisy bit (late_ack ∷ noise) rest s =
      wait_ack-late bit (noisy sender bit noise rest) s
      ∙ wait_ack-noisy bit noise rest (ack_to_string (ack_of (not bit)))

-- If each wait comes to an end with the acknowledgement of its packet, behind any sequence of time-outs
-- and of acknowledgements of the other bit, then the loop of the sender ends, and it has sent
-- every packet in order, each once and once more for each time-out of its own wait.
pub send_packets-datagrams :
    (sender : Sockaddr) (noise : List Packet → List Noise) (packets : List Packet) (bit : Bool)
    (s : Bytes)
    → send_packets packets bit (waits sender noise bit packets) s
      ≡ ok (some (datagrams noise packets))
unfolding send_packets waits datagrams
send_packets-datagrams sender noise [] bit s = refl
send_packets-datagrams sender noise (p ∷ packets) bit s = rw (
  wait_ack-noisy sender p bit (noise packets) (waits sender noise (not bit) packets) s,
  send_packets-datagrams sender noise packets (not bit) (ack_to_string (ack_of bit)),
)
