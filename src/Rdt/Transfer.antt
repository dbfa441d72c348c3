-- ===== src/Rdt/Transfer.antt =====
-- rdt/RDT_UDP.cpp: the loops of `SendTo` and `RecvFrom`, over what each wait on the socket gives.
pub mod Rounds
pub mod Delivery
pub mod Sending
use distributed_graph_databa.Prelude.{
  ℕ, zero, suc, ◌+◌, [], ◌∷◌, ◌++◌, List, Bytes, length, Bool, true, false, not, ◌&&◌, Option, none,
  some, Outcome, ok, ltb, ◌==◌, if◌then◌else◌, ◌>>=◌,
}
use distributed_graph_databa.Network.{Sockaddr, Polled, recv_from_till_timeout}
use distributed_graph_databa.Rdt.Helper.{Packet, is_corrupt}
use distributed_graph_databa.Rdt.Packet.{
  AckPacket, packet_to_string, ack_to_string, parse_packet, parse_ack,
}

abbrev pub k_max_ack_size : ℕ
k_max_ack_size = 50

abbrev pub k_max_packet_size : ℕ
k_max_packet_size = 14 + 20

abbrev pub bit_eq : Bool → Bool → Bool
bit_eq true b = b
bit_eq false b = not b

-- The variables of `RecvFrom`, and the acknowledgements that it has sent.
pub record Receiver : Type 0 where
  pub collected : Bytes
  pub alternate_bit : Bool
  pub s_buffer : Bytes
  pub from : Option Sockaddr
  pub packet_count : ℕ
  pub acks : List (Sockaddr × Bytes)

-- `if (packet_count == 0)` the sender is kept.
abbrev keep_from : Receiver → Sockaddr → Option Sockaddr
keep_from r sender = if r.packet_count == 0 then some sender else r.from

-- A packet is taken, if it is the expected one and not corrupt, and acknowledged.
unfoldable pub take_packet : Receiver → Bytes → Sockaddr → Packet → Receiver
unfolding ack_to_string is_corrupt
take_packet r text sender packet =
    let expected = bit_eq packet.sequence_number r.alternate_bit && not (is_corrupt packet) in
    let number = if expected then r.alternate_bit else not r.alternate_bit in
    record {
      collected = if expected then r.collected ++ packet.content else r.collected;
      alternate_bit = if expected then not r.alternate_bit else r.alternate_bit;
      s_buffer = text;
      from = keep_from r sender;
      packet_count = r.packet_count + 1;
      acks =
          r.acks
          ++ (sender, ack_to_string (record { checksum = 0; len = 0; ack_number = number })) ∷ [];
    }

-- One round of the loop, and whether the loop goes on.
unfoldable pub recv_round : Receiver → Polled → Outcome (Receiver × Bool)
unfolding recv_from_till_timeout parse_packet take_packet
recv_round r polled = do
  (n, from, text) ← recv_from_till_timeout k_max_packet_size polled r.s_buffer
  elim from [
    | none ↦ ok (record r { s_buffer = text }, false)
    | some sender ↦
        (if n == 0 then ok (record r { s_buffer = text }, false) else do
          packet ← parse_packet text
          ok (take_packet r text sender packet, not (ltb packet.len 10)))
  ]

-- `RecvFrom`: `none` while it waits for more than was received.
unfoldable pub recv_loop : List Polled → Receiver → Outcome (Option Receiver)
unfolding recv_round
recv_loop [] r = ok none
recv_loop (polled ∷ rest) r = do
  (r', more) ← recv_round r polled
  let go_on = recv_loop rest r'
  if more then go_on else ok (some r')

abbrev pub new_receiver : Receiver
new_receiver = record {
  collected = [];
  alternate_bit = false;
  s_buffer = [];
  from = none;
  packet_count = 0;
  acks = [];
}

-- The wait for the acknowledgement of one packet: what is sent again meanwhile, the text of the last
-- acknowledgement, and what is left; `none` while it still waits.
unfoldable pub wait_ack :
    Packet → Bool → List Polled → Bytes → Outcome (Option (List Bytes × Bytes × List Polled))
unfolding recv_from_till_timeout parse_ack packet_to_string
wait_ack p bit [] ack_str = ok none
wait_ack p bit (polled ∷ rest) ack_str = do
  (n, _, text) ← recv_from_till_timeout k_max_ack_size polled ack_str
  let again = wait_ack p bit rest text
  if n == 0
      then (do
        waited ← again
        elim waited [
          | none ↦ ok none
          | some (resent, last, left) ↦ ok (some (packet_to_string p ∷ resent, last, left))
        ])
      else do
        ack ← parse_ack text
        if bit_eq ack.ack_number bit then ok (some ([], text, rest)) else again

-- `SendTo`: the datagrams that it sends, in order; `none` while it still waits.
unfoldable pub send_packets :
    List Packet → Bool → List Polled → Bytes → Outcome (Option (List Bytes))
unfolding wait_ack packet_to_string
send_packets [] bit events ack_str = ok (some [])
send_packets (p ∷ packets) bit events ack_str = do
  waited ← wait_ack p bit events ack_str
  elim waited [
    | none ↦ ok none
    | some (resent, last, left) ↦ (do
      later ← send_packets packets (not bit) left last
      elim later [ none ↦ ok none | some sent ↦ ok (some (packet_to_string p ∷ (resent ++ sent))) ])
  ]
