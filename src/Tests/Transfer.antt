-- ===== src/Tests/Transfer.antt =====
-- src/rdt/ at concrete inputs.
use distributed_graph_databa.Prelude.{
  ◌≡◌, refl, List, [], ◌∷◌, Bytes, All, true, false, some, ok, codes, arith,
}
use distributed_graph_databa.Text.{find}
use distributed_graph_databa.Network.{Sockaddr}
use distributed_graph_databa.Wire.Hosts.{absent-Lacks}
use distributed_graph_databa.Rdt.Helper.{
  Packet, make_packets, is_corrupt, calculate_checksum, checksum_from, char_to_u16,
}
use distributed_graph_databa.Rdt.Helper.Split.{
  Parts, Alternate, contents, bodies, IsSound, make_packets_lem,
}
use distributed_graph_databa.Rdt.Packet.{AckPacket, newline}
use distributed_graph_databa.Rdt.Transfer.Sending.{
  Noise, silence, late_ack, waits, datagrams, send_packets-datagrams,
}
use distributed_graph_databa.Rdt.Transfer.{send_packets, Receiver, recv_loop, new_receiver}
use distributed_graph_databa.Rdt.Transfer.Delivery.{arrivals, recv_loop-make_packets}

-- A message 'E' and a message longer than one packet.
abbrev text : Bytes
text = codes "C005Julio0000000"

abbrev packet : Packet
packet = record { checksum = 195; len = 2; sequence_number = true; content = codes "ab" }

abbrev ack : AckPacket
ack = record { checksum = 0; len = 0; ack_number = true }

abbrev sender : Sockaddr
sender = record { sin_addr = 1; sin_port = 50001 }

make_packets_example :
    (packets : List Packet) × (make_packets 5 text ≡ some packets)
    × (contents packets ≡ text)
    × All (IsSound 5) packets
    × Alternate false packets
    × Parts 5 (bodies packets)
make_packets_example = make_packets_lem 5 text (omega arith) (omega arith)

packet-IsSound : IsSound 20 packet
unfolding is_corrupt calculate_checksum checksum_from char_to_u16
packet-IsSound = record {
  not_corrupt = refl;
  length_sent = refl;
  content_small = omega arith;
  checksum_fits = omega arith;
}

abbrev short : Bytes
short = codes "E1"

recv_loop_example :
    (packets : List Packet) × (r : Receiver) × (make_packets 20 short ≡ some packets)
    × (recv_loop (arrivals sender (λ rest. 2) packets) new_receiver ≡ ok (some r))
    × (r.collected ≡ short)
unfolding find
recv_loop_example =
    recv_loop-make_packets short sender (λ rest. 2) (absent-Lacks newline short refl)
      (absent-Lacks 0 short refl)

-- One time-out and a late acknowledgement in each wait.
abbrev noise : List Packet → List Noise
noise rest = silence ∷ late_ack ∷ []

send_packets_example :
    send_packets (packet ∷ packet ∷ []) false (waits sender noise false (packet ∷ packet ∷ [])) []
    ≡ ok (some (datagrams noise (packet ∷ packet ∷ [])))
send_packets_example = send_packets-datagrams sender noise (packet ∷ packet ∷ []) false []
