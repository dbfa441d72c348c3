-- ===== src/Tests/Link.antt =====
-- A text of one packet over a network that loses datagrams, at concrete inputs.
use distributed_graph_databa.Prelude.{◌≡◌, refl, List, [], ◌∷◌, ◌++◌, Bytes, false, some, codes}
use distributed_graph_databa.Text.{find}
use distributed_graph_databa.Network.{Sockaddr}
use distributed_graph_databa.Wire.Hosts.{absent-Lacks}
use distributed_graph_databa.Rdt.Helper.{
  Packet, make_packets, split_data, packets_from, calculate_checksum, checksum_from, char_to_u16,
}
use distributed_graph_databa.Rdt.Helper.Split.{contents}
use distributed_graph_databa.Rdt.Packet.{newline}
use distributed_graph_databa.Rdt.Transfer.Sending.{acknowledge, wait_ack-ack, wait_ack-silence}
use distributed_graph_databa.Rdt.Link.{
  Link, new_link, first_sent, Step, times_out, loses, Steps, here, next,
}
use distributed_graph_databa.Rdt.Link.Promise.{Prepared, Stream, Advance, Represents}
use distributed_graph_databa.Rdt.Link.Refines.{Step-refines}
use distributed_graph_databa.Rdt.Link.Transfers.{
  first_represents, packets_of, Steps-collects, Steps-complete,
}

abbrev sender : Sockaddr
sender = record { sin_addr = 1; sin_port = 50001 }

abbrev peer : Sockaddr
peer = record { sin_addr = 2; sin_port = 50000 }

abbrev text : Bytes
text = codes "ab"

abbrev packet : Packet
packet = record { checksum = 195; len = 2; sequence_number = false; content = text }

abbrev packets : List Packet
packets = packet ∷ []

made : make_packets 20 text ≡ some packets
unfolding make_packets split_data packets_from calculate_checksum checksum_from char_to_u16
made = refl

prepared : Prepared false packets
unfolding find
prepared =
    (packets_of text packets (absent-Lacks newline text refl) (absent-Lacks 0 text refl) made).0

abbrev resent : Link
resent = record (new_link packets) { forward = (new_link packets).forward ++ packets }

times_out-Step : Step sender peer (new_link packets) resent
unfolding new_link
times_out-Step =
    let answered = wait_ack-ack peer packet false [] [] in
    times_out packet [] (acknowledge peer false ∷ []) [] [] _ [] refl answered
      (wait_ack-silence peer packet false (acknowledge peer false ∷ []) [] [] _ [] answered) refl

abbrev lost : Link
lost = record (new_link packets) { forward = [] }

-- The only packet that was sent is lost.
loses_steps : Steps sender peer (new_link packets) lost
unfolding new_link first_sent
loses_steps = next here (loses [] [] _ refl refl)

step_example :
    (s' : Stream) × Advance (record { delivered = []; waiting = packets }) s' × Represents resent s'
step_example =
    Step-refines sender peer (new_link packets) resent
      (record { delivered = []; waiting = packets }) (first_represents packets prepared)
      times_out-Step

collects_example :
    (delivered waiting : List Packet) × (packets ≡ delivered ++ waiting)
    × (lost.receiver.collected ≡ contents delivered)
    × (lost.receiver.collected ++ contents waiting ≡ text)
unfolding find
collects_example =
    Steps-collects sender peer text packets lost (absent-Lacks newline text refl)
      (absent-Lacks 0 text refl) made loses_steps

complete_example : (m : Link) × Steps sender peer lost m × (m.receiver.collected ≡ text)
unfolding find new_link
complete_example =
    Steps-complete sender peer text packets lost (absent-Lacks newline text refl)
      (absent-Lacks 0 text refl) made loses_steps refl
