-- ===== src/Rdt/Transfer/Rounds.antt =====
-- One round of the receiver's loop: a packet that is expected, and one that was taken before.
use distributed_graph_databa.Prelude.{
  ℕ, ◌^◌, ◌<◌, ◌≡◌, refl, [], ◌∷◌, ◌++◌, List, Bytes, length, Bool, true, false, not, some, ok, ltb,
  arith, Bool-cases, inl, inr,
}
use distributed_graph_databa.Network.{
  Sockaddr, Polled, timed_out, readable, success, c_string, recv_from_till_timeout,
}
use distributed_graph_databa.Wire.Hosts.{Lacks}
use distributed_graph_databa.Rdt.Helper.{Packet, is_corrupt}
use distributed_graph_databa.Rdt.Helper.Split.{IsSound}
use distributed_graph_databa.Rdt.Packet.{newline, packet_to_string, parse_packet}
use distributed_graph_databa.Rdt.Packet.RoundTrip.{
  parse_packet-packet_to_string, length-packet_to_string, packet_to_string-Lacks,
  length-packet_to_string-pos,
}
use distributed_graph_databa.Rdt.Transfer.{
  k_max_packet_size, Receiver, take_packet, recv_round, recv_loop,
}

-- A datagram with the text of a packet arrives.
abbrev pub deliver : Sockaddr → Packet → Polled
deliver sender p = readable (success (packet_to_string p, sender))

-- Data that a packet carries whole: no newline, and no 0.
abbrev pub IsClean : Packet → Type 0
IsClean p = Lacks newline p.content × Lacks 0 p.content

c_string-eq : (s : Bytes) → Lacks 0 s → c_string s ≡ s
unfolding c_string
c_string-eq [] h = refl
c_string-eq (c ∷ s) h = ground (arith, c_string-eq s h.1)

pub received :
    (size : ℕ) (text : Bytes) (sender : Sockaddr) (s : Bytes)
    → length text < size
    → Lacks 0 text
    → recv_from_till_timeout size (readable (success (text, sender))) s
      ≡ ok (length text, some sender, text)
unfolding recv_from_till_timeout
received size text sender s fits clean = ground (arith, c_string-eq text clean)

round-received :
    (r : Receiver) (polled : Polled) (n : ℕ) (sender : Sockaddr) (text : Bytes) (packet : Packet)
    → recv_from_till_timeout k_max_packet_size polled r.s_buffer ≡ ok (n, some sender, text)
    → 0 < n
    → parse_packet text ≡ ok packet
    → recv_round r polled ≡ ok (take_packet r text sender packet, not (ltb packet.len 10))
unfolding recv_round
round-received r polled n sender text packet e some_bytes parsed = ground arith

module _ (sender : Sockaddr) where
  pub recv_round-deliver :
      (r : Receiver) (p : Packet)
      → IsSound 20 p
      → IsClean p
      → recv_round r (deliver sender p)
        ≡ ok (take_packet r (packet_to_string p) sender p, not (ltb p.len 10))
  recv_round-deliver r p h clean =
      let small : length (packet_to_string p) < 34 = omega (arith, length-packet_to_string p h) in
      let len_fits : p.len < 2 ^ 16 = omega (arith, h.content_small, h.length_sent) in
      round-received r (deliver sender p) (length (packet_to_string p)) sender (packet_to_string p)
        p
        (received 34 (packet_to_string p) sender r.s_buffer small
          (packet_to_string-Lacks p clean.1))
        (length-packet_to_string-pos p)
        (parse_packet-packet_to_string p h.checksum_fits len_fits clean.0)

-- What a packet that is expected makes of the receiver.
pub take_expected :
    (r : Receiver) (text : Bytes) (sender : Sockaddr) (p : Packet)
    → p.sequence_number ≡ r.alternate_bit
    → is_corrupt p ≡ false
    → ((take_packet r text sender p).collected ≡ r.collected ++ p.content)
      × ((take_packet r text sender p).alternate_bit ≡ not r.alternate_bit)
unfolding take_packet
take_expected r text sender p e h = ground arith

pub recv_loop-more :
    (polled : Polled) (rest : List Polled) (r r' : Receiver)
    → recv_round r polled ≡ ok (r', true)
    → recv_loop (polled ∷ rest) r ≡ recv_loop rest r'
unfolding recv_loop
recv_loop-more polled rest r r' e = rw e

pub recv_loop-stop :
    (polled : Polled) (rest : List Polled) (r r' : Receiver)
    → recv_round r polled ≡ ok (r', false)
    → recv_loop (polled ∷ rest) r ≡ ok (some r')
unfolding recv_loop
recv_loop-stop polled rest r r' e = rw e

pub recv_loop-timeout :
    (rest : List Polled) (r : Receiver) → recv_loop (timed_out ∷ rest) r ≡ ok (some r)
unfolding recv_loop recv_round recv_from_till_timeout
recv_loop-timeout rest r = refl

-- What a packet that was taken before makes of the receiver: an acknowledgement, and nothing else.
pub take_again :
    (r : Receiver) (text : Bytes) (sender : Sockaddr) (p : Packet)
    → p.sequence_number ≡ not r.alternate_bit
    → ((take_packet r text sender p).collected ≡ r.collected)
      × ((take_packet r text sender p).alternate_bit ≡ r.alternate_bit)
unfolding take_packet
take_again r text sender p e = elim (Bool-cases r.alternate_bit) [
  | inl bit ↦ ground arith
  | inr bit ↦ ground arith
]

pub flips : (a b c : Bool) → a ≡ b → c ≡ not b → a ≡ not c
flips true true true e h = absurd (ground (arith, h))
flips true true false e h = refl
flips true false c e h = absurd (ground (arith, e))
flips false true c e h = absurd (ground (arith, e))
flips false false true e h = refl
flips false false false e h = absurd (ground (arith, h))
