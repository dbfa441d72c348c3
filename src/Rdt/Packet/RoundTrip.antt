-- ===== src/Rdt/Packet/RoundTrip.antt =====
-- Packets are read back from their texts, which fit the receiver's buffer.
use native.Mathlib.Nat.{mod-eq_of_lt}
use distributed_graph_databa.Prelude.{
  ℕ, ◌^◌, ◌<◌, ◌≤◌, ◌≡◌, ◌≢◌, refl, [], ◌∷◌, ◌++◌, Bytes, length, length-append, All-imp,
  All-append, Bool, true, false, ok, arith,
}
use distributed_graph_databa.Text.{pos, to_size}
use distributed_graph_databa.Text.Decimal.{to_string}
use distributed_graph_databa.Text.Decimal.Length.{length-to_string-le}
use distributed_graph_databa.Text.Decimal.Value.{IsDigit, to_string-IsDigit, stoi-to_string}
use distributed_graph_databa.Wire.Query.{truth}
use distributed_graph_databa.Wire.Hosts.{Lacks}
use distributed_graph_databa.Rdt.Helper.{Packet}
use distributed_graph_databa.Rdt.Helper.Split.{IsSound}
use distributed_graph_databa.Rdt.Packet.{
  AckPacket, tab, newline, bit_number, packet_to_string, ack_to_string, cut_at, getline, to_u16,
  parse_packet, parse_ack,
}

cut_at-append :
    (delim : ℕ) (s rest : Bytes)
    → Lacks delim s
    → cut_at delim (s ++ delim ∷ rest) ≡ record { rest = rest; at_end = false; line = s }
unfolding cut_at
cut_at-append delim [] rest h = ground arith
cut_at-append delim (c ∷ s) rest h = ground (arith, cut_at-append delim s rest h.1)

cut_at-last :
    (delim : ℕ) (s : Bytes)
    → Lacks delim s
    → cut_at delim s ≡ record { rest = []; at_end = true; line = s }
unfolding cut_at
cut_at-last delim [] h = refl
cut_at-last delim (c ∷ s) h = ground (arith, cut_at-last delim s h.1)

number-Lacks : (delim n : ℕ) → delim < b'0' → Lacks delim (to_string n)
number-Lacks delim n h =
    All-imp IsDigit (λ (d : ℕ). d ≢ delim) (to_string n) (λ c d. omega arith) (to_string-IsDigit n)

bit_read : (b : Bool) → truth (pos (bit_number b)) ≡ b
unfolding truth
bit_read true = refl
bit_read false = refl

bit_small : (b : Bool) → bit_number b < 2
bit_small true = omega arith
bit_small false = omega arith

to_u16-pos : (n : ℕ) → n < 2 ^ 16 → to_u16 (pos n) ≡ n
unfolding to_u16 to_size
to_u16-pos n h = mod-eq_of_lt h

-- A packet whose numbers have 16 bits and whose data hold no newline is read back from its text.
pub parse_packet-packet_to_string :
    (p : Packet)
    → p.checksum < 2 ^ 16
    → p.len < 2 ^ 16
    → Lacks newline p.content
    → parse_packet (packet_to_string p) ≡ ok p
unfolding parse_packet getline packet_to_string
parse_packet-packet_to_string p c l clean =
    let bit = to_string (bit_number p.sequence_number) in
    rw (
      cut_at-append tab (to_string p.checksum)
          (to_string p.len ++ (tab ∷ (bit ++ (tab ∷ p.content))))
          (number-Lacks tab p.checksum (omega arith)),
      cut_at-append tab (to_string p.len) (bit ++ (tab ∷ p.content))
          (number-Lacks tab p.len (omega arith)),
      cut_at-append tab bit p.content
          (number-Lacks tab (bit_number p.sequence_number) (omega arith)),
      cut_at-last newline p.content clean,
      stoi-to_string p.checksum (omega arith),
      stoi-to_string p.len (omega arith),
      stoi-to_string (bit_number p.sequence_number) (omega (arith, bit_small p.sequence_number)),
      to_u16-pos p.checksum c,
      to_u16-pos p.len l,
      bit_read p.sequence_number,
    )

-- An acknowledgement whose numbers have 16 bits is read back from its text.
pub parse_ack-ack_to_string :
    (a : AckPacket) → a.checksum < 2 ^ 16 → a.len < 2 ^ 16 → parse_ack (ack_to_string a) ≡ ok a
unfolding parse_ack getline ack_to_string
parse_ack-ack_to_string a c l =
    let bit = to_string (bit_number a.ack_number) in
    rw (
      cut_at-append tab (to_string a.checksum) (to_string a.len ++ (tab ∷ bit))
          (number-Lacks tab a.checksum (omega arith)),
      cut_at-append tab (to_string a.len) bit (number-Lacks tab a.len (omega arith)),
      cut_at-last newline bit (number-Lacks newline (bit_number a.ack_number) (omega arith)),
      stoi-to_string a.checksum (omega arith),
      stoi-to_string a.len (omega arith),
      stoi-to_string (bit_number a.ack_number) (omega (arith, bit_small a.ack_number)),
      to_u16-pos a.checksum c,
      to_u16-pos a.len l,
      bit_read a.ack_number,
    )

-- The text of a packet with at most 20 bytes of data leaves room for the end in a buffer of 34 bytes.
pub length-packet_to_string : (p : Packet) → IsSound 20 p → length (packet_to_string p) ≤ 31
unfolding packet_to_string
length-packet_to_string p h =
    let bit = to_string (bit_number p.sequence_number) in
    let checksum_digits : length (to_string p.checksum) ≤ 5 =
      length-to_string-le p.checksum 4 (omega (arith, h.checksum_fits)) in
    let len_digits : length (to_string p.len) ≤ 2 =
      length-to_string-le p.len 1 (omega (arith, h.content_small, h.length_sent)) in
    let bit_digits : length bit ≤ 1 =
      length-to_string-le (bit_number p.sequence_number) 0
        (omega (arith, bit_small p.sequence_number)) in
    omega (
      arith,
      h.content_small,
      length-append (to_string p.checksum)
          (tab ∷ (to_string p.len ++ (tab ∷ (bit ++ (tab ∷ p.content))))),
      length-append (to_string p.len) (tab ∷ (bit ++ (tab ∷ p.content))),
      length-append bit (tab ∷ p.content),
    )

-- A text of a packet holds a 0 only in its data.
pub packet_to_string-Lacks : (p : Packet) → Lacks 0 p.content → Lacks 0 (packet_to_string p)
unfolding packet_to_string
packet_to_string-Lacks p h =
    let bit = to_string (bit_number p.sequence_number) in
    let third =
      All-append (λ (d : ℕ). d ≢ 0) bit (tab ∷ p.content)
        (number-Lacks 0 (bit_number p.sequence_number) (omega arith)) (omega arith, h) in
    let second =
      All-append (λ (d : ℕ). d ≢ 0) (to_string p.len) (tab ∷ (bit ++ (tab ∷ p.content)))
        (number-Lacks 0 p.len (omega arith)) (omega arith, third) in
    All-append (λ (d : ℕ). d ≢ 0) (to_string p.checksum) _ (number-Lacks 0 p.checksum (omega arith))
      (omega arith, second)

pub length-packet_to_string-pos : (p : Packet) → 0 < length (packet_to_string p)
unfolding packet_to_string
length-packet_to_string-pos p = omega (
  arith,
  length-append (to_string p.checksum) (
      tab
      ∷ (to_string p.len
          ++ (tab ∷ (to_string (bit_number p.sequence_number) ++ (tab ∷ p.content))))),
)
