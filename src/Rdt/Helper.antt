-- ===== src/Rdt/Helper.antt =====
-- rdt/RDT_UDP_Helper.cpp: checksums, and the cut of a text into packets.
pub mod Split
use distributed_graph_databa.Prelude.{
  ℕ, zero, suc, ◌+◌, ◌-◌, ◌%◌, ◌^◌, [], ◌∷◌, List, Bytes, length, take, drop, Bool, true, false,
  not, Option, none, some, ltb, ◌==◌, if◌then◌else◌,
}

-- `RDT_UDP_Helper::Packet`; the numbers are `uint16_t`.
pub record Packet : Type 0 where
  pub checksum : ℕ
  pub len : ℕ
  pub sequence_number : Bool
  pub content : Bytes

-- A `char`, which is signed, as it is added to a `uint16_t`.
unfoldable pub char_to_u16 : ℕ → ℕ
char_to_u16 c = if ltb c 128 then c else 2 ^ 16 - 256 + c

unfoldable pub checksum_from : ℕ → Bytes → ℕ
checksum_from sum [] = sum
checksum_from sum (c ∷ text) = checksum_from ((sum + char_to_u16 c) % 2 ^ 16) text

-- `CalculateChecksum`
unfoldable pub calculate_checksum : Bytes → ℕ
unfolding checksum_from char_to_u16
calculate_checksum text = checksum_from 0 text

-- `for (size_t i = 0; i < data.size(); i += split_size)`; `none` is for fuel that ran out.
split_from : ℕ → ℕ → ℕ → Bytes → Option (List Bytes)
split_from zero i split_size text = none
split_from (suc fuel) i split_size text =
    let rest = split_from fuel (i + split_size) split_size text in
    if ltb i (length text)
    then (elim rest [ none ↦ none | some parts ↦ some (take split_size (drop i text) ∷ parts) ])
    else some []

-- `SplitData`: one round for each byte, and one to see the end, are enough if parts are not empty.
unfoldable pub split_data : Bytes → ℕ → Option (List Bytes)
unfolding split_from
split_data text split_size = split_from (suc (length text)) 0 split_size text

-- The loop of `MakePackets` over the parts.
unfoldable pub packets_from : Bool → List Bytes → List Packet
unfolding calculate_checksum
packets_from bit [] = []
packets_from bit (s ∷ parts) =
    record {
      checksum = calculate_checksum s;
      len = length s % 2 ^ 16;
      sequence_number = bit;
      content = s;
    }
    ∷ packets_from (not bit) parts

-- `MakePackets`, for a helper with this `kMaxPacketLength`.
unfoldable pub make_packets : ℕ → Bytes → Option (List Packet)
unfolding split_data packets_from
make_packets max_packet_length text = elim (split_data text max_packet_length) [
  | none ↦ none
  | some parts ↦ some (packets_from false parts)
]

-- `IsCorrupt`
unfoldable pub is_corrupt : Packet → Bool
unfolding calculate_checksum
is_corrupt packet = not (packet.checksum == calculate_checksum packet.content)
