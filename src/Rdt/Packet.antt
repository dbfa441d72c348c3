-- ===== src/Rdt/Packet.antt =====
-- The texts of packets: `Packet::ToString`, `Packet(packet_str)`, and the same of `AckPacket`.
pub mod RoundTrip
use distributed_graph_databa.Prelude.{
  ℕ, zero, suc, ◌+◌, ◌-◌, ◌%◌, ◌^◌, [], ◌∷◌, ◌++◌, List, Bytes, length, Bool, true, false, not,
  Option, none, some, Outcome, ok, ltb, ◌==◌, if◌then◌else◌, ◌>>=◌,
}
use distributed_graph_databa.Text.{ℤ, pos, neg, to_size, stoi}
use distributed_graph_databa.Text.Decimal.{to_string}
use distributed_graph_databa.Wire.Query.{truth}
use distributed_graph_databa.Rdt.Helper.{Packet}

pub record AckPacket : Type 0 where
  pub checksum : ℕ
  pub len : ℕ
  pub ack_number : Bool

abbrev pub tab : ℕ
tab = 9

abbrev pub newline : ℕ
newline = 10

-- A `bool` as `std::to_string` takes it.
abbrev pub bit_number : Bool → ℕ
bit_number b = if b then 1 else 0

-- `Packet::ToString`
unfoldable pub packet_to_string : Packet → Bytes
packet_to_string p =
    to_string p.checksum
    ++ (tab
        ∷ (to_string p.len
            ++ (tab ∷ (to_string (bit_number p.sequence_number) ++ (tab ∷ p.content)))))

-- `AckPacket::ToString`
unfoldable pub ack_to_string : AckPacket → Bytes
ack_to_string a =
    to_string a.checksum ++ (tab ∷ (to_string a.len ++ (tab ∷ to_string (bit_number a.ack_number))))

-- An `istringstream`: what is left to read, whether the end was met, and the `line` of the caller.
pub record Stream : Type 0 where
  pub rest : Bytes
  pub at_end : Bool
  pub line : Bytes

-- The bytes up to a delimiter, which is dropped; without one, all of them, and the end is met.
unfoldable pub cut_at : ℕ → Bytes → Stream
cut_at delim [] = record { rest = []; at_end = true; line = [] }
cut_at delim (c ∷ text) =
    let more = cut_at delim text in
    if c == delim
    then record { rest = text; at_end = false; line = [] }
    else record more { line = c ∷ more.line }

-- `std::getline(is, line, delim)`: a stream whose end was met leaves the line as it was.
unfoldable pub getline : ℕ → Stream → Stream
unfolding cut_at
getline delim s = if s.at_end then s else cut_at delim s.rest

abbrev pub stream_of : Bytes → Stream
stream_of text = record { rest = text; at_end = false; line = [] }

-- An `int` in a `uint16_t`.
unfoldable pub to_u16 : ℤ → ℕ
to_u16 n = to_size n % 2 ^ 16

-- `Packet(packet_str)`
unfoldable pub parse_packet : Bytes → Outcome Packet
unfolding getline to_u16 truth
parse_packet text = do
  let first = getline tab (stream_of text)
  let second = getline tab first
  let third = getline tab second
  let fourth = getline newline third
  checksum ← stoi first.line
  len ← stoi second.line
  number ← stoi third.line
  ok (record {
    checksum = to_u16 checksum;
    len = to_u16 len;
    sequence_number = truth number;
    content = fourth.line;
  })

-- `AckPacket(packet_str)`
unfoldable pub parse_ack : Bytes → Outcome AckPacket
unfolding getline to_u16 truth
parse_ack text = do
  let first = getline tab (stream_of text)
  let second = getline tab first
  let third = getline newline second
  checksum ← stoi first.line
  len ← stoi second.line
  number ← stoi third.line
  ok (record { checksum = to_u16 checksum; len = to_u16 len; ack_number = truth number })
