-- ===== src/Wire/Create/Limits.antt =====
-- More relations than a message 'C' can count.
use distributed_graph_databa.Prelude.{
  ℕ, ◌+◌, refl, ◌<◌, ◌≤◌, ◌≡◌, [], ◌∷◌, ◌++◌, List, Bytes, length, All, append_assoc, ok, fault,
  invalid_argument, ◌==◌, false, arith,
}
use distributed_graph_databa.Text.{stoi, at, to_size}
use distributed_graph_databa.Text.Field.{digit_at}
use distributed_graph_databa.Text.Decimal.{padded}
use distributed_graph_databa.Text.Decimal.Length.{sprintf_fits}
use distributed_graph_databa.Text.Laws.{take_number-padded, erase_first}
use distributed_graph_databa.Schema.{Attribute}
use distributed_graph_databa.Wire.{Host, digit_char}
use distributed_graph_databa.Wire.Pieces.{
  Fits, AttributeFits, sized_text, texts_text, attributes_text, sized-eq, put_texts-eq,
  put_attributes-eq,
}
use distributed_graph_databa.Wire.Hosts.{HostFits, hosts_text, put_hosts-eq}
use distributed_graph_databa.Wire.Counts.{counted, counted-append, at-first}
use distributed_graph_databa.Wire.Create.{
  new_node_text, take_relations, take_create, receive_create,
}

stoi_no_digit : (n : ℕ) → 10 ≤ n → n < 208 → stoi ((b'0' + n) ∷ []) ≡ fault invalid_argument
unfolding stoi
stoi_no_digit n low high = ground arith

take_relations-fault :
    (size n : ℕ) (buffer : Bytes)
    → at buffer size ≡ ok (b'0' + n)
    → 10 ≤ n
    → n < 208
    → take_relations size buffer ≡ fault invalid_argument
unfolding take_relations digit_at
take_relations-fault size n buffer h low high =
    let no_zero : (b'0' + n == b'0') ≡ false = ground arith in
    rw (h, no_zero, stoi_no_digit n low high)

take_create-fault :
    (name rest : Bytes) (n d : ℕ)
    → Fits name
    → 10 ≤ n
    → n < 208
    → take_create (sized_text name ++ ((b'0' + n) ∷ d ∷ rest)) ≡ fault invalid_argument
unfolding take_create to_size
take_create-fault name rest n d fits low high =
    let c = b'0' + n in
    rw (append_assoc (padded 3 (length name)) name (c ∷ d ∷ rest)) (
      rw (
        take_number-padded [] (name ++ (c ∷ d ∷ rest)) 0 2 (length name) refl (omega arith) fits,
        counted-append name c d rest,
        take_relations-fault (length name) n (counted name c d ++ rest) (at-first name c d rest) low
            high,
      ))

-- A message 'C' with 10 to 207 relations, whose other parts fit, is written without an error, and the
-- reader throws `invalid_argument`.
pub receive_create_fault :
    (name : Bytes) (attributes : List Attribute) (relations : List Bytes) (request_id : ℕ)
    (repos : List Host)
    → Fits name
    → All AttributeFits attributes
    → All Fits relations
    → request_id < 1000
    → length repos < 10
    → All HostFits repos
    → 10 ≤ length relations
    → length relations < 208
    → (text : Bytes) × (new_node_text name attributes relations request_id repos ≡ ok text)
      × (receive_create text ≡ fault invalid_argument)
unfolding new_node_text receive_create
receive_create_fault name attributes relations request_id repos named attrs_fit rels_fit id_fits few
      repos_fit low high =
    let n = length relations in
    let d = digit_char (length attributes) in
    let count : digit_char n ≡ b'0' + n = omega arith in
    let rest =
      texts_text relations
      ++ (attributes_text attributes
          ++ (padded 3 request_id ++ (padded 1 (length repos) ++ hosts_text repos))) in
    (
      b'C' ∷ (sized_text name ++ ((b'0' + n) ∷ d ∷ rest)),
      rw (
        sized-eq name named,
        put_texts-eq relations rels_fit,
        put_attributes-eq attributes attrs_fit,
        sprintf_fits 2 request_id (omega arith) id_fits,
        sprintf_fits 0 (length repos) (omega arith) few,
        put_hosts-eq repos repos_fit,
        count,
      ),
      rw (erase_first, take_create-fault name rest n d named low high),
    )
