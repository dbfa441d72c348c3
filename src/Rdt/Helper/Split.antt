-- ===== src/Rdt/Helper/Split.antt =====
-- The parts of a text: together they are the text, and each is as long as allowed but the last.
use mathlib.Core.Path.{subst}
use distributed_graph_databa.Prelude.{
  ℕ, zero, suc, ◌+◌, ◌-◌, ◌%◌, ◌^◌, ◌<◌, ◌≤◌, ◌≡◌, ◌⊎◌, refl, sym, ap, ◌∙◌, [], ◌∷◌, ◌++◌, List,
  Bytes, length, take, drop, length-take, length-drop, take-append-drop, All, Bool, true, false,
  not, some, ltb, ◌==◌, arith, Bool-cases, inl, inr,
}
use distributed_graph_databa.Rdt.Helper.{
  Packet, char_to_u16, checksum_from, calculate_checksum, split_from, split_data, packets_from,
  make_packets, is_corrupt,
}

-- The parts one behind the other.
abbrev pub joined : List Bytes → Bytes
joined [] = []
joined (s ∷ parts) = s ++ joined parts

-- Every part but the last has the size, and the last has at least one byte and at most the size.
abbrev pub Parts : ℕ → List Bytes → Type 0
Parts k [] = Unit
Parts k (s ∷ []) = (0 < length s) × (length s ≤ k)
Parts k (s ∷ t ∷ parts) = (length s ≡ k) × Parts k (t ∷ parts)

drop-nil : (n : ℕ) → drop {A = ℕ} n [] ≡ []
drop-nil zero = refl
drop-nil (suc n) = refl

drop-drop : (m n : ℕ) (xs : Bytes) → drop n (drop m xs) ≡ drop (m + n) xs
drop-drop zero n xs = ap (λ (k : ℕ). drop k xs) (omega arith)
drop-drop (suc m) n [] = drop-nil n ∙ sym (drop-nil (suc m + n))
drop-drop (suc m) n (x ∷ xs) =
    drop-drop m n xs
    ∙ ap (λ (k : ℕ). drop k (x ∷ xs)) (let e : suc (m + n) ≡ suc m + n = omega arith in e)

record Cut (k i : ℕ) (text : Bytes) (parts : List Bytes) : Type 0 where
  whole : joined parts ≡ drop i text
  sizes : Parts k parts
  ended : (parts ≡ []) ⊎ (i < length text)

drop-past : (n : ℕ) (xs : Bytes) → length xs ≤ n → drop n xs ≡ []
drop-past zero [] h = refl
drop-past zero (x ∷ xs) h = absurd (omega arith)
drop-past (suc n) [] h = refl
drop-past (suc n) (x ∷ xs) h = drop-past n xs (omega arith)

part : ℕ → ℕ → Bytes → Bytes
part k i text = take k (drop i text)

Cut-cons :
    (k i : ℕ) (text : Bytes) (parts : List Bytes)
    → 0 < k
    → i < length text
    → Cut k (i + k) text parts
    → Cut k i text (part k i text ∷ parts)
unfolding part
Cut-cons k i text [] pos_k inside c = record {
  whole =
      ap (λ r. take k (drop i text) ++ r) (c.whole ∙ sym (drop-drop i k text))
      ∙ take-append-drop k (drop i text);
  sizes = (
    omega (arith, length-take k (drop i text), length-drop i text),
    omega (arith, length-take k (drop i text)),
  );
  ended = inr inside;
}
Cut-cons k i text (s ∷ parts) pos_k inside c = record {
  whole =
      ap (λ r. take k (drop i text) ++ r) (c.whole ∙ sym (drop-drop i k text))
      ∙ take-append-drop k (drop i text);
  sizes = (full c.ended, c.sizes);
  ended = inr inside;
}
  where
    full : (s ∷ parts ≡ []) ⊎ (i + k < length text) → length (take k (drop i text)) ≡ k
    full (inl e) = cc
    full (inr h) = omega (arith, length-take k (drop i text), length-drop i text)

split_from-Cut :
    (fuel i k : ℕ) (text : Bytes)
    → 0 < k
    → length text - i < fuel
    → (parts : List Bytes) × (split_from fuel i k text ≡ some parts) × Cut k i text parts
unfolding split_from part
split_from-Cut zero i k text h f = absurd (omega arith)
split_from-Cut (suc fuel) i k text h f = elim (Bool-cases (ltb i (length text))) [
  | inl inside ↦
      let (parts, e, c) = split_from-Cut fuel (i + k) k text h (ground arith) in
      (part k i text ∷ parts, rw (inside, e), Cut-cons k i text parts h (ground arith) c)
  | inr outside ↦ (
    [],
    rw outside,
    record { whole = sym (drop-past i text (ground arith)); sizes = tt; ended = inl refl },
  )
]

-- With a size above 0 a text is cut into parts: they are the text, one behind the other, and each has
-- the size, but the last, which has from one byte up to the size.
pub split_data_lem :
    (text : Bytes) (k : ℕ)
    → 0 < k
    → (parts : List Bytes) × (split_data text k ≡ some parts)
      × (joined parts ≡ text)
      × Parts k parts
unfolding split_data
split_data_lem text k h =
    let (parts, e, c) = split_from-Cut (suc (length text)) 0 k text h (omega arith) in
    (parts, e, c.whole, c.sizes)

-- The sequence numbers alternate from a bit on.
abbrev pub Alternate : Bool → List Packet → Type 0
Alternate bit [] = Unit
Alternate bit (p ∷ packets) = (p.sequence_number ≡ bit) × Alternate (not bit) packets

abbrev pub contents : List Packet → Bytes
contents [] = []
contents (p ∷ packets) = p.content ++ contents packets

abbrev pub bodies : List Packet → List Bytes
bodies [] = []
bodies (p ∷ packets) = p.content ∷ bodies packets

bodies-packets_from : (bit : Bool) (parts : List Bytes) → bodies (packets_from bit parts) ≡ parts
unfolding packets_from
bodies-packets_from bit [] = refl
bodies-packets_from bit (s ∷ parts) = ap (λ r. s ∷ r) (bodies-packets_from (not bit) parts)

-- What a packet of the sender is: not corrupt, with its length, in 16 bits.
pub record IsSound (k : ℕ) (p : Packet) : Type 0 where
  pub not_corrupt : is_corrupt p ≡ false
  pub length_sent : p.len ≡ length p.content
  pub content_small : length p.content ≤ k
  pub checksum_fits : p.checksum < 2 ^ 16

checksum_from-lt : (sum : ℕ) (text : Bytes) → sum < 2 ^ 16 → checksum_from sum text < 2 ^ 16
unfolding checksum_from
checksum_from-lt sum [] h = h
checksum_from-lt sum (c ∷ text) h =
    checksum_from-lt ((sum + char_to_u16 c) % 2 ^ 16) text (omega arith)

checksum-lt : (text : Bytes) → calculate_checksum text < 2 ^ 16
unfolding calculate_checksum
checksum-lt text = checksum_from-lt 0 text (omega arith)

==_refl : (n : ℕ) → (n == n) ≡ true
==_refl n = ground arith

part-IsSound :
    (k : ℕ) (bit : Bool) (s : Bytes)
    → k < 2 ^ 16
    → length s ≤ k
    → IsSound k (record {
      checksum = calculate_checksum s;
      len = length s % 2 ^ 16;
      sequence_number = bit;
      content = s;
    })
unfolding is_corrupt
part-IsSound k bit s small h = record {
  not_corrupt = rw (==_refl (calculate_checksum s)) refl;
  length_sent = omega arith;
  content_small = h;
  checksum_fits = checksum-lt s;
}

packets_from-IsSound :
    (k : ℕ) (bit : Bool) (parts : List Bytes)
    → k < 2 ^ 16
    → Parts k parts
    → All (IsSound k) (packets_from bit parts)
      × Alternate bit (packets_from bit parts)
      × (contents (packets_from bit parts) ≡ joined parts)
unfolding packets_from
packets_from-IsSound k bit [] small h = (tt, tt, refl)
packets_from-IsSound k bit (s ∷ []) small h =
    ((part-IsSound k bit s small h.1, tt), (refl, tt), refl)
packets_from-IsSound k bit (s ∷ t ∷ parts) small h =
    let (sound, alternate, whole) = packets_from-IsSound k (not bit) (t ∷ parts) small h.1 in
    ((part-IsSound k bit s small (omega arith), sound), (refl, alternate), ap (λ r. s ++ r) whole)

-- A text is cut into packets of a size from 1 up to 2 ^ 16 - 1 that carry it from end to end; none
-- is corrupt, each has its own length, and their sequence numbers alternate from 0 on. Each but
-- the last carries as much as is allowed, and the last carries something.
pub make_packets_lem :
    (k : ℕ) (text : Bytes)
    → 0 < k
    → k < 2 ^ 16
    → (packets : List Packet) × (make_packets k text ≡ some packets)
      × (contents packets ≡ text)
      × All (IsSound k) packets
      × Alternate false packets
      × Parts k (bodies packets)
unfolding make_packets
make_packets_lem k text h small =
    let (parts, e, whole, sizes) = split_data_lem text k h in
    let (sound, alternate, same_text) = packets_from-IsSound k false parts small sizes in
    (
      packets_from false parts,
      rw (e, make_packets),
      same_text ∙ whole,
      sound,
      alternate,
      subst (Parts k) (sym (bodies-packets_from false parts)) sizes,
    )
