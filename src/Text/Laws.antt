-- ===== src/Text/Laws.antt =====
-- The reads at a position, in a buffer that is cut there.
use mathlib.Core.Path.{subst, subst₂}
use distributed_graph_databa.Prelude.{
  ℕ, zero, suc, ◌+◌, ◌^◌, ◌<◌, ◌≤◌, ◌≡◌, refl, ap, [], ◌∷◌, ◌++◌, Bytes, length, length-append,
  drop, take-append, drop-append, append_assoc, append-nil, ok, arith,
}
use distributed_graph_databa.Text.{pos, to_size, substr, erase, at, stoi}
use distributed_graph_databa.Text.Decimal.{padded}
use distributed_graph_databa.Text.Decimal.Length.{length-padded}
use distributed_graph_databa.Text.Decimal.Value.{stoi-padded, stoi_char}
use distributed_graph_databa.Text.Field.{take_number, take_text, take_field, digit_at}

within_int : (k n : ℕ) → k < 3 → n < 10 ^ suc k → n < 2 ^ 31
within_int zero n s h = omega arith
within_int (suc zero) n s h = omega arith
within_int (suc (suc zero)) n s h = omega arith
within_int (suc (suc (suc k))) n s h = absurd (omega arith)

module _ (pre text rest : Bytes) (place size : ℕ) (h : length pre ≡ place)
    (k : length text ≡ size) where
  within : place ≤ length (pre ++ (text ++ rest))
  within = omega (arith, length-append pre (text ++ rest))

  drop_to_text : drop place (pre ++ (text ++ rest)) ≡ text ++ rest
  drop_to_text = drop-append place pre (text ++ rest) h

  drop_to_rest : drop (place + size) (pre ++ (text ++ rest)) ≡ rest
  drop_to_rest =
      rw (← append_assoc pre text rest)
        (drop-append (place + size) (pre ++ text) rest (omega (arith, length-append pre text)))

  pub substr_mid : substr (pre ++ (text ++ rest)) place size ≡ ok text
  unfolding substr
  substr_mid = rw (drop_to_text, take-append size text rest k) (ground (arith, within))

  pub erase_mid : erase (pre ++ (text ++ rest)) place size ≡ ok (pre ++ rest)
  unfolding erase
  erase_mid = rw (drop_to_rest, take-append place pre (text ++ rest) h) (ground (arith, within))

  pub take_text_mid : take_text size place (pre ++ (text ++ rest)) ≡ ok (text, pre ++ rest)
  unfolding take_text
  take_text_mid = rw (substr_mid, erase_mid)

  pub take_number_mid :
      (n : ℕ)
      → stoi text ≡ ok (pos n)
      → take_number size place (pre ++ (text ++ rest)) ≡ ok (pos n, pre ++ rest)
  unfolding take_number
  take_number_mid n e = rw (substr_mid, e, erase_mid)

-- A number that fits its width is taken out at its place.
pub take_number-padded :
    (pre rest : Bytes) (place k n : ℕ)
    → length pre ≡ place
    → k < 3
    → n < 10 ^ suc k
    → take_number (suc k) place (pre ++ (padded (suc k) n ++ rest)) ≡ ok (pos n, pre ++ rest)
take_number-padded pre rest place k n h small fits =
    let width : length (padded (suc k) n) ≡ suc k = length-padded k n fits in
    take_number_mid pre (padded (suc k) n) rest place (suc k) h width n
      (stoi-padded (suc k) n (omega arith) (within_int k n small fits))

-- A text behind its padded length is taken out at its place.
pub take_field-padded :
    (pre text rest : Bytes) (place k : ℕ)
    → length pre ≡ place
    → k < 3
    → length text < 10 ^ suc k
    → take_field (suc k) place (pre ++ (padded (suc k) (length text) ++ (text ++ rest)))
      ≡ ok (text, pre ++ rest)
unfolding take_field to_size
take_field-padded pre text rest place k h small fits =
    rw (take_number-padded pre (text ++ rest) place k (length text) h small fits)
      (take_text_mid pre text rest place (length text) h refl)

pub at-append :
    (pre rest : Bytes) (c place : ℕ) → length pre ≡ place → at (pre ++ c ∷ rest) place ≡ ok c
unfolding at
at-append [] rest c zero h = refl
at-append [] rest c (suc i) h = absurd (omega arith)
at-append (d ∷ pre) rest c zero h = absurd (omega arith)
at-append (d ∷ pre) rest c (suc i) h = at-append pre rest c i (omega arith)

pub digit_at-append :
    (pre rest : Bytes) (n place : ℕ)
    → length pre ≡ place
    → n < 10
    → digit_at (pre ++ (b'0' + n) ∷ rest) place ≡ ok (pos n)
unfolding digit_at
digit_at-append pre rest n place h fits =
    rw (at-append pre rest (b'0' + n) place h) (stoi_char n fits)

-- `s_buffer.erase(0, 1)` takes the first character off.
pub erase_first : (c : ℕ) (s : Bytes) → erase (c ∷ s) 0 1 ≡ ok s
erase_first c s = erase_mid [] (c ∷ []) s 0 1 refl refl

-- The same at the end of the buffer.
pub take_number_last :
    (pre : Bytes) (place k n : ℕ)
    → length pre ≡ place
    → k < 3
    → n < 10 ^ suc k
    → take_number (suc k) place (pre ++ padded (suc k) n) ≡ ok (pos n, pre)
take_number_last pre place k n h small fits =
    subst₂ (λ b r. take_number (suc k) place (pre ++ b) ≡ ok (pos n, r))
      (append-nil (padded (suc k) n)) (append-nil pre)
      (take_number-padded pre [] place k n h small fits)

pub substr_first : (text rest : Bytes) → substr (text ++ rest) 0 (length text) ≡ ok text
substr_first text rest = substr_mid [] text rest 0 (length text) refl refl

pub substr_whole : (text : Bytes) → substr text 0 (length text) ≡ ok text
substr_whole text =
    subst (λ b. substr b 0 (length text) ≡ ok text) (append-nil text) (substr_first text [])

-- A read behind the first of two texts.
pub at_skip :
    (pre rest : Bytes) (i place : ℕ) → length pre + i ≡ place → at (pre ++ rest) place ≡ at rest i
unfolding at
at_skip [] rest i place h = ap (at rest) (omega arith)
at_skip (c ∷ pre) rest i zero h = absurd (omega arith)
at_skip (c ∷ pre) rest i (suc place) h = at_skip pre rest i place (omega arith)
