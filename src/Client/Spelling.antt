-- ===== src/Client/Spelling.antt =====
-- The spelling of a condition on the command line: key, operator, value and connective.
use distributed_graph_databa.Prelude.{
  ℕ, ◌+◌, ◌-◌, ◌<◌, ◌≡◌, refl, sym, ap, ◌∙◌, [], ◌∷◌, ◌++◌, Bytes, length, take, take-append, drop,
  drop-append, append_assoc, append-nil, length-append, none, some, Outcome, ok, ltb, lt→ltb,
  if◌then◌else◌, ◌>>=◌, arith,
}
use distributed_graph_databa.Text.{find, find_from, substr, at}
use distributed_graph_databa.Text.Laws.{substr_mid, at_skip}
use distributed_graph_databa.Schema.{Condition, make_condition}
use distributed_graph_databa.Wire.Hosts.{Lacks, find-append}
use distributed_graph_databa.Client.{condition_of}

Lacks-find : (c : ℕ) (s : Bytes) → Lacks c s → find c s ≡ none
unfolding find
Lacks-find c [] h = refl
Lacks-find c (d ∷ s) h = ground (arith, Lacks-find c s h.1)

-- What `condition_of` reads once it is known where the value ends.
read_at : ℕ → ℕ → Bytes → Bytes → Outcome Condition
read_at start stop key text = do
  value ← substr text (start + 2) (stop - (start + 2))
  op ← at text start
  lo ← if ltb (stop + 1) (length text) then at text (stop + 1) else ok b'&'
  ok (make_condition key value op lo)

condition_of-read :
    (text : Bytes) (i stop : ℕ)
    → find 32 text ≡ some i
    → find_from 32 (i + 1 + 2) text ≡ some stop
    → condition_of text ≡ read_at (i + 1) stop (take i text) text
unfolding condition_of read_at
condition_of-read text i stop e f = rw (e, f)

condition_of-last :
    (text : Bytes) (i : ℕ)
    → find 32 text ≡ some i
    → find_from 32 (i + 1 + 2) text ≡ none
    → condition_of text ≡ read_at (i + 1) (length text) (take i text) text
unfolding condition_of read_at
condition_of-last text i e f = rw (e, f)

module _ (key : Bytes) (op gap : ℕ) (tail : Bytes) where
  abbrev spelled : Bytes
  spelled = key ++ 32 ∷ op ∷ gap ∷ tail

  abbrev in_front : Bytes
  in_front = key ++ 32 ∷ op ∷ gap ∷ []

  length-in_front : length in_front ≡ length key + 1 + 2
  length-in_front = omega (arith, length-append key (32 ∷ op ∷ gap ∷ []))

  split_spelled : in_front ++ tail ≡ spelled
  split_spelled = append_assoc key (32 ∷ op ∷ gap ∷ []) tail

  drop-spelled : drop (length key + 1 + 2) spelled ≡ tail
  drop-spelled =
      ap (drop (length key + 1 + 2)) (sym split_spelled)
      ∙ drop-append (length key + 1 + 2) in_front tail length-in_front

  length-spelled : length spelled ≡ length key + 1 + 2 + length tail
  length-spelled = omega (arith, length-append key (32 ∷ op ∷ gap ∷ tail))

  key-spelled : take (length key) spelled ≡ key
  key-spelled = take-append (length key) key (32 ∷ op ∷ gap ∷ tail) refl

  op-spelled : at spelled (length key + 1) ≡ ok op
  unfolding at
  op-spelled = at_skip key (32 ∷ op ∷ gap ∷ tail) 1 (length key + 1) refl

module _ (key value rest : Bytes) (op gap : ℕ) (hk : Lacks 32 key) where
  value-spelled :
      substr (spelled key op gap (value ++ rest)) (length key + 1 + 2) (length value) ≡ ok value
  value-spelled =
      ap (λ text. substr text (length key + 1 + 2) (length value))
        (sym (split_spelled key op gap (value ++ rest)))
      ∙ substr_mid (in_front key op gap []) value rest (length key + 1 + 2) (length value)
          (length-in_front key op gap []) refl

  read_at-spelled :
      (stop lo : ℕ)
      → stop ≡ length key + 1 + 2 + length value
      → (if ltb (stop + 1) (length (spelled key op gap (value ++ rest)))
          then at (spelled key op gap (value ++ rest)) (stop + 1)
          else ok b'&')
        ≡ ok lo
      → read_at (length key + 1) stop key (spelled key op gap (value ++ rest))
        ≡ ok (make_condition key value op lo)
  unfolding read_at
  read_at-spelled stop lo e read =
      let size : stop - (length key + 1 + 2) ≡ length value = omega (arith, e) in
      rw (size, value-spelled, op-spelled key op gap (value ++ rest), read)

  connective-spelled :
      (lo : ℕ) (more : Bytes)
      → rest ≡ 32 ∷ lo ∷ more
      → at (spelled key op gap (value ++ rest)) (length key + 1 + 2 + length value + 1) ≡ ok lo
  unfolding at
  connective-spelled lo more e =
      let place = length key + 1 + 2 + length value + 1 in
      ap (λ text. at text place) (sym (split_spelled key op gap (value ++ rest)))
      ∙ at_skip (in_front key op gap []) (value ++ rest) (length value + 1) place
          (omega (arith, length-in_front key op gap []))
      ∙ at_skip value rest 1 (length value + 1) refl
      ∙ ap (λ r. at r 1) e

module _ (key value : Bytes) (op gap : ℕ) (hk : Lacks 32 key) (hv : Lacks 32 value) where
  condition_of-alone :
      condition_of (spelled key op gap (value ++ [])) ≡ ok (make_condition key value op b'&')
  unfolding find_from
  condition_of-alone =
      let text = spelled key op gap (value ++ []) in
      let whole : length text ≡ length key + 1 + 2 + length value =
        omega (arith, length-spelled key op gap (value ++ []), length-append value []) in
      let absent : find 32 (value ++ []) ≡ none =
        ap (find 32) (append-nil value) ∙ Lacks-find 32 value hv in
      condition_of-last text (length key) (find-append 32 key (op ∷ gap ∷ (value ++ [])) hk)
        (rw (find_from, drop-spelled key op gap (value ++ []), absent))
      ∙ ap (λ k. read_at (length key + 1) (length text) k text)
          (key-spelled key op gap (value ++ []))
      ∙ read_at-spelled key value [] op gap hk (length text) b'&' whole (ground arith)

  condition_of-joined :
      (lo : ℕ) (more : Bytes)
      → condition_of (spelled key op gap (value ++ 32 ∷ lo ∷ more))
        ≡ ok (make_condition key value op lo)
  unfolding find_from
  condition_of-joined lo more =
      let rest = 32 ∷ lo ∷ more in
      let text = spelled key op gap (value ++ rest) in
      let stop = length key + 1 + 2 + length value in
      let some_more : stop + 1 < length text =
        omega (arith, length-spelled key op gap (value ++ rest), length-append value rest) in
      condition_of-read text (length key) stop (find-append 32 key (op ∷ gap ∷ (value ++ rest)) hk)
        (rw
          (find_from, drop-spelled key op gap (value ++ rest), find-append 32 value (lo ∷ more) hv))
      ∙ ap (λ k. read_at (length key + 1) stop k text) (key-spelled key op gap (value ++ rest))
      ∙ read_at-spelled key value rest op gap hk stop lo refl (
          rw (lt→ltb (stop + 1) (length text) some_more)
            (connective-spelled key value rest op gap hk lo more refl))

-- A condition that is spelled as a key with no space, a space, an operator, one more character and a value
-- with no space is read as its parts, joined by '&' to the next one; with a space and a character
-- behind the value, that character is what joins it, and nothing behind that is read.
pub condition_of_lem :
    (key value : Bytes) (op gap : ℕ)
    → Lacks 32 key
    → Lacks 32 value
    → (condition_of (key ++ 32 ∷ op ∷ gap ∷ value) ≡ ok (make_condition key value op b'&'))
      × ((lo : ℕ) (more : Bytes)
          → condition_of (key ++ 32 ∷ op ∷ gap ∷ (value ++ 32 ∷ lo ∷ more))
            ≡ ok (make_condition key value op lo))
condition_of_lem key value op gap hk hv = (
  ap (λ v. condition_of (spelled key op gap v)) (sym (append-nil value))
      ∙ condition_of-alone key value op gap hk hv,
  condition_of-joined key value op gap hk hv,
)
