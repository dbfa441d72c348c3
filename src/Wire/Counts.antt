-- ===== src/Wire/Counts.antt =====
-- The two counts of one character that stand behind a node's name in the messages 'C' and 'I'.
use distributed_graph_databa.Prelude.{
  ℕ, ◌+◌, ◌<◌, ◌≡◌, refl, sym, [], ◌∷◌, ◌++◌, Bytes, length, length-append, append_assoc, ok, arith,
}
use distributed_graph_databa.Text.{at}
use distributed_graph_databa.Text.Laws.{at-append}
use distributed_graph_databa.Wire.{digit_char}

pub digit_char-eq : (n : ℕ) → n < 10 → digit_char n ≡ b'0' + n
digit_char-eq n h = omega arith

module _ (name : Bytes) (first second : ℕ) where
  -- The name and the two counts behind it.
  abbrev pub counted : Bytes
  counted = name ++ (first ∷ second ∷ [])

  pub counted-append : (tail : Bytes) → name ++ (first ∷ second ∷ tail) ≡ counted ++ tail
  counted-append tail = sym (append_assoc name (first ∷ second ∷ []) tail)

  pub length-counted : length counted ≡ length name + 2
  length-counted = omega (arith, length-append name (first ∷ second ∷ []))

  pub at-first : (tail : Bytes) → at (counted ++ tail) (length name) ≡ ok first
  at-first tail =
      rw (append_assoc name (first ∷ second ∷ []) tail)
        (at-append name (second ∷ tail) first (length name) refl)

  pub at-second : (tail : Bytes) → at (counted ++ tail) (length name + 1) ≡ ok second
  at-second tail =
      rw
        (
          append_assoc name (first ∷ second ∷ []) tail,
          ← append_assoc name (first ∷ []) (second ∷ tail),
        )
        (at-append (name ++ first ∷ []) tail second (length name + 1)
          (omega (arith, length-append name (first ∷ []))))
