-- ===== src/Rdt/Link/Order.antt =====
-- Lists whose elements satisfy one predicate and then another, as what is on its way does.
use distributed_graph_databa.Prelude.{
  ◌⊎◌, inl, inr, [], ◌∷◌, ◌++◌, List, All, All-append, All-split,
}

module _ {ℓ κ} {A : Type ℓ} where
  pub All-remove :
      (P : A → Type κ) (before after : List A) (x : A)
      → All P (before ++ x ∷ after)
      → All P (before ++ after)
  All-remove P before after x h =
      let (hb, ha) = All-split P before (x ∷ after) h in All-append P before after hb ha.1

  pub All-double :
      (P : A → Type κ) (before after : List A) (x : A)
      → All P (before ++ x ∷ after)
      → All P (before ++ x ∷ x ∷ after)
  All-double P before after x h =
      let (hb, ha) = All-split P before (x ∷ after) h in
      All-append P before (x ∷ x ∷ after) hb (ha.0, ha)

  module _ (P Q : A → Type κ) where
    abbrev pub Ordered : List A → Type κ
    Ordered [] = Unit
    Ordered (x ∷ xs) = (P x × Ordered xs) ⊎ (Q x × All Q xs)

    pub late-Ordered : (xs : List A) → All Q xs → Ordered xs
    late-Ordered [] h = tt
    late-Ordered (x ∷ xs) h = inr h

    pub Ordered-append : (xs : List A) (x : A) → Ordered xs → Q x → Ordered (xs ++ x ∷ [])
    Ordered-append [] x h q = inr (q, tt)
    Ordered-append (y ∷ xs) x (inl h) q = inl (h.0, Ordered-append xs x h.1 q)
    Ordered-append (y ∷ xs) x (inr h) q = inr (h.0, All-append Q xs (x ∷ []) h.1 (q, tt))

    pub early-Ordered : (xs : List A) → All P xs → Ordered xs
    early-Ordered [] h = tt
    early-Ordered (x ∷ xs) h = inl (h.0, early-Ordered xs h.1)

    pub Ordered-remove :
        (before after : List A) (x : A) → Ordered (before ++ x ∷ after) → Ordered (before ++ after)
    Ordered-remove [] after x (inl h) = h.1
    Ordered-remove [] after x (inr h) = late-Ordered after h.1
    Ordered-remove (y ∷ before) after x (inl h) = inl (h.0, Ordered-remove before after x h.1)
    Ordered-remove (y ∷ before) after x (inr h) = inr (h.0, All-remove Q before after x h.1)

    pub Ordered-double :
        (before after : List A) (x : A)
        → Ordered (before ++ x ∷ after)
        → Ordered (before ++ x ∷ x ∷ after)
    Ordered-double [] after x (inl h) = inl (h.0, inl h)
    Ordered-double [] after x (inr h) = inr (h.0, h)
    Ordered-double (y ∷ before) after x (inl h) = inl (h.0, Ordered-double before after x h.1)
    Ordered-double (y ∷ before) after x (inr h) = inr (h.0, All-double Q before after x h.1)
