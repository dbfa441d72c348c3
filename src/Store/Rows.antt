-- ===== src/Store/Rows.antt =====
-- Rows that a search gives in another order: their number and what holds of each are the same.
use mathlib.Core.Path.{subst}
use mathlib.Core.Logic.{∥∥₁_elim}
use mathlib.Core.HLevel.{×_prop}
use mathlib.Core.List.{Perm, map}
use mathlib.Core.List.Perm
use mathlib.Core.List.Permᴰ.{Permᴰ, nil, cons, swap, trans}
use distributed_graph_databa.Prelude.{
  ℕ, suc, ◌≡◌, refl, sym, ap, ◌∙◌, [], ◌∷◌, List, Bytes, length, All, All-imp, Bool, true, ◌&&◌,
  ltb, arith,
}
use distributed_graph_databa.Schema.{Attribute}
use distributed_graph_databa.Wire.Pieces.{Fits, AttributeFits}
use distributed_graph_databa.Wire.Reply.RoundTrip.{InfoFits}

length-Permᴰ : {A : Type 0} {xs ys : List A} → Permᴰ xs ys → length xs ≡ length ys
length-Permᴰ nil = refl
length-Permᴰ (cons e d) = ap suc (length-Permᴰ d)
length-Permᴰ (swap e f) = refl
length-Permᴰ (trans c d) = length-Permᴰ c ∙ length-Permᴰ d

All-Permᴰ : {A : Type 0} (P : A → Type 0) {xs ys : List A} → Permᴰ xs ys → All P ys → All P xs
All-Permᴰ P nil h = tt
All-Permᴰ P (cons e d) h = (subst P (sym e) h.0, All-Permᴰ P d h.1)
All-Permᴰ P (swap e f) h = (subst P (sym e) h.1.0, (subst P (sym f) h.0, h.1.1))
All-Permᴰ P (trans c d) h = All-Permᴰ P c (All-Permᴰ P d h)

ℕ-set : {m n : ℕ} → IsProp (m ≡ n)
ℕ-set = hlevel

Bool-set : {a b : Bool} → IsProp (a ≡ b)
Bool-set = hlevel

pub length-Perm : {A : Type 0} {xs ys : List A} → Perm xs ys → length xs ≡ length ys
length-Perm p = ∥∥₁_elim p ℕ-set (λ d. length-Permᴰ d)

All-IsProp :
    {A : Type 0} (P : A → Type 0) → ((a : A) → IsProp (P a)) → (xs : List A) → IsProp (All P xs)
All-IsProp P h [] = hlevel
All-IsProp P h (x ∷ xs) = ×_prop (h x) (All-IsProp P h xs)

-- A predicate that a test decides.
pub All-Perm :
    {A : Type 0} (P : A → Type 0) (test : A → Bool) {xs ys : List A}
    → ((a : A) → P a → test a ≡ true)
    → ((a : A) → test a ≡ true → P a)
    → Perm xs ys
    → All P ys
    → All P xs
All-Perm {A} P test {xs} {ys} passes means p h =
    let Test = λ (a : A). test a ≡ true in
    let tests = All-IsProp Test (λ a. Bool-set) xs in
    let k = All-imp P Test ys passes h in
    All-imp Test P xs means (∥∥₁_elim p tests (λ d. All-Permᴰ Test d k))

pub map-Perm : {A B : Type 0} (f : A → B) {xs ys : List A} → Perm xs ys → Perm (map f xs) (map f ys)
map-Perm f p = Perm.map f p

text_fits : Bytes → Bool
text_fits text = ltb (length text) 1000

abbrev attribute_fits : Attribute → Bool
attribute_fits attr = ltb (length attr.key) 1000 && ltb (length attr.value) 1000

-- The rows of a node, in any order, fit a message 'I'.
pub InfoFits-Perm :
    (name : Bytes) (attributes attributes' : List Attribute) (relations relations' : List Bytes)
    (id : ℕ)
    → Perm attributes attributes'
    → Perm relations relations'
    → InfoFits name attributes' relations' id
    → InfoFits name attributes relations id
unfolding text_fits
InfoFits-Perm name attributes attributes' relations relations' id p q fits = record {
  name_fits = fits.name_fits;
  few_relations = omega (arith, length-Perm q, fits.few_relations);
  few_attributes = omega (arith, length-Perm p, fits.few_attributes);
  relations_fit =
      All-Perm Fits text_fits (λ text h. ground arith) (λ text h. ground arith) q
        fits.relations_fit;
  attributes_fit =
      All-Perm AttributeFits attribute_fits (λ attr h. ground (arith, h.0, h.1))
        (λ attr h. ground (arith, h)) p fits.attributes_fit;
  id_fits = fits.id_fits;
}
