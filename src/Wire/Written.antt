-- ===== src/Wire/Written.antt =====
-- What is known of the hosts of a message that was written: their number has at most three digits.
use distributed_graph_databa.Prelude.{
  ℕ, ◌<◌, ◌≡◌, refl, sym, ◌∙◌, inl, inr, [], List, Bytes, length, Outcome, Fault, Bool-cases, ltb,
  ok, fault, if◌then◌else◌, ◌>>=◌, arith,
}
use distributed_graph_databa.Text.{ℤ}
use distributed_graph_databa.Text.Decimal.{sprintf}
use distributed_graph_databa.Text.Decimal.Length.{sprintf_overflows}
use distributed_graph_databa.Schema.{Attribute}
use distributed_graph_databa.Wire.{Host, sized, put_texts, put_attributes}
use distributed_graph_databa.Wire.Create.{new_node_text}
use distributed_graph_databa.Wire.Delete.{new_delete_text, is_positive}

no_fault : {A : Type 0} {x : Fault} {a : A} → fault x ≡ ok a → ⊥
no_fault e = ground (arith, e)

-- A chain that gives a result has a first step that gives one.
>>=-eq-ok :
    {A B : Type 0} (o : Outcome A) (f : A → Outcome B) {b : B}
    → (o >>= f) ≡ ok b
    → (a : A) × (o ≡ ok a) × (f a ≡ ok b)
>>=-eq-ok (ok a) f e = (a, refl, e)
>>=-eq-ok (fault x) f e = absurd (no_fault e)

printed-few : (k n : ℕ) (text : Bytes) → sprintf k n ≡ ok text → n < 1000
printed-few k n text e = elim (Bool-cases (ltb n 1000)) [
  | inl below ↦ ground arith
  | inr other ↦ absurd (no_fault (sym (sprintf_overflows k n (ground arith)) ∙ e))
]

-- A message 'C' that can be written has fewer than 1000 hosts.
pub new_node_text-few :
    (name : Bytes) (attrs : List Attribute) (rels : List Bytes) (id : ℕ) (repos : List Host)
    (text : Bytes)
    → new_node_text name attrs rels id repos ≡ ok text
    → length repos < 1000
unfolding new_node_text
new_node_text-few name attrs rels id repos text e =
    let (_, _, e1) = >>=-eq-ok (sized name) _ e in
    let (_, _, e2) = >>=-eq-ok (put_texts rels) _ e1 in
    let (_, _, e3) = >>=-eq-ok (put_attributes attrs) _ e2 in
    let (_, _, e4) = >>=-eq-ok (sprintf 3 id) _ e3 in
    let (count, counts, _) = >>=-eq-ok (sprintf 1 (length repos)) _ e4 in
    printed-few 1 (length repos) count counts

-- A message 'D' that can be written has fewer than 1000 hosts.
pub new_delete_text-few :
    (name : Bytes) (object : ℤ) (attr_or_rel : Bytes) (id : ℕ) (repos : List Host) (text : Bytes)
    → new_delete_text name object attr_or_rel id repos ≡ ok text
    → length repos < 1000
unfolding new_delete_text
new_delete_text-few name object attr_or_rel id repos text e =
    let (_, _, e1) = >>=-eq-ok (sized name) _ e in
    let (_, _, e2) = >>=-eq-ok (if is_positive object then sized attr_or_rel else ok []) _ e1 in
    let (_, _, e3) = >>=-eq-ok (sprintf 3 id) _ e2 in
    let (count, counts, _) = >>=-eq-ok (sprintf 1 (length repos)) _ e3 in
    printed-few 1 (length repos) count counts
