-- ===== src/Wire/Create/RoundTrip.antt =====
-- The message 'C', written and read back.
use mathlib.Core.List.{map}
use distributed_graph_databa.Prelude.{
  ℕ, zero, suc, ◌+◌, ◌<◌, ◌≡◌, refl, [], ◌∷◌, ◌++◌, List, Bytes, length, append_assoc, All, ok,
  ◌>>=◌, arith,
}
use distributed_graph_databa.Text.{pos, to_size, at}
use distributed_graph_databa.Text.Decimal.{padded}
use distributed_graph_databa.Text.Decimal.Length.{sprintf_fits}
use distributed_graph_databa.Text.Field.{digit_at}
use distributed_graph_databa.Text.Laws.{take_number-padded, substr_mid, erase_first}
use distributed_graph_databa.Text.Decimal.Value.{stoi_char}
use distributed_graph_databa.Schema.{Attribute}
use distributed_graph_databa.Wire.{Host, rounds, take_texts, take_attributes}
use distributed_graph_databa.Wire.Pieces.{
  Fits, AttributeFits, sized_text, sized-eq, texts_text, put_texts-eq, take_texts-eq,
  attributes_text, put_attributes-eq, take_attributes-eq, unowned,
}
use distributed_graph_databa.Wire.Hosts.{HostFits, hosts_text, put_hosts-eq, take_repos_last}
use distributed_graph_databa.Wire.Counts.{
  digit_char-eq, counted, counted-append, length-counted, at-first, at-second,
}
use distributed_graph_databa.Wire.Create.{
  new_node_text, take_relations, take_pairs, take_create, receive_create,
}

take_relations-count :
    (size n : ℕ) (buffer : Bytes)
    → at buffer size ≡ ok (b'0' + n)
    → n < 10
    → take_relations size buffer ≡ take_texts n (size + 2) buffer
unfolding take_relations rounds digit_at take_texts
take_relations-count size zero buffer h few = rw h
take_relations-count size (suc n) buffer h few = rw (h, stoi_char (suc n) few) (ground arith)

take_pairs-count :
    (size n : ℕ) (buffer : Bytes)
    → at buffer (size + 1) ≡ ok (b'0' + n)
    → n < 10
    → take_pairs size buffer ≡ take_attributes n (size + 2) buffer
unfolding take_pairs rounds digit_at take_attributes
take_pairs-count size zero buffer h few = rw h
take_pairs-count size (suc n) buffer h few = rw (h, stoi_char (suc n) few) (ground arith)

-- The text of the message, of parts that fit.
abbrev pub create_body : Bytes → List Attribute → List Bytes → ℕ → List Host → Bytes
create_body name attributes relations request_id repos =
    sized_text name
    ++ ((b'0' + length relations) ∷ (b'0' + length attributes) ∷ []
        ++ (texts_text relations
            ++ (attributes_text attributes
                ++ (padded 3 request_id ++ (padded 1 (length repos) ++ hosts_text repos)))))

pub record CreateFits (name : Bytes) (attributes : List Attribute) (relations : List Bytes)
    (request_id : ℕ) (repos : List Host) : Type 0 where
  pub name_fits : Fits name
  pub few_relations : length relations < 10
  pub few_attributes : length attributes < 10
  pub relations_fit : All Fits relations
  pub attributes_fit : All AttributeFits attributes
  pub id_fits : request_id < 1000
  pub few_repos : length repos < 10
  pub repos_fit : All HostFits repos

module _ (name : Bytes) (attributes : List Attribute) (relations : List Bytes) (request_id : ℕ)
    (repos : List Host) (fits : CreateFits name attributes relations request_id repos) where
  pub new_node_text-eq :
      new_node_text name attributes relations request_id repos
      ≡ ok (b'C' ∷ create_body name attributes relations request_id repos)
  unfolding new_node_text
  new_node_text-eq = rw (
    sized-eq name fits.name_fits,
    put_texts-eq relations fits.relations_fit,
    put_attributes-eq attributes fits.attributes_fit,
    sprintf_fits 2 request_id (omega arith) fits.id_fits,
    sprintf_fits 0 (length repos) (omega arith) fits.few_repos,
    put_hosts-eq repos fits.repos_fit,
    digit_char-eq (length relations) fits.few_relations,
    digit_char-eq (length attributes) fits.few_attributes,
  )

  abbrev front : Bytes
  front = counted name (b'0' + length relations) (b'0' + length attributes)

  pub take_create-eq :
      (tail : Bytes)
      → take_create (
          sized_text name
          ++ ((b'0' + length relations) ∷ (b'0' + length attributes) ∷ []
              ++ (texts_text relations
                  ++ (attributes_text attributes ++ (padded 3 request_id ++ tail)))))
        ≡ ok (record {
          node_name = name;
          attributes = map unowned attributes;
          relations = relations;
          request_id = pos request_id;
          place = length name + 2;
          buffer = front ++ tail;
        })
  unfolding take_create to_size
  take_create-eq tail =
      let c = b'0' + length relations in
      let d = b'0' + length attributes in
      let t3 = padded 3 request_id ++ tail in
      let t2 = attributes_text attributes ++ t3 in
      let t1 = texts_text relations ++ t2 in
      let place = length-counted name c d in
      rw (append_assoc (padded 3 (length name)) name (c ∷ d ∷ t1)) (
        rw
          (
            take_number-padded [] (name ++ (c ∷ d ∷ t1)) 0 2 (length name) refl (omega arith)
                fits.name_fits,
            counted-append name c d t1,
          )
          (rw
            (
              take_relations-count (length name) (length relations) (front ++ t1)
                  (at-first name c d t1) fits.few_relations,
              take_texts-eq relations front t2 (length name + 2) place fits.relations_fit,
            )
            (rw (
              take_pairs-count (length name) (length attributes) (front ++ t2)
                  (at-second name c d t2) fits.few_attributes,
              take_attributes-eq attributes front t3 (length name + 2) place fits.attributes_fit,
              take_number-padded front tail (length name + 2) 2 request_id place (omega arith)
                  fits.id_fits,
              append_assoc name (c ∷ d ∷ []) tail,
              substr_mid [] name (c ∷ d ∷ tail) 0 (length name) refl refl,
            ))))

-- A message 'C' whose texts are shorter than 1000 bytes, with at most nine relations, attributes
-- and hosts, a request id below 1000 and hosts that fit is written, and is read back as it was,
-- but for the owner of each attribute, which is not sent.
pub receive_create-new_node_text :
    (name : Bytes) (attributes : List Attribute) (relations : List Bytes) (request_id : ℕ)
    (repos : List Host)
    → CreateFits name attributes relations request_id repos
    → (new_node_text name attributes relations request_id repos >>= receive_create)
      ≡ ok (name, map unowned attributes, relations, pos request_id, repos)
unfolding receive_create
receive_create-new_node_text name attributes relations request_id repos fits =
    let c = b'0' + length relations in
    let d = b'0' + length attributes in
    rw (
      new_node_text-eq name attributes relations request_id repos fits,
      receive_create,
      erase_first,
      take_create-eq name attributes relations request_id repos fits
          (padded 1 (length repos) ++ hosts_text repos),
      take_repos_last repos (counted name c d) (length name + 2) (length-counted name c d)
          fits.few_repos fits.repos_fit,
    )
