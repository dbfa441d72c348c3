-- ===== src/Wire/Reply/RoundTrip.antt =====
-- The answers 'M' and 'I', written and read back.
use mathlib.Core.List.{map}
use mathlib.Core.Path.{subst}
use distributed_graph_databa.Prelude.{
  ℕ, ◌+◌, ◌<◌, ◌≡◌, refl, [], ◌∷◌, ◌++◌, List, Bytes, length, All, Bool, true, false, ok,
  if◌then◌else◌, ◌>>=◌, arith,
}
use distributed_graph_databa.Text.{pos, to_size, substr, erase}
use distributed_graph_databa.Text.Decimal.{padded}
use distributed_graph_databa.Text.Decimal.Length.{sprintf_fits, length-padded}
use distributed_graph_databa.Text.Decimal.Value.{stoi-padded, stoi_char}
use distributed_graph_databa.Text.Field.{digit_at}
use distributed_graph_databa.Text.Laws.{
  take_number-padded, take_number_last, take_text_mid, substr_first, substr_whole, erase_first,
}
use distributed_graph_databa.Schema.{Attribute}
use distributed_graph_databa.Wire.{rounds}
use distributed_graph_databa.Wire.Pieces.{
  Fits, AttributeFits, sized_text, sized-eq, take_size, texts_text, put_texts-eq, take_texts-eq,
  attributes_text, put_attributes-eq, take_attributes-eq, unowned,
}
use distributed_graph_databa.Wire.Counts.{
  digit_char-eq, counted, counted-append, length-counted, at-first, at-second,
}
use distributed_graph_databa.Wire.Query.{truth}
use distributed_graph_databa.Wire.Reply.{message_text, take_message, info_text, take_info}

pub message_text-eq :
    (message : Bytes) (request_id : ℕ)
    → Fits message
    → request_id < 1000
    → message_text message request_id ≡ ok (b'M' ∷ (sized_text message ++ padded 3 request_id))
unfolding message_text
message_text-eq message request_id fits small =
    rw (sized-eq message fits, sprintf_fits 2 request_id (omega arith) small)

pub take_message-eq :
    (message : Bytes) (request_id : ℕ)
    → Fits message
    → request_id < 1000
    → take_message (sized_text message ++ padded 3 request_id) ≡ ok (message, pos request_id)
unfolding take_message to_size
take_message-eq message request_id fits small =
    let id = padded 3 request_id in
    rw (
      take_size message id fits,
      take_text_mid [] message id 0 (length message) refl refl,
      subst (λ (n : ℕ). substr id 0 n ≡ ok id) (length-padded 2 request_id small) (substr_whole id),
      stoi-padded 3 request_id (omega (arith, length-padded 2 request_id small)) (omega arith),
    )

-- A message 'M' shorter than 1000 bytes, with a request id below 1000, is written, and is read back
-- as it was.
pub take_message-message_text :
    (message : Bytes) (request_id : ℕ)
    → Fits message
    → request_id < 1000
    → (do text ← message_text message request_id; buffer ← erase text 0 1; take_message buffer)
      ≡ ok (message, pos request_id)
take_message-message_text message request_id fits small =
    rw (message_text-eq message request_id fits small, erase_first)
      (take_message-eq message request_id fits small)

pub record InfoFits (name : Bytes) (attributes : List Attribute) (relations : List Bytes)
    (request_id : ℕ) : Type 0 where
  pub name_fits : Fits name
  pub few_relations : length relations < 10
  pub few_attributes : length attributes < 10
  pub relations_fit : All Fits relations
  pub attributes_fit : All AttributeFits attributes
  pub id_fits : request_id < 1000

flag_truth : (b : Bool) → truth (pos (if b then 1 else 0)) ≡ b
unfolding truth
flag_truth true = refl
flag_truth false = refl

flag_small : (b : Bool) → (if b then 1 else 0) < 10
flag_small true = omega arith
flag_small false = omega arith

module _ (name : Bytes) (attributes : List Attribute) (relations : List Bytes) (request_id : ℕ)
    (valid_node : Bool) (fits : InfoFits name attributes relations request_id) where
  abbrev c : ℕ
  c = b'0' + length relations

  abbrev d : ℕ
  d = b'0' + length attributes

  abbrev flag : ℕ
  flag = if valid_node then 1 else 0

  abbrev behind_attributes : Bytes
  behind_attributes = padded 3 request_id ++ padded 1 flag

  abbrev behind_relations : Bytes
  behind_relations = attributes_text attributes ++ behind_attributes

  abbrev behind_counts : Bytes
  behind_counts = texts_text relations ++ behind_relations

  pub info_text-eq :
      info_text name attributes relations request_id valid_node
      ≡ ok (b'I' ∷ (sized_text name ++ (c ∷ d ∷ behind_counts)))
  unfolding info_text
  info_text-eq = rw (
    sized-eq name fits.name_fits,
    put_texts-eq relations fits.relations_fit,
    put_attributes-eq attributes fits.attributes_fit,
    sprintf_fits 2 request_id (omega arith) fits.id_fits,
    sprintf_fits 0 flag (omega arith) (flag_small valid_node),
    digit_char-eq (length relations) fits.few_relations,
    digit_char-eq (length attributes) fits.few_attributes,
  )

  pub take_info-eq :
      take_info (sized_text name ++ (c ∷ d ∷ behind_counts))
      ≡ ok (record {
        node_name = name;
        attributes = map unowned attributes;
        relations = relations;
        request_id = pos request_id;
        valid_node = valid_node;
      })
  unfolding take_info to_size digit_at rounds
  take_info-eq =
      let front = counted name c d in
      let place = length-counted name c d in
      rw (
        take_size name (c ∷ d ∷ behind_counts) fits.name_fits,
        counted-append name c d behind_counts,
        at-first name c d behind_counts,
        stoi_char (length relations) fits.few_relations,
        take_texts-eq relations front behind_relations (length name + 2) place fits.relations_fit,
        at-second name c d behind_relations,
        stoi_char (length attributes) fits.few_attributes,
        take_attributes-eq attributes front behind_attributes (length name + 2) place
            fits.attributes_fit,
        take_number-padded front (padded 1 flag) (length name + 2) 2 request_id place (omega arith)
            fits.id_fits,
        take_number_last front (length name + 2) 0 flag place (omega arith) (flag_small valid_node),
        substr_first name (c ∷ d ∷ []),
        flag_truth valid_node,
      )

-- A message 'I' whose texts are shorter than 1000 bytes, with at most nine relations and
-- attributes and a request id below 1000, is written, and is read back as it was, but for the
-- owner of each attribute, which is not sent.
pub take_info-info_text :
    (name : Bytes) (attributes : List Attribute) (relations : List Bytes) (request_id : ℕ)
    (valid_node : Bool)
    → InfoFits name attributes relations request_id
    → (do
      text ← info_text name attributes relations request_id valid_node
      buffer ← erase text 0 1
      take_info buffer)
      ≡ ok (record {
        node_name = name;
        attributes = map unowned attributes;
        relations = relations;
        request_id = pos request_id;
        valid_node = valid_node;
      })
take_info-info_text name attributes relations request_id valid_node fits =
    rw (info_text-eq name attributes relations request_id valid_node fits, erase_first)
      (take_info-eq name attributes relations request_id valid_node fits)
