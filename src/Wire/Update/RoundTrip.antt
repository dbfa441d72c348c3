-- ===== src/Wire/Update/RoundTrip.antt =====
-- The message 'U', written and read back.
use distributed_graph_databa.Prelude.{
  ℕ, ◌<◌, ◌≡◌, refl, [], ◌∷◌, ◌++◌, Bytes, length, append_assoc, Bool, true, false, ok,
  if◌then◌else◌, ◌>>=◌, arith,
}
use distributed_graph_databa.Text.{pos, to_size, erase, at}
use distributed_graph_databa.Text.Decimal.{padded}
use distributed_graph_databa.Text.Decimal.Length.{sprintf_fits}
use distributed_graph_databa.Text.Laws.{take_number_last, substr_whole, erase_first}
use distributed_graph_databa.Wire.Pieces.{Fits, sized_text, sized-eq, take_field-sized, take_size}
use distributed_graph_databa.Wire.Update.{put_change, new_update_text, take_change, take_update}

abbrev change_text : Bool → Bytes → Bytes → Bytes
change_text true set_value attr = sized_text set_value
change_text false set_value attr = sized_text attr ++ sized_text set_value

put_change-eq :
    (is_node : Bool) (set_value attr : Bytes)
    → Fits set_value
    → Fits attr
    → put_change is_node set_value attr ≡ ok (change_text is_node set_value attr)
unfolding put_change
put_change-eq true set_value attr h k = sized-eq set_value h
put_change-eq false set_value attr h k = rw (sized-eq attr k, sized-eq set_value h)

-- What of the attribute reaches the reader.
abbrev pub attr_sent : Bool → Bytes → Bytes
attr_sent is_node attr = if is_node then [] else attr

take_change-eq :
    (is_node : Bool) (name set_value attr rest : Bytes)
    → Fits set_value
    → Fits attr
    → take_change is_node (length name) (name ++ (change_text is_node set_value attr ++ rest))
      ≡ ok (attr_sent is_node attr, set_value, name ++ rest)
unfolding take_change
take_change-eq true name set_value attr rest h k =
    rw (take_field-sized name set_value rest (length name) refl h)
take_change-eq false name set_value attr rest h k =
    rw (append_assoc (sized_text attr) (sized_text set_value) rest) (
      rw (
        take_field-sized name attr (sized_text set_value ++ rest) (length name) refl k,
        take_field-sized name set_value rest (length name) refl h,
      ))

module _ (name set_value attr : Bytes) (request_id : ℕ) (named : Fits name)
    (valued : Fits set_value) (keyed : Fits attr) (id_fits : request_id < 1000) where
  pub take_update-eq :
      (is_node : Bool)
      → take_update (
          (if is_node then b'1' else b'0')
          ∷ (sized_text name ++ (change_text is_node set_value attr ++ padded 3 request_id)))
        ≡ ok (record {
          node_name = name;
          is_node = is_node;
          set_value = set_value;
          attr = attr_sent is_node attr;
          request_id = pos request_id;
          buffer = name;
        })
  unfolding take_update to_size at
  take_update-eq true =
      let tail = change_text true set_value attr ++ padded 3 request_id in
      rw (
        erase_first b'1' (sized_text name ++ tail),
        take_size name tail named,
        take_change-eq true name set_value attr (padded 3 request_id) valued keyed,
        take_number_last name (length name) 2 request_id refl (omega arith) id_fits,
        substr_whole name,
      )
  take_update-eq false =
      let tail = change_text false set_value attr ++ padded 3 request_id in
      rw (
        erase_first b'0' (sized_text name ++ tail),
        take_size name tail named,
        take_change-eq false name set_value attr (padded 3 request_id) valued keyed,
        take_number_last name (length name) 2 request_id refl (omega arith) id_fits,
        substr_whole name,
      )

  pub new_update_text-eq :
      (is_node : Bool)
      → new_update_text name is_node set_value attr request_id
        ≡ ok (
            b'U'
            ∷ (if is_node then b'1' else b'0')
            ∷ (sized_text name ++ (change_text is_node set_value attr ++ padded 3 request_id)))
  unfolding new_update_text
  new_update_text-eq is_node = rw (
    sized-eq name named,
    put_change-eq is_node set_value attr valued keyed,
    sprintf_fits 2 request_id (omega arith) id_fits,
  )

  -- A message 'U' whose texts are shorter than 1000 bytes, with a request id below 1000, is written,
  -- and is read back as it was; of a new name no attribute is sent.
  pub take_update-new_update_text :
      (is_node : Bool)
      → (do
        text ← new_update_text name is_node set_value attr request_id
        buffer ← erase text 0 1
        take_update buffer)
        ≡ ok (record {
          node_name = name;
          is_node = is_node;
          set_value = set_value;
          attr = attr_sent is_node attr;
          request_id = pos request_id;
          buffer = name;
        })
  take_update-new_update_text is_node =
      rw (new_update_text-eq is_node, erase_first) (take_update-eq is_node)
