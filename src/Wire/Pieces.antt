-- ===== src/Wire/Pieces.antt =====
-- The lists of texts and attributes: what the writing loops give, and that the reading loops take
-- the same list out of a buffer that is cut in front of it.
use mathlib.Core.List.{map}
use distributed_graph_databa.Prelude.{
  ℕ, ◌<◌, ◌≡◌, refl, [], ◌∷◌, ◌++◌, List, Bytes, length, append_assoc, All, ok, arith,
}
use distributed_graph_databa.Text.{pos}
use distributed_graph_databa.Text.Decimal.{padded}
use distributed_graph_databa.Text.Decimal.Length.{sprintf_fits}
use distributed_graph_databa.Text.Field.{take_number, take_field}
use distributed_graph_databa.Text.Laws.{take_number-padded, take_field-padded}
use distributed_graph_databa.Schema.{Attribute}
use distributed_graph_databa.Wire.{sized, put_texts, put_attributes, take_texts, take_attributes}

-- A length of three digits.
abbrev pub Fits : Bytes → Type 0
Fits text = length text < 1000

-- A text behind its length.
abbrev pub sized_text : Bytes → Bytes
sized_text text = padded 3 (length text) ++ text

pub sized-eq : (text : Bytes) → Fits text → sized text ≡ ok (sized_text text)
unfolding sized
sized-eq text h = rw (sprintf_fits 2 (length text) (omega arith) h)

pub take_field-sized :
    (pre text rest : Bytes) (place : ℕ)
    → length pre ≡ place
    → Fits text
    → take_field 3 place (pre ++ (sized_text text ++ rest)) ≡ ok (text, pre ++ rest)
take_field-sized pre text rest place h fits =
    rw append_assoc (take_field-padded pre text rest place 2 h (omega arith) fits)

unfoldable pub texts_text : List Bytes → Bytes
texts_text [] = []
texts_text (text ∷ texts) = sized_text text ++ texts_text texts

pub put_texts-eq : (texts : List Bytes) → All Fits texts → put_texts texts ≡ ok (texts_text texts)
unfolding put_texts texts_text
put_texts-eq [] h = refl
put_texts-eq (text ∷ texts) h = rw (sized-eq text h.0, put_texts-eq texts h.1)

pub take_texts-eq :
    (texts : List Bytes) (pre rest : Bytes) (place : ℕ)
    → length pre ≡ place
    → All Fits texts
    → take_texts (length texts) place (pre ++ (texts_text texts ++ rest)) ≡ ok (texts, pre ++ rest)
unfolding take_texts texts_text
take_texts-eq [] pre rest place h fits = refl
take_texts-eq (text ∷ texts) pre rest place h fits =
    rw (append_assoc (sized_text text) (texts_text texts) rest) (
      rw (
        take_field-sized pre text (texts_text texts ++ rest) place h fits.0,
        take_texts-eq texts pre rest place h fits.1,
      ))

abbrev pub AttributeFits : Attribute → Type 0
AttributeFits attr = Fits attr.key × Fits attr.value

unfoldable pub attributes_text : List Attribute → Bytes
attributes_text [] = []
attributes_text (attr ∷ attrs) =
    sized_text attr.key ++ (sized_text attr.value ++ attributes_text attrs)

-- What the reader makes of an attribute: the node that it belongs to is not sent.
abbrev pub unowned : Attribute → Attribute
unowned attr = record attr { node_name = [] }

pub put_attributes-eq :
    (attrs : List Attribute)
    → All AttributeFits attrs
    → put_attributes attrs ≡ ok (attributes_text attrs)
unfolding put_attributes attributes_text
put_attributes-eq [] h = refl
put_attributes-eq (attr ∷ attrs) h =
    rw (sized-eq attr.key h.0.0, sized-eq attr.value h.0.1, put_attributes-eq attrs h.1)

pub take_attributes-eq :
    (attrs : List Attribute) (pre rest : Bytes) (place : ℕ)
    → length pre ≡ place
    → All AttributeFits attrs
    → take_attributes (length attrs) place (pre ++ (attributes_text attrs ++ rest))
      ≡ ok (map unowned attrs, pre ++ rest)
unfolding take_attributes attributes_text
take_attributes-eq [] pre rest place h fits = refl
take_attributes-eq (attr ∷ attrs) pre rest place h fits =
    let more = sized_text attr.value ++ (attributes_text attrs ++ rest) in
    rw
      (
        append_assoc (sized_text attr.key) (sized_text attr.value ++ attributes_text attrs) rest,
        append_assoc (sized_text attr.value) (attributes_text attrs) rest,
      )
      (rw (take_field-sized pre attr.key more place h fits.0.0) (
        rw (
          take_field-sized pre attr.value (attributes_text attrs ++ rest) place h fits.0.1,
          take_attributes-eq attrs pre rest place h fits.1,
        )))

-- The length in front of a text, taken out alone.
pub take_size :
    (name rest : Bytes)
    → Fits name
    → take_number 3 0 (sized_text name ++ rest) ≡ ok (pos (length name), name ++ rest)
take_size name rest fits =
    rw (append_assoc (padded 3 (length name)) name rest)
      (take_number-padded [] (name ++ rest) 0 2 (length name) refl (omega arith) fits)
