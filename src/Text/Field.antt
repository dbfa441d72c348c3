-- ===== src/Text/Field.antt =====
-- The reads that every handler of DGDB.cpp repeats on its buffer: a number of fixed width at a
-- position, taken out of the buffer, and a text behind its length, taken out too.
use distributed_graph_databa.Prelude.{ℕ, Bytes, Outcome, ok, ◌>>=◌, [], ◌∷◌}
use distributed_graph_databa.Text.{ℤ, to_size, substr, erase, at, stoi}

-- `n = stoi(s_buffer.substr(at, width)); s_buffer.erase(at, width);`
unfoldable pub take_number : ℕ → ℕ → Bytes → Outcome (ℤ × Bytes)
take_number width place buffer = do
  digits ← substr buffer place width
  n ← stoi digits
  rest ← erase buffer place width
  ok (n, rest)

-- `text = s_buffer.substr(at, size); s_buffer.erase(at, size);`
unfoldable pub take_text : ℕ → ℕ → Bytes → Outcome (Bytes × Bytes)
take_text size place buffer = do
  text ← substr buffer place size
  rest ← erase buffer place size
  ok (text, rest)

-- A text behind its length, which is written in `width` digits.
unfoldable pub take_field : ℕ → ℕ → Bytes → Outcome (Bytes × Bytes)
take_field width place buffer = do
  (size, rest) ← take_number width place buffer
  take_text (to_size size) place rest

-- `bufferAux = s_buffer[i]; n = stoi(bufferAux);`
unfoldable pub digit_at : Bytes → ℕ → Outcome ℤ
digit_at buffer i = do c ← at buffer i; stoi (c ∷ [])
