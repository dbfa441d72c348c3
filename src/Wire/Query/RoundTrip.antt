-- ===== src/Wire/Query/RoundTrip.antt =====
-- The message 'R', written and read back.
use distributed_graph_databa.Prelude.{
  ℕ, ◌+◌, ◌/◌, ◌%◌, ◌<◌, ◌≡◌, refl, [], ◌∷◌, ◌++◌, List, Bytes, length, length-append, append_assoc,
  All, Bool, true, false, ok, ◌>>=◌, arith,
}
use distributed_graph_databa.Text.{pos, to_size, erase, at, stoi}
use distributed_graph_databa.Text.Decimal.{padded}
use distributed_graph_databa.Text.Decimal.Length.{sprintf_fits, length-padded}
use distributed_graph_databa.Text.Field.{digit_at}
use distributed_graph_databa.Text.Laws.{take_number_last, substr_first, erase_first, at_skip}
use distributed_graph_databa.Text.Decimal.Value.{stoi_char, stoi-padded}
use distributed_graph_databa.Text.Decimal.Small.{one_digit, two_digits}
use distributed_graph_databa.Schema.{Condition}
use distributed_graph_databa.Wire.{rounds}
use distributed_graph_databa.Wire.Pieces.{Fits, sized_text, sized-eq, take_size}
use distributed_graph_databa.Wire.Query.{truth, bit_char, new_query_text, take_query}
use distributed_graph_databa.Wire.Query.Conditions.{
  ConditionFits, conditions_text, put_conditions-eq, take_conditions-eq,
}

-- The five characters behind the node's name.
abbrev pub flags : ℕ → Bool → Bool → ℕ → Bytes
flags depth leaf attr count =
    (b'0' + depth) ∷ bit_char leaf ∷ bit_char attr ∷ (b'0' + count / 10) ∷ (b'0' + count % 10) ∷ []

bit_digit : (b : Bool) → (n : ℕ) × (stoi (bit_char b ∷ []) ≡ ok (pos n)) × (truth (pos n) ≡ b)
unfolding truth
bit_digit true = (1, stoi_char 1 (omega arith), refl)
bit_digit false = (0, stoi_char 0 (omega arith), refl)

count_read : (n : ℕ) → n < 100 → stoi ((b'0' + n / 10) ∷ (b'0' + n % 10) ∷ []) ≡ ok (pos n)
count_read n h =
    rw (← two_digits n h) (stoi-padded 2 n (omega (arith, length-padded 1 n h)) (omega arith))

pub record QueryFits (name : Bytes) (depth : ℕ) (conditions : List Condition) (request_id : ℕ)
    : Type 0 where
  pub name_fits : Fits name
  pub one_digit_depth : depth < 10
  pub few_conditions : length conditions < 100
  pub conditions_fit : All ConditionFits conditions
  pub id_fits : request_id < 1000

module _ (name : Bytes) (depth : ℕ) (leaf attr : Bool) (conditions : List Condition)
    (request_id : ℕ) (fits : QueryFits name depth conditions request_id) where
  abbrev count : ℕ
  count = length conditions

  abbrev tail : Bytes
  tail = conditions_text conditions ++ padded 3 request_id

  pub new_query_text-eq :
      new_query_text name (pos depth) leaf attr conditions request_id
      ≡ ok (b'R' ∷ (sized_text name ++ (flags depth leaf attr count ++ tail)))
  unfolding new_query_text to_size
  new_query_text-eq = rw (
    sized-eq name fits.name_fits,
    sprintf_fits 0 depth (omega arith) fits.one_digit_depth,
    sprintf_fits 1 count (omega arith) fits.few_conditions,
    put_conditions-eq conditions fits.conditions_fit,
    sprintf_fits 2 request_id (omega arith) fits.id_fits,
    one_digit depth fits.one_digit_depth,
    two_digits count fits.few_conditions,
  )

  flag_at :
      (i : ℕ)
      → at (name ++ (flags depth leaf attr count ++ tail)) (length name + i)
        ≡ at (flags depth leaf attr count ++ tail) i
  flag_at i = at_skip name (flags depth leaf attr count ++ tail) i (length name + i) refl

  flag_at_zero :
      at (name ++ (flags depth leaf attr count ++ tail)) (length name) ≡ ok (b'0' + depth)
  unfolding at
  flag_at_zero = at_skip name (flags depth leaf attr count ++ tail) 0 (length name) (omega arith)

  pub take_query-eq :
      take_query (sized_text name ++ (flags depth leaf attr count ++ tail))
      ≡ ok (record {
        node_name = name;
        depth = pos depth;
        leaf = leaf;
        attr = attr;
        conditions = conditions;
        request_id = pos request_id;
        buffer = name ++ flags depth leaf attr count;
      })
  unfolding take_query to_size digit_at at rounds
  take_query-eq =
      let five = flags depth leaf attr count in
      let (l, leaf_digit, leaf_truth) = bit_digit leaf in
      let (a, attr_digit, attr_truth) = bit_digit attr in
      rw (
        take_size name (five ++ tail) fits.name_fits,
        flag_at_zero,
        stoi_char depth fits.one_digit_depth,
        flag_at 1,
        leaf_digit,
        flag_at 2,
        attr_digit,
        flag_at 3,
        flag_at 4,
        count_read count fits.few_conditions,
        ← append_assoc name five tail,
        take_conditions-eq (name ++ five) (length name + 5) (length-append name five) conditions
            (padded 3 request_id) fits.conditions_fit,
        take_number_last (name ++ five) (length name + 5) 2 request_id (length-append name five)
            (omega arith) fits.id_fits,
        substr_first name five,
        leaf_truth,
        attr_truth,
      )

-- A message 'R' of parts that fit (a depth of one digit, at most 99 conditions whose operators were
-- stored, texts shorter than 1000 bytes and a request id below 1000) is written, and is read back
-- as it was.
pub take_query-new_query_text :
    (name : Bytes) (depth : ℕ) (leaf attr : Bool) (conditions : List Condition) (request_id : ℕ)
    → QueryFits name depth conditions request_id
    → (do
      text ← new_query_text name (pos depth) leaf attr conditions request_id
      buffer ← erase text 0 1
      take_query buffer)
      ≡ ok (record {
        node_name = name;
        depth = pos depth;
        leaf = leaf;
        attr = attr;
        conditions = conditions;
        request_id = pos request_id;
        buffer = name ++ flags depth leaf attr (length conditions);
      })
take_query-new_query_text name depth leaf attr conditions request_id fits =
    rw (new_query_text-eq name depth leaf attr conditions request_id fits, erase_first)
      (take_query-eq name depth leaf attr conditions request_id fits)
