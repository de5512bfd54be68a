-- ===== src/Filter/Strings.antt =====
-- `InnerColumn<std::string>` of include/inner_column.h: the characters of all rows, the end of each
-- row, and a bitmap. The eight comparisons are one function of the test.
pub mod Kept
pub mod Search
use optimized_hash_join_pipe.Base.{
  ℕ, zero, suc, ◌+◌, ◌-◌, ◌*◌, ◌/◌, ◌%◌, ◌^◌, ◌==◌, ltb, leb, ◌&&◌, if◌then◌else◌, Bool, true,
  false, Option, some, none, List, [], ◌∷◌, ◌++◌, length, take, drop, bit_or, to_nat,
}
use optimized_hash_join_pipe.Base.Partial.{◌>>=◌, load, store}
use optimized_hash_join_pipe.Filter.{filter_run}
use optimized_hash_join_pipe.Filter.Bitmap.{write_bit, is_not_null}
use optimized_hash_join_pipe.Filter.Values.{zeros}

-- A string is its bytes.
abbrev pub String : Type 0
String = List ℕ

pub record StringColumn : Type 0 where
  pub chars : String
  pub offsets : List ℕ
  pub bitmap : List ℕ
  pub row : ℕ

abbrev pub empty_strings : StringColumn
empty_strings = record { chars = []; offsets = []; bitmap = []; row = 0 }

-- `bitmap_push_back`
unfoldable pub string_bitmap_push_back : StringColumn → Bool → Option StringColumn
string_bitmap_push_back c not_null =
    if ltb (length c.bitmap) (c.row / 8 + 1)
    then some (record c { bitmap = c.bitmap ++ to_nat not_null ∷ []; row = c.row + 1 })
    else (write_bit c.bitmap c.row not_null >>= λ bitmap.
        some (record c { bitmap = bitmap; row = c.row + 1 }))

-- `push_back`
unfoldable pub push_string : StringColumn → String → Option StringColumn
unfolding string_bitmap_push_back
push_string c value =
    string_bitmap_push_back
      (record c { chars = c.chars ++ value; offsets = c.offsets ++ length (c.chars ++ value) ∷ [] })
      true

-- `push_back_null`
unfoldable pub push_null_string : StringColumn → Option StringColumn
unfolding string_bitmap_push_back
push_null_string c =
    string_bitmap_push_back (record c { offsets = c.offsets ++ length c.chars ∷ [] }) false

-- A view of a part of the characters; a view that leaves them is undefined.
unfoldable pub view : String → ℕ → ℕ → Option String
view chars begin end =
    if leb begin end && leb end (length chars)
    then some (take (end - begin) (drop begin chars))
    else none

-- Where a row begins.
unfoldable pub begin_of : List ℕ → ℕ → Option ℕ
begin_of offsets zero = some 0
begin_of offsets (suc before) = load offsets before

-- `get`, and the same lines in the comparisons.
unfoldable pub get_string : StringColumn → ℕ → Option String
unfolding begin_of view
get_string c idx = do
  begin ← begin_of c.offsets idx
  end ← load c.offsets idx
  view c.chars begin end

module _ (test : String → Bool) (c : StringColumn) where
  -- A round of the inner loop.
  unfoldable pub string_row : List ℕ → ℕ → ℕ → Option (List ℕ)
  unfolding get_string
  string_row ret byte_idx bit_idx = do
    non_null ← is_not_null c.bitmap (byte_idx * 8 + bit_idx)
    value ← get_string c (byte_idx * 8 + bit_idx)
    o ← load ret byte_idx
    store ret byte_idx (bit_or o (to_nat (non_null && test value) * 2 ^ bit_idx) % 2 ^ 8)

  -- The inner loop with its `break`.
  unfoldable pub string_bits : List ℕ → ℕ → ℕ → ℕ → Option (List ℕ)
  unfolding string_row
  string_bits ret byte_idx bit_idx zero = some ret
  string_bits ret byte_idx bit_idx (suc rounds) =
      let next = string_row ret byte_idx bit_idx >>= λ written.
      string_bits written byte_idx (bit_idx + 1) rounds in
      if leb c.row (byte_idx * 8 + bit_idx) then some ret else next

  -- The outer loop.
  unfoldable pub string_bytes : List ℕ → ℕ → ℕ → Option (List ℕ)
  unfolding string_bits
  string_bytes ret byte_idx zero = some ret
  string_bytes ret byte_idx (suc rounds) =
      string_bits ret byte_idx 0 8 >>= λ written. string_bytes written (byte_idx + 1) rounds

  -- `less` and the others.
  unfoldable pub search_rows : Option (List ℕ)
  unfolding string_bytes
  search_rows =
      filter_run (λ ret byte_begin byte_end. string_bytes ret byte_begin (byte_end - byte_begin))
        ((c.row + 7) / 8) (zeros (length c.bitmap))
