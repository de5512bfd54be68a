-- ===== src/Pages/Writer.antt =====
-- `Table::to_columnar` of src/build_table.cpp: from records to the pages of columns. The branches for
-- INT32, INT64 and FP64 are one function of the width of a value, which is also the place of the
-- first value in a page. `fresh k` is what the memory of the `k`-th page of a column holds when
-- `new` gives it.
use optimized_hash_join_pipe.Base.{
  ℕ, zero, suc, ◌+◌, ◌-◌, ◌*◌, ◌/◌, ◌%◌, ◌^◌, min, ◌==◌, ltb, if◌then◌else◌, Bool, true, false,
  Option, some, none, List, [], ◌∷◌, ◌++◌, length, take, drop,
}
use optimized_hash_join_pipe.Base.Partial.{◌>>=◌, load}
use optimized_hash_join_pipe.Column.{DataType, Page, page_size}
use optimized_hash_join_pipe.Filter.Bitmap.{write_bit}
use optimized_hash_join_pipe.Filter.Statement.{Data}
use optimized_hash_join_pipe.Pages.{Column, ColumnarTable, le_bytes, le_values, write_bytes}
use optimized_hash_join_pipe.Pages.Scanner.{Table, first_long_page, later_long_page}

-- The `while` loop of `set_bitmap` and `unset_bitmap`.
unfoldable pub grow_bitmap : List ℕ → ℕ → List ℕ
grow_bitmap bitmap zero = bitmap
grow_bitmap bitmap (suc rounds) = grow_bitmap (bitmap ++ 0 ∷ []) rounds

-- `set_bitmap` and `unset_bitmap`
unfoldable pub mark_row : List ℕ → ℕ → Bool → Option (List ℕ)
unfolding grow_bitmap
mark_row bitmap idx not_null =
    write_bit (grow_bitmap bitmap (idx / 8 + 1 - length bitmap)) idx not_null

-- The variables of a column of numbers, and the pages of the column.
pub record NumberWriter : Type 0 where
  pub num_rows : ℕ
  pub values : List ℕ
  pub bitmap : List ℕ
  pub pages : List Page

abbrev pub no_numbers : NumberWriter
no_numbers = record { num_rows = 0; values = []; bitmap = []; pages = [] }

module _ (fresh : ℕ → Page) where
  module _ (width : ℕ) where
    -- `save_page`
    unfoldable pub save_number_page : NumberWriter → Option NumberWriter
    save_number_page w = do
      numbered ← write_bytes (fresh (length w.pages)) 0 (le_bytes 2 w.num_rows)
      counted ← write_bytes numbered 2 (le_bytes 2 (length w.values))
      filled ← write_bytes counted width (le_values width w.values)
      marked ← write_bytes filled (page_size - length w.bitmap) w.bitmap
      some (record { num_rows = 0; values = []; bitmap = []; pages = w.pages ++ marked ∷ [] })

    unfoldable pub insert_number : NumberWriter → ℕ → Option NumberWriter
    unfolding save_number_page
    insert_number w value =
        (if ltb page_size (width + (length w.values + 1) * width + (w.num_rows / 8 + 1))
          then save_number_page w
          else some w)
        >>= λ v. mark_row v.bitmap v.num_rows true >>= λ bitmap. some (record v {
          num_rows = (v.num_rows + 1) % 2 ^ 16;
          values = v.values ++ value ∷ [];
          bitmap = bitmap;
        })

    unfoldable pub insert_no_number : NumberWriter → Option NumberWriter
    unfolding save_number_page
    insert_no_number w =
        (if ltb page_size (width + length w.values * width + (w.num_rows / 8 + 1))
          then save_number_page w
          else some w)
        >>= λ v. mark_row v.bitmap v.num_rows false >>= λ bitmap.
            some (record v { num_rows = (v.num_rows + 1) % 2 ^ 16; bitmap = bitmap })

    -- The page that has been begun.
    unfoldable pub last_number_page : NumberWriter → Option (List Page)
    unfolding save_number_page
    last_number_page w =
        if w.num_rows == 0 then some w.pages else (save_number_page w >>= λ v. some v.pages)

    -- The loop over the records. `number` gives the bits of a value of the column's type; a value of
    -- another type is left out.
    module _ {Fp : Type 0} (number : Data Fp → Option ℕ) (col_idx : ℕ) where
      unfoldable pub visit_number : NumberWriter → Data Fp → Option NumberWriter
      unfolding insert_number insert_no_number
      visit_number w Data.null = insert_no_number w
      visit_number w value = elim (number value) [ none ↦ some w | some v ↦ insert_number w v ]

      unfoldable pub write_numbers : NumberWriter → List (List (Data Fp)) → Option NumberWriter
      unfolding visit_number
      write_numbers w [] = some w
      write_numbers w (record_ ∷ records) = do
        value ← load record_ col_idx
        v ← visit_number w value
        write_numbers v records

-- The variables of a column of strings.
pub record StringWriter : Type 0 where
  pub num_rows : ℕ
  pub chars : List ℕ
  pub offsets : List ℕ
  pub bitmap : List ℕ
  pub pages : List Page

abbrev pub no_texts : StringWriter
no_texts = record { num_rows = 0; chars = []; offsets = []; bitmap = []; pages = [] }

module _ (fresh : ℕ → Page) where
  -- `save_long_string`: `left` is the text from `offset` on.
  unfoldable pub save_long_string :
      List Page → (mark : ℕ) (left : List ℕ) (rounds : ℕ) → Option (List Page)
  save_long_string pages mark [] rounds = some pages
  save_long_string pages mark (c ∷ cs) zero = none
  save_long_string pages mark (c ∷ cs) (suc rounds) = do
    let page_data_len = min (length (c ∷ cs)) (page_size - 4)
    marked ← write_bytes (fresh (length pages)) 0 (le_bytes 2 mark)
    sized ← write_bytes marked 2 (le_bytes 2 page_data_len)
    filled ← write_bytes sized 4 (take page_data_len (c ∷ cs))
    save_long_string (pages ++ filled ∷ []) later_long_page (drop page_data_len (c ∷ cs)) rounds

  -- `save_page`
  unfoldable pub save_string_page : StringWriter → Option StringWriter
  save_string_page w = do
    numbered ← write_bytes (fresh (length w.pages)) 0 (le_bytes 2 w.num_rows)
    counted ← write_bytes numbered 2 (le_bytes 2 (length w.offsets))
    ended ← write_bytes counted 4 (le_values 2 w.offsets)
    filled ← write_bytes ended (4 + length w.offsets * 2) w.chars
    marked ← write_bytes filled (page_size - length w.bitmap) w.bitmap
    some (record {
      num_rows = 0;
      chars = [];
      offsets = [];
      bitmap = [];
      pages = w.pages ++ marked ∷ [];
    })

  unfoldable pub insert_text : StringWriter → List ℕ → Option StringWriter
  unfolding save_string_page save_long_string
  insert_text w value =
      if ltb (page_size - 7) (length value)
      then ((if ltb 0 w.num_rows then save_string_page w else some w) >>= λ v.
          save_long_string v.pages first_long_page value (length value) >>= λ pages.
          some (record v { pages = pages }))
      else ((if ltb page_size (
              4
              + (length w.offsets + 1) * 2
              + (length w.chars + length value)
              + (w.num_rows / 8 + 1))
            then save_string_page w
            else some w)
          >>= λ v. mark_row v.bitmap v.num_rows true >>= λ bitmap. some (record v {
            num_rows = (v.num_rows + 1) % 2 ^ 16;
            chars = v.chars ++ value;
            offsets = v.offsets ++ (length (v.chars ++ value) % 2 ^ 16) ∷ [];
            bitmap = bitmap;
          }))

  unfoldable pub insert_no_text : StringWriter → Option StringWriter
  unfolding save_string_page
  insert_no_text w =
      (if ltb page_size (4 + length w.offsets * 2 + length w.chars + (w.num_rows / 8 + 1))
        then save_string_page w
        else some w)
      >>= λ v. mark_row v.bitmap v.num_rows false >>= λ bitmap.
          some (record v { num_rows = (v.num_rows + 1) % 2 ^ 16; bitmap = bitmap })

  unfoldable pub last_string_page : StringWriter → Option (List Page)
  unfolding save_string_page
  last_string_page w =
      if w.num_rows == 0 then some w.pages else (save_string_page w >>= λ v. some v.pages)

  module _ {Fp : Type 0} where
    unfoldable pub visit_text : StringWriter → Data Fp → Option StringWriter
    unfolding insert_text insert_no_text
    visit_text w (Data.str value) = insert_text w value
    visit_text w Data.null = insert_no_text w
    visit_text w _ = none

    unfoldable pub write_texts :
        (col_idx : ℕ) → StringWriter → List (List (Data Fp)) → Option StringWriter
    unfolding visit_text
    write_texts col_idx w [] = some w
    write_texts col_idx w (record_ ∷ records) = do
      value ← load record_ col_idx
      v ← visit_text w value
      write_texts col_idx v records

module _ {Fp : Type 0} (to_bits : Fp → ℕ) where
  -- The values that each type of column takes.
  abbrev pub int32_bits : Data Fp → Option ℕ
  int32_bits (Data.i32 v) = some v
  int32_bits _ = none

  abbrev pub int64_bits : Data Fp → Option ℕ
  int64_bits (Data.i64 v) = some v
  int64_bits _ = none

  abbrev pub fp64_bits : Data Fp → Option ℕ
  fp64_bits (Data.f64 v) = some (to_bits v)
  fp64_bits _ = none

  module _ (fresh : ℕ → ℕ → Page) where
    -- The `switch`; the pages of column `c` begin as `fresh c`.
    unfoldable pub column_pages : DataType → ℕ → List (List (Data Fp)) → Option (List Page)
    unfolding write_numbers last_number_page write_texts last_string_page
    column_pages DataType.int32 c records =
        write_numbers (fresh c) 4 int32_bits c no_numbers records >>= last_number_page (fresh c) 4
    column_pages DataType.int64 c records =
        write_numbers (fresh c) 8 int64_bits c no_numbers records >>= last_number_page (fresh c) 8
    column_pages DataType.fp64 c records =
        write_numbers (fresh c) 8 fp64_bits c no_numbers records >>= last_number_page (fresh c) 8
    column_pages DataType.varchar c records =
        write_texts (fresh c) c no_texts records >>= last_string_page (fresh c)

    unfoldable pub write_columns : List (List (Data Fp)) → ℕ → List DataType → Option (List Column)
    unfolding column_pages
    write_columns records c [] = some []
    write_columns records c (type ∷ types) = do
      pages ← column_pages type c records
      columns ← write_columns records (c + 1) types
      some (record { type = type; pages = pages } ∷ columns)

    unfoldable pub to_columnar : Table Fp → Option ColumnarTable
    unfolding write_columns
    to_columnar t = write_columns t.records 0 t.types >>= λ columns.
        some (record { num_rows = length t.records; columns = columns })
