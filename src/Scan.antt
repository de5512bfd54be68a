-- ===== src/Scan.antt =====
-- `build_column_inserter` of src/execute.cpp: the column of a scan, from the pages of a table.
-- `blank` is what the memory of a value holds that nothing is written to.
pub mod Buffered
pub mod Integers
pub mod Checked
pub mod Correct
use optimized_hash_join_pipe.Base.{
  ℕ, zero, suc, ◌+◌, ◌-◌, ◌*◌, ◌/◌, ◌==◌, ltb, not, ◌&&◌, if◌then◌else◌, Bool, true, false, Option,
  some, none, List, [], ◌∷◌, ◌++◌, length, get_or,
}
use optimized_hash_join_pipe.Base.Partial.{◌>>=◌}
use optimized_hash_join_pipe.Column.{
  DataType, Value, str_value, Page, page_size, Buffer, max_per_buffer, ColumnT, new_column,
  read_u16, read_i32,
}
use optimized_hash_join_pipe.Pages.{Column, get_bitmap}
use optimized_hash_join_pipe.Pages.Scanner.{first_long_page, later_long_page}

-- `has_nulls` and `first_page_rows`
unfoldable pub check_pages : List Page → ℕ → Option (Bool × ℕ)
check_pages [] first_page_rows = some (false, first_page_rows)
check_pages (page ∷ pages) first_page_rows = do
  nr ← read_u16 page 0
  nv ← read_u16 page 2
  let first = if first_page_rows == 0 then nr else first_page_rows
  let rest = check_pages pages first
  if nv == nr then rest else some (true, first)

-- `page_rowids` behind the first, and `num_rows` at the end.
unfoldable pub count_rows : List Page → ℕ → Option (List ℕ × ℕ)
count_rows [] num_rows = some ([], num_rows)
count_rows (page ∷ pages) num_rows = do
  nr ← read_u16 page 0
  (rowids, total) ← count_rows pages (num_rows + nr)
  some ((num_rows + nr) ∷ rowids, total)

-- `buffers` and `curbuf`
pub record Filling : Type 0 where
  pub buffers : List Buffer
  pub curbuf : Buffer

unfoldable pub add_value : Filling → Value → Filling
add_value f v =
    let grown = f.curbuf ++ v ∷ [] in
    if length grown == max_per_buffer
    then record { buffers = f.buffers ++ grown ∷ []; curbuf = [] }
    else record f { curbuf = grown }

-- The rows of a page of integers, from row `i` on.
unfoldable pub add_integers :
    (blank : ℕ) → Page → ℕ → Filling → (cur_nv_row i rounds : ℕ) → Option Filling
unfolding add_value
add_integers blank page bitmap f cur_nv_row i zero = some f
add_integers blank page bitmap f cur_nv_row i (suc rounds) =
    get_bitmap page bitmap i >>= λ non_null. elim non_null [
      | true ↦ read_i32 page (4 + 4 * cur_nv_row) >>= λ v.
          add_integers blank page bitmap (add_value f (record { val = v; status = 1 }))
            (cur_nv_row + 1) (i + 1) rounds
      | false ↦
          add_integers blank page bitmap (add_value f (record { val = blank; status = 0 }))
            cur_nv_row (i + 1) rounds
    ]

unfoldable pub add_integer_pages : (blank : ℕ) → Filling → List Page → Option Filling
unfolding add_integers
add_integer_pages blank f [] = some f
add_integer_pages blank f (page ∷ pages) = do
  nr ← read_u16 page 0
  g ← add_integers blank page (page_size - (nr + 7) / 8) f 0 0 nr
  add_integer_pages blank g pages

-- The rows of a page of short strings.
unfoldable pub add_references :
    (table_id col_id idx : ℕ) → Page → ℕ → Filling → (cur_nv_row i rounds : ℕ) → Option Filling
unfolding add_value
add_references table_id col_id idx page bitmap f cur_nv_row i zero = some f
add_references table_id col_id idx page bitmap f cur_nv_row i (suc rounds) =
    get_bitmap page bitmap i >>= λ non_null. elim non_null [
      | true ↦
          add_references table_id col_id idx page bitmap
            (add_value f (str_value table_id col_id idx (4 + 2 * cur_nv_row))) (cur_nv_row + 1)
            (i + 1) rounds
      | false ↦
          add_references table_id col_id idx page bitmap
            (add_value f (str_value table_id col_id idx 0xffff)) cur_nv_row (i + 1) rounds
    ]

-- The pages of strings from page `idx` on.
unfoldable pub add_string_pages : (table_id col_id idx : ℕ) → Filling → List Page → Option Filling
unfolding add_references
add_string_pages table_id col_id idx f [] = some f
add_string_pages table_id col_id idx f (page ∷ pages) = do
  nr ← read_u16 page 0
  g ←
      if nr == first_long_page
      then some (add_value f (str_value table_id col_id idx 4))
      else (if nr == later_long_page
          then some f
          else add_references table_id col_id idx page (page_size - (nr + 7) / 8) f 0 0 nr)
  add_string_pages table_id col_id (idx + 1) g pages

-- The count of the last buffer.
abbrev pub last_count : List Buffer → ℕ
last_count [] = 0
last_count (b ∷ []) = length b
last_count (b ∷ (c ∷ bs)) = last_count (c ∷ bs)

-- The end: the last buffer, and the number of rows.
unfoldable pub close_buffers : ColumnT → Filling → ColumnT
close_buffers c f =
    let buffers = if ltb 0 (length f.curbuf) then f.buffers ++ f.curbuf ∷ [] else f.buffers in
    record c {
      buffers = buffers;
      num_rows =
          if length buffers == 0
          then 0
          else (length buffers - 1) * max_per_buffer + last_count buffers;
    }

abbrev pub no_values : Filling
no_values = record { buffers = []; curbuf = [] }

unfoldable pub build_column_inserter :
    (blank table_id col_id : ℕ) → List Page → DataType → ColumnT → Option ColumnT
unfolding add_integer_pages add_string_pages close_buffers
build_column_inserter blank table_id col_id pages DataType.int32 c =
    check_pages pages 0 >>= λ (has_nulls, first_page_rows).
    if not has_nulls && ltb 0 first_page_rows
    then (count_rows pages 0 >>= λ (rowids, total). some (record c {
      original_col = some pages;
      rows_per_page = first_page_rows;
      num_rows = total;
      page_rowids = c.page_rowids ++ 0 ∷ rowids;
    }))
    else (add_integer_pages blank no_values pages >>= λ f. some (close_buffers c f))
build_column_inserter blank table_id col_id pages DataType.varchar c =
    add_string_pages table_id col_id 0 no_values pages >>= λ f. some (close_buffers c f)
build_column_inserter blank table_id col_id pages _ c = some (close_buffers c no_values)
