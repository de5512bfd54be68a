-- ===== src/Pages/Scanner.antt =====
-- `Table::from_columnar` and `Table::copy_scan` of src/build_table.cpp: from the pages of columns to
-- records. The two have the same loops over the pages of a column. An exception is `none`.
use optimized_hash_join_pipe.Base.{
  ℕ, zero, suc, ◌+◌, ◌-◌, ◌*◌, ◌/◌, ◌==◌, ltb, leb, if◌then◌else◌, true, false, Option, some, none,
  List, [], ◌∷◌, ◌++◌, length, replicate,
}
use optimized_hash_join_pipe.Base.Partial.{◌>>=◌, load, store}
use optimized_hash_join_pipe.Column.{DataType, Page, page_size, read_u16}
use optimized_hash_join_pipe.Filter.{filter_run}
use optimized_hash_join_pipe.Filter.Statement.{Data}
use optimized_hash_join_pipe.Pages.{ColumnarTable, read_le, read_bytes, get_bitmap}

-- `Table`
pub record Table (Fp : Type 0) : Type 0 where
  pub types : List DataType
  pub records : List (List (Data Fp))

-- The marks of the pages of a long string.
abbrev pub first_long_page : ℕ
first_long_page = 0xffff

abbrev pub later_long_page : ℕ
later_long_page = 0xfffe

module _ {Fp : Type 0} where
  -- `results[row_idx][column_idx] = v`
  unfoldable pub put_cell : List (List (Data Fp)) → ℕ → ℕ → Data Fp → Option (List (List (Data Fp)))
  put_cell results row_idx column_idx v = do
    record_ ← load results row_idx
    changed ← store record_ column_idx v
    store results row_idx changed

  module _ (of_bits : ℕ → Fp) (num_rows column_idx : ℕ) where
    -- A value for the next row, which must be one of the table.
    unfoldable pub put_next :
        List (List (Data Fp)) → ℕ → Data Fp → Option (List (List (Data Fp)) × ℕ)
    unfolding put_cell
    put_next results row_idx v =
        if leb num_rows row_idx
        then none
        else (put_cell results row_idx column_idx v >>= λ changed. some (changed, row_idx + 1))

    -- The rows of a page of numbers, from row `i` of the page on.
    unfoldable pub scan_numbers :
        (width : ℕ) (make : ℕ → Data Fp) (page : Page) (bitmap : ℕ)
        → List (List (Data Fp))
        → (row_idx data_idx i rounds : ℕ) → Option (List (List (Data Fp)) × ℕ)
    unfolding put_next
    scan_numbers width make page bitmap results row_idx data_idx i zero = some (results, row_idx)
    scan_numbers width make page bitmap results row_idx data_idx i (suc rounds) =
        get_bitmap page bitmap i >>= λ non_null. elim non_null [
          | true ↦ read_le page width (width + width * data_idx) >>= λ value.
              put_next results row_idx (make value) >>= λ (changed, next_row).
              scan_numbers width make page bitmap changed next_row (data_idx + 1) (i + 1) rounds
          | false ↦
              scan_numbers width make page bitmap results (row_idx + 1) data_idx (i + 1) rounds
        ]

    unfoldable pub scan_number_page :
        (width : ℕ) (make : ℕ → Data Fp) (page : Page)
        → List (List (Data Fp))
        → ℕ
        → Option (List (List (Data Fp)) × ℕ)
    unfolding scan_numbers
    scan_number_page width make page results row_idx = read_u16 page 0 >>= λ rows.
        scan_numbers width make page (page_size - (rows + 7) / 8) results row_idx 0 0 rows

    -- The rows of a page of short strings; `string_begin` is a place in the page.
    unfoldable pub scan_strings :
        (page : Page) (characters bitmap : ℕ)
        → List (List (Data Fp))
        → (row_idx data_idx string_begin i rounds : ℕ) → Option (List (List (Data Fp)) × ℕ)
    unfolding put_next
    scan_strings page characters bitmap results row_idx data_idx string_begin i zero =
        some (results, row_idx)
    scan_strings page characters bitmap results row_idx data_idx string_begin i (suc rounds) =
        get_bitmap page bitmap i >>= λ non_null. elim non_null [
          | true ↦ read_u16 page (4 + 2 * data_idx) >>= λ offset.
              (if ltb (characters + offset) string_begin
                then none
                else read_bytes page string_begin (characters + offset - string_begin))
              >>= λ value. put_next results row_idx (Data.str value) >>= λ (changed, next_row).
                  scan_strings page characters bitmap changed next_row (data_idx + 1)
                    (characters + offset) (i + 1) rounds
          | false ↦
              scan_strings page characters bitmap results (row_idx + 1) data_idx string_begin
                (i + 1) rounds
        ]

    -- The characters of a later page of a long string go behind those of the row before.
    abbrev pub appended : Data Fp → List ℕ → Option (Data Fp)
    appended (Data.str value) more = some (Data.str (value ++ more))
    appended _ more = none

    unfoldable pub append_last :
        List (List (Data Fp)) → ℕ → List ℕ → Option (List (List (Data Fp)) × ℕ)
    unfolding put_cell
    append_last results zero more = none
    append_last results (suc row_idx) more = do
      record_ ← load results row_idx
      value ← load record_ column_idx
      longer ← appended value more
      changed ← put_cell results row_idx column_idx longer
      some (changed, suc row_idx)

    unfoldable pub scan_string_page :
        (page : Page) → List (List (Data Fp)) → ℕ → Option (List (List (Data Fp)) × ℕ)
    unfolding put_next append_last scan_strings
    scan_string_page page results row_idx = read_u16 page 0 >>= λ rows. read_u16 page 2 >>= λ size.
        if rows == first_long_page
        then (read_bytes page 4 size >>= λ value. put_next results row_idx (Data.str value))
        else (if rows == later_long_page
            then (read_bytes page 4 size >>= λ more. append_last results row_idx more)
            else scan_strings page (4 + size * 2) (page_size - (rows + 7) / 8) results row_idx 0
                (4 + size * 2) 0 rows)

    -- The `switch` on the column's type.
    unfoldable pub scan_page :
        DataType → Page → List (List (Data Fp)) → ℕ → Option (List (List (Data Fp)) × ℕ)
    unfolding scan_number_page scan_string_page
    scan_page DataType.int32 page = scan_number_page 4 Data.i32 page
    scan_page DataType.int64 page = scan_number_page 8 Data.i64 page
    scan_page DataType.fp64 page = scan_number_page 8 (λ v. Data.f64 (of_bits v)) page
    scan_page DataType.varchar page = scan_string_page page

    unfoldable pub scan_pages :
        DataType → List Page → List (List (Data Fp)) → ℕ → Option (List (List (Data Fp)) × ℕ)
    unfolding scan_page
    scan_pages type [] results row_idx = some (results, row_idx)
    scan_pages type (page ∷ pages) results row_idx =
        scan_page type page results row_idx >>= λ (changed, next_row).
        scan_pages type pages changed next_row

  -- A task: `rounds` columns of the results from `column_idx` on. `source` gives the column of the
  -- table that each is read from.
  unfoldable pub scan_columns :
      (of_bits : ℕ → Fp) (table : ColumnarTable) (source : ℕ → Option ℕ)
      → List (List (Data Fp)) × List DataType
      → (column_idx rounds : ℕ) → Option (List (List (Data Fp)) × List DataType)
  unfolding scan_pages
  scan_columns of_bits table source (results, types) column_idx zero = some (results, types)
  scan_columns of_bits table source (results, types) column_idx (suc rounds) =
      source column_idx >>= λ in_col. load table.columns in_col >>= λ column.
      store types in_col column.type >>= λ typed.
      scan_pages of_bits table.num_rows column_idx column.type column.pages results 0
      >>= λ (changed, _). scan_columns of_bits table source (changed, typed) (column_idx + 1) rounds

  -- `results` and `types` at the start.
  abbrev pub no_results : ColumnarTable → ℕ → List (List (Data Fp)) × List DataType
  no_results table width = (
    replicate table.num_rows (replicate width Data.null),
    replicate (length table.columns) DataType.int32,
  )

  unfoldable pub from_columnar : (of_bits : ℕ → Fp) → ColumnarTable → Option (Table Fp)
  unfolding scan_columns
  from_columnar of_bits table =
      filter_run
        (λ s begin end.
          scan_columns of_bits table (λ column_idx. some column_idx) s begin (end - begin))
        (length table.columns) (no_results table (length table.columns))
      >>= λ (results, types). some (record { types = types; records = results })

  unfoldable pub copy_scan :
      (of_bits : ℕ → Fp) → ColumnarTable → List (ℕ × DataType) → Option (List (List (Data Fp)))
  unfolding scan_columns
  copy_scan of_bits table output_attrs =
      filter_run
        (λ s begin end.
          scan_columns of_bits table
            (λ column_idx. load output_attrs column_idx >>= λ attr. some attr.0) s begin
            (end - begin))
        (length output_attrs) (no_results table (length output_attrs))
      >>= λ (results, types). some results
