-- ===== src/Pages/RoundTrip.antt =====
-- `from_columnar` and `copy_scan` behind `to_columnar`.
use optimized_hash_join_pipe.Base.{
  ℕ, zero, suc, ◌+◌, ◌<◌, ◌≡◌, refl, arith, ap, ap₂, ◌∙◌, sym, subst, ltb, true, Option, some, List,
  [], ◌∷◌, map, length, get_or, list_ext,
}
use optimized_hash_join_pipe.Base.Partial.{Returns, ◌>>=◌, load, load-get_or}
use optimized_hash_join_pipe.Column.{DataType, Page, page_size}
use optimized_hash_join_pipe.Filter.Statement.{Data}
use optimized_hash_join_pipe.Pages.{Column, ColumnarTable}
use optimized_hash_join_pipe.Pages.Scanner.{Table, from_columnar, copy_scan}
use optimized_hash_join_pipe.Pages.Writer.{write_columns, to_columnar}
use optimized_hash_join_pipe.Pages.Grid.{Grid, Wide}
use optimized_hash_join_pipe.Pages.Scans.{Scans, length-map}
use optimized_hash_join_pipe.Pages.Filled.{cell, Sourced, filter_run-Filled}
use optimized_hash_join_pipe.Pages.Typed.{
  Layout, HasType, IsTable, column_data, get_or-column_data, no_column, IsRead,
  write_columns-IsRead,
}

get_or-map {ℓ κ} :
    {A : Type ℓ} {B : Type κ} (f : A → B) (xs : List A) (i : ℕ) (a : A) (b : B)
    → i < length xs
    → get_or (map f xs) i b ≡ f (get_or xs i a)
get_or-map f [] i a b l = absurd (omega arith)
get_or-map f (x ∷ xs) zero a b l = refl
get_or-map f (x ∷ xs) (suc i) a b l = get_or-map f xs i a b (omega arith)

abbrev pub no_attr : ℕ × DataType
no_attr = (0, DataType.int32)

module _ {Fp : Type 0} where
  get_or-Wide :
      (width : ℕ) (rows : Grid Fp) (i : ℕ)
      → Wide width rows
      → i < length rows
      → length (get_or rows i []) ≡ width
  get_or-Wide width [] i w l = absurd (omega arith)
  get_or-Wide width (r ∷ rows) zero w l = w.0
  get_or-Wide width (r ∷ rows) (suc i) w l = get_or-Wide width rows i w.1 (omega arith)

  -- Records with the same cells are the same.
  Grid_ext :
      (width : ℕ) (rows others : Grid Fp)
      → Wide width rows
      → Wide width others
      → length rows ≡ length others
      → ((i j : ℕ) → i < length rows → j < width → cell rows i j ≡ cell others i j)
      → rows ≡ others
  Grid_ext width rows others w v e same = list_ext rows others [] e (λ i l.
      let m = get_or-Wide width rows i w l in
      let n = get_or-Wide width others i v (omega arith) in
      list_ext (get_or rows i []) (get_or others i []) Data.null (omega arith)
        (λ j k. same i j l (omega arith)))

  -- The columns that `output_attrs` names, of every record.
  abbrev pub project : List (ℕ × DataType) → List (List (Data Fp)) → List (List (Data Fp))
  project attrs records =
      map (λ r. map (λ (a : ℕ × DataType). get_or r a.0 Data.null) attrs) records

  project-Wide :
      (attrs : List (ℕ × DataType)) (records : Grid Fp)
      → Wide (length attrs) (project attrs records)
  project-Wide attrs [] = tt
  project-Wide attrs (r ∷ records) =
      (length-map (λ (a : ℕ × DataType). get_or r a.0 Data.null) attrs, project-Wide attrs records)

  cell-project :
      (attrs : List (ℕ × DataType)) (records : Grid Fp) (i j : ℕ)
      → i < length records
      → j < length attrs
      → cell (project attrs records) i j ≡ cell records i (get_or attrs j no_attr).0
  cell-project attrs records i j l k =
      ap (λ (r : List (Data Fp)). get_or r j Data.null)
        (get_or-map (λ r. map (λ (a : ℕ × DataType). get_or r a.0 Data.null) attrs) records i [] []
          l)
      ∙ get_or-map (λ (a : ℕ × DataType). get_or (get_or records i []) a.0 Data.null) attrs j
          no_attr Data.null k

  module _ (o : Layout Fp) (fresh : ℕ → ℕ → Page)
      (sized : (c k : ℕ) → length (fresh c k) ≡ page_size) (t : Table Fp) (valid : IsTable t) where
    abbrev written : List Column → ColumnarTable
    written columns = record { num_rows = length t.records; columns = columns }

    -- What has been written.
    columns-IsRead : Returns (write_columns o.to_bits fresh t.records 0 t.types) λ columns.
        (length columns ≡ length t.types)
        × ((j : ℕ) → j < length t.types → IsRead o fresh sized t.records 0 t.types columns j)
    columns-IsRead =
        write_columns-IsRead o fresh sized (length t.types) t.records valid.wide t.types 0
          (omega arith)
          (λ i j l k.
            subst (λ (n : ℕ). HasType (get_or t.types j DataType.int32) (cell t.records i n))
              (omega arith) (valid.typed i j l k))

    abbrev nth : List Column → ℕ → Column
    nth columns j = get_or columns j no_column

    read_column :
        (columns : List Column)
        → length columns ≡ length t.types
        → ((j : ℕ) → j < length t.types → IsRead o fresh sized t.records 0 t.types columns j)
        → (source : ℕ → Option ℕ) (width : ℕ) (in_col : ℕ → ℕ) (j : ℕ) → j < width
        → in_col j < length t.types
        → source j ≡ some (in_col j)
        → Sourced o.of_bits
            (written columns)
            source
            width
            in_col
            (λ k. nth columns (in_col k))
            (λ k. column_data (in_col k) t.records)
            j
    read_column columns count reads source width in_col j l k found = record {
      found = found;
      there = load-get_or columns (in_col j) no_column (omega arith);
      within = omega arith;
      count = length-map (λ r. get_or r (in_col j) Data.null) t.records;
      scans =
          let (same, read) = reads (in_col j) k in
          subst
            (λ (n : ℕ).
              Scans o.of_bits (length t.records) width j (nth columns (in_col j)).type
                (nth columns (in_col j)).pages (column_data n t.records))
            (omega arith)
            (subst
              (λ (y : DataType).
                Scans o.of_bits (length t.records) width j y (nth columns (in_col j)).pages
                  (column_data (0 + in_col j) t.records))
              (sym same) (read (length t.records) width j l));
    }

    -- For a table whose records all have a value or a null for every type of the table, and whatever
    -- the memory of new pages holds: `to_columnar` succeeds, and `from_columnar` of its result
    -- succeeds and gives the same table, with nulls, empty strings and long strings as they were.
    pub from_columnar-to_columnar :
        Returns (to_columnar o.to_bits fresh t) λ table. from_columnar o.of_bits table ≡ some t
    unfolding to_columnar from_columnar
    from_columnar-to_columnar =
        let (columns, ran, (count, reads)) = columns-IsRead in
        let ((results, types), scanned, f) =
          filter_run-Filled o.of_bits (written columns) (λ column_idx. some column_idx)
            (length columns) (λ j. j) (nth columns) (λ j. column_data j t.records)
            (λ j l.
              read_column columns count reads (λ column_idx. some column_idx) (length columns)
                (λ k. k) j l (omega arith) refl)
            (λ i j l k e. ap (λ (n : ℕ). (nth columns n).type) e) in
        (
          written columns,
          rw (ran, ◌>>=◌) refl,
          rw (scanned, ◌>>=◌)
              (ap₂
                (λ (ts : List DataType) (rs : Grid Fp). some (record { types = ts; records = rs }))
                (list_ext types t.types DataType.int32 (omega (arith, f.all_types)) (λ j l.
                  let less : j < length columns = omega (arith, f.all_types) in
                  f.typed j less ∙ (reads j (omega arith)).0))
                (Grid_ext (length columns) results t.records f.wide
                  (subst (λ (n : ℕ). Wide n t.records) (sym count) valid.wide) f.rows
                  (λ i j l k.
                    f.values i j
                    ∙ rw (let z : ltb j (length columns) ≡ true = ground arith in z)
                        (get_or-column_data j t.records i)))),
        )

    -- Under the same conditions, if every column that `output_attrs` names is one of the table,
    -- `copy_scan` of what `to_columnar` gives succeeds and gives those columns of the records, in the
    -- order of `output_attrs`.
    pub copy_scan-project :
        (output_attrs : List (ℕ × DataType))
        → ((j : ℕ) → j < length output_attrs → (get_or output_attrs j no_attr).0 < length t.types)
        → Returns
            (to_columnar o.to_bits fresh t)
            λ table. copy_scan o.of_bits table output_attrs ≡ some (project output_attrs t.records)
    unfolding to_columnar copy_scan
    copy_scan-project attrs named =
        let (columns, ran, (count, reads)) = columns-IsRead in
        let in_col : ℕ → ℕ = λ j. (get_or attrs j no_attr).0 in
        let source : ℕ → Option ℕ = λ column_idx. load attrs column_idx >>= λ attr. some attr.0 in
        let ((results, types), scanned, f) =
          filter_run-Filled o.of_bits (written columns) source (length attrs) in_col
            (λ j. nth columns (in_col j)) (λ j. column_data (in_col j) t.records)
            (λ j l.
              read_column columns count reads source (length attrs) in_col j l (named j l)
                (rw (load-get_or attrs j no_attr l, ◌>>=◌) refl))
            (λ i j l k e. ap (λ (n : ℕ). (nth columns n).type) e) in
        (
          written columns,
          rw (ran, ◌>>=◌) refl,
          rw (scanned, ◌>>=◌)
              (ap some (
                Grid_ext (length attrs) results (project attrs t.records) f.wide
                  (project-Wide attrs t.records)
                  (f.rows
                    ∙ sym (
                        length-map (λ r. map (λ (a : ℕ × DataType). get_or r a.0 Data.null) attrs)
                          t.records))
                  (λ i j l k.
                    f.values i j
                    ∙ rw (let z : ltb j (length attrs) ≡ true = ground arith in z)
                        (get_or-column_data (in_col j) t.records i)
                    ∙ sym (cell-project attrs t.records i j (omega (arith, f.rows)) k)))),
        )
