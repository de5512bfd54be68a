-- ===== src/Pages/Typed.antt =====
-- The columns of `to_columnar`, type by type: their pages are read as the values that were written.
use optimized_hash_join_pipe.Base.{
  ℕ, zero, suc, ◌+◌, ◌^◌, ◌<◌, ◌≤◌, ◌≡◌, refl, arith, ap, ◌∙◌, sym, subst, Option, List, [], ◌∷◌,
  map, length, get_or,
}
use optimized_hash_join_pipe.Base.Partial.{Returns, ◌>>=◌, load-get_or}
use optimized_hash_join_pipe.Column.{DataType, Page, page_size}
use optimized_hash_join_pipe.Filter.Statement.{Data}
use optimized_hash_join_pipe.Pages.{Column}
use optimized_hash_join_pipe.Pages.Scanner.{Table, scan_page, scan_number_page}
use optimized_hash_join_pipe.Pages.Writer.{
  no_numbers, write_numbers, last_number_page, int32_bits, int64_bits, fp64_bits, column_pages,
  write_columns,
}
use optimized_hash_join_pipe.Pages.Grid.{Wide, IsValue}
use optimized_hash_join_pipe.Pages.Scans.{Scans, AllHold-Scans, length-map}
use optimized_hash_join_pipe.Pages.Filled.{cell}
use optimized_hash_join_pipe.Pages.Numbers.Columns.{
  IsColumn, FitsNumber, AllFitNumber, cells_of-rows_of, write_numbers-AllHold,
}
use optimized_hash_join_pipe.Pages.Numbers.{cell_of}
use optimized_hash_join_pipe.Pages.Strings.Columns.{
  IsText, AllText, cells_of-text_rows, write_texts-PartsHold, PartsHold-Scans,
}

-- A `double` and its 64 bits.
pub record Layout (Fp : Type 0) : Type 0 where
  pub to_bits : Fp → ℕ
  pub of_bits : ℕ → Fp
  pub bits_small : (x : Fp) → to_bits x < 2 ^ 64
  pub same_again : (x : Fp) → of_bits (to_bits x) ≡ x

abbrev pub no_column : Column
no_column = record { type = DataType.int32; pages = [] }

module _ {Fp : Type 0} where
  -- A null, or a value of the type.
  abbrev pub HasType : DataType → Data Fp → Type 0
  HasType DataType.int32 Data.null = Unit {0}
  HasType DataType.int32 (Data.i32 v) = v < 2 ^ 32
  HasType DataType.int32 _ = ⊥
  HasType DataType.int64 Data.null = Unit {0}
  HasType DataType.int64 (Data.i64 v) = v < 2 ^ 64
  HasType DataType.int64 _ = ⊥
  HasType DataType.fp64 Data.null = Unit {0}
  HasType DataType.fp64 (Data.f64 x) = Unit {0}
  HasType DataType.fp64 _ = ⊥
  HasType DataType.varchar Data.null = Unit {0}
  HasType DataType.varchar (Data.str v) = Unit {0}
  HasType DataType.varchar _ = ⊥

  -- Every record has a value for each type.
  pub record IsTable (t : Table Fp) : Type 0 where
    pub wide : Wide (length t.types) t.records
    pub typed :
        (i j : ℕ)
        → i < length t.records
        → j < length t.types
        → HasType (get_or t.types j DataType.int32) (cell t.records i j)

  abbrev pub column_data : ℕ → List (List (Data Fp)) → List (Data Fp)
  column_data col records = map (λ r. get_or r col Data.null) records

  column_data-IsColumn :
      (width col : ℕ) (records : List (List (Data Fp)))
      → Wide width records
      → col < width
      → IsColumn col records (column_data col records)
  column_data-IsColumn width col [] w l = tt
  column_data-IsColumn width col (r ∷ records) w l = (
    load-get_or r col Data.null (omega (arith, w.0)),
    column_data-IsColumn width col records w.1 l,
  )

  pub get_or-column_data :
      (col : ℕ) (records : List (List (Data Fp))) (i : ℕ)
      → get_or (column_data col records) i Data.null ≡ cell records i col
  get_or-column_data col [] i = refl
  get_or-column_data col (r ∷ records) zero = refl
  get_or-column_data col (r ∷ records) (suc i) = get_or-column_data col records i

  module _ (o : Layout Fp) where
    int32-FitsNumber :
        (d : Data Fp) → HasType DataType.int32 d → FitsNumber (int32_bits o.to_bits) Data.i32 4 d
    int32-FitsNumber Data.null h = tt
    int32-FitsNumber (Data.i32 v) h = (v, refl, omega arith, refl)
    int32-FitsNumber (Data.i64 v) h = absurd h
    int32-FitsNumber (Data.f64 v) h = absurd h
    int32-FitsNumber (Data.str v) h = absurd h

    int64-FitsNumber :
        (d : Data Fp) → HasType DataType.int64 d → FitsNumber (int64_bits o.to_bits) Data.i64 8 d
    int64-FitsNumber Data.null h = tt
    int64-FitsNumber (Data.i32 v) h = absurd h
    int64-FitsNumber (Data.i64 v) h = (v, refl, omega arith, refl)
    int64-FitsNumber (Data.f64 v) h = absurd h
    int64-FitsNumber (Data.str v) h = absurd h

    fp64-FitsNumber :
        (d : Data Fp)
        → HasType DataType.fp64 d
        → FitsNumber (fp64_bits o.to_bits) (λ v. Data.f64 (o.of_bits v)) 8 d
    fp64-FitsNumber Data.null h = tt
    fp64-FitsNumber (Data.i32 v) h = absurd h
    fp64-FitsNumber (Data.i64 v) h = absurd h
    fp64-FitsNumber (Data.f64 x) h =
        (o.to_bits x, refl, omega (arith, o.bits_small x), ap Data.f64 (o.same_again x))
    fp64-FitsNumber (Data.str v) h = absurd h

    varchar-IsText : (d : Data Fp) → HasType DataType.varchar d → IsText d
    varchar-IsText Data.null h = tt
    varchar-IsText (Data.i32 v) h = absurd h
    varchar-IsText (Data.i64 v) h = absurd h
    varchar-IsText (Data.f64 v) h = absurd h
    varchar-IsText (Data.str v) h = tt

    numbers_fit :
        (type : DataType) (number : Data Fp → Option ℕ) (make : ℕ → Data Fp) (size : ℕ)
        → ((d : Data Fp) → HasType type d → FitsNumber number make size d)
        → (ds : List (Data Fp)) → ((i : ℕ) → i < length ds → HasType type (get_or ds i Data.null))
        → AllFitNumber number make size ds
    numbers_fit type number make size f [] h = tt
    numbers_fit type number make size f (d ∷ ds) h = (
      f d (h 0 (omega arith)),
      numbers_fit type number make size f ds (λ i l. h (suc i) (omega arith)),
    )

    texts_fit :
        (ds : List (Data Fp))
        → ((i : ℕ) → i < length ds → HasType DataType.varchar (get_or ds i Data.null))
        → AllText ds
    texts_fit [] h = tt
    texts_fit (d ∷ ds) h =
        (varchar-IsText d (h 0 (omega arith)), texts_fit ds (λ i l. h (suc i) (omega arith)))

    module _ (fresh : ℕ → ℕ → Page) (sized : (c k : ℕ) → length (fresh c k) ≡ page_size) where
      -- The pages of a column are read as its cells, whatever the table that they are read into.
      abbrev pub ReadAs : DataType → List (Data Fp) → List Page → Type 0
      ReadAs type ds pages =
          (num_rows width column : ℕ)
          → column < width
          → Scans o.of_bits num_rows width column type pages ds

      numbers-ReadAs :
          (type : DataType) (number : Data Fp → Option ℕ) (make : ℕ → Data Fp) (size c : ℕ)
          (records : List (List (Data Fp))) (ds : List (Data Fp))
          → 4 ≤ size
          → size ≤ 8
          → ((v : ℕ) → IsValue (make v))
          → ((num_rows column : ℕ) (page : Page)
              → scan_page o.of_bits num_rows column type page
                ≡ scan_number_page o.of_bits num_rows column size make page)
          → IsColumn c records ds
          → AllFitNumber number make size ds
          → Returns
              (write_numbers (fresh c) size number c no_numbers records
                >>= last_number_page (fresh c) size)
              (ReadAs type ds)
      numbers-ReadAs type number make size c records ds from_four to_eight solid same is fits =
          let (pages, ran, (chunks, held, all)) =
            write_numbers-AllHold number make size from_four to_eight (fresh c) (sized c) c records
              ds is fits in
          (
            pages,
            ran,
            λ num_rows width column within.
                subst (Scans o.of_bits num_rows width column type pages)
                  (ap (map (cell_of make)) all ∙ cells_of-rows_of number make size ds fits)
                  (AllHold-Scans o.of_bits num_rows width column within type size make solid
                    (same num_rows column) pages chunks held),
          )

      column_pages-ReadAs :
          (type : DataType) (c : ℕ) (records : List (List (Data Fp))) (ds : List (Data Fp))
          → IsColumn c records ds
          → ((i : ℕ) → i < length ds → HasType type (get_or ds i Data.null))
          → Returns (column_pages o.to_bits fresh type c records) (ReadAs type ds)
      unfolding column_pages scan_page
      column_pages-ReadAs DataType.int32 c records ds is h =
          numbers-ReadAs DataType.int32 (int32_bits o.to_bits) Data.i32 4 c records ds (omega arith)
            (omega arith) (λ v. tt) (λ n k page. refl) is
            (numbers_fit DataType.int32 (int32_bits o.to_bits) Data.i32 4 int32-FitsNumber ds h)
      column_pages-ReadAs DataType.int64 c records ds is h =
          numbers-ReadAs DataType.int64 (int64_bits o.to_bits) Data.i64 8 c records ds (omega arith)
            (omega arith) (λ v. tt) (λ n k page. refl) is
            (numbers_fit DataType.int64 (int64_bits o.to_bits) Data.i64 8 int64-FitsNumber ds h)
      column_pages-ReadAs DataType.fp64 c records ds is h =
          numbers-ReadAs DataType.fp64 (fp64_bits o.to_bits) (λ v. Data.f64 (o.of_bits v)) 8 c
            records ds (omega arith) (omega arith) (λ v. tt) (λ n k page. refl) is
            (numbers_fit DataType.fp64 (fp64_bits o.to_bits) (λ v. Data.f64 (o.of_bits v)) 8
              fp64-FitsNumber ds h)
      column_pages-ReadAs DataType.varchar c records ds is h =
          let fits = texts_fit ds h in
          let (pages, ran, (parts, held, all)) =
            write_texts-PartsHold (fresh c) (sized c) c records ds is fits in
          (
            pages,
            ran,
            λ num_rows width column within.
                subst (Scans o.of_bits num_rows width column DataType.varchar pages)
                  (ap (map (cell_of Data.str)) all ∙ cells_of-text_rows ds fits)
                  (PartsHold-Scans o.of_bits num_rows width column within parts pages held),
          )

      -- The column for type `j` of `types`, from the column `c + j` of the records.
      abbrev pub IsRead : List (List (Data Fp)) → ℕ → List DataType → List Column → ℕ → Type 0
      IsRead records c types columns j =
          ((get_or columns j no_column).type ≡ get_or types j DataType.int32)
          × ReadAs (get_or types j DataType.int32) (column_data (c + j) records)
              (get_or columns j no_column).pages

      pub write_columns-IsRead :
          (width : ℕ) (records : List (List (Data Fp)))
          → Wide width records
          → (types : List DataType) (c : ℕ) → c + length types ≤ width
          → ((i j : ℕ)
              → i < length records
              → j < length types
              → HasType (get_or types j DataType.int32) (cell records i (c + j)))
          → Returns (write_columns o.to_bits fresh records c types) λ columns.
            (length columns ≡ length types)
            × ((j : ℕ) → j < length types → IsRead records c types columns j)
      unfolding write_columns
      write_columns-IsRead width records w [] c fits h =
          ([], refl, (refl, λ j l. absurd (omega arith)))
      write_columns-IsRead width records w (type ∷ types) c fits h =
          let size : length (column_data c records) ≡ length records =
            length-map (λ r. get_or r c Data.null) records in
          let (pages, ran, read) =
            column_pages-ReadAs type c records (column_data c records)
              (column_data-IsColumn width c records w (omega arith))
              (λ i l.
                subst (HasType type)
                  (ap (cell records i) (let e : c + 0 ≡ c = omega arith in e)
                    ∙ sym (get_or-column_data c records i))
                  (h i 0 (omega (arith, size)) (omega arith))) in
          let (columns, rest, (count, reads)) =
            write_columns-IsRead width records w types (c + 1) (omega arith) (λ i j l k.
              subst (λ (n : ℕ). HasType (get_or types j DataType.int32) (cell records i n))
                (omega arith) (h i (suc j) l (omega arith))) in
          (
            record { type = type; pages = pages } ∷ columns,
            rw (ran, ◌>>=◌) (rw (rest, ◌>>=◌) refl),
            (ap suc count, λ j l. all_read pages columns read reads j l),
          )
        where
          all_read :
              (pages : List Page) (columns : List Column)
              → ReadAs type (column_data c records) pages
              → ((j : ℕ) → j < length types → IsRead records (c + 1) types columns j)
              → (j : ℕ) → j < suc (length types)
              → IsRead records c (type ∷ types) (record { type = type; pages = pages } ∷ columns) j
          all_read pages columns read reads zero l = (
            refl,
            subst (λ (n : ℕ). ReadAs type (column_data n records) pages) (omega arith) read,
          )
          all_read pages columns read reads (suc j) l =
              let (same, r) = reads j (omega arith) in
              (
                same,
                subst
                    (λ (n : ℕ).
                      ReadAs (get_or types j DataType.int32) (column_data n records)
                        (get_or columns j no_column).pages)
                    (omega arith) r,
              )
