-- ===== src/Pages/Filled.antt =====
-- The tasks of `from_columnar` and `copy_scan` together, on columns whose pages are read as cells.
use optimized_hash_join_pipe.Base.{
  ℕ, zero, suc, ◌+◌, ◌-◌, ◌<◌, ◌≤◌, ◌≡◌, ◌≢◌, refl, arith, ap, ◌∙◌, sym, subst, ◌==◌, ltb,
  if◌then◌else◌, true, false, Bool-cases, inl, inr, Option, some, List, [], ◌∷◌, length, get_or,
  get_or-set, set, length-set, replicate, length-replicate, get_or-replicate, ℕ_discrete,
}
use optimized_hash_join_pipe.Base.Partial.{Returns, ◌>>=◌, load, store-set}
use optimized_hash_join_pipe.Column.{DataType}
use optimized_hash_join_pipe.Filter.{filter_run}
use optimized_hash_join_pipe.Filter.Shares.{run-Done}
use optimized_hash_join_pipe.Filter.Statement.{Data}
use optimized_hash_join_pipe.Pages.{Column, ColumnarTable}
use optimized_hash_join_pipe.Pages.Scanner.{scan_columns, no_results}
use optimized_hash_join_pipe.Pages.Grid.{Grid, Wide, set_value, fill, fill-Wide, length-fill}
use optimized_hash_join_pipe.Pages.Scans.{Scans}

null_rows-Wide :
    (Fp : Type 0) (width n : ℕ) → Wide {Fp = Fp} width (replicate n (replicate width Data.null))
null_rows-Wide Fp width zero = tt
null_rows-Wide Fp width (suc n) = (length-replicate width Data.null, null_rows-Wide Fp width n)

module _ {Fp : Type 0} where
  abbrev pub cell : Grid Fp → ℕ → ℕ → Data Fp
  cell rows i j = get_or (get_or rows i []) j Data.null

  get_or-set_value :
      (r : List (Data Fp)) (col j : ℕ) (d : Data Fp)
      → col < length r
      → get_or r col Data.null ≡ Data.null
      → get_or (set_value r col d) j Data.null ≡ (if col == j then d else get_or r j Data.null)
  get_or-set_value r col j Data.null l e = elim (Bool-cases (col == j)) [
    | inl same ↦
        rw same (ap (λ (k : ℕ). get_or r k Data.null) (let t : j ≡ col = ground arith in t) ∙ e)
    | inr other ↦ rw other
  ]
  get_or-set_value r col j (Data.i32 x) l e = get_or-set r col j (Data.i32 x) Data.null l
  get_or-set_value r col j (Data.i64 x) l e = get_or-set r col j (Data.i64 x) Data.null l
  get_or-set_value r col j (Data.f64 x) l e = get_or-set r col j (Data.f64 x) Data.null l
  get_or-set_value r col j (Data.str x) l e = get_or-set r col j (Data.str x) Data.null l

  -- A column that was null is the cells it is filled with.
  cell-fill :
      (width col : ℕ) (ds : List (Data Fp)) (rows : Grid Fp)
      → length ds ≡ length rows
      → Wide width rows
      → col < width
      → ((i : ℕ) → cell rows i col ≡ Data.null)
      → (i j : ℕ)
      → cell (fill col 0 ds rows) i j ≡ (if col == j then get_or ds i Data.null else cell rows i j)
  unfolding fill
  cell-fill width col [] [] n w c empty i j = elim (Bool-cases (col == j)) [
    | inl e ↦ rw e
    | inr e ↦ rw e
  ]
  cell-fill width col [] (r ∷ rows) n w c empty i j = absurd (omega arith)
  cell-fill width col (d ∷ ds) [] n w c empty i j = absurd (omega arith)
  cell-fill width col (d ∷ ds) (r ∷ rows) n w c empty zero j =
      get_or-set_value r col j d (omega (arith, w.0)) (empty 0)
  cell-fill width col (d ∷ ds) (r ∷ rows) n w c empty (suc i) j =
      cell-fill width col ds rows (omega arith) w.1 c (λ k. empty (suc k)) i j

  pub null_rows-cell :
      (width n i j : ℕ) → cell (replicate n (replicate width Data.null)) i j ≡ Data.null
  null_rows-cell width zero i j = refl
  null_rows-cell width (suc n) zero j = get_or-replicate width j Data.null
  null_rows-cell width (suc n) (suc i) j = null_rows-cell width n i j

module _ {Fp : Type 0} (of_bits : ℕ → Fp) (table : ColumnarTable) (source : ℕ → Option ℕ)
    (width : ℕ) (in_col : ℕ → ℕ) (column : ℕ → Column) (cells : ℕ → List (Data Fp)) where
  -- Each column of the results has a column of the table, which is read as its cells.
  pub record Sourced (j : ℕ) : Type 0 where
    pub found : source j ≡ some (in_col j)
    pub there : load table.columns (in_col j) ≡ some (column j)
    pub within : in_col j < length table.columns
    pub count : length (cells j) ≡ table.num_rows
    pub scans : Scans of_bits table.num_rows width j (column j).type (column j).pages (cells j)

  -- The first `b` columns are there, and the others are null.
  pub record Filled (b : ℕ) (s : Grid Fp × List DataType) : Type 0 where
    pub wide : Wide width s.0
    pub rows : length s.0 ≡ table.num_rows
    pub all_types : length s.1 ≡ length table.columns
    pub values :
        (i j : ℕ) → cell s.0 i j ≡ (if ltb j b then get_or (cells j) i Data.null else Data.null)
    pub typed : (j : ℕ) → j < b → get_or s.1 (in_col j) DataType.int32 ≡ (column j).type

  module _ (sourced : (j : ℕ) → j < width → Sourced j)
      (one_type : (i j : ℕ)
        → i < width
        → j < width
        → in_col i ≡ in_col j
        → (column i).type ≡ (column j).type) where
    next_column :
        (results : Grid Fp) (types : List DataType) (b : ℕ)
        → b < width
        → Filled b (results, types)
        → Filled (b + 1) (fill b 0 (cells b) results, set types (in_col b) (column b).type)
    next_column results types b l f =
        let s = sourced b l in
        record {
          wide = fill-Wide width b 0 (cells b) results f.wide;
          rows = length-fill b 0 (cells b) results ∙ f.rows;
          all_types = length-set types (in_col b) (column b).type ∙ f.all_types;
          values = λ i j.
              cell-fill width b (cells b) results (omega (arith, s.count, f.rows)) f.wide l
                (λ k. f.values k b ∙ rw (let t : ltb b b ≡ false = ground arith in t)) i j
              ∙ elim (ℕ_discrete b j) [
                | yes e ↦ rw (let t : (b == j) ≡ true = ground arith in t) (
                    rw (let t : ltb j (b + 1) ≡ true = ground arith in t)
                      (ap (λ (k : ℕ). get_or (cells k) i Data.null) e))
                | no ne ↦
                    rw (let t : (b == j) ≡ false = ground arith in t)
                      (f.values i j ∙ rw (let t : ltb j (b + 1) ≡ ltb j b = ground arith in t))
              ];
          typed = λ j less.
              get_or-set types (in_col b) (in_col j) (column b).type DataType.int32
                (omega (arith, s.within, f.all_types))
              ∙ elim (ℕ_discrete (in_col b) (in_col j)) [
                | yes e ↦
                    rw (let t : (in_col b == in_col j) ≡ true = ground arith in t)
                      (one_type b j l (omega arith) e)
                | no ne ↦
                    rw (let t : (in_col b == in_col j) ≡ false = ground arith in t)
                      (f.typed j (earlier j less ne))
              ];
        }
      where
        earlier : (j : ℕ) → j < b + 1 → in_col b ≢ in_col j → j < b
        earlier j less ne = elim (ℕ_discrete j b) [
          | yes e ↦ absurd (ne (ap in_col (sym e)))
          | no other ↦ ground (arith, other)
        ]

    scan_columns-Filled :
        (rounds b : ℕ) (s : Grid Fp × List DataType)
        → b + rounds ≤ width
        → Filled b s
        → Returns (scan_columns of_bits table source s b rounds) (Filled (b + rounds))
    unfolding scan_columns
    scan_columns-Filled zero b (results, types) fits f =
        ((results, types), refl, subst (λ (n : ℕ). Filled n (results, types)) (omega arith) f)
    scan_columns-Filled (suc rounds) b (results, types) fits f =
        let s = sourced b (omega arith) in
        let typed =
          store-set types (in_col b) (column b).type (omega (arith, s.within, f.all_types)) in
        let scanned = s.scans results 0 f.wide f.rows (omega (arith, s.count)) in
        let (r, ran, g) =
          scan_columns-Filled rounds (b + 1)
            (fill b 0 (cells b) results, set types (in_col b) (column b).type) (omega arith)
            (next_column results types b (omega arith) f) in
        (
          r,
          rw (s.found, ◌>>=◌) (rw (s.there, ◌>>=◌) (rw (typed, ◌>>=◌) (rw (scanned, ◌>>=◌) ran))),
          subst (λ (n : ℕ). Filled n r) (omega arith) g,
        )

    no_results-Filled : Filled 0 (no_results table width)
    no_results-Filled = record {
      wide = null_rows-Wide Fp width table.num_rows;
      rows = length-replicate table.num_rows (replicate width Data.null);
      all_types = length-replicate (length table.columns) DataType.int32;
      values = λ i j. null_rows-cell width table.num_rows i j ∙ ground arith;
      typed = λ j less. absurd (omega arith);
    }

    -- All columns are there after the pool has run the tasks.
    pub filter_run-Filled :
        Returns
          (filter_run
            (λ s begin end. scan_columns of_bits table source s begin (end - begin))
            width
            (no_results table width))
          (Filled width)
    unfolding filter_run
    filter_run-Filled =
        run-Done 12 width (omega arith)
          (λ s begin end. scan_columns of_bits table source s begin (end - begin)) Filled
          (λ s a b less fits f.
            let (r, ran, g) = scan_columns-Filled (b - a) a s (omega arith) f in
            (r, ran, subst (λ (n : ℕ). Filled n r) (omega arith) g))
          (no_results table width) no_results-Filled
