-- ===== src/Scan/Correct.antt =====
-- What a scan of a column of integers holds.
use mathlib.Core.List.{map-append}
use optimized_hash_join_pipe.Base.{
  ℕ, ◌<◌, ◌≡◌, ◌⊎◌, refl, arith, ap, ap₂, ◌∙◌, sym, subst, ltb, not, ◌&&◌, Bool, Bool-cases, inl,
  inr, true, false, some, Option, List, [], ◌∷◌, ◌++◌, map, length,
}
use optimized_hash_join_pipe.Base.Partial.{Returns, ◌>>=◌}
use optimized_hash_join_pipe.Column.{DataType, Page, ColumnT, new_column}
use optimized_hash_join_pipe.Column.Readable.{int_value, Even, AllInts, Readable}
use optimized_hash_join_pipe.Pages.Numbers.{AllHold, join}
use optimized_hash_join_pipe.Pages.Scans.{length-map}
use optimized_hash_join_pipe.Scan.{check_pages, close_buffers, no_values, build_column_inserter}
use optimized_hash_join_pipe.Scan.Buffered.{close_buffers-Packed}
use optimized_hash_join_pipe.Scan.Integers.{row_value, add_integer_pages-Fills}
use optimized_hash_join_pipe.Scan.Checked.{
  check_pages-cases, check_pages-none, check_pages-first, count_rows-ints,
}

-- Without nulls, each page but the last has the rows of the first.
abbrev pub SameSize : List (List ℕ) → Type 0
SameSize [] = Unit {0}
SameSize (vs ∷ chunks) = Even (length vs) chunks × ((chunks ≡ []) ⊎ (0 < length vs))

Even-first :
    (vs : List ℕ) (chunks : List (List ℕ))
    → Even (length vs) chunks
    → Even (length vs) (vs ∷ chunks)
Even-first vs [] e = omega arith
Even-first vs (ws ∷ chunks) e = (refl, e)

row_values-some :
    (blank : ℕ) (ints : List (List ℕ))
    → map (row_value blank) (join (map (map some) ints)) ≡ map int_value (join ints)
row_values-some blank [] = refl
row_values-some blank (vs ∷ ints) =
    map-append (row_value blank) (map some vs) (join (map (map some) ints))
    ∙ ap₂ ◌++◌ (one vs) (row_values-some blank ints)
    ∙ sym (map-append int_value vs (join ints))
  where
    one : (vs : List ℕ) → map (row_value blank) (map some vs) ≡ map int_value vs
    one [] = refl
    one (v ∷ vs) = ap (λ t. int_value v ∷ t) (one vs)

module _ (blank table_id col_id : ℕ) (pages : List Page) where
  abbrev scanned : Option ColumnT
  scanned =
      build_column_inserter blank table_id col_id pages DataType.int32 (new_column DataType.int32)

  -- The pages are copied into buffers.
  copied :
      (chunks : List (List (Option ℕ))) (has_nulls : Bool) (n : ℕ)
      → AllHold 4 pages chunks
      → check_pages pages 0 ≡ some (has_nulls, n)
      → (not has_nulls && ltb 0 n) ≡ false
      → Returns scanned λ c. Readable c (map (row_value blank) (join chunks))
  unfolding build_column_inserter
  copied chunks has_nulls n a checked copies =
      let vs = map (row_value blank) (join chunks) in
      let (f, run, filled) =
        add_integer_pages-Fills blank pages chunks no_values [] a
          (record { full = tt; some_room = omega arith; all = refl }) in
      let (packed, count, original) =
        close_buffers-Packed (new_column DataType.int32) f vs filled in
      (
        close_buffers (new_column DataType.int32) f,
        rw (checked, ◌>>=◌) (rw copies (rw (run, ◌>>=◌) refl)),
        record { count = count; place = inl (record { original = original; packed = packed }) },
      )

  -- The column points to the pages.
  pointed :
      (vs : List ℕ) (ints : List (List ℕ))
      → AllInts pages (vs ∷ ints)
      → 0 < length vs
      → Even (length vs) ints
      → check_pages pages 0 ≡ some (false, length vs)
      → Returns scanned λ c. Readable c (map int_value (join (vs ∷ ints)))
  unfolding build_column_inserter
  pointed vs ints a pos e checked =
      let ((rowids, total), run, (starts, sum)) = count_rows-ints pages (vs ∷ ints) 0 a in
      let direct : ltb 0 (length vs) ≡ true = ground arith in
      (
        record (new_column DataType.int32) {
          original_col = some pages;
          rows_per_page = length vs;
          num_rows = total;
          page_rowids = 0 ∷ rowids;
        },
        rw (checked, ◌>>=◌) (rw direct (rw (run, ◌>>=◌) refl)),
        record {
          count = omega (arith, sum, length-map int_value (join (vs ∷ ints)));
          place = inr (record {
            pages = pages;
            chunks = vs ∷ ints;
            original = refl;
            held = a;
            even = Even-first vs ints e;
            some_rows = pos;
            rowids = starts;
            values = refl;
          });
        },
      )

  -- If the pages of an integer column hold rows, in pages of the same size but for the last if
  -- there is no null, then the scan of it does not fault, and the new column holds, in order, a
  -- value for each row: the row's integer with a status of 1, or a status of 0 for a null.
  pub build_column_inserter-Readable :
      (chunks : List (List (Option ℕ)))
      → AllHold 4 pages chunks
      → ((ints : List (List ℕ)) → chunks ≡ map (map some) ints → SameSize ints)
      → Returns
          (build_column_inserter blank table_id col_id pages DataType.int32
            (new_column DataType.int32))
          λ c. Readable c (map (row_value blank) (join chunks))
  build_column_inserter-Readable chunks a same = elim (check_pages-cases pages chunks 0 a) [
    | inl ((nulls, n), checked, some_null) ↦
        copied chunks nulls n a checked (ap (λ b. not b && ltb 0 n) some_null)
    | inr ([], e, held) ↦ copied chunks false 0 a (check_pages-none pages held) refl
    | inr (vs ∷ ints, e, held) ↦
        let (even, some_rows) = same (vs ∷ ints) e in
        let checked = check_pages-first pages vs ints held some_rows in
        elim (Bool-cases (ltb 0 (length vs))) [
          | inl pos ↦
              let (c, run, r) = pointed vs ints held (ground arith) even checked in
              (
                c,
                run,
                subst (Readable c)
                    (sym (row_values-some blank (vs ∷ ints))
                      ∙ ap (λ x. map (row_value blank) (join x)) (sym e))
                    r,
              )
          | inr none_left ↦ copied chunks false (length vs) a checked none_left
        ]
  ]
