-- ===== src/Pages/Strings/Columns.antt =====
-- A column of strings from records to pages, and from pages to records.
use mathlib.Core.List.{append_assoc, append-nil, map-append}
use optimized_hash_join_pipe.Base.{
  ℕ, ◌+◌, ◌<◌, ◌≡◌, refl, arith, ap, ap₂, ◌∙◌, sym, subst, Option, none, some, List, [], ◌∷◌, ◌++◌,
  map, length,
}
use optimized_hash_join_pipe.Base.Partial.{Returns, ◌>>=◌}
use optimized_hash_join_pipe.Column.{DataType, Page, page_size}
use optimized_hash_join_pipe.Filter.Statement.{Data}
use optimized_hash_join_pipe.Pages.Writer.{
  StringWriter, no_texts, visit_text, write_texts, last_string_page,
}
use optimized_hash_join_pipe.Pages.Scanner.{scan_page}
use optimized_hash_join_pipe.Pages.Grid.{fill}
use optimized_hash_join_pipe.Pages.Numbers.{cell_of}
use optimized_hash_join_pipe.Pages.Numbers.Columns.{IsColumn}
use optimized_hash_join_pipe.Pages.Scans.{Scans, Scans-nil, Scans-append, Scans-page, length-map}
use optimized_hash_join_pipe.Pages.Strings.{
  Part, short_rows, long_text, part_rows, parts_rows, PartHolds, PartsHold,
}
use optimized_hash_join_pipe.Pages.Strings.Scanned.{scan_string_page-fill}
use optimized_hash_join_pipe.Pages.Strings.Long.{LongPages-Scans}
use optimized_hash_join_pipe.Pages.Strings.Inserted.{
  insert_text-Stage, insert_no_text-Stage, last_string_page-PartsHold,
}
use optimized_hash_join_pipe.Pages.Strings.Stages.{Stage, empty_page}

no_texts-Stage : Stage no_texts []
no_texts-Stage = record {
  parts = [];
  pending = [];
  split = refl;
  held = refl;
  open_page = empty_page [];
}

module _ {Fp : Type 0} where
  abbrev pub IsText : Data Fp → Type 0
  IsText Data.null = Unit {0}
  IsText (Data.str v) = Unit {0}
  IsText _ = ⊥

  abbrev pub AllText : List (Data Fp) → Type 0
  AllText [] = Unit {0}
  AllText (d ∷ ds) = IsText d × AllText ds

  abbrev pub text_row : Data Fp → Option (List ℕ)
  text_row (Data.str v) = some v
  text_row _ = none

  cell_of-text_row : (d : Data Fp) → IsText d → cell_of Data.str (text_row d) ≡ d
  cell_of-text_row Data.null t = refl
  cell_of-text_row (Data.str v) t = refl
  cell_of-text_row (Data.i32 x) t = absurd t
  cell_of-text_row (Data.i64 x) t = absurd t
  cell_of-text_row (Data.f64 x) t = absurd t

  pub cells_of-text_rows :
      (ds : List (Data Fp)) → AllText ds → map (cell_of Data.str) (map text_row ds) ≡ ds
  cells_of-text_rows [] t = refl
  cells_of-text_rows (d ∷ ds) t = ap₂ ◌∷◌ (cell_of-text_row d t.0) (cells_of-text_rows ds t.1)

  module _ (fresh : ℕ → Page) (sized : (k : ℕ) → length (fresh k) ≡ page_size) where
    visit_text-Stage :
        (w : StringWriter) (rows : List (Option (List ℕ))) (d : Data Fp)
        → Stage w rows
        → IsText d
        → Returns (visit_text fresh w d) λ v. Stage v (rows ++ text_row d ∷ [])
    unfolding visit_text
    visit_text-Stage w rows Data.null s t = insert_no_text-Stage fresh sized w rows s
    visit_text-Stage w rows (Data.str v) s t = insert_text-Stage fresh sized w rows v s
    visit_text-Stage w rows (Data.i32 x) s t = absurd t
    visit_text-Stage w rows (Data.i64 x) s t = absurd t
    visit_text-Stage w rows (Data.f64 x) s t = absurd t

    write_texts-Stage :
        (col : ℕ) (records : List (List (Data Fp))) (ds : List (Data Fp)) (w : StringWriter)
        (rows : List (Option (List ℕ)))
        → Stage w rows
        → IsColumn col records ds
        → AllText ds
        → Returns (write_texts fresh col w records) λ v. Stage v (rows ++ map text_row ds)
    unfolding write_texts
    write_texts-Stage col [] [] w rows s c f = (w, refl, subst (Stage w) (sym (append-nil rows)) s)
    write_texts-Stage col [] (d ∷ ds) w rows s c f = absurd c
    write_texts-Stage col (r ∷ records) [] w rows s c f = absurd c
    write_texts-Stage col (r ∷ records) (d ∷ ds) w rows s c f =
        let (v, ran, t) = visit_text-Stage w rows d s f.0 in
        let (u, rest, z) = write_texts-Stage col records ds v (rows ++ text_row d ∷ []) t c.1 f.1 in
        (
          u,
          rw (c.0, ◌>>=◌) (rw (ran, ◌>>=◌) rest),
          subst (Stage u) (append_assoc rows (text_row d ∷ []) (map text_row ds)) z,
        )

    -- The pages of a column hold its rows in their order.
    pub write_texts-PartsHold :
        (col : ℕ) (records : List (List (Data Fp))) (ds : List (Data Fp))
        → IsColumn col records ds
        → AllText ds
        → Returns (write_texts fresh col no_texts records >>= last_string_page fresh) λ pages.
          (parts : List Part) × PartsHold pages parts × (parts_rows parts ≡ map text_row ds)
    write_texts-PartsHold col records ds c f =
        let (w, ran, s) = write_texts-Stage col records ds no_texts [] no_texts-Stage c f in
        let (pages, last, h) = last_string_page-PartsHold fresh sized w (map text_row ds) s in
        (pages, rw (ran, ◌>>=◌) last, h)

module _ {Fp : Type 0} (of_bits : ℕ → Fp) (num_rows width column : ℕ)
    (within : column < width) where
  abbrev cells : List (Option (List ℕ)) → List (Data Fp)
  cells rows = map (cell_of Data.str) rows

  part-Scans :
      (pages : List Page) (part : Part)
      → PartHolds pages part
      → Scans of_bits num_rows width column DataType.varchar pages (cells (part_rows part))
  unfolding scan_page
  part-Scans pages (short_rows rows) (page, e, h) =
      subst
        (λ (ps : List Page). Scans of_bits num_rows width column DataType.varchar ps (cells rows))
        (sym e)
        (Scans-page of_bits num_rows width column DataType.varchar page (cells rows)
          (λ results row_idx w n fits.
            let size : length (cells rows) ≡ length rows = length-map (cell_of Data.str) rows in
            scan_string_page-fill of_bits num_rows width column page rows results row_idx within h w
              n (omega (arith, size))
            ∙ ap (λ (k : ℕ). some (fill column row_idx (cells rows) results, row_idx + k))
                (sym size)))
  part-Scans pages (long_text value) h =
      LongPages-Scans of_bits num_rows width column within value pages h

  -- The pages of a column of strings are read as its rows.
  pub PartsHold-Scans :
      (parts : List Part) (pages : List Page)
      → PartsHold pages parts
      → Scans of_bits num_rows width column DataType.varchar pages
          (map (cell_of Data.str) (parts_rows parts))
  PartsHold-Scans [] pages e =
      subst (λ (ps : List Page). Scans of_bits num_rows width column DataType.varchar ps []) (sym e)
        (Scans-nil of_bits num_rows width column DataType.varchar)
  PartsHold-Scans (part ∷ parts) pages (first, rest, e, p, h) =
      subst
        (λ (ps : List Page).
          Scans of_bits num_rows width column DataType.varchar ps
            (cells (part_rows part ++ parts_rows parts)))
        (sym e)
        (subst (Scans of_bits num_rows width column DataType.varchar (first ++ rest))
          (sym (map-append (cell_of Data.str) (part_rows part) (parts_rows parts)))
          (Scans-append of_bits num_rows width column DataType.varchar first rest
            (cells (part_rows part)) (cells (parts_rows parts)) (part-Scans first part p)
            (PartsHold-Scans parts rest h)))
