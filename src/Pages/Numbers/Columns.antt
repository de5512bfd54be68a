-- ===== src/Pages/Numbers/Columns.antt =====
-- A column of numbers from records to pages, and from pages to records.
use optimized_hash_join_pipe.Base.{
  ℕ, ◌*◌, ◌^◌, ◌<◌, ◌≤◌, ◌≡◌, refl, arith, ap, ap₂, ◌∙◌, sym, subst, Option, none, some, List, [],
  ◌∷◌, ◌++◌, map, length,
}
use optimized_hash_join_pipe.Base.Partial.{Returns, ◌>>=◌, load}
use native.Mathlib.Nat.{one-le-pow}
use mathlib.Core.List.{append_assoc, append-nil}
use optimized_hash_join_pipe.Column.{Page, page_size}
use optimized_hash_join_pipe.Filter.Statement.{Data}
use optimized_hash_join_pipe.Filter.Values.Stored.{empty_column-Stored}
use optimized_hash_join_pipe.Pages.Writer.{
  NumberWriter, no_numbers, insert_number, visit_number, write_numbers, last_number_page,
}
use optimized_hash_join_pipe.Pages.Numbers.{AllHold, join, cell_of}
use optimized_hash_join_pipe.Pages.Numbers.Inserted.{
  Stage, insert_number-Stage, insert_no_number-Stage, last_number_page-AllHold,
}

-- The column `col` of the records is `ds`.
abbrev pub IsColumn : {Fp : Type 0} → ℕ → List (List (Data Fp)) → List (Data Fp) → Type 0
IsColumn col [] [] = Unit {0}
IsColumn col [] (d ∷ ds) = ⊥
IsColumn col (r ∷ records) [] = ⊥
IsColumn col (r ∷ records) (d ∷ ds) = (load r col ≡ some d) × IsColumn col records ds

module _ {Fp : Type 0} (number : Data Fp → Option ℕ) (make : ℕ → Data Fp) (width : ℕ) where
  -- A null, or a value that fits `width` bytes and is made from them again.
  abbrev pub FitsNumber : Data Fp → Type 0
  FitsNumber Data.null = Unit {0}
  FitsNumber d = (v : ℕ) × (number d ≡ some v) × (v < 256 ^ width) × (make v ≡ d)

  abbrev pub AllFitNumber : List (Data Fp) → Type 0
  AllFitNumber [] = Unit {0}
  AllFitNumber (d ∷ ds) = FitsNumber d × AllFitNumber ds

  abbrev pub row_of : Data Fp → Option ℕ
  row_of Data.null = none
  row_of d = number d

  cell_of-row_of : (d : Data Fp) → FitsNumber d → cell_of make (row_of d) ≡ d
  cell_of-row_of Data.null f = refl
  cell_of-row_of (Data.i32 x) (v, e, l, m) = ap (cell_of make) e ∙ m
  cell_of-row_of (Data.i64 x) (v, e, l, m) = ap (cell_of make) e ∙ m
  cell_of-row_of (Data.f64 x) (v, e, l, m) = ap (cell_of make) e ∙ m
  cell_of-row_of (Data.str x) (v, e, l, m) = ap (cell_of make) e ∙ m

  pub cells_of-rows_of :
      (ds : List (Data Fp)) → AllFitNumber ds → map (cell_of make) (map row_of ds) ≡ ds
  cells_of-rows_of [] f = refl
  cells_of-rows_of (d ∷ ds) f = ap₂ ◌∷◌ (cell_of-row_of d f.0) (cells_of-rows_of ds f.1)

  module _ (from_four : 4 ≤ width) (to_eight : width ≤ 8) (fresh : ℕ → Page)
      (sized : (k : ℕ) → length (fresh k) ≡ page_size) where
    insert_value :
        (w : NumberWriter) (rows : List (Option ℕ)) (o : Option ℕ) (v : ℕ)
        → Stage width w rows
        → o ≡ some v
        → v < 256 ^ width
        → Returns
            (elim o [ none ↦ some w | some x ↦ insert_number fresh width w x ])
            λ u. Stage width u (rows ++ o ∷ [])
    insert_value w rows o v s e l =
        rw e (insert_number-Stage width from_four to_eight fresh sized w rows v s l)

    visit_number-Stage :
        (col : ℕ) (w : NumberWriter) (rows : List (Option ℕ)) (d : Data Fp)
        → Stage width w rows
        → FitsNumber d
        → Returns
            (visit_number fresh width number col w d)
            λ v. Stage width v (rows ++ row_of d ∷ [])
    unfolding visit_number
    visit_number-Stage col w rows Data.null s f =
        insert_no_number-Stage width from_four to_eight fresh sized w rows s
    visit_number-Stage col w rows (Data.i32 x) s (v, e, l, m) =
        insert_value w rows (number (Data.i32 x)) v s e l
    visit_number-Stage col w rows (Data.i64 x) s (v, e, l, m) =
        insert_value w rows (number (Data.i64 x)) v s e l
    visit_number-Stage col w rows (Data.f64 x) s (v, e, l, m) =
        insert_value w rows (number (Data.f64 x)) v s e l
    visit_number-Stage col w rows (Data.str x) s (v, e, l, m) =
        insert_value w rows (number (Data.str x)) v s e l

    write_numbers-Stage :
        (col : ℕ) (records : List (List (Data Fp))) (ds : List (Data Fp)) (w : NumberWriter)
        (rows : List (Option ℕ))
        → Stage width w rows
        → IsColumn col records ds
        → AllFitNumber ds
        → Returns
            (write_numbers fresh width number col w records)
            λ v. Stage width v (rows ++ map row_of ds)
    unfolding write_numbers
    write_numbers-Stage col [] [] w rows s c f =
        (w, refl, subst (Stage width w) (sym (append-nil rows)) s)
    write_numbers-Stage col [] (d ∷ ds) w rows s c f = absurd c
    write_numbers-Stage col (r ∷ records) [] w rows s c f = absurd c
    write_numbers-Stage col (r ∷ records) (d ∷ ds) w rows s c f =
        let (v, ran, t) = visit_number-Stage col w rows d s f.0 in
        let (u, rest, z) = write_numbers-Stage col records ds v (rows ++ row_of d ∷ []) t c.1 f.1 in
        (
          u,
          rw (c.0, ◌>>=◌) (rw (ran, ◌>>=◌) rest),
          subst (Stage width u) (append_assoc rows (row_of d ∷ []) (map row_of ds)) z,
        )

    no_numbers-Stage : Stage width no_numbers []
    no_numbers-Stage = record {
      chunks = [];
      pending = [];
      split = refl;
      held = tt;
      open_page = record {
        counted = refl;
        values = refl;
        marked = (empty_column-Stored {T = ℕ} 0).marked;
        small = λ k. omega (arith, one-le-pow width 256 (omega arith));
        room = let none : width * 0 ≡ 0 = omega arith in omega (arith, none);
      };
    }

    -- The pages of a column hold its rows in their order.
    pub write_numbers-AllHold :
        (col : ℕ) (records : List (List (Data Fp))) (ds : List (Data Fp))
        → IsColumn col records ds
        → AllFitNumber ds
        → Returns
            (write_numbers fresh width number col no_numbers records
              >>= last_number_page fresh width)
            λ pages.
              (chunks : List (List (Option ℕ))) × AllHold width pages chunks
              × (join chunks ≡ map row_of ds)
    write_numbers-AllHold col records ds c f =
        let (w, ran, s) = write_numbers-Stage col records ds no_numbers [] no_numbers-Stage c f in
        let (pages, last, h) =
          last_number_page-AllHold width from_four to_eight fresh sized w (map row_of ds) s in
        (pages, rw (ran, ◌>>=◌) last, h)
