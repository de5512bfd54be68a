-- ===== src/Pages/Strings/Long.antt =====
-- Long strings: what the scans read of their pages.
use optimized_hash_join_pipe.Base.{
  ℕ, zero, suc, ◌<◌, ◌≡◌, refl, arith, ap, ap₂, ◌∙◌, sym, Option, none, some, List, [], ◌∷◌, ◌++◌,
  length, get_or-set_self, set, length-set,
}
use mathlib.Core.List.{append_assoc, append-nil}
use optimized_hash_join_pipe.Base.Partial.{◌>>=◌, load, load-get_or}
use optimized_hash_join_pipe.Column.{DataType, Page, read_u16}
use optimized_hash_join_pipe.Filter.Statement.{Data}
use optimized_hash_join_pipe.Pages.Arrays.{read_bytes-At}
use optimized_hash_join_pipe.Pages.Scanner.{
  appended, append_last, put_cell, scan_string_page, scan_page, scan_pages, first_long_page,
  later_long_page,
}
use optimized_hash_join_pipe.Pages.Grid.{
  Grid, Wide, fill, fill-nil, fill-Wide, length-fill, put_cell-fill, put_next-fill,
}
use optimized_hash_join_pipe.Pages.Numbers.Scanned.{read_u16-At}
use optimized_hash_join_pipe.Pages.Scans.{Scans}
use optimized_hash_join_pipe.Pages.Strings.{LaterPages, LongPages}

set-set {ℓ} : {A : Type ℓ} (xs : List A) (i : ℕ) (v w : A) → set (set xs i v) i w ≡ set xs i w
set-set [] i v w = refl
set-set (x ∷ xs) zero v w = refl
set-set (x ∷ xs) (suc i) v w = ap (λ t. x ∷ t) (set-set xs i v w)

module _ {Fp : Type 0} where
  -- A text in the place of another.
  fill_text-fill_text :
      (col i : ℕ) (v w : List ℕ) (rows : Grid Fp)
      → fill col i (Data.str w ∷ []) (fill col i (Data.str v ∷ []) rows)
        ≡ fill col i (Data.str w ∷ []) rows
  unfolding fill
  fill_text-fill_text col i v w [] = refl
  fill_text-fill_text col zero v w (r ∷ rows) =
      ap₂ ◌∷◌ (set-set r col (Data.str v) (Data.str w)) (ap (fill col 0 []) (fill-nil col 0 rows))
  fill_text-fill_text col (suc i) v w (r ∷ rows) =
      ap (λ t. r ∷ t) (fill_text-fill_text col i v w rows)

  filled_text :
      (width col i : ℕ) (v : List ℕ) (rows : Grid Fp)
      → Wide width rows
      → i < length rows
      → col < width
      → (load (fill col i (Data.str v ∷ []) rows) i >>= λ r. load r col) ≡ some (Data.str v)
  unfolding fill load
  filled_text width col i v [] w l c = absurd (omega arith)
  filled_text width col zero v (r ∷ rows) w l c =
      load-get_or (set r col (Data.str v)) col Data.null
        (omega (arith, length-set r col (Data.str v), w.0))
      ∙ ap some (get_or-set_self r col (Data.str v) Data.null (omega (arith, w.0)))
  filled_text width col (suc i) v (r ∷ rows) w l c =
      filled_text width col i v rows w.1 (omega arith) c

module _ {Fp : Type 0} (of_bits : ℕ → Fp) (num_rows width column : ℕ)
    (within : column < width) where
  append_last-fill :
      (results : Grid Fp) (i : ℕ) (v more : List ℕ)
      → Wide width results
      → length results ≡ num_rows
      → i < num_rows
      → append_last of_bits num_rows column (fill column i (Data.str v ∷ []) results) (suc i) more
        ≡ some (fill column i (Data.str (v ++ more) ∷ []) results, suc i)
  unfolding append_last
  append_last-fill results i v more w e l =
      let filled = fill column i (Data.str v ∷ []) results in
      let put =
        put_cell-fill width column i (Data.str (v ++ more)) filled tt
          (fill-Wide width column i (Data.str v ∷ []) results w)
          (omega (arith, length-fill column i (Data.str v ∷ []) results)) within in
      let text = filled_text width column i v results w (omega arith) within in
      found (load filled i) text (put_cell filled i column)
        (fill column i (Data.str (v ++ more) ∷ []) results)
        (put ∙ ap some (fill_text-fill_text column i v (v ++ more) results))
    where
      finished : Grid Fp → Option (Grid Fp × ℕ)
      finished changed = some (changed, suc i)

      found :
          (o : Option (List (Data Fp)))
          → (o >>= λ r. load r column) ≡ some (Data.str v)
          → (K : Data Fp → Option (Grid Fp)) (s : Grid Fp) → K (Data.str (v ++ more)) ≡ some s
          → (o >>= λ record_. load record_ column >>= λ value.
              appended of_bits num_rows column value more >>= λ longer.
              K longer >>= λ changed. finished changed)
            ≡ some (s, suc i)
      found none e K s k = cc
      found (some r) e K s k = rw (e, ◌>>=◌) (rw (k, ◌>>=◌) refl)

  -- The later pages of a string that is the last row so far.
  LaterPages-fill :
      (pages : List Page) (left v : List ℕ) (results : Grid Fp) (i : ℕ)
      → LaterPages left pages
      → Wide width results
      → length results ≡ num_rows
      → i < num_rows
      → scan_pages of_bits num_rows column DataType.varchar pages
          (fill column i (Data.str v ∷ []) results)
          (suc i)
        ≡ some (fill column i (Data.str (v ++ left) ∷ []) results, suc i)
  unfolding scan_pages scan_page scan_string_page
  LaterPages-fill [] left v results i none_left w e l =
      ap (λ (x : List ℕ). some (fill column i (Data.str x ∷ []) results, suc i))
        (sym (append-nil v) ∙ ap (λ t. v ++ t) (sym none_left))
  LaterPages-fill (page ∷ pages) left v results i (chunk, rest, split, h, later) w e l =
      let inside = h.chars_at.inside in
      let first : read_u16 page 0 ≡ some later_long_page =
        read_u16-At page 0 later_long_page (omega arith) h.mark_at in
      let second : read_u16 page 2 ≡ some (length chunk) =
        read_u16-At page 2 (length chunk) (omega (arith, inside, h.whole)) h.size_at in
      rw (first, ◌>>=◌)
        (rw (second, ◌>>=◌)
          (rw (read_bytes-At chunk page 4 h.chars_at, ◌>>=◌)
            (rw (append_last-fill results i v chunk w e l, ◌>>=◌)
              (LaterPages-fill pages rest (v ++ chunk) results i later w e l
                ∙ ap (λ (x : List ℕ). some (fill column i (Data.str x ∷ []) results, suc i))
                    (append_assoc v chunk rest ∙ ap (λ t. v ++ t) (sym split))))))

  -- The pages of a long string are read as one row.
  pub LongPages-Scans :
      (value : List ℕ) (pages : List Page)
      → LongPages value pages
      → Scans of_bits num_rows width column DataType.varchar pages (Data.str value ∷ [])
  unfolding scan_pages scan_page scan_string_page
  LongPages-Scans value [] h results row_idx w e fits = absurd h
  LongPages-Scans value (page ∷ pages) (chunk, rest, split, h, later) results row_idx w e fits =
      let inside = h.chars_at.inside in
      let first : read_u16 page 0 ≡ some first_long_page =
        read_u16-At page 0 first_long_page (omega arith) h.mark_at in
      let second : read_u16 page 2 ≡ some (length chunk) =
        read_u16-At page 2 (length chunk) (omega (arith, inside, h.whole)) h.size_at in
      let put =
        put_next-fill num_rows width column row_idx (Data.str chunk) results tt w e (omega arith)
          within of_bits in
      rw (first, ◌>>=◌)
        (rw (second, ◌>>=◌)
          (rw (read_bytes-At chunk page 4 h.chars_at, ◌>>=◌)
            (rw (put, ◌>>=◌)
              (ap
                  (scan_pages of_bits num_rows column DataType.varchar pages
                    (fill column row_idx (Data.str chunk ∷ []) results))
                  (omega arith)
                ∙ LaterPages-fill pages rest chunk results row_idx later w e (omega arith)
                ∙ ap₂
                    (λ (x : List ℕ) (n : ℕ).
                      some (fill column row_idx (Data.str x ∷ []) results, n))
                    (sym split) (omega arith)))))
