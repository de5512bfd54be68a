-- ===== src/Pages/Scans.antt =====
-- What it means that a list of pages is read as a list of cells.
use optimized_hash_join_pipe.Base.{
  ℕ, suc, ◌+◌, ◌<◌, ◌≤◌, ◌≡◌, refl, arith, ap, ap₂, ◌∙◌, sym, subst, Option, none, some, List, [],
  ◌∷◌, ◌++◌, map, length, length-append,
}
use mathlib.Core.List.{map-append}
use optimized_hash_join_pipe.Base.Partial.{◌>>=◌}
use optimized_hash_join_pipe.Column.{DataType, Page}
use optimized_hash_join_pipe.Filter.Statement.{Data}
use optimized_hash_join_pipe.Pages.Scanner.{scan_number_page, scan_page, scan_pages}
use optimized_hash_join_pipe.Pages.Grid.{
  Grid, IsValue, Wide, fill, fill-append, fill-nil, fill-Wide, length-fill,
}
use optimized_hash_join_pipe.Pages.Numbers.{AllHold, join, cell_of}
use optimized_hash_join_pipe.Pages.Numbers.Scanned.{scan_number_page-fill}

pub length-map {ℓ κ} :
    {A : Type ℓ} {B : Type κ} (f : A → B) (xs : List A) → length (map f xs) ≡ length xs
length-map f [] = refl
length-map f (x ∷ xs) = ap suc (length-map f xs)

then_assoc :
    {A B C : Type 0} (o : Option A) (f : A → Option C) (g : A → Option B) (h : B → Option C)
    → ((a : A) → f a ≡ (g a >>= h))
    → (o >>= f) ≡ ((o >>= g) >>= h)
then_assoc none f g h e = refl
then_assoc (some a) f g h e = e a

module _ {Fp : Type 0} (of_bits : ℕ → Fp) (num_rows width column : ℕ) (type : DataType) where
  -- From any row on that leaves room, the cells are filled in one after the other.
  abbrev pub Scans : List Page → List (Data Fp) → Type 0
  Scans pages ds =
      (results : Grid Fp) (row_idx : ℕ)
      → Wide width results
      → length results ≡ num_rows
      → row_idx + length ds ≤ num_rows
      → scan_pages of_bits num_rows column type pages results row_idx
        ≡ some (fill column row_idx ds results, row_idx + length ds)

  pub Scans-nil : Scans [] []
  unfolding scan_pages
  Scans-nil results row_idx w e fits =
      ap some (
        ap₂ (λ (g : Grid Fp) (n : ℕ). (g, n)) (sym (fill-nil column row_idx results)) (omega arith))

  scan_pages-append :
      (pages more : List Page) (results : Grid Fp) (row_idx : ℕ)
      → scan_pages of_bits num_rows column type (pages ++ more) results row_idx ≡ (
          scan_pages of_bits num_rows column type pages results row_idx >>= λ (changed, next_row).
          scan_pages of_bits num_rows column type more changed next_row)
  unfolding scan_pages
  scan_pages-append [] more results row_idx = refl
  scan_pages-append (page ∷ pages) more results row_idx =
      then_assoc (scan_page of_bits num_rows column type page results row_idx)
        (λ (changed, next_row).
          scan_pages of_bits num_rows column type (pages ++ more) changed next_row)
        (λ (changed, next_row). scan_pages of_bits num_rows column type pages changed next_row)
        (λ (changed, next_row). scan_pages of_bits num_rows column type more changed next_row)
        (λ (changed, next_row). scan_pages-append pages more changed next_row)

  pub Scans-append :
      (pages more : List Page) (ds es : List (Data Fp))
      → Scans pages ds
      → Scans more es
      → Scans (pages ++ more) (ds ++ es)
  Scans-append pages more ds es s t results row_idx w e fits =
      let size = length-append ds es in
      scan_pages-append pages more results row_idx
      ∙ rw (s results row_idx w e (omega (arith, size)), ◌>>=◌)
          (t (fill column row_idx ds results) (row_idx + length ds)
              (fill-Wide width column row_idx ds results w)
              (length-fill column row_idx ds results ∙ e) (omega (arith, size))
            ∙ ap some (
                ap₂ (λ (g : Grid Fp) (n : ℕ). (g, n))
                  (fill-append column row_idx (row_idx + length ds) ds es results refl)
                  (omega (arith, size))))

  -- One page that is read as cells.
  pub Scans-page :
      (page : Page) (ds : List (Data Fp))
      → ((results : Grid Fp) (row_idx : ℕ)
          → Wide width results
          → length results ≡ num_rows
          → row_idx + length ds ≤ num_rows
          → scan_page of_bits num_rows column type page results row_idx
            ≡ some (fill column row_idx ds results, row_idx + length ds))
      → Scans (page ∷ []) ds
  unfolding scan_pages
  Scans-page page ds h results row_idx w e fits = rw (h results row_idx w e fits, ◌>>=◌) refl

module _ {Fp : Type 0} (of_bits : ℕ → Fp) (num_rows width column : ℕ) (within : column < width)
    (type : DataType) where
  -- The pages of a column of numbers, where `type` is a type whose pages hold numbers of `size` bytes.
  pub AllHold-Scans :
      (size : ℕ) (make : ℕ → Data Fp)
      → ((v : ℕ) → IsValue (make v))
      → ((page : Page)
          → scan_page of_bits num_rows column type page
            ≡ scan_number_page of_bits num_rows column size make page)
      → (pages : List Page) (chunks : List (List (Option ℕ))) → AllHold size pages chunks
      → Scans of_bits num_rows width column type pages (map (cell_of make) (join chunks))
  AllHold-Scans size make solid same [] [] h = Scans-nil of_bits num_rows width column type
  AllHold-Scans size make solid same [] (c ∷ chunks) h = absurd h
  AllHold-Scans size make solid same (page ∷ pages) [] h = absurd h
  AllHold-Scans size make solid same (page ∷ pages) (rows ∷ chunks) h =
      subst (Scans of_bits num_rows width column type (page ∷ pages))
        (sym (map-append (cell_of make) rows (join chunks)))
        (Scans-append of_bits num_rows width column type (page ∷ []) pages (map (cell_of make) rows)
          (map (cell_of make) (join chunks))
          (Scans-page of_bits num_rows width column type page (map (cell_of make) rows)
            (λ results row_idx w e fits.
              let size_rows : length (map (cell_of make) rows) ≡ length rows =
                length-map (cell_of make) rows in
              ap (λ (f : Grid Fp → ℕ → Option (Grid Fp × ℕ)). f results row_idx) (same page)
              ∙ scan_number_page-fill of_bits num_rows width column within size make solid page rows
                  results row_idx h.0 w e (omega (arith, size_rows))
              ∙ ap
                  (λ (n : ℕ).
                    some (fill column row_idx (map (cell_of make) rows) results, row_idx + n))
                  (sym size_rows)))
          (AllHold-Scans size make solid same pages chunks h.1))
