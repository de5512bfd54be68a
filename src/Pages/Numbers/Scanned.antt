-- ===== src/Pages/Numbers/Scanned.antt =====
-- What the scans read of pages of numbers.
use optimized_hash_join_pipe.Base.{
  ℕ, suc, ◌+◌, ◌-◌, ◌*◌, ◌/◌, ◌^◌, ◌<◌, ◌≤◌, ◌≡◌, refl, arith, ap, ap₂, ◌∙◌, sym, ◌==◌, not, Bool,
  true, false, Option, none, some, List, [], ◌∷◌, map, length, get_or, to_nat,
}
use optimized_hash_join_pipe.Base.Partial.{◌>>=◌}
use optimized_hash_join_pipe.Column.{Page, page_size, read_u16}
use optimized_hash_join_pipe.Filter.Statement.{Data}
use optimized_hash_join_pipe.Filter.Values.Stored.{present}
use optimized_hash_join_pipe.Pages.{read_le, get_bitmap, le_bytes}
use optimized_hash_join_pipe.Pages.Layout.{At, read_le-At, read_u16-read_le}
use optimized_hash_join_pipe.Pages.Arrays.{read_le-le_values, get_bitmap-At}
use optimized_hash_join_pipe.Pages.Scanner.{scan_numbers, scan_number_page}
use optimized_hash_join_pipe.Pages.Grid.{
  Grid, IsValue, Wide, fill, fill-append, fill-nil, fill-null, fill-Wide, length-fill,
  put_next-fill,
}
use optimized_hash_join_pipe.Pages.Numbers.{values_of, HoldsNumbers, cell_of}

-- A 16-bit number in a page.
pub read_u16-At :
    (page : Page) (p v : ℕ) → v < 2 ^ 16 → At page p (le_bytes 2 v) → read_u16 page p ≡ some v
read_u16-At page p v small a = read_u16-read_le page p ∙ read_le-At 2 page p v (omega arith) a

pub to_nat-present : (b : Bool) → not (to_nat b == 0) ≡ b
to_nat-present true = refl
to_nat-present false = refl

module _ {Fp : Type 0} (of_bits : ℕ → Fp) (num_rows width column : ℕ)
    (within : column < width) where
  module _ (size : ℕ) (make : ℕ → Data Fp) (solid : (v : ℕ) → IsValue (make v)) (page : Page)
      (bitmap : ℕ) where
    scan_numbers-fill :
        (rows : List (Option ℕ)) (results : Grid Fp) (row_idx data_idx i : ℕ)
        → ((k : ℕ)
            → k < length rows
            → get_bitmap page bitmap (i + k) ≡ some (present (get_or rows k none)))
        → ((k : ℕ)
            → k < length (values_of rows)
            → read_le page size (size + size * (data_idx + k)) ≡ some (get_or (values_of rows) k 0))
        → Wide width results
        → length results ≡ num_rows
        → row_idx + length rows ≤ num_rows
        → scan_numbers of_bits num_rows column size make page bitmap results row_idx data_idx i
            (length rows)
          ≡ some (fill column row_idx (map (cell_of make) rows) results, row_idx + length rows)
    unfolding scan_numbers
    scan_numbers-fill [] results row_idx data_idx i bits vals w e fits = ap some (
        ap₂ (λ (g : Grid Fp) (n : ℕ). (g, n)) (sym (fill-nil column row_idx results)) (omega arith))
    scan_numbers-fill (none ∷ rows) results row_idx data_idx i bits vals w e fits =
        let bit : get_bitmap page bitmap i ≡ some false =
          ap (get_bitmap page bitmap) (let t : i ≡ i + 0 = omega arith in t)
          ∙ bits 0 (omega arith) in
        rw (bit, ◌>>=◌)
          (scan_numbers-fill rows results (row_idx + 1) data_idx (i + 1)
              (λ k l.
                ap (get_bitmap page bitmap) (let t : i + 1 + k ≡ i + suc k = omega arith in t)
                ∙ bits (suc k) (omega arith))
              vals w e (omega arith)
            ∙ ap some (
                ap₂ (λ (g : Grid Fp) (n : ℕ). (g, n))
                  (ap (fill column (row_idx + 1) (map (cell_of make) rows))
                      (sym (fill-null column row_idx results))
                    ∙ fill-append column row_idx (row_idx + 1) (Data.null ∷ [])
                        (map (cell_of make) rows) results (omega arith))
                  (omega arith)))
    scan_numbers-fill (some v ∷ rows) results row_idx data_idx i bits vals w e fits =
        let bit : get_bitmap page bitmap i ≡ some true =
          ap (get_bitmap page bitmap) (let t : i ≡ i + 0 = omega arith in t)
          ∙ bits 0 (omega arith) in
        let value : read_le page size (size + size * data_idx) ≡ some v =
          ap (λ (k : ℕ). read_le page size (size + size * k))
            (let t : data_idx ≡ data_idx + 0 = omega arith in t)
          ∙ vals 0 (omega arith) in
        let put =
          put_next-fill num_rows width column row_idx (make v) results (solid v) w e (omega arith)
            within of_bits in
        rw (bit, ◌>>=◌)
          (rw (value, ◌>>=◌)
            (rw (put, ◌>>=◌)
              (scan_numbers-fill rows (fill column row_idx (make v ∷ []) results) (row_idx + 1)
                  (data_idx + 1) (i + 1)
                  (λ k l.
                    ap (get_bitmap page bitmap) (let t : i + 1 + k ≡ i + suc k = omega arith in t)
                    ∙ bits (suc k) (omega arith))
                  (λ k l.
                    ap (λ (n : ℕ). read_le page size (size + size * n))
                      (let t : data_idx + 1 + k ≡ data_idx + suc k = omega arith in t)
                    ∙ vals (suc k) (omega arith))
                  (fill-Wide width column row_idx (make v ∷ []) results w)
                  (length-fill column row_idx (make v ∷ []) results ∙ e) (omega arith)
                ∙ ap some (
                    ap₂ (λ (g : Grid Fp) (n : ℕ). (g, n))
                      (fill-append column row_idx (row_idx + 1) (make v ∷ [])
                        (map (cell_of make) rows) results (omega arith))
                      (omega arith)))))

  module _ (size : ℕ) (make : ℕ → Data Fp) (solid : (v : ℕ) → IsValue (make v)) where
    -- A page is read as its rows.
    pub scan_number_page-fill :
        (page : Page) (rows : List (Option ℕ)) (results : Grid Fp) (row_idx : ℕ)
        → HoldsNumbers size page rows
        → Wide width results
        → length results ≡ num_rows
        → row_idx + length rows ≤ num_rows
        → scan_number_page of_bits num_rows column size make page results row_idx
          ≡ some (fill column row_idx (map (cell_of make) rows) results, row_idx + length rows)
    unfolding scan_number_page
    scan_number_page-fill page rows results row_idx h w e fits =
        rw (read_u16-At page 0 (length rows) h.few h.rows_at, ◌>>=◌)
          (scan_numbers-fill size make solid page (page_size - (length rows + 7) / 8) rows results
            row_idx 0 0
            (λ k l.
              ap (get_bitmap page (page_size - (length rows + 7) / 8))
                (let t : 0 + k ≡ k = omega arith in t)
              ∙ get_bitmap-At page (page_size - (length rows + 7) / 8) h.bitmap k h.bitmap_at
                  (omega (arith, h.marked.width))
              ∙ ap some (
                  ap (λ (n : ℕ). not (n == 0)) (h.marked.bits k)
                  ∙ to_nat-present (present (get_or rows k none))))
            (λ k l.
              ap (λ (n : ℕ). read_le page size (size + size * n))
                (let t : 0 + k ≡ k = omega arith in t)
              ∙ read_le-le_values size (values_of rows) page size k h.small h.values_at l)
            w e fits)
