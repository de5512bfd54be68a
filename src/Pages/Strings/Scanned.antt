-- ===== src/Pages/Strings/Scanned.antt =====
-- What the scans read of a page of short strings.
use optimized_hash_join_pipe.Base.{
  ℕ, zero, suc, ◌+◌, ◌-◌, ◌*◌, ◌/◌, ◌^◌, ◌<◌, ◌≤◌, ◌≡◌, refl, arith, ap, ap₂, ◌∙◌, sym, subst, ◌==◌,
  ltb, not, true, false, Option, none, some, List, [], ◌∷◌, map, length, length-append, get_or,
}
use optimized_hash_join_pipe.Base.Partial.{◌>>=◌}
use optimized_hash_join_pipe.Column.{Page, page_size, read_u16}
use optimized_hash_join_pipe.Filter.Statement.{Data}
use optimized_hash_join_pipe.Filter.Values.Stored.{present}
use optimized_hash_join_pipe.Pages.{read_bytes, get_bitmap}
use optimized_hash_join_pipe.Pages.Layout.{At, At-left, At-right, read_u16-read_le}
use optimized_hash_join_pipe.Pages.Arrays.{
  AllBelow, read_le-le_values, get_bitmap-At, read_bytes-At,
}
use optimized_hash_join_pipe.Pages.Scanner.{
  scan_strings, scan_string_page, first_long_page, later_long_page,
}
use optimized_hash_join_pipe.Pages.Grid.{
  Grid, Wide, fill, fill-append, fill-nil, fill-null, fill-Wide, length-fill, put_next-fill,
}
use optimized_hash_join_pipe.Pages.Numbers.{values_of, join, cell_of}
use optimized_hash_join_pipe.Pages.Numbers.Scanned.{read_u16-At, to_nat-present}
use optimized_hash_join_pipe.Pages.Strings.{ends_of, HoldsStrings}

pub length-ends_of : (start : ℕ) (vs : List (List ℕ)) → length (ends_of start vs) ≡ length vs
length-ends_of start [] = refl
length-ends_of start (v ∷ vs) = ap suc (length-ends_of (start + length v) vs)

-- All ends are within the characters.
pub ends_of-AllBelow :
    (bound start : ℕ) (vs : List (List ℕ))
    → start + length (join vs) < bound
    → AllBelow bound (ends_of start vs)
ends_of-AllBelow bound start [] h k = omega arith
ends_of-AllBelow bound start (v ∷ vs) h zero = omega (arith, length-append v (join vs))
ends_of-AllBelow bound start (v ∷ vs) h (suc k) =
    ends_of-AllBelow bound (start + length v) vs (omega (arith, length-append v (join vs))) k

module _ {Fp : Type 0} (of_bits : ℕ → Fp) (num_rows width column : ℕ) (within : column < width)
    (page : Page) (characters bitmap : ℕ) where
  scan_strings-fill :
      (rows : List (Option (List ℕ))) (results : Grid Fp) (row_idx data_idx start i : ℕ)
      → ((k : ℕ)
          → k < length rows
          → get_bitmap page bitmap (i + k) ≡ some (present (get_or rows k none)))
      → ((k : ℕ)
          → k < length (values_of rows)
          → read_u16 page (4 + 2 * (data_idx + k))
            ≡ some (get_or (ends_of start (values_of rows)) k 0))
      → At page (characters + start) (join (values_of rows))
      → Wide width results
      → length results ≡ num_rows
      → row_idx + length rows ≤ num_rows
      → scan_strings of_bits num_rows column page characters bitmap results row_idx data_idx
          (characters + start)
          i
          (length rows)
        ≡ some (fill column row_idx (map (cell_of Data.str) rows) results, row_idx + length rows)
  unfolding scan_strings
  scan_strings-fill [] results row_idx data_idx start i bits vals a w e fits =
      ap some (
        ap₂ (λ (g : Grid Fp) (n : ℕ). (g, n)) (sym (fill-nil column row_idx results)) (omega arith))
  scan_strings-fill (none ∷ rows) results row_idx data_idx start i bits vals a w e fits =
      let bit : get_bitmap page bitmap i ≡ some false =
        ap (get_bitmap page bitmap) (let t : i ≡ i + 0 = omega arith in t) ∙ bits 0 (omega arith) in
      rw (bit, ◌>>=◌)
        (scan_strings-fill rows results (row_idx + 1) data_idx start (i + 1)
            (λ k l.
              ap (get_bitmap page bitmap) (let t : i + 1 + k ≡ i + suc k = omega arith in t)
              ∙ bits (suc k) (omega arith))
            vals a w e (omega arith)
          ∙ ap some (
              ap₂ (λ (g : Grid Fp) (n : ℕ). (g, n))
                (ap (fill column (row_idx + 1) (map (cell_of Data.str) rows))
                    (sym (fill-null column row_idx results))
                  ∙ fill-append column row_idx (row_idx + 1) (Data.null ∷ [])
                      (map (cell_of Data.str) rows) results (omega arith))
                (omega arith)))
  scan_strings-fill (some v ∷ rows) results row_idx data_idx start i bits vals a w e fits =
      let bit : get_bitmap page bitmap i ≡ some true =
        ap (get_bitmap page bitmap) (let t : i ≡ i + 0 = omega arith in t) ∙ bits 0 (omega arith) in
      let end : read_u16 page (4 + 2 * data_idx) ≡ some (start + length v) =
        ap (λ (k : ℕ). read_u16 page (4 + 2 * k))
          (let t : data_idx ≡ data_idx + 0 = omega arith in t)
        ∙ vals 0 (omega arith) in
      let forward : ltb (characters + (start + length v)) (characters + start) ≡ false =
        ground arith in
      let text : read_bytes page (characters + start)
            (characters + (start + length v) - (characters + start))
          ≡ some v =
        ap (read_bytes page (characters + start)) (
          let t : characters + (start + length v) - (characters + start) ≡ length v = omega arith in
          t)
        ∙ read_bytes-At v page (characters + start)
            (At-left page (characters + start) v (join (values_of rows)) a) in
      let put =
        put_next-fill num_rows width column row_idx (Data.str v) results tt w e (omega arith) within
          of_bits in
      rw (bit, ◌>>=◌)
        (rw (end, ◌>>=◌)
          (rw (forward, text, ◌>>=◌)
            (rw (put, ◌>>=◌)
              (ap
                  (λ (p : ℕ).
                    scan_strings of_bits num_rows column page characters bitmap
                      (fill column row_idx (Data.str v ∷ []) results) (row_idx + 1) (data_idx + 1) p
                      (i + 1) (length rows))
                  (let t : characters + (start + length v) ≡ characters + (start + length v) =
                      refl in
                    t)
                ∙ scan_strings-fill rows (fill column row_idx (Data.str v ∷ []) results)
                    (row_idx + 1) (data_idx + 1) (start + length v) (i + 1)
                    (λ k l.
                      ap (get_bitmap page bitmap) (let t : i + 1 + k ≡ i + suc k = omega arith in t)
                      ∙ bits (suc k) (omega arith))
                    (λ k l.
                      ap (λ (n : ℕ). read_u16 page (4 + 2 * n))
                        (let t : data_idx + 1 + k ≡ data_idx + suc k = omega arith in t)
                      ∙ vals (suc k) (omega arith))
                    (subst (λ (p : ℕ). At page p (join (values_of rows)))
                      (let t : characters + start + length v ≡ characters + (start + length v) =
                          omega arith in
                        t)
                      (At-right page (characters + start) v (join (values_of rows)) a))
                    (fill-Wide width column row_idx (Data.str v ∷ []) results w)
                    (length-fill column row_idx (Data.str v ∷ []) results ∙ e) (omega arith)
                ∙ ap some (
                    ap₂ (λ (g : Grid Fp) (n : ℕ). (g, n))
                      (fill-append column row_idx (row_idx + 1) (Data.str v ∷ [])
                        (map (cell_of Data.str) rows) results (omega arith))
                      (omega arith))))))

-- A page of short strings is read as its rows.
pub scan_string_page-fill :
    {Fp : Type 0} (of_bits : ℕ → Fp) (num_rows width column : ℕ) (page : Page)
    (rows : List (Option (List ℕ))) (results : Grid Fp) (row_idx : ℕ)
    → column < width
    → HoldsStrings page rows
    → Wide width results
    → length results ≡ num_rows
    → row_idx + length rows ≤ num_rows
    → scan_string_page of_bits num_rows column page results row_idx
      ≡ some (fill column row_idx (map (cell_of Data.str) rows) results, row_idx + length rows)
unfolding scan_string_page
scan_string_page-fill of_bits num_rows width column page rows results row_idx within h w e fits =
    let vs = values_of rows in
    let size : length (ends_of 0 vs) ≡ length vs = length-ends_of 0 vs in
    let inside = h.chars_at.inside in
    let first : read_u16 page 0 ≡ some (length rows) =
      read_u16-At page 0 (length rows) (omega (arith, h.few)) h.rows_at in
    let second : read_u16 page 2 ≡ some (length vs) =
      read_u16-At page 2 (length vs) (omega (arith, inside, h.whole)) h.count_at in
    let not_first : (length rows == first_long_page) ≡ false = ground (arith, h.few) in
    let not_later : (length rows == later_long_page) ≡ false = ground (arith, h.few) in
    rw (first, ◌>>=◌)
      (rw (second, ◌>>=◌)
        (rw (not_first, not_later)
          (ap
              (λ (p : ℕ).
                scan_strings of_bits num_rows column page (4 + length vs * 2)
                  (page_size - (length rows + 7) / 8) results row_idx 0 p 0 (length rows))
              (let t : 4 + length vs * 2 ≡ 4 + length vs * 2 + 0 = omega arith in t)
            ∙ scan_strings-fill of_bits num_rows width column within page (4 + length vs * 2)
                (page_size - (length rows + 7) / 8) rows results row_idx 0 0 0
                (λ k l.
                  ap (get_bitmap page (page_size - (length rows + 7) / 8))
                    (let t : 0 + k ≡ k = omega arith in t)
                  ∙ get_bitmap-At page (page_size - (length rows + 7) / 8) h.bitmap k h.bitmap_at
                      (omega (arith, h.marked.width))
                  ∙ ap some (
                      ap (λ (n : ℕ). not (n == 0)) (h.marked.bits k)
                      ∙ to_nat-present (present (get_or rows k none))))
                (λ k l.
                  ap (λ (n : ℕ). read_u16 page (4 + 2 * n)) (let t : 0 + k ≡ k = omega arith in t)
                  ∙ read_u16-read_le page (4 + 2 * k)
                  ∙ read_le-le_values 2 (ends_of 0 vs) page 4 k
                      (ends_of-AllBelow (256 ^ 2) 0 vs (omega (arith, inside, h.whole))) h.ends_at
                      (omega (arith, size)))
                (subst (λ (p : ℕ). At page p (join vs))
                  (let t : 4 + length vs * 2 ≡ 4 + length vs * 2 + 0 = omega arith in t) h.chars_at)
                w e fits)))
