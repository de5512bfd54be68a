-- ===== src/Pages/Numbers/Saved.antt =====
-- `save_page` for a column of numbers: the rows since the last page are all in the new page.
use optimized_hash_join_pipe.Base.{
  ℕ, ◌+◌, ◌-◌, ◌*◌, ◌/◌, ◌^◌, ◌≤◌, ◌≡◌, refl, arith, ap, sym, subst, inl, Option, some, List, [],
  ◌∷◌, ◌++◌, length,
}
use optimized_hash_join_pipe.Base.Partial.{◌>>=◌}
use optimized_hash_join_pipe.Column.{Page, page_size}
use optimized_hash_join_pipe.Filter.Values.Stored.{Marked}
use optimized_hash_join_pipe.Pages.{le_bytes, le_values}
use optimized_hash_join_pipe.Pages.Layout.{At, write_bytes-Written, At-Written, length-le_values}
use optimized_hash_join_pipe.Pages.Arrays.{AllBelow}
use optimized_hash_join_pipe.Pages.Writer.{NumberWriter, save_number_page}
use optimized_hash_join_pipe.Pages.Numbers.{values_of, HoldsNumbers}

-- What a writer holds of the rows since its last page.
pub record Pending (width : ℕ) (w : NumberWriter) (rows : List (Option ℕ)) : Type 0 where
  pub counted : w.num_rows ≡ length rows
  pub values : w.values ≡ values_of rows
  pub marked : Marked 0 w.bitmap rows
  pub small : AllBelow (256 ^ width) (values_of rows)
  pub room : width + width * length (values_of rows) + (length rows + 7) / 8 ≤ page_size

module _ (width : ℕ) (from_four : 4 ≤ width) (fresh : ℕ → Page)
    (sized : (k : ℕ) → length (fresh k) ≡ page_size) where
  pub save_number_page-HoldsNumbers :
      (w : NumberWriter) (rows : List (Option ℕ))
      → Pending width w rows
      → (page : Page) × (save_number_page fresh width w
          ≡ some (record { num_rows = 0; values = []; bitmap = []; pages = w.pages ++ page ∷ [] }))
        × HoldsNumbers width page rows
  unfolding save_number_page
  save_number_page-HoldsNumbers w rows p =
      let start = fresh (length w.pages) in
      let whole = sized (length w.pages) in
      let size = length-le_values width w.values in
      let count : length w.values ≡ length (values_of rows) = ap length p.values in
      let marks : length w.bitmap ≡ (length rows + 7) / 8 = p.marked.width in
      let room : width + width * length w.values + length w.bitmap ≤ page_size =
        subst (λ (n : ℕ). width + width * n + length w.bitmap ≤ page_size) (sym count)
          (omega (arith, p.room, marks)) in
      let (p1, r1, w1) = write_bytes-Written (le_bytes 2 w.num_rows) start 0 (omega arith) in
      let (p2, r2, w2) =
        write_bytes-Written (le_bytes 2 (length w.values)) p1 2 (omega (arith, w1.same)) in
      let (p3, r3, w3) =
        write_bytes-Written (le_values width w.values) p2 width
          (omega (arith, w1.same, w2.same, size)) in
      let (p4, r4, w4) =
        write_bytes-Written w.bitmap p3 (page_size - length w.bitmap)
          (omega (arith, w1.same, w2.same, w3.same)) in
      let rows_at : At p4 0 (le_bytes 2 w.num_rows) =
        At-Written p3 p4 (page_size - length w.bitmap) 0 w.bitmap (le_bytes 2 w.num_rows) w4
          (At-Written p2 p3 width 0 (le_values width w.values) (le_bytes 2 w.num_rows) w3
            (At-Written p1 p2 2 0 (le_bytes 2 (length w.values)) (le_bytes 2 w.num_rows) w2 w1.at
              (inl (omega arith)))
            (inl (omega arith)))
          (inl (omega arith)) in
      let count_at : At p4 2 (le_bytes 2 (length w.values)) =
        At-Written p3 p4 (page_size - length w.bitmap) 2 w.bitmap (le_bytes 2 (length w.values)) w4
          (At-Written p2 p3 width 2 (le_values width w.values) (le_bytes 2 (length w.values)) w3
            w2.at (inl (omega arith)))
          (inl (omega arith)) in
      let values_at : At p4 width (le_values width w.values) =
        At-Written p3 p4 (page_size - length w.bitmap) width w.bitmap (le_values width w.values) w4
          w3.at (inl (omega (arith, size))) in
      (
        p4,
        rw (r1, ◌>>=◌) (rw (r2, ◌>>=◌) (rw (r3, ◌>>=◌) (rw (r4, ◌>>=◌) refl))),
        record {
          whole = omega (arith, w1.same, w2.same, w3.same, w4.same);
          few = omega (arith, marks);
          rows_at = subst (λ (n : ℕ). At p4 0 (le_bytes 2 n)) p.counted rows_at;
          count_at = subst (λ (n : ℕ). At p4 2 (le_bytes 2 n)) count count_at;
          small = p.small;
          values_at = subst (λ (vs : List ℕ). At p4 width (le_values width vs)) p.values values_at;
          bitmap = w.bitmap;
          marked = p.marked;
          bitmap_at = subst (λ (n : ℕ). At p4 (page_size - n) w.bitmap) marks w4.at;
        },
      )
