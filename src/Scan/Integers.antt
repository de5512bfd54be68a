-- ===== src/Scan/Integers.antt =====
-- The scan of pages of integers into buffers.
use mathlib.Core.List.{append_assoc, append-nil, map-append}
use optimized_hash_join_pipe.Base.{
  ℕ, suc, ◌+◌, ◌-◌, ◌*◌, ◌/◌, ◌<◌, ◌≡◌, refl, arith, ap, ◌∙◌, sym, subst, ◌==◌, not, true, false,
  some, none, Option, List, [], ◌∷◌, ◌++◌, map, length, get_or,
}
use optimized_hash_join_pipe.Base.Partial.{Returns, ◌>>=◌}
use optimized_hash_join_pipe.Column.{Value, Page, page_size, read_i32}
use optimized_hash_join_pipe.Column.Readable.{int_value}
use optimized_hash_join_pipe.Filter.Values.Stored.{present}
use optimized_hash_join_pipe.Pages.{get_bitmap}
use optimized_hash_join_pipe.Pages.Arrays.{read_i32-read_le, read_le-le_values, get_bitmap-At}
use optimized_hash_join_pipe.Pages.Numbers.{values_of, AllHold, join}
use optimized_hash_join_pipe.Pages.Numbers.Scanned.{read_u16-At, to_nat-present}
use optimized_hash_join_pipe.Scan.{Filling, add_value, add_integers, add_integer_pages}
use optimized_hash_join_pipe.Scan.Buffered.{Fills, add_value-Fills}

-- The value of a row; of a null nothing but `status` is written.
abbrev pub row_value : (blank : ℕ) → Option ℕ → Value
row_value blank none = record { val = blank; status = 0 }
row_value blank (some v) = int_value v

module _ (blank : ℕ) where
  add_integers-Fills :
      (page : Page) (bitmap : ℕ) (rows : List (Option ℕ)) (f : Filling) (vs : List Value)
      (data_idx i : ℕ)
      → ((k : ℕ)
          → k < length rows
          → get_bitmap page bitmap (i + k) ≡ some (present (get_or rows k none)))
      → ((k : ℕ)
          → k < length (values_of rows)
          → read_i32 page (4 + 4 * (data_idx + k)) ≡ some (get_or (values_of rows) k 0))
      → Fills f vs
      → Returns
          (add_integers blank page bitmap f data_idx i (length rows))
          λ g. Fills g (vs ++ map (row_value blank) rows)
  unfolding add_integers
  add_integers-Fills page bitmap [] f vs data_idx i bits vals h =
      (f, refl, subst (Fills f) (sym (append-nil vs)) h)
  add_integers-Fills page bitmap (none ∷ rows) f vs data_idx i bits vals h =
      let bit : get_bitmap page bitmap i ≡ some false =
        ap (get_bitmap page bitmap) (let t : i ≡ i + 0 = omega arith in t) ∙ bits 0 (omega arith) in
      let v : Value = record { val = blank; status = 0 } in
      let (g, run, k) =
        add_integers-Fills page bitmap rows (add_value f v) (vs ++ v ∷ []) data_idx (i + 1)
          (λ k l.
            ap (get_bitmap page bitmap) (let t : i + 1 + k ≡ i + suc k = omega arith in t)
            ∙ bits (suc k) (omega arith))
          vals (add_value-Fills f vs v h) in
      (
        g,
        rw (bit, ◌>>=◌) run,
        subst (Fills g) (append_assoc vs (v ∷ []) (map (row_value blank) rows)) k,
      )
  add_integers-Fills page bitmap (some n ∷ rows) f vs data_idx i bits vals h =
      let bit : get_bitmap page bitmap i ≡ some true =
        ap (get_bitmap page bitmap) (let t : i ≡ i + 0 = omega arith in t) ∙ bits 0 (omega arith) in
      let value : read_i32 page (4 + 4 * data_idx) ≡ some n =
        ap (λ (k : ℕ). read_i32 page (4 + 4 * k))
          (let t : data_idx ≡ data_idx + 0 = omega arith in t)
        ∙ vals 0 (omega arith) in
      let v = int_value n in
      let (g, run, k) =
        add_integers-Fills page bitmap rows (add_value f v) (vs ++ v ∷ []) (data_idx + 1) (i + 1)
          (λ k l.
            ap (get_bitmap page bitmap) (let t : i + 1 + k ≡ i + suc k = omega arith in t)
            ∙ bits (suc k) (omega arith))
          (λ k l.
            ap (λ (n : ℕ). read_i32 page (4 + 4 * n))
              (let t : data_idx + 1 + k ≡ data_idx + suc k = omega arith in t)
            ∙ vals (suc k) (omega arith))
          (add_value-Fills f vs v h) in
      (
        g,
        rw (bit, ◌>>=◌) (rw (value, ◌>>=◌) run),
        subst (Fills g) (append_assoc vs (v ∷ []) (map (row_value blank) rows)) k,
      )

  pub add_integer_pages-Fills :
      (pages : List Page) (chunks : List (List (Option ℕ))) (f : Filling) (vs : List Value)
      → AllHold 4 pages chunks
      → Fills f vs
      → Returns
          (add_integer_pages blank f pages)
          λ g. Fills g (vs ++ map (row_value blank) (join chunks))
  unfolding add_integer_pages
  add_integer_pages-Fills [] [] f vs a h = (f, refl, subst (Fills f) (sym (append-nil vs)) h)
  add_integer_pages-Fills [] (rows ∷ chunks) f vs a h = absurd a
  add_integer_pages-Fills (page ∷ pages) [] f vs a h = absurd a
  add_integer_pages-Fills (page ∷ pages) (rows ∷ chunks) f vs (held, a) h =
      let count = read_u16-At page 0 (length rows) held.few held.rows_at in
      let bitmap = page_size - (length rows + 7) / 8 in
      let (g, run, filled) =
        add_integers-Fills page bitmap rows f vs 0 0
          (λ k l.
            ap (get_bitmap page bitmap) (let t : 0 + k ≡ k = omega arith in t)
            ∙ get_bitmap-At page bitmap held.bitmap k held.bitmap_at
                (omega (arith, held.marked.width))
            ∙ ap some (
                ap (λ (n : ℕ). not (n == 0)) (held.marked.bits k)
                ∙ to_nat-present (present (get_or rows k none))))
          (λ k l.
            ap (λ (n : ℕ). read_i32 page (4 + 4 * n)) (let t : 0 + k ≡ k = omega arith in t)
            ∙ read_i32-read_le page (4 + 4 * k)
            ∙ read_le-le_values 4 (values_of rows) page 4 k held.small held.values_at l)
          h in
      let (g', run', filled') =
        add_integer_pages-Fills pages chunks g (vs ++ map (row_value blank) rows) a filled in
      (
        g',
        rw (count, ◌>>=◌) (rw (run, ◌>>=◌) run'),
        subst (Fills g')
            (append_assoc vs (map (row_value blank) rows) (map (row_value blank) (join chunks))
              ∙ ap (λ t. vs ++ t) (sym (map-append (row_value blank) rows (join chunks))))
            filled',
      )
