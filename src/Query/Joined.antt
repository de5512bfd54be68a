-- ===== src/Query/Joined.antt =====
-- `JoinAlgorithm::run` on relations as lists of rows.
use mathlib.Core.List.{Permᴰ}
use mathlib.Core.List.Permᴰ
use optimized_hash_join_pipe.Base.{
  ℕ, zero, suc, ◌+◌, ◌-◌, ◌*◌, ◌^◌, ◌<◌, ◌≡◌, refl, arith, ap, ap₂, ◌∙◌, sym, subst, min, ltb,
  if◌then◌else◌, Bool, Bool-cases, inl, inr, true, false, Option, List, [], ◌∷◌, map, length,
  get_or,
}
use optimized_hash_join_pipe.Base.Partial.{Returns}
use optimized_hash_join_pipe.Column.{DataType, Value, ColumnT}
use optimized_hash_join_pipe.Column.Readable.{Readable}
use optimized_hash_join_pipe.Pages.Scans.{length-map}
use optimized_hash_join_pipe.Slab.{GlobalAllocator}
use optimized_hash_join_pipe.Unchained.{entry_size}
use optimized_hash_join_pipe.Join.{OutputMapping, mappings_of, run}
use optimized_hash_join_pipe.Join.Ranges.{gather, gather_congr, map-gather}
use optimized_hash_join_pipe.Join.Results.{no_value, Relation, cell, Collected}
use optimized_hash_join_pipe.Join.Nested.{same_key, nested_loop}
use optimized_hash_join_pipe.Join.Correct.{Named, length-mappings_of, run-nested_loop}
use optimized_hash_join_pipe.Query.Rows.{
  Row, first_of, rest_of, columns_of, Rows, field, map-map, columns_of-field, joined_row, join_rows,
  flat, gather-flat,
}

get_or-map-field :
    (j : ℕ) (rows : List Row) (i : ℕ)
    → get_or (map (λ r. field r j) rows) i no_value ≡ field (get_or rows i []) j
get_or-map-field j [] i = refl
get_or-map-field j (r ∷ rows) zero = refl
get_or-map-field j (r ∷ rows) (suc i) = get_or-map-field j rows i

-- The value in a column and a row.
value_at-field :
    (width : ℕ) (rows : List Row) (j i : ℕ)
    → j < width
    → get_or (get_or (columns_of width rows) j []) i no_value ≡ field (get_or rows i []) j
value_at-field width rows j i l =
    ap (λ (vs : List Value). get_or vs i no_value) (columns_of-field width rows j l)
    ∙ get_or-map-field j rows i

module _ (left_width right_width : ℕ) (ls rs : List Row) where
  abbrev left_values : List (List Value)
  left_values = columns_of left_width ls

  abbrev right_values : List (List Value)
  right_values = columns_of right_width rs

  abbrev row_of : List OutputMapping → ℕ × ℕ → Row
  row_of ms p = map (λ m. cell left_values right_values m p) ms

  Collected-Relation :
      (ms : List OutputMapping) (cs : List ColumnT) (pairs : List (ℕ × ℕ))
      → Collected left_values right_values ms cs pairs
      → Relation cs (columns_of (length cs) (map (row_of ms) pairs)) (length pairs)
        × (length cs ≡ length ms)
  Collected-Relation [] [] pairs held = (tt, refl)
  Collected-Relation [] (c ∷ cs) pairs held = absurd held
  Collected-Relation (m ∷ ms) [] pairs held = absurd held
  Collected-Relation (m ∷ ms) (c ∷ cs) pairs (b, held) =
      let (others, same) = Collected-Relation ms cs pairs held in
      let row = row_of (m ∷ ms) in
      (
        (
          subst (Readable c) (sym (map-map first_of row pairs)) (record {
            count = b.count;
            place = inl (record { original = b.original; packed = b.packed });
          }),
          length-map first_of (map row pairs) ∙ length-map row pairs,
          subst (λ (rows : List Row). Relation cs (columns_of (length cs) rows) (length pairs))
              (sym (map-map rest_of row pairs)) others,
        ),
        ap suc same,
      )

  joined_row-row_of :
      (attrs : List (ℕ × DataType)) (l r : ℕ)
      → Named (left_width + right_width) attrs
      → row_of (mappings_of left_width attrs) (l, r)
        ≡ joined_row left_width attrs (get_or ls l []) (get_or rs r [])
  unfolding mappings_of
  joined_row-row_of [] l r n = refl
  joined_row-row_of ((col_idx, type) ∷ attrs) l r n = elim (Bool-cases (ltb col_idx left_width)) [
    | inl is_left ↦ rw is_left (
        ap₂ ◌∷◌ (value_at-field left_width ls col_idx l (ground arith))
          (joined_row-row_of attrs l r n.1))
    | inr is_right ↦ rw is_right (
        ap₂ ◌∷◌ (value_at-field right_width rs (col_idx - left_width) r (ground (arith, n.0)))
          (joined_row-row_of attrs l r n.1))
  ]

  -- The nest of loops goes through the pairs of rows.
  nested_loop-join_rows :
      (left_attr right_attr : ℕ) (attrs : List (ℕ × DataType))
      → left_attr < left_width
      → right_attr < right_width
      → Named (left_width + right_width) attrs
      → map (row_of (mappings_of left_width attrs)) (
          nested_loop
            (λ l. get_or (get_or left_values left_attr []) l no_value)
            (λ r. get_or (get_or right_values right_attr []) r no_value)
            (length ls)
            (length rs))
        ≡ join_rows left_width left_attr right_attr attrs ls rs
  unfolding nested_loop
  nested_loop-join_rows left_attr right_attr attrs l_in r_in named =
      let h = row_of (mappings_of left_width attrs) in
      let key : ℕ → ℕ → Bool = λ l r.
        same_key (get_or (get_or left_values left_attr []) l no_value)
          (get_or (get_or right_values right_attr []) r no_value) in
      let f : Row → Row → List Row = λ l r.
        if same_key (field l left_attr) (field r right_attr)
        then joined_row left_width attrs l r ∷ []
        else [] in
      map-gather h (λ l. gather (λ r. if key l r then (l, r) ∷ [] else []) 0 (length rs)) 0
        (length ls)
      ∙ gather_congr (λ l. map h (gather (λ r. if key l r then (l, r) ∷ [] else []) 0 (length rs)))
          (λ l. flat (f (get_or ls l [])) rs) 0 (length ls)
          (λ l lo hi.
            map-gather h (λ r. if key l r then (l, r) ∷ [] else []) 0 (length rs)
            ∙ gather_congr (λ r. map h (if key l r then (l, r) ∷ [] else []))
                (λ r. f (get_or ls l []) (get_or rs r [])) 0 (length rs)
                (λ r lo' hi'.
                  mapped (key l r) l r
                  ∙ ap₂ (λ (b : Bool) (row : Row). if b then row ∷ [] else [])
                      (ap₂ same_key (value_at-field left_width ls left_attr l l_in)
                        (value_at-field right_width rs right_attr r r_in))
                      (joined_row-row_of attrs l r named))
            ∙ gather-flat (f (get_or ls l [])) [] rs)
      ∙ gather-flat (λ l. flat (f l) rs) [] ls
    where
      mapped :
          (b : Bool) (l r : ℕ)
          → map (row_of (mappings_of left_width attrs)) (if b then (l, r) ∷ [] else [])
            ≡ (if b then row_of (mappings_of left_width attrs) (l, r) ∷ [] else [])
      mapped true l r = refl
      mapped false l r = refl

module _ (crc32si : ℕ → ℕ → ℕ) (mmap : ℕ → Option ℕ)
    (maps : (size : ℕ) → Returns (mmap size) λ _. Unit {0}) (base others : ℕ)
    (address : base + entry_size * 2 ^ 30 < 2 ^ 48) (owner : ℕ → ℕ)
    (owned_by : (k : ℕ) → owner k < suc others) where
  -- The columns of the result hold the joined rows, in some order.
  pub run-join_rows :
      (left right : List ColumnT) (ls rs : List Row)
      → Rows left ls
      → Rows right rs
      → (left_attr right_attr : ℕ) → left_attr < length left
      → right_attr < length right
      → (attrs : List (ℕ × DataType)) → Named (length left + length right) attrs
      → min (length ls) (length rs) < 2 ^ 30
      → (g : GlobalAllocator)
      → Returns
          (run crc32si mmap base (suc others) owner left right left_attr right_attr attrs g)
          λ out.
            (rows : List Row) × Permᴰ rows
              (join_rows (length left) left_attr right_attr attrs ls rs)
            × Rows out.0 rows
            × (length out.0 ≡ length attrs)
  run-join_rows left right ls rs l_held r_held left_attr right_attr l_in r_in attrs named few g =
      let ms = mappings_of (length left) attrs in
      let (out, ran, (pairs, perm, held)) =
        run-nested_loop crc32si mmap maps base others address owner owned_by left right
          (columns_of (length left) ls) (columns_of (length right) rs) (length ls) (length rs)
          l_held r_held attrs named left_attr right_attr l_in r_in few g in
      let row = row_of (length left) (length right) ls rs ms in
      let (relation, same) =
        Collected-Relation (length left) (length right) ls rs ms out.0 pairs held in
      (
        out,
        ran,
        (
          map row pairs,
          subst (Permᴰ (map row pairs))
              (nested_loop-join_rows (length left) (length right) ls rs left_attr right_attr attrs
                l_in r_in named)
              (Permᴰ.map row perm),
          subst (Relation out.0 (columns_of (length out.0) (map row pairs)))
              (sym (length-map row pairs)) relation,
          same ∙ length-mappings_of (length left) attrs,
        ),
      )
