-- ===== src/Join/Correct.antt =====
-- The hash join joins: it is the join by a nest of two loops, but for the order of the rows.
use mathlib.Core.List.{Permᴰ}
use optimized_hash_join_pipe.Base.{
  ℕ, suc, ◌+◌, ◌*◌, ◌^◌, ◌<◌, ◌≡◌, ◌⊎◌, refl, arith, ap, ◌∙◌, sym, subst, ◌==◌, ltb, leb, min, ◌||◌,
  if◌then◌else◌, Bool, Bool-cases, inl, inr, true, false, some, Option, List, [], ◌∷◌, length,
  get_or, replicate,
}
use optimized_hash_join_pipe.Base.Partial.{Returns, ◌>>=◌}
use optimized_hash_join_pipe.Column.{DataType, Value, ColumnT}
use optimized_hash_join_pipe.Column.Readable.{Readable}
use optimized_hash_join_pipe.Slab.{GlobalAllocator}
use optimized_hash_join_pipe.Pages.Numbers.{join}
use optimized_hash_join_pipe.Unchained.{entry_size}
use optimized_hash_join_pipe.Join.{mappings_of, default_column, final_results, join_columns, run}
use optimized_hash_join_pipe.Join.Ranges.{gather}
use optimized_hash_join_pipe.Join.Results.{
  Relation, load-Relation, no_value, Collected, Collected-none, InRange,
}
use optimized_hash_join_pipe.Join.Merged.{final_results-Collected}
use optimized_hash_join_pipe.Join.Nested.{same_key, nested_loop, nested_loop-swap, nested_loop-none}
use optimized_hash_join_pipe.Join.Looked.{looked}

pub length-mappings_of :
    (left_size : ℕ) (attrs : List (ℕ × DataType))
    → length (mappings_of left_size attrs) ≡ length attrs
unfolding mappings_of
length-mappings_of left_size [] = refl
length-mappings_of left_size ((col_idx, type) ∷ attrs) = ap suc (length-mappings_of left_size attrs)

no_rows : (a b m n : ℕ) → a ≡ m → b ≡ n → (a == 0 || b == 0) ≡ true → (m ≡ 0) ⊎ (n ≡ 0)
no_rows a b m n e f none_left = elim (Bool-cases (a == 0)) [
  | inl left_empty ↦ inl (ground arith)
  | inr some_left ↦ inr (ground (arith, rw some_left at none_left))
]

-- The attributes of the output name columns of the left or of the right side.
abbrev pub Named : ℕ → List (ℕ × DataType) → Type 0
Named columns [] = Unit {0}
Named columns ((col_idx, type) ∷ attrs) = (col_idx < columns) × Named columns attrs

module _ (crc32si : ℕ → ℕ → ℕ) (mmap : ℕ → Option ℕ)
    (maps : (size : ℕ) → Returns (mmap size) λ _. Unit {0}) (base others : ℕ)
    (address : base + entry_size * 2 ^ 30 < 2 ^ 48) (owner : ℕ → ℕ)
    (owned_by : (k : ℕ) → owner k < suc others) (left right : List ColumnT)
    (left_values right_values : List (List Value)) (left_rows right_rows : ℕ)
    (left_held : Relation left left_values left_rows)
    (right_held : Relation right right_values right_rows) (attrs : List (ℕ × DataType))
    (named : Named (length left + length right) attrs) where
  mappings_of-InRange :
      (attrs : List (ℕ × DataType))
      → Named (length left + length right) attrs
      → InRange left right left_values right_values left_rows right_rows left_held right_held
          (mappings_of (length left) attrs)
  unfolding mappings_of
  mappings_of-InRange [] n = tt
  mappings_of-InRange ((col_idx, type) ∷ attrs) n = elim (Bool-cases (ltb col_idx (length left))) [
    | inl is_left ↦ rw is_left (ground arith, mappings_of-InRange attrs n.1)
    | inr is_right ↦ rw is_right (ground (arith, n.0), mappings_of-InRange attrs n.1)
  ]

  abbrev pub Joined : List (ℕ × ℕ) → Option (List ColumnT × GlobalAllocator) → Type 0
  Joined expected r = Returns r λ out.
      (pairs : List (ℕ × ℕ)) × Permᴰ pairs expected
      × Collected left_values right_values (mappings_of (length left) attrs) out.0 pairs

  join_columns-Joined :
      (build_left : Bool) (bc pc : ColumnT) (bvs pvs : List Value)
      → Readable bc bvs
      → Readable pc pvs
      → length bvs ≡ (if build_left then left_rows else right_rows)
      → length pvs ≡ (if build_left then right_rows else left_rows)
      → (if build_left then left_rows else right_rows) < 2 ^ 30
      → (g : GlobalAllocator)
      → Joined
          (gather
            (λ p.
              gather
                (λ b.
                  if same_key (get_or pvs p no_value) (get_or bvs b no_value)
                  then (if build_left then b else p, if build_left then p else b) ∷ []
                  else [])
                0
                (if build_left then left_rows else right_rows))
            0
            (if build_left then right_rows else left_rows))
          (join_columns crc32si mmap base (suc others) owner left right build_left bc pc attrs g)
  unfolding join_columns
  join_columns-Joined build_left bc pc bvs pvs b_held p_held b_size p_size few g =
      let ms = mappings_of (length left) attrs in
      let ((table, g'), built, (css, pss, probed, all, perm)) =
        looked left right left_values right_values left_rows right_rows left_held right_held
          build_left ms (mappings_of-InRange attrs named) owner (suc others) owned_by crc32si mmap
          maps base others address refl bc pc bvs pvs b_held p_held b_size p_size few g in
      let (results, merged, held) =
        final_results-Collected left_values right_values ms css pss all in
      let merged' : final_results 0 (length attrs) css ≡ some results =
        ap (λ (n : ℕ). final_results 0 n css) (sym (length-mappings_of (length left) attrs))
        ∙ merged in
      (
        (results, g'),
        rw (built, ◌>>=◌) (rw (probed, ◌>>=◌) (rw (merged', ◌>>=◌) refl)),
        (join pss, perm, held),
      )

  -- Let the columns of each side hold a relation. If the smaller side has fewer than 2^30 rows,
  -- the two key columns are columns of the two sides, and the attributes of the output name
  -- columns of the sides, then for any number of threads but 0, however they share the work out,
  -- for an address of the entries that leaves room for 2^30 of them below 2^48 and an `mmap` that
  -- never fails, `run` does not fault, and its columns hold the named values of exactly the pairs
  -- of a left and a right row with the same key and no null key, each pair once, in some order.
  pub run-nested_loop :
      (left_col right_col : ℕ)
      → left_col < length left
      → right_col < length right
      → min left_rows right_rows < 2 ^ 30
      → (g : GlobalAllocator)
      → Joined
          (nested_loop
            (λ l. get_or (get_or left_values left_col []) l no_value)
            (λ r. get_or (get_or right_values right_col []) r no_value)
            left_rows
            right_rows)
          (run crc32si mmap base (suc others) owner left right left_col right_col attrs g)
  unfolding run nested_loop
  run-nested_loop left_col right_col l_in r_in few g =
      let (lc, l_loaded, (l_held, l_size)) =
        load-Relation left left_values left_rows left_col left_held l_in in
      let (rc, r_loaded, (r_held, r_size)) =
        load-Relation right right_values right_rows right_col right_held r_in in
      let lvs = get_or left_values left_col [] in
      let rvs = get_or right_values right_col [] in
      rw (l_loaded, ◌>>=◌)
        (rw (r_loaded, ◌>>=◌)
          (elim (Bool-cases (lc.num_rows == 0 || rc.num_rows == 0)) [
            | inl empty ↦ rw empty (
              (replicate (length attrs) default_column, g),
              refl,
              (
                [],
                subst (Permᴰ [])
                    (sym (
                      nested_loop-none (λ l. get_or lvs l no_value) (λ r. get_or rvs r no_value)
                        left_rows right_rows
                        (no_rows lc.num_rows rc.num_rows left_rows right_rows
                          (l_held.count ∙ l_size) (r_held.count ∙ r_size) empty)))
                    Permᴰ.nil,
                subst
                    (λ (n : ℕ).
                      Collected left_values right_values (mappings_of (length left) attrs)
                        (replicate n default_column) [])
                    (length-mappings_of (length left) attrs)
                    (Collected-none left_values right_values (mappings_of (length left) attrs)),
              ),
            )
            | inr some_rows ↦ rw some_rows (elim (Bool-cases (leb lc.num_rows rc.num_rows)) [
              | inl smaller ↦
                  let (out, run, (pairs, perm, held)) =
                    join_columns-Joined true lc rc lvs rvs l_held r_held l_size r_size
                      (ground (arith, l_held.count, r_held.count, l_size, r_size, smaller, few))
                      g in
                  rw smaller (
                    out,
                    run,
                    (
                      pairs,
                      Permᴰ.trans perm (
                          nested_loop-swap (λ l. get_or lvs l no_value) (λ r. get_or rvs r no_value)
                            left_rows right_rows),
                      held,
                    ),
                  )
              | inr larger ↦
                  let (out, run, (pairs, perm, held)) =
                    join_columns-Joined false rc lc rvs lvs r_held l_held r_size l_size
                      (ground (arith, l_held.count, r_held.count, l_size, r_size, larger, few)) g in
                  rw larger (out, run, (pairs, perm, held))
            ])
          ]))
