-- ===== src/Join/Looked.antt =====
-- The probes of the built table, and what all threads together find.
use mathlib.Core.List.{Permᴰ}
use mathlib.Core.List.Permᴰ
use optimized_hash_join_pipe.Base.{
  ℕ, suc, ◌+◌, ◌*◌, ◌^◌, ◌<◌, ◌≡◌, arith, ap, ap₂, ◌∙◌, sym, subst, fun_ext, ◌==◌, if◌then◌else◌,
  Bool, inl, inr, some, Option, List, [], ◌∷◌, map, length, get_or,
}
use optimized_hash_join_pipe.Base.Partial.{Returns, ◌>>=◌}
use optimized_hash_join_pipe.Column.{Value, ColumnT}
use optimized_hash_join_pipe.Column.Readable.{int_value, starts_of, Readable, get_value-Readable}
use optimized_hash_join_pipe.Pages.Numbers.{join}
use optimized_hash_join_pipe.Pages.Scans.{length-map}
use optimized_hash_join_pipe.Slab.{GlobalAllocator}
use optimized_hash_join_pipe.Unchained.{entry_size, new, probe}
use optimized_hash_join_pipe.Build.{build_parallel}
use optimized_hash_join_pipe.Build.Correct.{matching, build_parallel-matching}
use optimized_hash_join_pipe.Join.{OutputMapping, join_page, join_buffer, probe_column, run}
use optimized_hash_join_pipe.Join.Ranges.{gather, gather_perm}
use optimized_hash_join_pipe.Join.Results.{
  Relation, no_value, Within, perm-Within, InRange, pair_of,
}
use optimized_hash_join_pipe.Join.Chunks.{
  part, length-AllInts, join-Packed, starts_of-map, part-map, each_value, each_value-join,
  each_value-gather, join-map,
}
use optimized_hash_join_pipe.Join.Items.{value_pairs, join_page-Collected, join_buffer-Collected}
use optimized_hash_join_pipe.Join.Merged.{AllCollected}
use optimized_hash_join_pipe.Join.Threads.{run_threads-perm}
use optimized_hash_join_pipe.Join.Nested.{same_key, matching-Within, found-gather}

module _ (left right : List ColumnT) (left_values right_values : List (List Value))
    (left_rows right_rows : ℕ) (left_held : Relation left left_values left_rows)
    (right_held : Relation right right_values right_rows) (build_left : Bool)
    (ms : List OutputMapping)
    (within : InRange left right left_values right_values left_rows right_rows left_held right_held
      ms)
    (owner : ℕ → ℕ) (threads : ℕ) (owned_by : (k : ℕ) → owner k < threads) where
  abbrev pub build_rows : ℕ
  build_rows = if build_left then left_rows else right_rows

  abbrev pub probe_rows : ℕ
  probe_rows = if build_left then right_rows else left_rows

  abbrev pub pairing : ℕ → ℕ → ℕ × ℕ
  pairing =
      pair_of left right left_values right_values left_rows right_rows left_held right_held
        build_left

  module _ (lookup : ℕ → Option (List ℕ)) (found : ℕ → List ℕ)
      (finds : (key : ℕ) → lookup key ≡ some (found key))
      (fits : (key : ℕ) → Within build_rows (found key)) where
    abbrev row_pairs : ℕ → Value → List (ℕ × ℕ)
    row_pairs =
        value_pairs left right left_values right_values left_rows right_rows left_held right_held
          build_left ms within lookup found finds fits

    pages_as_parts :
        (chunks : List (List ℕ))
        → gather
            (λ k.
              each_value row_pairs
                (get_or (starts_of 0 chunks) k 0)
                (map int_value (part chunks k)))
            0
            (length chunks)
          ≡ each_value row_pairs 0 (join (map (map int_value) chunks))
    pages_as_parts chunks =
        ap₂ (λ (f : ℕ → List (ℕ × ℕ)) (n : ℕ). gather f 0 n)
          (fun_ext λ k.
            ap₂ (λ (starts : List ℕ) (vs : List Value). each_value row_pairs (get_or starts k 0) vs)
              (sym (starts_of-map int_value 0 chunks)) (sym (part-map int_value chunks k)))
          (sym (length-map (map int_value) chunks))
        ∙ sym (each_value-join row_pairs 0 (map (map int_value) chunks))

    -- The threads find the pairs of every row of the probe side.
    probe_column-AllCollected :
        (c : ColumnT) (vs : List Value)
        → Readable c vs
        → length vs ≡ probe_rows
        → Returns (probe_column left right build_left ms lookup owner threads c) λ css.
          (pss : List (List (ℕ × ℕ))) × AllCollected left_values right_values ms css pss
          × Permᴰ (join pss) (each_value row_pairs 0 vs)
    unfolding probe_column
    probe_column-AllCollected c vs r size = elim r.place [
      | inl b ↦
          let (css, run, (pss, all, perm)) =
            run_threads-perm left_values right_values ms
              (join_buffer left right build_left ms lookup c.buffers) owner (length c.buffers)
              (λ k. each_value row_pairs (get_or (starts_of 0 c.buffers) k 0) (part c.buffers k))
              (λ k cs pairs lt held.
                join_buffer-Collected left right left_values right_values left_rows right_rows
                  left_held right_held build_left ms within lookup found finds fits c.buffers vs k
                  cs pairs b.packed (omega arith) lt held)
              threads owned_by in
          let all_rows = each_value-join row_pairs 0 c.buffers in
          (
            css,
            rw b.original run,
            (
              pss,
              all,
              subst (Permᴰ (join pss))
                  (sym all_rows
                    ∙ ap (each_value row_pairs 0) (sym (join-Packed c.buffers vs b.packed)))
                  perm,
            ),
          )
      | inr p ↦
          let same = length-AllInts p.pages p.chunks p.held in
          let total : length (join p.chunks) ≡ probe_rows =
            omega (arith, size, ap length p.values, length-map int_value (join p.chunks)) in
          let (css, run, (pss, all, perm)) =
            run_threads-perm left_values right_values ms
              (join_page left right build_left ms lookup p.pages (starts_of 0 p.chunks)) owner
              (length p.pages)
              (λ k.
                each_value row_pairs (get_or (starts_of 0 p.chunks) k 0)
                  (map int_value (part p.chunks k)))
              (λ k cs pairs lt held.
                join_page-Collected left right left_values right_values left_rows right_rows
                  left_held right_held build_left ms within lookup found finds fits p.pages p.chunks
                  k cs pairs p.held (omega arith) lt held)
              threads owned_by in
          (
            css,
            rw (p.original, p.rowids) run,
            (
              pss,
              all,
              subst (Permᴰ (join pss))
                  (ap
                      (gather
                        (λ k.
                          each_value row_pairs (get_or (starts_of 0 p.chunks) k 0)
                            (map int_value (part p.chunks k)))
                        0)
                      same
                    ∙ pages_as_parts p.chunks
                    ∙ ap (each_value row_pairs 0) (join-map int_value p.chunks ∙ sym p.values))
                  perm,
            ),
          )
    ]

  -- The table is built, the probe side is looked up, and the results are merged.
  module _ (crc32si : ℕ → ℕ → ℕ) (mmap : ℕ → Option ℕ)
      (maps : (size : ℕ) → Returns (mmap size) λ _. Unit {0}) (base others : ℕ)
      (address : base + entry_size * 2 ^ 30 < 2 ^ 48) (all_threads : threads ≡ suc others)
      (bc pc : ColumnT) (bvs pvs : List Value) (b_held : Readable bc bvs) (p_held : Readable pc pvs)
      (b_size : length bvs ≡ build_rows) (p_size : length pvs ≡ probe_rows)
      (few : build_rows < 2 ^ 30) where
    abbrev pub row_of : List Value → ℕ → Value
    row_of vs i = get_or vs i no_value

    abbrev pub Looked : GlobalAllocator → Type 0
    Looked g =
        Returns (new base bc.num_rows >>= λ t. build_parallel crc32si mmap t bc threads g) λ r.
          (css : List (List ColumnT)) × (pss : List (List (ℕ × ℕ))) × (probe_column left right
              build_left ms (probe crc32si r.0) owner threads pc
            ≡ some css)
          × AllCollected left_values right_values ms css pss
          × Permᴰ (join pss) (
              gather
                (λ p.
                  gather
                    (λ b. if same_key (row_of pvs p) (row_of bvs b) then pairing p b ∷ [] else []) 0
                    build_rows)
                0 probe_rows)

    pub looked : (g : GlobalAllocator) → Looked g
    looked g =
        let ((table, g'), built, probes) =
          build_parallel-matching crc32si mmap maps bc (row_of bvs)
            (λ i l. get_value-Readable bc bvs no_value i b_held (omega (arith, b_held.count)))
            (omega (arith, b_held.count)) base others g address in
        let found : ℕ → List ℕ = λ key. (probes key).0 in
        let all_found : (key : ℕ) → Permᴰ (found key) (matching (row_of bvs) key 0 build_rows) =
          λ key.
            subst (λ (n : ℕ). Permᴰ (found key) (matching (row_of bvs) key 0 n))
              (omega (arith, b_held.count)) (probes key).2 in
        let pairs_of : ℕ → Value → List (ℕ × ℕ) =
          λ p v. if v.status == 0 then [] else map (pairing p) (found v.val) in
        let matches : List (ℕ × ℕ) =
          gather
            (λ p.
              gather (λ b. if same_key (row_of pvs p) (row_of bvs b) then pairing p b ∷ [] else [])
                0 build_rows)
            0 probe_rows in
        let (css, run, (pss, all, perm)) =
          probe_column-AllCollected (probe crc32si table) found (λ key. (probes key).1)
            (λ key.
              perm-Within build_rows (Permᴰ.symm (all_found key))
                (matching-Within (row_of bvs) key 0 build_rows build_rows (omega arith)))
            pc pvs p_held p_size in
        (
          (table, g'),
          rw all_threads built,
          (
            css,
            pss,
            run,
            all,
            Permᴰ.trans perm (
                subst (λ ps. Permᴰ ps matches)
                  (sym (
                    each_value-gather pairs_of no_value pvs (row_of pvs) 0
                      (λ i l. ap (row_of pvs) (let t : 0 + i ≡ i = omega arith in t))
                    ∙ ap (gather (λ p. pairs_of p (row_of pvs p)) 0) p_size))
                  (gather_perm (λ p. pairs_of p (row_of pvs p))
                    (λ p.
                      gather
                        (λ b.
                          if same_key (row_of pvs p) (row_of bvs b) then pairing p b ∷ [] else [])
                        0 build_rows)
                    0 probe_rows
                    (λ p lo hi.
                      found-gather (row_of bvs) (pairing p) (row_of pvs p) build_rows
                        (found (row_of pvs p).val) (all_found (row_of pvs p).val)))),
          ),
        )
