-- ===== src/Join/Merged.antt =====
-- The merge of the threads' results.
use mathlib.Core.List.{append_assoc, append-nil, map-append}
use optimized_hash_join_pipe.Base.{
  ℕ, zero, suc, ◌+◌, ◌<◌, ◌≤◌, ◌≡◌, refl, arith, ap, ◌∙◌, sym, subst, ◌==◌, ltb, if◌then◌else◌,
  Bool-cases, inl, inr, true, some, List, [], ◌∷◌, ◌++◌, map, length, length-append,
  eq_nil_of_length, get_or,
}
use optimized_hash_join_pipe.Base.Partial.{Returns, ◌>>=◌, load}
use optimized_hash_join_pipe.Column.{Value, Buffer, max_per_buffer, ColumnT}
use optimized_hash_join_pipe.Pages.Numbers.{join}
use optimized_hash_join_pipe.Pages.Numbers.Inserted.{join-snoc}
use optimized_hash_join_pipe.Pages.Scans.{length-map}
use optimized_hash_join_pipe.Scan.{Filling, no_values}
use optimized_hash_join_pipe.Scan.Buffered.{AllFull, AllFull-snoc, closed-Packed}
use optimized_hash_join_pipe.Join.{
  OutputMapping, default_column, merge_value, merge_buffer, merge_buffers, merge_threads,
  total_rows, final_column, final_results,
}
use optimized_hash_join_pipe.Join.Results.{Buffered, cell, Collected}
use optimized_hash_join_pipe.Join.Chunks.{join-Packed}

-- The buffers before the last are full.
record Merging (f : Filling) (vs : List Value) : Type 0 where
  full : AllFull f.buffers
  fits : length f.curbuf ≤ max_per_buffer
  all : vs ≡ join f.buffers ++ f.curbuf

merge_value-Merging :
    (f : Filling) (vs : List Value) (v : Value)
    → Merging f vs
    → Merging (merge_value f v) (vs ++ v ∷ [])
unfolding merge_value
merge_value-Merging f vs v m = elim (Bool-cases (length f.curbuf == max_per_buffer)) [
  | inl end ↦ rw end (record {
    full = AllFull-snoc f.buffers f.curbuf m.full (ground arith);
    fits = omega arith;
    all = ap (λ t. t ++ v ∷ []) (m.all ∙ sym (join-snoc f.buffers f.curbuf));
  })
  | inr more ↦ rw more (record {
    full = m.full;
    fits = ground (arith, m.fits, length-append f.curbuf (v ∷ []));
    all = ap (λ t. t ++ v ∷ []) m.all ∙ append_assoc (join f.buffers) f.curbuf (v ∷ []);
  })
]

merge_buffer-Merging :
    (f : Filling) (vs : List Value) (b : Buffer)
    → Merging f vs
    → Merging (merge_buffer f b) (vs ++ b)
merge_buffer-Merging f vs [] m = subst (Merging f) (sym (append-nil vs)) m
merge_buffer-Merging f vs (v ∷ b) m =
    subst (Merging (merge_buffer (merge_value f v) b)) (append_assoc vs (v ∷ []) b)
      (merge_buffer-Merging (merge_value f v) (vs ++ v ∷ []) b (merge_value-Merging f vs v m))

merge_buffers-Merging :
    (f : Filling) (vs : List Value) (bs : List Buffer)
    → Merging f vs
    → Merging (merge_buffers f bs) (vs ++ join bs)
merge_buffers-Merging f vs [] m = subst (Merging f) (sym (append-nil vs)) m
merge_buffers-Merging f vs (b ∷ bs) m =
    subst (Merging (merge_buffers (merge_buffer f b) bs)) (append_assoc vs b (join bs))
      (merge_buffers-Merging (merge_buffer f b) (vs ++ b) bs (merge_buffer-Merging f vs b m))

abbrev no_mapping : OutputMapping
no_mapping = record { col_idx = 0; use_left = true }

module _ (left_values right_values : List (List Value)) where
  load-Collected :
      (ms : List OutputMapping) (cs : List ColumnT) (pairs : List (ℕ × ℕ)) (j : ℕ)
      → Collected left_values right_values ms cs pairs
      → j < length ms
      → Returns
          (load cs j)
          λ c. Buffered c (map (cell left_values right_values (get_or ms j no_mapping)) pairs)
  unfolding load
  load-Collected [] cs pairs j held l = absurd (omega arith)
  load-Collected (m ∷ ms) [] pairs j held l = absurd held
  load-Collected (m ∷ ms) (c ∷ cs) pairs zero held l = (c, refl, held.0)
  load-Collected (m ∷ ms) (c ∷ cs) pairs (suc j) held l =
      load-Collected ms cs pairs j held.1 (omega arith)

  module _ (ms : List OutputMapping) where
    -- The results of all threads.
    abbrev pub AllCollected : List (List ColumnT) → List (List (ℕ × ℕ)) → Type 0
    AllCollected [] [] = Unit {0}
    AllCollected [] (ps ∷ pss) = ⊥
    AllCollected (cs ∷ css) [] = ⊥
    AllCollected (cs ∷ css) (ps ∷ pss) =
        Collected left_values right_values ms cs ps × AllCollected css pss

    module _ (j : ℕ) (j_in : j < length ms) where
      abbrev value_of : ℕ × ℕ → Value
      value_of = cell left_values right_values (get_or ms j no_mapping)

      total_rows-AllCollected :
          (css : List (List ColumnT)) (pss : List (List (ℕ × ℕ)))
          → AllCollected css pss
          → total_rows j css ≡ some (length (join pss))
      unfolding total_rows
      total_rows-AllCollected [] [] a = refl
      total_rows-AllCollected [] (ps ∷ pss) a = absurd a
      total_rows-AllCollected (cs ∷ css) [] a = absurd a
      total_rows-AllCollected (cs ∷ css) (ps ∷ pss) a =
          let (c, loaded, b) = load-Collected ms cs ps j a.0 j_in in
          rw (loaded, ◌>>=◌)
            (rw (total_rows-AllCollected css pss a.1, ◌>>=◌)
              (ap some
                (omega (arith, b.count, length-map value_of ps, length-append ps (join pss)))))

      merge_threads-Merging :
          (css : List (List ColumnT)) (pss : List (List (ℕ × ℕ))) (f : Filling) (vs : List Value)
          → AllCollected css pss
          → Merging f vs
          → Returns (merge_threads j f css) λ g. Merging g (vs ++ map value_of (join pss))
      unfolding merge_threads
      merge_threads-Merging [] [] f vs a m = (f, refl, subst (Merging f) (sym (append-nil vs)) m)
      merge_threads-Merging [] (ps ∷ pss) f vs a m = absurd a
      merge_threads-Merging (cs ∷ css) [] f vs a m = absurd a
      merge_threads-Merging (cs ∷ css) (ps ∷ pss) f vs a m =
          let (c, loaded, b) = load-Collected ms cs ps j a.0 j_in in
          let here : Merging (merge_buffers f c.buffers) (vs ++ map value_of ps) =
            subst (λ t. Merging (merge_buffers f c.buffers) (vs ++ t))
              (sym (join-Packed c.buffers (map value_of ps) b.packed))
              (merge_buffers-Merging f vs c.buffers m) in
          let (g, run, m') =
            merge_threads-Merging css pss (merge_buffers f c.buffers) (vs ++ map value_of ps) a.1
              here in
          (
            g,
            rw (loaded, ◌>>=◌) run,
            subst (Merging g)
                (append_assoc vs (map value_of ps) (map value_of (join pss))
                  ∙ ap (λ t. vs ++ t) (sym (map-append value_of ps (join pss))))
                m',
          )

      final_column-Buffered :
          (css : List (List ColumnT)) (pss : List (List (ℕ × ℕ)))
          → AllCollected css pss
          → Returns (final_column j css) λ c. Buffered c (map value_of (join pss))
      unfolding final_column
      final_column-Buffered css pss a =
          let total = total_rows-AllCollected css pss a in
          elim (Bool-cases (length (join pss) == 0)) [
            | inl empty ↦
                let nothing : join pss ≡ [] = eq_nil_of_length (join pss) (ground arith) in
                (
                  default_column,
                  rw (total, ◌>>=◌) (rw empty refl),
                  record {
                    original = refl;
                    packed = ap (map value_of) nothing;
                    count = ap length (sym (ap (map value_of) nothing));
                  },
                )
            | inr filled ↦
                let (f, run, m) =
                  merge_threads-Merging css pss no_values [] a
                    (record { full = tt; fits = omega arith; all = refl }) in
                (
                  record default_column {
                    buffers =
                        if ltb 0 (length f.curbuf) then f.buffers ++ f.curbuf ∷ [] else f.buffers;
                    num_rows = length (join pss);
                  },
                  rw (total, ◌>>=◌) (rw filled (rw (run, ◌>>=◌) refl)),
                  record {
                    original = refl;
                    packed =
                        closed-Packed f.buffers f.curbuf (map value_of (join pss)) m.full m.fits
                          m.all;
                    count = sym (length-map value_of (join pss));
                  },
                )
          ]

  final_results-each :
      (css : List (List ColumnT)) (pairs : List (ℕ × ℕ)) (ms : List OutputMapping) (j : ℕ)
      → ((i : ℕ)
          → i < length ms
          → Returns
              (final_column (j + i) css)
              λ c. Buffered c (map (cell left_values right_values (get_or ms i no_mapping)) pairs))
      → Returns
          (final_results j (length ms) css)
          λ cs. Collected left_values right_values ms cs pairs
  unfolding final_results
  final_results-each css pairs [] j each = ([], refl, tt)
  final_results-each css pairs (m ∷ ms) j each =
      let (c, run, b) = each 0 (omega arith) in
      let here : final_column j css ≡ some c =
        ap (λ (n : ℕ). final_column n css) (omega arith) ∙ run in
      let (cs, run', held) = final_results-each css pairs ms (j + 1) (λ i l.
        let (c', r, b') = each (suc i) (omega arith) in
        (c', ap (λ (n : ℕ). final_column n css) (omega arith) ∙ r, b')) in
      (c ∷ cs, rw (here, ◌>>=◌) (rw (run', ◌>>=◌) refl), (b, held))

  -- The merge puts the rows of the threads one after the other.
  pub final_results-Collected :
      (ms : List OutputMapping) (css : List (List ColumnT)) (pss : List (List (ℕ × ℕ)))
      → AllCollected ms css pss
      → Returns
          (final_results 0 (length ms) css)
          λ cs. Collected left_values right_values ms cs (join pss)
  final_results-Collected ms css pss a = final_results-each css (join pss) ms 0 (λ i l.
      let (c, run, b) = final_column-Buffered ms i l css pss a in
      (c, ap (λ (n : ℕ). final_column n css) (omega arith) ∙ run, b))
