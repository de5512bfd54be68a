-- ===== src/Join/Items.antt =====
-- What an item of work adds to the results: the matches of the rows of a page, or of a buffer.
use mathlib.Core.List.{append_assoc, append-nil}
use optimized_hash_join_pipe.Base.{
  ℕ, suc, ◌+◌, ◌*◌, ◌<◌, ◌≤◌, ◌≡◌, refl, arith, ap, ◌∙◌, sym, subst, ◌==◌, if◌then◌else◌, Bool,
  Bool-cases, inl, inr, some, Option, List, [], ◌∷◌, ◌++◌, map, length, get_or,
}
use optimized_hash_join_pipe.Base.Partial.{Returns, ◌>>=◌, load-get_or}
use optimized_hash_join_pipe.Column.{Value, Page, Buffer, max_per_buffer, ColumnT, read_i32}
use optimized_hash_join_pipe.Column.Packed.{Packed}
use optimized_hash_join_pipe.Column.Readable.{int_value, AllInts, starts_of, read_i32-HoldsNumbers}
use optimized_hash_join_pipe.Pages.Numbers.{join}
use optimized_hash_join_pipe.Scan.Checked.{header-ints}
use optimized_hash_join_pipe.Join.{
  OutputMapping, emit_rows, join_page_rows, join_page, join_values, join_buffer,
}
use optimized_hash_join_pipe.Join.Results.{
  Relation, Collected, Within, InRange, pair_of, emit_rows-Collected,
}
use optimized_hash_join_pipe.Join.Chunks.{
  part, start_of, length-starts_of, starts_of-le, length-AllInts, load-AllInts, join-Packed,
  starts_of-Packed, each_value,
}

module _ (left right : List ColumnT) (left_values right_values : List (List Value))
    (left_rows right_rows : ℕ) (left_held : Relation left left_values left_rows)
    (right_held : Relation right right_values right_rows) (build_left : Bool)
    (ms : List OutputMapping)
    (within : InRange left right left_values right_values left_rows right_rows left_held right_held
      ms) where
  abbrev pub build_rows : ℕ
  build_rows = if build_left then left_rows else right_rows

  abbrev pub probe_rows : ℕ
  probe_rows = if build_left then right_rows else left_rows

  abbrev pub pairing : ℕ → ℕ → ℕ × ℕ
  pairing =
      pair_of left right left_values right_values left_rows right_rows left_held right_held
        build_left

  abbrev pub Results : List ColumnT → List (ℕ × ℕ) → Type 0
  Results = Collected left_values right_values ms

  module _ (lookup : ℕ → Option (List ℕ)) (found : ℕ → List ℕ)
      (finds : (key : ℕ) → lookup key ≡ some (found key))
      (fits : (key : ℕ) → Within build_rows (found key)) where
    -- The pairs of a row of the probe side.
    abbrev pub value_pairs : ℕ → Value → List (ℕ × ℕ)
    value_pairs p v = if v.status == 0 then [] else map (pairing p) (found v.val)

    emit_found :
        (p key : ℕ) (cs : List ColumnT) (pairs : List (ℕ × ℕ))
        → p < probe_rows
        → Results cs pairs
        → Returns
            (lookup key >>= λ is. emit_rows left right build_left ms p is cs)
            λ cs'. Results cs' (pairs ++ map (pairing p) (found key))
    emit_found p key cs pairs p_in held =
        rw (finds key, ◌>>=◌)
          (emit_rows-Collected left right left_values right_values left_rows right_rows left_held
            right_held build_left ms p (found key) cs pairs within p_in (fits key) held)

    join_values-Collected :
        (buffer : Buffer) (p : ℕ) (cs : List ColumnT) (pairs : List (ℕ × ℕ))
        → p + length buffer ≤ probe_rows
        → Results cs pairs
        → Returns
            (join_values left right build_left ms lookup buffer p cs)
            λ cs'. Results cs' (pairs ++ each_value value_pairs p buffer)
    unfolding join_values
    join_values-Collected [] p cs pairs l held =
        (cs, refl, subst (Results cs) (sym (append-nil pairs)) held)
    join_values-Collected (v ∷ buffer) p cs pairs l held = elim (Bool-cases (v.status == 0)) [
      | inl null ↦
          rw (null, ◌>>=◌) (join_values-Collected buffer (p + 1) cs pairs (omega arith) held)
      | inr value ↦
          let (cs', run, held') = emit_found p v.val cs pairs (omega arith) held in
          let more = map (pairing p) (found v.val) in
          let (cs'', run', held'') =
            join_values-Collected buffer (p + 1) cs' (pairs ++ more) (omega arith) held' in
          rw value (
            cs'',
            rw (run, ◌>>=◌) run',
            subst (Results cs'') (append_assoc pairs more (each_value value_pairs (p + 1) buffer))
                held'',
          )
    ]

    join_page_rows-Collected :
        (page : Page) (vs : List ℕ) (base i : ℕ) (cs : List ColumnT) (pairs : List (ℕ × ℕ))
        → ((k : ℕ) → k < length vs → read_i32 page (4 + 4 * (i + k)) ≡ some (get_or vs k 0))
        → base + i + length vs ≤ probe_rows
        → Results cs pairs
        → Returns
            (join_page_rows left right build_left ms lookup page base i (length vs) cs)
            λ cs'. Results cs' (pairs ++ each_value value_pairs (base + i) (map int_value vs))
    unfolding join_page_rows
    join_page_rows-Collected page [] base i cs pairs reads l held =
        (cs, refl, subst (Results cs) (sym (append-nil pairs)) held)
    join_page_rows-Collected page (v ∷ vs) base i cs pairs reads l held =
        let key : read_i32 page (4 + 4 * i) ≡ some v =
          ap (λ (n : ℕ). read_i32 page (4 + 4 * n)) (let t : i ≡ i + 0 = omega arith in t)
          ∙ reads 0 (omega arith) in
        let more = map (pairing (base + i)) (found v) in
        let (cs', run, held') =
          emit_rows-Collected left right left_values right_values left_rows right_rows left_held
            right_held build_left ms (base + i) (found v) cs pairs within (omega arith) (fits v)
            held in
        let (cs'', run', held'') =
          join_page_rows-Collected page vs base (i + 1) cs' (pairs ++ more)
            (λ k lt.
              ap (λ (n : ℕ). read_i32 page (4 + 4 * n))
                (let t : i + 1 + k ≡ i + suc k = omega arith in t)
              ∙ reads (suc k) (omega arith))
            (omega arith) held' in
        (
          cs'',
          rw (key, ◌>>=◌) (rw (finds v, ◌>>=◌) (rw (run, ◌>>=◌) run')),
          subst (Results cs'')
              (append_assoc pairs more (each_value value_pairs (base + (i + 1)) (map int_value vs))
                ∙ ap (λ (n : ℕ). pairs ++ (more ++ each_value value_pairs n (map int_value vs)))
                    (omega arith))
              held'',
        )

    -- Item `k` of a column in pages.
    pub join_page-Collected :
        (pages : List Page) (chunks : List (List ℕ)) (k : ℕ) (cs : List ColumnT)
        (pairs : List (ℕ × ℕ))
        → AllInts pages chunks
        → length (join chunks) ≤ probe_rows
        → k < length pages
        → Results cs pairs
        → Returns (join_page left right build_left ms lookup pages (starts_of 0 chunks) k cs) λ cs'.
          Results cs'
            (pairs ++ each_value value_pairs (start_of chunks k) (map int_value (part chunks k)))
    unfolding join_page
    join_page-Collected pages chunks k cs pairs a l lt held =
        let same = length-AllInts pages chunks a in
        let (page, loaded, holds) = load-AllInts pages chunks k a lt in
        let vs = part chunks k in
        let base = start_of chunks k in
        let start =
          load-get_or (starts_of 0 chunks) k 0 (omega (arith, length-starts_of 0 chunks)) in
        let (cs', run, held') =
          join_page_rows-Collected page vs base 0 cs pairs
            (λ j lt'.
              ap (λ (n : ℕ). read_i32 page (4 + 4 * n)) (let t : 0 + j ≡ j = omega arith in t)
              ∙ read_i32-HoldsNumbers page vs j holds lt')
            (omega (arith, starts_of-le 0 chunks k (omega arith))) held in
        (
          cs',
          rw (loaded, ◌>>=◌) (rw ((header-ints page vs holds).0, ◌>>=◌) (rw (start, ◌>>=◌) run)),
          subst (Results cs')
              (ap (λ (n : ℕ). pairs ++ each_value value_pairs n (map int_value vs)) (omega arith))
              held',
        )

    -- Item `k` of a column in buffers.
    pub join_buffer-Collected :
        (buffers : List Buffer) (vs : List Value) (k : ℕ) (cs : List ColumnT) (pairs : List (ℕ × ℕ))
        → Packed buffers vs
        → length vs ≤ probe_rows
        → k < length buffers
        → Results cs pairs
        → Returns (join_buffer left right build_left ms lookup buffers k cs) λ cs'.
          Results cs' (pairs ++ each_value value_pairs (start_of buffers k) (part buffers k))
    unfolding join_buffer
    join_buffer-Collected buffers vs k cs pairs p l lt held =
        let start : start_of buffers k ≡ k * max_per_buffer =
          starts_of-Packed 0 buffers vs k p lt ∙ omega arith in
        let (cs', run, held') =
          join_values-Collected (part buffers k) (k * max_per_buffer) cs pairs
            (omega
              (arith, starts_of-le 0 buffers k lt, start, ap length (join-Packed buffers vs p)))
            held in
        (
          cs',
          rw (load-get_or buffers k [] lt, ◌>>=◌) run,
          subst (Results cs')
              (ap (λ (n : ℕ). pairs ++ each_value value_pairs n (part buffers k)) (sym start))
              held',
        )
