-- ===== src/Filter/Shares.antt =====
-- The shares of the threads follow each other and cover all tasks.
use native.Mathlib.Nat.{div-add-mod, mod-lt}
use optimized_hash_join_pipe.Base.{
  ℕ, zero, suc, ◌+◌, ◌*◌, ◌/◌, ◌%◌, ◌<◌, ◌≤◌, ◌≡◌, refl, arith, ap, ◌∙◌, sym, subst, ltb,
  Bool-cases, inl, inr, Option, to_nat,
}
use optimized_hash_join_pipe.Base.Partial.{Returns, ◌>>=◌}
use optimized_hash_join_pipe.Filter.{begin_idx, run_share, run_shares, run}

module _ (threads num_tasks : ℕ) (pos : 0 < threads) where
  -- With at least one thread, thread 0 starts at the first task, the last thread ends behind the
  -- last task, and each thread ends where the next one starts, after `num_tasks / threads` tasks,
  -- or one more for the first `num_tasks % threads` threads.
  pub begin_idx-share :
      (begin_idx threads num_tasks 0 ≡ 0)
      × (begin_idx threads num_tasks threads ≡ num_tasks)
      × ((t : ℕ)
          → begin_idx threads num_tasks (t + 1)
            ≡ begin_idx threads num_tasks t
              + num_tasks / threads
              + to_nat (ltb t (num_tasks % threads)))
  unfolding begin_idx
  begin_idx-share = (
    omega arith,
    omega (arith, div-add-mod num_tasks threads, mod-lt num_tasks pos),
    λ t.
        let next : (t + 1) * (num_tasks / threads)
            ≡ t * (num_tasks / threads) + num_tasks / threads =
          omega arith in
        ground (arith, next),
  )

  begin_idx_within : (more t : ℕ) → t + more ≡ threads → begin_idx threads num_tasks t ≤ num_tasks
  begin_idx_within zero t e = omega (
    arith,
    ap (begin_idx threads num_tasks) (let f : t ≡ threads = omega arith in f),
    begin_idx-share,
  )
  begin_idx_within (suc more) t e =
      omega (arith, begin_idx_within more (t + 1) (omega arith), (begin_idx-share).2 t)

  module _ {S : Type 0} (function : S → ℕ → ℕ → Option S) (Done : ℕ → S → Type 0)
      (task : (s : S) (a b : ℕ)
        → a < b
        → b ≤ num_tasks
        → Done a s
        → Returns (function s a b) (Done b)) where
    run_share-Done :
        (s : S) (t more : ℕ)
        → t + 1 + more ≡ threads
        → Done (begin_idx threads num_tasks t) s
        → Returns
            (run_share function threads num_tasks s t)
            (Done (begin_idx threads num_tasks (t + 1)))
    unfolding run_share
    run_share-Done s t more l d =
        let begin = begin_idx threads num_tasks t in
        let end = begin_idx threads num_tasks (t + 1) in
        elim (Bool-cases (ltb begin end)) [
          | inl some_left ↦
              let (s', ran, d') =
                task s begin end (ground arith) (begin_idx_within more (t + 1) l) d in
              (s', rw some_left ran, d')
          | inr none_left ↦
              let e : begin ≡ end = ground (arith, (begin_idx-share).2 t) in
              (s, rw none_left, subst (λ (b : ℕ). Done b s) e d)
        ]

    run_shares-Done :
        (more : ℕ) (s : S) (t : ℕ)
        → t + more ≡ threads
        → Done (begin_idx threads num_tasks t) s
        → Returns (run_shares function threads num_tasks s t more) (Done num_tasks)
    unfolding run_shares
    run_shares-Done zero s t e d = (
      s,
      refl,
      subst (λ (b : ℕ). Done b s)
          (ap (begin_idx threads num_tasks) (let f : t ≡ threads = omega arith in f)
            ∙ (begin_idx-share).1)
          d,
    )
    run_shares-Done (suc more) s t e d =
        let (s', ran, d') = run_share-Done s t more (omega arith) d in
        let (s'', rest, d'') = run_shares-Done more s' (t + 1) (omega arith) d' in
        (s'', rw (ran, ◌>>=◌) rest, d'')

    -- What each task keeps up from one task to the next holds of all tasks after `run`.
    pub run-Done : (s : S) → Done 0 s → Returns (run function threads num_tasks s) (Done num_tasks)
    unfolding run
    run-Done s d =
        run_shares-Done threads s 0 (omega arith)
          (subst (λ (b : ℕ). Done b s) (sym (begin_idx-share).0) d)
