-- ===== src/Join/Threads.antt =====
-- The threads, and the items that each takes.
use mathlib.Core.List.{append_assoc, append-nil, Permᴰ}
use mathlib.Core.List.Permᴰ
use optimized_hash_join_pipe.Base.{
  ℕ, zero, suc, ◌+◌, ◌<◌, ◌≤◌, ◌≡◌, refl, arith, ap, sym, subst, ◌==◌, if◌then◌else◌, Bool-cases,
  inl, inr, Option, List, [], ◌∷◌, ◌++◌, length, replicate,
}
use optimized_hash_join_pipe.Base.Partial.{Returns, ◌>>=◌}
use optimized_hash_join_pipe.Column.{Value, ColumnT}
use optimized_hash_join_pipe.Pages.Numbers.{join}
use optimized_hash_join_pipe.Join.{OutputMapping, default_column, run_thread, run_threads}
use optimized_hash_join_pipe.Join.Ranges.{gather, gather_congr, gather-gather_swap, gather_point}
use optimized_hash_join_pipe.Join.Results.{Collected, Collected-none}
use optimized_hash_join_pipe.Join.Merged.{AllCollected}

module _ (left_values right_values : List (List Value)) where
  module _ (ms : List OutputMapping) (work : ℕ → List ColumnT → Option (List ColumnT))
      (owner : ℕ → ℕ) (items : ℕ) (item_pairs : ℕ → List (ℕ × ℕ))
      (works : (k : ℕ) (cs : List ColumnT) (pairs : List (ℕ × ℕ))
        → k < items
        → Collected left_values right_values ms cs pairs
        → Returns
            (work k cs)
            λ cs'. Collected left_values right_values ms cs' (pairs ++ item_pairs k)) where
    -- What thread `t` takes.
    abbrev pub owned : ℕ → ℕ → List (ℕ × ℕ)
    owned t k = if owner k == t then item_pairs k else []

    run_thread-Collected :
        (t k rounds : ℕ) (cs : List ColumnT) (pairs : List (ℕ × ℕ))
        → k + rounds ≤ items
        → Collected left_values right_values ms cs pairs
        → Returns
            (run_thread work owner t k rounds cs)
            λ cs'. Collected left_values right_values ms cs' (pairs ++ gather (owned t) k rounds)
    unfolding run_thread gather
    run_thread-Collected t k zero cs pairs l held =
        (cs, refl, subst (Collected left_values right_values ms cs) (sym (append-nil pairs)) held)
    run_thread-Collected t k (suc rounds) cs pairs l held = elim (Bool-cases (owner k == t)) [
      | inl mine ↦
          let (cs', run, held') = works k cs pairs (omega arith) held in
          let (cs'', run', held'') =
            run_thread-Collected t (k + 1) rounds cs' (pairs ++ item_pairs k) (omega arith) held' in
          rw mine (
            cs'',
            rw (run, ◌>>=◌) run',
            subst (Collected left_values right_values ms cs'')
                (append_assoc pairs (item_pairs k) (gather (owned t) (k + 1) rounds)) held'',
          )
      | inr other ↦
          rw (other, ◌>>=◌) (run_thread-Collected t (k + 1) rounds cs pairs (omega arith) held)
    ]

    -- The rows of the threads from `t` on.
    abbrev pub thread_pairs : ℕ → ℕ → List (List (ℕ × ℕ))
    thread_pairs t zero = []
    thread_pairs t (suc threads) = gather (owned t) 0 items ∷ thread_pairs (t + 1) threads

    pub run_threads-AllCollected :
        (t threads : ℕ)
        → Returns
            (run_threads work owner items (length ms) t threads)
            λ css. AllCollected left_values right_values ms css (thread_pairs t threads)
    unfolding run_threads
    run_threads-AllCollected t zero = ([], refl, tt)
    run_threads-AllCollected t (suc threads) =
        let (cs, run, held) =
          run_thread-Collected t 0 items (replicate (length ms) default_column) [] (omega arith)
            (Collected-none left_values right_values ms) in
        let (css, run', all) = run_threads-AllCollected (t + 1) threads in
        (cs ∷ css, rw (run, ◌>>=◌) (rw (run', ◌>>=◌) refl), (held, all))

    pub join-thread_pairs :
        (t threads : ℕ)
        → join (thread_pairs t threads) ≡ gather (λ s. gather (owned s) 0 items) t threads
    unfolding gather
    join-thread_pairs t zero = refl
    join-thread_pairs t (suc threads) =
        ap (λ ps. gather (owned t) 0 items ++ ps) (join-thread_pairs (t + 1) threads)

    -- The threads share the items out.
    pub run_threads-perm :
        (threads : ℕ)
        → ((k : ℕ) → owner k < threads)
        → Returns (run_threads work owner items (length ms) 0 threads) λ css.
          (pss : List (List (ℕ × ℕ))) × AllCollected left_values right_values ms css pss
          × Permᴰ (join pss) (gather item_pairs 0 items)
    run_threads-perm threads owned_by =
        let (css, run, all) = run_threads-AllCollected 0 threads in
        (
          css,
          run,
          (
            thread_pairs 0 threads,
            all,
            subst (λ ps. Permᴰ ps (gather item_pairs 0 items)) (sym (join-thread_pairs 0 threads))
                (Permᴰ.trans (gather-gather_swap owned 0 threads 0 items) (
                  subst (Permᴰ (gather (λ k. gather (λ t. owned t k) 0 threads) 0 items))
                    (gather_congr (λ k. gather (λ t. owned t k) 0 threads) item_pairs 0 items
                      (λ k lo hi.
                        gather_point (item_pairs k) (owner k) 0 threads (omega arith)
                          (omega (arith, owned_by k))))
                    (Permᴰ.refl _))),
          ),
        )
