-- ===== src/Filter.antt =====
-- `FilterThreadPool` of include/inner_column.h: how it splits tasks among its threads, and `run`.
-- The threads of a call change different bytes, and are modelled one after the other. A task is a
-- function on the state that its closure refers to.
pub mod Shares
pub mod Values
pub mod Bitmap
pub mod Strings
pub mod Statement
pub mod Like
use optimized_hash_join_pipe.Base.{
  ℕ, zero, suc, ◌+◌, ◌*◌, ◌/◌, ◌%◌, min, ltb, if◌then◌else◌, Option, some,
}
use optimized_hash_join_pipe.Base.Partial.{◌>>=◌}

-- `begin_idx`; `threads` is `threads.size()`.
unfoldable pub begin_idx : ℕ → ℕ → ℕ → ℕ
begin_idx threads num_tasks thread_id =
    thread_id * (num_tasks / threads) + min thread_id (num_tasks % threads)

module _ {S : Type 0} (function : S → ℕ → ℕ → Option S) (threads num_tasks : ℕ) where
  -- One round of `run_loop`.
  unfoldable pub run_share : S → ℕ → Option S
  unfolding begin_idx
  run_share s thread_id =
      let begin = begin_idx threads num_tasks thread_id in
      let end = begin_idx threads num_tasks (thread_id + 1) in
      if ltb begin end then function s begin end else some s

  -- The threads from `thread_id` on.
  unfoldable pub run_shares : S → ℕ → ℕ → Option S
  unfolding run_share
  run_shares s thread_id zero = some s
  run_shares s thread_id (suc more) =
      run_share s thread_id >>= λ s'. run_shares s' (thread_id + 1) more

  unfoldable pub run : S → Option S
  unfolding run_shares
  run s = run_shares s 0 threads

-- The pool `filter_tp` has 12 threads.
unfoldable pub filter_run : {S : Type 0} → (S → ℕ → ℕ → Option S) → ℕ → S → Option S
unfolding run
filter_run function num_tasks s = run function 12 num_tasks s
