-- ===== src/Build.antt =====
-- `build_parallel` of include/unchained_ht.h. A call of `run_parallel` is modelled by the threads
-- one after the other: in the first call each thread changes its own state, in the second its own
-- partitions.
pub mod Fill
pub mod Entries
pub mod Order
pub mod Process
pub mod Correct
use optimized_hash_join_pipe.Base.{
  ℕ, zero, suc, ◌+◌, ◌-◌, ◌*◌, ◌/◌, ◌%◌, ◌^◌, min, ◌==◌, ltb, if◌then◌else◌, Option, some, none,
  List, [], ◌∷◌, ◌++◌,
}
use optimized_hash_join_pipe.Base.Partial.{◌>>=◌, load}
use optimized_hash_join_pipe.Hash.{crc_hash}
use optimized_hash_join_pipe.Unchained.{
  Entry, HashTable, entry_size, num_partitions, post_process_build,
}
use optimized_hash_join_pipe.Column.{Value, ColumnT, get_value}
use optimized_hash_join_pipe.Slab.{
  GlobalAllocator, ThreadLocalState, new_state, consume, for_each_entry, reserve, reset,
  small_chunk_size, large_chunk_size,
}

-- `TUPLES_PER_LARGE`
abbrev pub tuples_per_large : ℕ
tuples_per_large = small_chunk_size / entry_size * (large_chunk_size / small_chunk_size)

-- `num_large_chunks`
unfoldable pub num_large_chunks : ℕ → ℕ → ℕ
num_large_chunks total_tuples num_threads =
    (total_tuples + tuples_per_large - 1) / tuples_per_large
    + num_threads
      * ((num_partitions * small_chunk_size + large_chunk_size - 1) / large_chunk_size + 1)

-- The entry of a row; `row_idx` is cut to 32 bits.
abbrev pub entry_of : Value → ℕ → Entry
entry_of v row_idx = record { key = v.val; row_idx = row_idx % 2 ^ 32 }

module _ (crc32si : ℕ → ℕ → ℕ) (col : ColumnT) where
  -- One row: nothing for a null.
  unfoldable pub fill_row :
      GlobalAllocator → ThreadLocalState → ℕ → Option (GlobalAllocator × ThreadLocalState)
  fill_row g s row_idx = get_value col row_idx >>= λ v.
      if v.status == 0
      then some (g, s)
      else consume g s (crc_hash crc32si v.val) (entry_of v row_idx)

  -- The loop of one thread: `rounds` rows from `row_idx` on.
  unfoldable pub fill_rows :
      GlobalAllocator → ThreadLocalState → ℕ → ℕ → Option (GlobalAllocator × ThreadLocalState)
  fill_rows g s row_idx zero = some (g, s)
  fill_rows g s row_idx (suc rounds) =
      fill_row g s row_idx >>= λ (g', s'). fill_rows g' s' (row_idx + 1) rounds

  -- `start_idx` and `end_idx` of thread `t`.
  abbrev pub start_idx : ℕ → ℕ → ℕ
  start_idx tuples_per_thread t = t * tuples_per_thread

  abbrev pub end_idx : ℕ → ℕ → ℕ
  end_idx tuples_per_thread t = min (t * tuples_per_thread + tuples_per_thread) col.num_rows

  -- The first call of `run_parallel`: the threads from `t` on, each with a new state.
  unfoldable pub fill_threads :
      GlobalAllocator → ℕ → ℕ → ℕ → Option (GlobalAllocator × List ThreadLocalState)
  fill_threads g tuples_per_thread t zero = some (g, [])
  fill_threads g tuples_per_thread t (suc rounds) = do
    (g', s) ←
        fill_rows g new_state (start_idx tuples_per_thread t)
          (end_idx tuples_per_thread t - start_idx tuples_per_thread t)
    (g'', states) ← fill_threads g' tuples_per_thread (t + 1) rounds
    some (g'', s ∷ states)

-- `count_total[p]`
unfoldable pub count_total : List ThreadLocalState → ℕ → Option ℕ
count_total [] p = some 0
count_total (s ∷ states) p = do
  count ← load s.counts p
  rest ← count_total states p
  some (count + rest)

-- `partition_offsets[p]`
unfoldable pub partition_offset : List ThreadLocalState → ℕ → Option ℕ
partition_offset states zero = some 0
partition_offset states (suc p) = do
  before ← partition_offset states p
  count ← count_total states p
  some (before + count)

-- The entries that each of the two loops over the threads visits in a partition.
unfoldable pub partition_entries : List ThreadLocalState → ℕ → Option (List Entry)
partition_entries [] p = some []
partition_entries (s ∷ states) p = do
  here ← for_each_entry s p
  rest ← partition_entries states p
  some (here ++ rest)

-- The partitions `p, p + num_threads, …` below `NUM_PARTITIONS`, at most `rounds` of them.
unfoldable pub strided : ℕ → ℕ → ℕ → List ℕ
strided num_threads p zero = []
strided num_threads p (suc rounds) =
    let more = strided num_threads (p + num_threads) rounds in
    if ltb p num_partitions then p ∷ more else []

-- Those of the threads from `t` on.
unfoldable pub thread_order : ℕ → ℕ → ℕ → List ℕ
unfolding strided
thread_order num_threads t zero = []
thread_order num_threads t (suc rounds) =
    strided num_threads t num_partitions ++ thread_order num_threads (t + 1) rounds

-- The second call of `run_parallel`.
unfoldable pub process_partitions :
    (ℕ → ℕ → ℕ) → List ThreadLocalState → HashTable → List ℕ → Option HashTable
process_partitions crc32si states t [] = some t
process_partitions crc32si states t (p ∷ ps) = do
  before ← partition_offset states p
  es ← partition_entries states p
  u ← post_process_build crc32si t p before es
  process_partitions crc32si states u ps

-- The whole; no thread is a division by zero.
unfoldable pub build_parallel :
    (ℕ → ℕ → ℕ)
    → (ℕ → Option ℕ)
    → HashTable
    → ColumnT
    → ℕ
    → GlobalAllocator
    → Option (HashTable × GlobalAllocator)
build_parallel crc32si mmap t col zero g = none
build_parallel crc32si mmap t col (suc others) g = do
  let num_threads = suc others
  reserved ← reserve mmap (reset g) (num_large_chunks col.num_rows num_threads)
  (g', states) ←
      fill_threads crc32si col reserved ((col.num_rows + num_threads - 1) / num_threads) 0
        num_threads
  built ← process_partitions crc32si states t (thread_order num_threads 0 num_threads)
  some (built, g')
