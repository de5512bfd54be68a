-- ===== src/Join.antt =====
-- `JoinAlgorithm::run` of src/execute.cpp: the hash join of two intermediate results. Which thread
-- takes an item of work, a page or a buffer of the probe side, is decided by the race for
-- `work_counter`: `owner k` is the thread that takes item `k`. A thread takes its items in
-- ascending order, and the threads share nothing else that changes.
pub mod Ranges
pub mod Results
pub mod Chunks
pub mod Items
pub mod Merged
pub mod Threads
pub mod Nested
pub mod Looked
pub mod Correct
use optimized_hash_join_pipe.Base.{
  ℕ, zero, suc, ◌+◌, ◌-◌, ◌*◌, ◌==◌, ltb, leb, ◌||◌, if◌then◌else◌, Bool, true, false, Option, some,
  none, List, [], ◌∷◌, ◌++◌, map, length, replicate,
}
use optimized_hash_join_pipe.Base.Partial.{◌>>=◌, load}
use optimized_hash_join_pipe.Column.{
  DataType, Value, Page, Buffer, max_per_buffer, ColumnT, new_column, read_u16, read_i32, get_value,
}
use optimized_hash_join_pipe.Column.Packed.{push_value}
use optimized_hash_join_pipe.Scan.{Filling, no_values}
use optimized_hash_join_pipe.Slab.{GlobalAllocator}
use optimized_hash_join_pipe.Unchained.{HashTable, new, probe}
use optimized_hash_join_pipe.Build.{build_parallel}

-- `OutputMapping`; the side that it points to is the one of `use_left`.
pub record OutputMapping : Type 0 where
  pub col_idx : ℕ
  pub use_left : Bool

unfoldable pub mappings_of : (left_size : ℕ) → List (ℕ × DataType) → List OutputMapping
mappings_of left_size [] = []
mappings_of left_size ((col_idx, type) ∷ attrs) =
    (if ltb col_idx left_size
      then record { col_idx = col_idx; use_left = true }
      else record { col_idx = col_idx - left_size; use_left = false })
    ∷ mappings_of left_size attrs

-- `column_t()`
abbrev pub default_column : ColumnT
default_column = new_column DataType.int32

-- A value behind the last of a column of results.
abbrev pub add_result : ColumnT → Value → ColumnT
add_result c v = record c { buffers = push_value c.buffers v; num_rows = c.num_rows + 1 }

module _ (left right : List ColumnT) where
  -- A row of the output, for one match.
  unfoldable pub emit_row :
      (left_row_idx right_row_idx : ℕ) → List OutputMapping → List ColumnT → Option (List ColumnT)
  emit_row left_row_idx right_row_idx [] results = some results
  emit_row left_row_idx right_row_idx (m ∷ mappings) [] = none
  emit_row left_row_idx right_row_idx (m ∷ mappings) (c ∷ results) = do
    side ← load (if m.use_left then left else right) m.col_idx
    val ← get_value side (if m.use_left then left_row_idx else right_row_idx)
    rest ← emit_row left_row_idx right_row_idx mappings results
    some (add_result c val ∷ rest)

  module _ (build_left : Bool) (mappings : List OutputMapping) where
    -- The rows that a probe finds.
    unfoldable pub emit_rows :
        (probe_global_idx : ℕ) → List ℕ → List ColumnT → Option (List ColumnT)
    emit_rows probe_global_idx [] results = some results
    emit_rows probe_global_idx (build_idx ∷ found) results =
        emit_row (if build_left then build_idx else probe_global_idx)
          (if build_left then probe_global_idx else build_idx) mappings results
        >>= λ results'. emit_rows probe_global_idx found results'

    module _ (lookup : ℕ → Option (List ℕ)) where
      -- The rows of a page of integers, from row `i` on; `lookup` is the probe of the table.
      unfoldable pub join_page_rows :
          Page → (base_idx i rounds : ℕ) → List ColumnT → Option (List ColumnT)
      join_page_rows page base_idx i zero results = some results
      join_page_rows page base_idx i (suc rounds) results = do
        key ← read_i32 page (4 + 4 * i)
        found ← lookup key
        results' ← emit_rows (base_idx + i) found results
        join_page_rows page base_idx (i + 1) rounds results'

      unfoldable pub join_page :
          List Page → (page_rowids : List ℕ) → ℕ → List ColumnT → Option (List ColumnT)
      join_page pages page_rowids page_idx results = do
        page ← load pages page_idx
        nr ← read_u16 page 0
        base_idx ← load page_rowids page_idx
        join_page_rows page base_idx 0 nr results

      -- The values of a buffer, the first of them in row `row_idx`.
      unfoldable pub join_values : Buffer → (row_idx : ℕ) → List ColumnT → Option (List ColumnT)
      join_values [] row_idx results = some results
      join_values (v ∷ buffer) row_idx results =
          (if v.status == 0
            then some results
            else (lookup v.val >>= λ found. emit_rows row_idx found results))
          >>= λ results'. join_values buffer (row_idx + 1) results'

      unfoldable pub join_buffer : List Buffer → ℕ → List ColumnT → Option (List ColumnT)
      join_buffer buffers buf_idx results =
          load buffers buf_idx >>= λ buffer. join_values buffer (buf_idx * max_per_buffer) results

-- The work of thread `t`, the items from `k` on.
unfoldable pub run_thread :
    (work : ℕ → List ColumnT → Option (List ColumnT)) (owner : ℕ → ℕ) (t k rounds : ℕ)
    → List ColumnT
    → Option (List ColumnT)
run_thread work owner t k zero results = some results
run_thread work owner t k (suc rounds) results =
    (if owner k == t then work k results else some results) >>= λ results'.
    run_thread work owner t (k + 1) rounds results'

-- `thread_results`, of the threads from `t` on; each begins with default columns.
unfoldable pub run_threads :
    (work : ℕ → List ColumnT → Option (List ColumnT)) (owner : ℕ → ℕ) (items width t threads : ℕ)
    → Option (List (List ColumnT))
run_threads work owner items width t zero = some []
run_threads work owner items width t (suc threads) = do
  results ← run_thread work owner t 0 items (replicate width default_column)
  rest ← run_threads work owner items width (t + 1) threads
  some (results ∷ rest)

-- `current_buf` and the buffers of the final column.
unfoldable pub merge_value : Filling → Value → Filling
merge_value f v =
    if length f.curbuf == max_per_buffer
    then record { buffers = f.buffers ++ f.curbuf ∷ []; curbuf = v ∷ [] }
    else record f { curbuf = f.curbuf ++ v ∷ [] }

abbrev pub merge_buffer : Filling → Buffer → Filling
merge_buffer f [] = f
merge_buffer f (v ∷ buffer) = merge_buffer (merge_value f v) buffer

abbrev pub merge_buffers : Filling → List Buffer → Filling
merge_buffers f [] = f
merge_buffers f (b ∷ buffers) = merge_buffers (merge_buffer f b) buffers

-- The loop over the threads, for column `out_idx`.
unfoldable pub merge_threads : ℕ → Filling → List (List ColumnT) → Option Filling
merge_threads out_idx f [] = some f
merge_threads out_idx f (results ∷ thread_results) = load results out_idx >>= λ thread_col.
    merge_threads out_idx (merge_buffers f thread_col.buffers) thread_results

-- `total_rows`
unfoldable pub total_rows : ℕ → List (List ColumnT) → Option ℕ
total_rows out_idx [] = some 0
total_rows out_idx (results ∷ thread_results) = do
  thread_col ← load results out_idx
  rest ← total_rows out_idx thread_results
  some (thread_col.num_rows + rest)

unfoldable pub final_column : ℕ → List (List ColumnT) → Option ColumnT
final_column out_idx thread_results = total_rows out_idx thread_results >>= λ total.
    if total == 0
    then some default_column
    else (merge_threads out_idx no_values thread_results >>= λ f. some (record default_column {
      buffers = if ltb 0 (length f.curbuf) then f.buffers ++ f.curbuf ∷ [] else f.buffers;
      num_rows = total;
    }))

-- `final_results`, from `out_idx` on.
unfoldable pub final_results : (out_idx width : ℕ) → List (List ColumnT) → Option (List ColumnT)
final_results out_idx zero thread_results = some []
final_results out_idx (suc width) thread_results = do
  c ← final_column out_idx thread_results
  rest ← final_results (out_idx + 1) width thread_results
  some (c ∷ rest)

-- The items of work of the probe column.
unfoldable pub probe_column :
    (left right : List ColumnT) (build_left : Bool)
    → List OutputMapping
    → (lookup : ℕ → Option (List ℕ)) (owner : ℕ → ℕ) (threads : ℕ) → ColumnT
    → Option (List (List ColumnT))
probe_column left right build_left mappings lookup owner threads c = elim c.original_col [
  | some pages ↦
      run_threads (join_page left right build_left mappings lookup pages c.page_rowids) owner
        (length pages) (length mappings) 0 threads
  | none ↦
      run_threads (join_buffer left right build_left mappings lookup c.buffers) owner
        (length c.buffers) (length mappings) 0 threads
]

module _ (crc32si : ℕ → ℕ → ℕ) (mmap : ℕ → Option ℕ) (base : ℕ) (threads : ℕ) (owner : ℕ → ℕ) where
  -- The table of the build column, the probes, and the merge.
  unfoldable pub join_columns :
      (left right : List ColumnT) (build_left : Bool) (build_column probe_col : ColumnT)
      → List (ℕ × DataType)
      → GlobalAllocator
      → Option (List ColumnT × GlobalAllocator)
  join_columns left right build_left build_column probe_col output_attrs g =
      (new base build_column.num_rows >>= λ t. build_parallel crc32si mmap t build_column threads g)
      >>= λ (table, g').
          probe_column left right build_left (mappings_of (length left) output_attrs)
            (probe crc32si table) owner threads probe_col
          >>= λ thread_results.
              final_results 0 (length output_attrs) thread_results >>= λ results. some (results, g')

  unfoldable pub run :
      (left right : List ColumnT) (left_col right_col : ℕ)
      → List (ℕ × DataType)
      → GlobalAllocator
      → Option (List ColumnT × GlobalAllocator)
  run left right left_col right_col output_attrs g = load left left_col >>= λ l.
      load right right_col >>= λ r.
      if l.num_rows == 0 || r.num_rows == 0
      then some (replicate (length output_attrs) default_column, g)
      else (if leb l.num_rows r.num_rows
          then join_columns left right true l r output_attrs g
          else join_columns left right false r l output_attrs g)
