-- ===== src/Tests/Table.antt =====
-- The hash table and its parallel build at a concrete column, with a stand-in for the CRC
-- instruction.
use mathlib.Core.List.{Permᴰ}
use optimized_hash_join_pipe.Base.{
  ℕ, zero, suc, ◌+◌, ◌*◌, ◌%◌, ◌^◌, ◌≡◌, refl, arith, some, none, Option, List, [], ◌∷◌, get_or,
}
use optimized_hash_join_pipe.Base.Partial.{◌>>=◌, load, store, Returns}
use optimized_hash_join_pipe.Hash.{tags, crc32, crc_hash, tag_index, tag_at, could_contain}
use optimized_hash_join_pipe.Hash.TagLaws.{IsTag, tag_at-IsTag}
use optimized_hash_join_pipe.Unchained.{
  Entry, new, post_process_build, probe, lookup, scan_range, index_of, update_word, advance,
  slot_of, count_entry, count_entries, place_entry, place_entries, assign_starts, first_slot,
}
use optimized_hash_join_pipe.Unchained.Slots.{partition_of, partition-lt}
use optimized_hash_join_pipe.Unchained.Partition.{Processed}
use optimized_hash_join_pipe.Unchained.Processing.{post_process_build-Processed}
use optimized_hash_join_pipe.Unchained.Fresh.{Fresh, new-Fresh}
use optimized_hash_join_pipe.Column.{Value, ColumnT, int32, get_value, buffer_value}
use optimized_hash_join_pipe.Slab.{GlobalAllocator, new_state, consume, for_each_entry}
use optimized_hash_join_pipe.Slab.Filled.{Consumed, new_state-Consumed, consume-Consumed}
use optimized_hash_join_pipe.Slab.Iterate.{for_each_entry-perm}
use optimized_hash_join_pipe.Build.{fill_threads, build_parallel, thread_order}
use optimized_hash_join_pipe.Build.Fill.{
  Reads, AllConsumed, joined, keyed, fill_threads-AllConsumed,
}
use optimized_hash_join_pipe.Build.Order.{times-thread_order}
use optimized_hash_join_pipe.Build.Process.{times}
use optimized_hash_join_pipe.Build.Process.{process_partitions-Built}
use optimized_hash_join_pipe.Build.Entries.{entries_of}
use optimized_hash_join_pipe.Unchained.Probe.{Shape, Built, rows_of}
use optimized_hash_join_pipe.Unchained.Found.{probe-rows_of}
use optimized_hash_join_pipe.Slab.{ThreadLocalState}
use optimized_hash_join_pipe.Build.{process_partitions}
use optimized_hash_join_pipe.Unchained.{num_partitions}
use optimized_hash_join_pipe.Base.{◌∙◌, sym, ◌<◌}
use optimized_hash_join_pipe.Build.Correct.{offset_all, matching, build_parallel-matching}

-- A stand-in for `_mm_crc32_u32`.
abbrev spread : ℕ → ℕ → ℕ
spread key data_word = key * 0x9E3779B1 % 2 ^ 32

abbrev row : ℕ → ℕ → Entry
row k i = record { key = k; row_idx = i }

abbrev value_of : ℕ → Value
value_of v = record { val = v; status = 1 }

abbrev null : Value
null = record { val = 0; status = 0 }

abbrev values : List Value
values = value_of 7 ∷ null ∷ value_of 9 ∷ value_of 7 ∷ []

abbrev column : ColumnT
column = record {
  buffers = values ∷ [];
  num_rows = 4;
  type = int32;
  original_col = none;
  rows_per_page = 0;
  page_rowids = [];
}

abbrev value_at : ℕ → Value
value_at i = get_or values i null

column-Reads : Reads column value_at
unfolding get_value buffer_value load
column-Reads zero l = refl
column-Reads (suc zero) l = refl
column-Reads (suc (suc zero)) l = refl
column-Reads (suc (suc (suc zero))) l = refl
column-Reads (suc (suc (suc (suc i)))) l = absurd (omega arith)

abbrev allocator : GlobalAllocator
allocator = record {
  arena = 0;
  arena_size = 0;
  arena_capacity = 0;
  next_idx = 0;
  heap = λ i. 2 ^ 20 * (i + 1);
}

abbrev mapped : ℕ → Option ℕ
mapped size = some (2 ^ 30)

abbrev small_arena : GlobalAllocator
small_arena = record allocator {
  arena = 2 ^ 20;
  arena_size = 65536;
  arena_capacity = 1;
  next_idx = 1;
}

build_parallel-matching_example :
    Returns (new 4096 4 >>= λ t. build_parallel spread mapped t column 3 allocator) λ r.
      (key : ℕ) → Returns (probe spread r.0 key) λ found. Permᴰ found (matching value_at key 0 4)
build_parallel-matching_example =
    build_parallel-matching spread mapped (λ size. (2 ^ 30, refl, tt)) column value_at column-Reads
      (omega arith) 4096 2 allocator (omega arith)

matching_lem : matching value_at 7 0 4 ≡ 0 ∷ 3 ∷ []
unfolding matching
matching_lem = refl

fill_threads-AllConsumed_example : Returns (fill_threads spread column allocator 2 0 3) λ r.
    (shares : List (List Entry)) × AllConsumed spread r.1 shares
    × (joined shares ≡ keyed value_at 0 4)
fill_threads-AllConsumed_example =
    fill_threads-AllConsumed spread column value_at column-Reads 3 allocator 2 0

times-thread_order_example : times 17 (thread_order 3 0 3) ≡ 1
times-thread_order_example = times-thread_order 3 (omega arith) 17

tag_at-IsTag_example : Returns (tag_at (2 ^ 60 + 5)) IsTag
tag_at-IsTag_example = tag_at-IsTag (2 ^ 60 + 5)

new-Fresh_example : Returns (new 4096 700) (Fresh 4096 700)
new-Fresh_example = new-Fresh 4096 700 (omega arith) (omega arith)

-- One entry in a thread's state.
abbrev part_low : Entry → ℕ
part_low e = e.key % 64

abbrev stored :
    Returns
      (consume allocator new_state (2 ^ 58 * 7) (row 7 1))
      λ r. Consumed part_low r.1 (row 7 1 ∷ [])
stored =
    consume-Consumed part_low allocator new_state (2 ^ 58 * 7) (row 7 1) [] refl (omega arith)
      (new_state-Consumed part_low)

for_each_entry-perm_example : Returns (for_each_entry stored.0.1 7) λ xs. Permᴰ xs (row 7 1 ∷ [])
for_each_entry-perm_example =
    for_each_entry-perm part_low stored.0.1 (row 7 1 ∷ []) stored.2 7 (omega arith)

-- A new table, and one with a partition in it.
abbrev fresh : Returns (new 4096 3) (Fresh 4096 3)
fresh = new-Fresh 4096 3 (omega arith) (omega arith)

abbrev part_seven : ℕ
part_seven = partition_of spread 7

post_process_build-Processed_example :
    Returns (post_process_build spread fresh.0 part_seven 0 (row 7 1 ∷ row 7 2 ∷ [])) (
      Processed spread fresh.0.shift fresh.2.shift_valid part_seven 0
        (row 7 1 ∷ row 7 2 ∷ [])
        fresh.0)
post_process_build-Processed_example =
    post_process_build-Processed spread fresh.0.shift fresh.2.shift_valid part_seven 0
      (row 7 1 ∷ row 7 2 ∷ []) fresh.0 (partition-lt fresh.0.shift fresh.2.shift_valid spread 7)
      (refl, (refl, tt))
      (record {
        same_shift = refl;
        words = fresh.2.words;
        room = omega (arith, fresh.2.tuples_length, fresh.2.enough);
        addresses = omega (arith, fresh.2.tuples_length, fresh.2.same_base, fresh.2.bounded);
        fresh = λ s low high. fresh.2.zeroed s;
      })

-- The table of the column, built by three threads.
mapped-Returns : (size : ℕ) → Returns (mapped size) λ _. Unit {0}
mapped-Returns size = (2 ^ 30, refl, tt)

few_rows : 4 < 2 ^ 30
few_rows = omega arith

abbrev filled : Returns (fill_threads spread column allocator 2 0 3) λ r.
    (shares : List (List Entry)) × AllConsumed spread r.1 shares
    × (joined shares ≡ keyed value_at 0 4)
filled = fill_threads-AllConsumed spread column value_at column-Reads 3 allocator 2 0

abbrev states : List ThreadLocalState
states = filled.0.1

abbrev table : Returns (new 4096 4) (Fresh 4096 4)
table = new-Fresh 4096 4 (omega arith) (omega arith)

table-Shape : Shape spread table.0.shift (entries_of states) table.0
table-Shape = record {
  same_shift = refl;
  words = table.2.words;
  minus_one = table.2.minus_one ∙ sym table.2.same_base;
  fits = omega (
    arith,
    offset_all spread mapped mapped-Returns column value_at column-Reads few_rows states filled.2.0
        filled.2.1 filled.2.2,
    table.2.tuples_length,
    table.2.enough,
  );
  addresses = omega (arith, table.2.tuples_length, table.2.same_base, table.2.bounded);
}

process_partitions-Built_example :
    Returns (process_partitions spread states table.0 (thread_order 3 0 3)) λ u.
      Shape spread table.0.shift (entries_of states) u
      × ((p : ℕ) → p < num_partitions → Built spread table.0.shift (entries_of states) p u)
process_partitions-Built_example =
    process_partitions-Built spread table.0.shift table.2.shift_valid states filled.2.0
      (thread_order 3 0 3) table.0 filled.2.1 (times-thread_order 3 (omega arith)) table-Shape
      table.2.zeroed

abbrev processed : Returns (process_partitions spread states table.0 (thread_order 3 0 3)) λ u.
    Shape spread table.0.shift (entries_of states) u
    × ((p : ℕ) → p < num_partitions → Built spread table.0.shift (entries_of states) p u)
processed =
    process_partitions-Built spread table.0.shift table.2.shift_valid states filled.2.0
      (thread_order 3 0 3) table.0 filled.2.1 (times-thread_order 3 (omega arith)) table-Shape
      table.2.zeroed

probe-rows_of_example :
    probe spread processed.0 7 ≡ some (rows_of 7 (entries_of states (partition_of spread 7)))
probe-rows_of_example =
    probe-rows_of spread table.0.shift table.2.shift_valid (entries_of states) processed.0
      processed.2.0 processed.2.1 7

abbrev probe_run : Option (List ℕ)
unfolding tags crc32 crc_hash tag_index tag_at could_contain load store new post_process_build probe
    lookup scan_range index_of update_word advance slot_of count_entry count_entries place_entry
    place_entries assign_starts first_slot
probe_run = new 4096 3 >>= λ t.
    post_process_build spread t 0 0 (row 7 1 ∷ row 7 3 ∷ []) >>= λ u. probe spread u 7

probe_run_lem : probe_run ≡ some (1 ∷ 3 ∷ [])
unfolding tags crc32 crc_hash tag_index tag_at could_contain load store new post_process_build probe
    lookup scan_range index_of update_word advance slot_of count_entry count_entries place_entry
    place_entries assign_starts first_slot
probe_run_lem = refl
