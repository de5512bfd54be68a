-- ===== src/Build/Correct.antt =====
-- The constructor, `build_parallel` and a probe, together: a join side is found by its keys.
use mathlib.Core.List.{Permᴰ}
use mathlib.Core.List.Permᴰ
use native.Mathlib.Nat.{div-add-mod, mod-lt}
use optimized_hash_join_pipe.Base.{
  ℕ, zero, suc, ◌+◌, ◌-◌, ◌*◌, ◌/◌, ◌%◌, ◌^◌, ◌<◌, ◌≤◌, ◌≡◌, refl, arith, ap, ap₂, ◌∙◌, sym, subst,
  List, [], ◌∷◌, length, select-perm, perm-length, ◌==◌, not, ◌&&◌, ==_iff, ==_refl, if◌then◌else◌,
  Bool-cases, inl, inr, true, Option, leb, sum_range, sum_range_congr, sum_range-add,
  sum_range-point, sum_range-none, to_nat,
}
use optimized_hash_join_pipe.Base.Partial.{Returns, ◌>>=◌}
use optimized_hash_join_pipe.Unchained.{Entry, HashTable, num_partitions, new, probe, entry_size}
use optimized_hash_join_pipe.Unchained.Slots.{IsShift, partition_of, partition-lt}
use optimized_hash_join_pipe.Unchained.Probe.{has_key, rows_of, offset, Built, Shape}
use optimized_hash_join_pipe.Unchained.Found.{probe-rows_of}
use optimized_hash_join_pipe.Unchained.Fresh.{new-Fresh}
use optimized_hash_join_pipe.Column.{Value, ColumnT}
use optimized_hash_join_pipe.Slab.{
  GlobalAllocator, ThreadLocalState, large_chunk_size, reserve, reset,
}
use optimized_hash_join_pipe.Slab.Filled.{of_part}
use optimized_hash_join_pipe.Build.{build_parallel, num_large_chunks, thread_order}
use optimized_hash_join_pipe.Build.Fill.{
  keyed, joined, part_of, part_of-lt, reached, Reads, AllConsumed, fill_threads-AllConsumed,
}
use optimized_hash_join_pipe.Build.Entries.{entries_of, entries_of-perm}
use optimized_hash_join_pipe.Build.Order.{times-thread_order}
use optimized_hash_join_pipe.Build.Process.{process_partitions-Built}

-- The rows among `from … from + n - 1` that hold a key.
unfoldable pub matching : (ℕ → Value) → ℕ → ℕ → ℕ → List ℕ
matching rows key from zero = []
matching rows key from (suc n) =
    if not ((rows from).status == 0) && ((rows from).val == key)
    then from ∷ matching rows key (from + 1) n
    else matching rows key (from + 1) n

-- 32 bits are enough for the row indices.
rows_of-keyed :
    (rows : ℕ → Value) (key from n : ℕ)
    → from + n ≤ 2 ^ 32
    → rows_of key (keyed rows from n) ≡ matching rows key from n
unfolding keyed matching
rows_of-keyed rows key from zero fits = refl
rows_of-keyed rows key from (suc n) fits = elim (Bool-cases ((rows from).status == 0)) [
  | inl null ↦ rw (null, rows_of-keyed rows key (from + 1) n (omega arith))
  | inr value ↦ elim (Bool-cases ((rows from).val == key)) [
    | inl hit ↦
        let cut : from % 2 ^ 32 ≡ from = omega arith in
        rw (value, hit) (ap₂ ◌∷◌ cut (rows_of-keyed rows key (from + 1) n (omega arith)))
    | inr miss ↦ rw (value, miss, rows_of-keyed rows key (from + 1) n (omega arith))
  ]
]

-- The entries with a key are all in the key's partition.
rows_of-of_part :
    (crc32si : ℕ → ℕ → ℕ) (key : ℕ) (es : List Entry)
    → rows_of key (of_part (part_of crc32si) (partition_of crc32si key) es) ≡ rows_of key es
rows_of-of_part crc32si key [] = refl
rows_of-of_part crc32si key (e ∷ es) = elim (Bool-cases (has_key key e)) [
  | inl same ↦
      let eq : e.key ≡ key = (==_iff e.key key).0 same in
      let there : (part_of crc32si e == partition_of crc32si key) ≡ true = rw eq (==_refl _) in
      rw (there, same, rows_of-of_part crc32si key es)
  | inr other ↦ elim (Bool-cases (part_of crc32si e == partition_of crc32si key)) [
    | inl there ↦ rw (there, other, rows_of-of_part crc32si key es)
    | inr apart ↦ rw (apart, other, rows_of-of_part crc32si key es)
  ]
]

-- There are no more entries than rows.
keyed-le : (rows : ℕ → Value) (from n : ℕ) → length (keyed rows from n) ≤ n
unfolding keyed
keyed-le rows from zero = omega arith
keyed-le rows from (suc n) = ground (arith, keyed-le rows (from + 1) n)

length-of_part-cons :
    (part : Entry → ℕ) (p : ℕ) (e : Entry) (es : List Entry)
    → length (of_part part p (e ∷ es)) ≡ to_nat (part e == p) + length (of_part part p es)
length-of_part-cons part p e es = elim (Bool-cases (part e == p)) [
  | inl h ↦ rw h (omega arith)
  | inr h ↦ rw h (omega arith)
]

-- The partitions share the entries out.
sum-of_part :
    (part : Entry → ℕ) (es : List Entry)
    → ((e : Entry) → part e < num_partitions)
    → sum_range (λ p. length (of_part part p es)) 0 num_partitions ≡ length es
sum-of_part part [] small = sum_range-none 0 num_partitions
sum-of_part part (e ∷ es) small =
    sum_range_congr (λ p. length (of_part part p (e ∷ es)))
      (λ p. to_nat (part e == p) + length (of_part part p es)) 0 num_partitions
      (λ p l u. length-of_part-cons part p e es)
    ∙ sum_range-add (λ p. to_nat (part e == p)) (λ p. length (of_part part p es)) 0 num_partitions
    ∙ omega (
      arith,
      sum_range-point (part e) 0 num_partitions (omega arith) (omega (arith, small e)),
      sum-of_part part es small,
    )

-- The rows of each thread, rounded up, are enough for all of them.
pub enough_rounds : (m n : ℕ) → 0 < n → m ≤ n * ((m + n - 1) / n)
enough_rounds m n pos = omega (arith, div-add-mod (m + n - 1) n, mod-lt (m + n - 1) pos)

module _ (crc32si : ℕ → ℕ → ℕ) (mmap : ℕ → Option ℕ)
    (maps : (size : ℕ) → Returns (mmap size) λ _. Unit {0}) (col : ColumnT) (rows : ℕ → Value)
    (reads : Reads col rows) (few : col.num_rows < 2 ^ 30) where
  abbrev grown : GlobalAllocator → ℕ → ℕ → GlobalAllocator
  grown g n address = record g {
    arena = address;
    arena_size = (n * large_chunk_size % 2 ^ 64 + 4095) % 2 ^ 64 / 4096 * 4096;
    arena_capacity =
        (n * large_chunk_size % 2 ^ 64 + 4095) % 2 ^ 64 / 4096 * 4096 / large_chunk_size;
  }

  -- The global allocator grows, or is large enough.
  reserve-Returns : (g : GlobalAllocator) (n : ℕ) → Returns (reserve mmap g n) λ _. Unit {0}
  unfolding reserve
  reserve-Returns g n = elim (Bool-cases (leb n g.arena_capacity)) [
    | inl enough ↦ (g, rw enough, tt)
    | inr short ↦
        let (address, run, _) =
          maps ((n * large_chunk_size % 2 ^ 64 + 4095) % 2 ^ 64 / 4096 * 4096) in
        (grown g n address, rw (short, run, ◌>>=◌), tt)
  ]

  abbrev all_rows : List Entry
  all_rows = keyed rows 0 col.num_rows

  -- The table fits the entries.
  pub offset_all :
      (states : List ThreadLocalState) (shares : List (List Entry))
      → AllConsumed crc32si states shares
      → joined shares ≡ all_rows
      → offset (entries_of states) num_partitions ≤ col.num_rows
  offset_all states shares all same = omega (
    arith,
    sum_range_congr (λ p. length (entries_of states p))
        (λ p. length (of_part (part_of crc32si) p (joined shares))) 0 num_partitions
        (λ p l u. perm-length (entries_of-perm crc32si p (omega arith) states shares all)),
    sum-of_part (part_of crc32si) (joined shares) (part_of-lt crc32si),
    ap length same,
    keyed-le rows 0 col.num_rows,
  )

  -- What a probe of the built table finds.
  probe-matching :
      (states : List ThreadLocalState) (shares : List (List Entry))
      → AllConsumed crc32si states shares
      → joined shares ≡ all_rows
      → (shift : ℕ) (u : HashTable) → IsShift shift
      → Shape crc32si shift (entries_of states) u
      → ((p : ℕ) → p < num_partitions → Built crc32si shift (entries_of states) p u)
      → (key : ℕ)
      → Returns (probe crc32si u key) λ found. Permᴰ found (matching rows key 0 col.num_rows)
  probe-matching states shares all same shift u valid shape built key =
      let p = partition_of crc32si key in
      (
        rows_of key (entries_of states p),
        probe-rows_of crc32si shift valid (entries_of states) u shape built key,
        subst (Permᴰ (rows_of key (entries_of states p)))
            (rows_of-of_part crc32si key (joined shares)
              ∙ ap (rows_of key) same
              ∙ rows_of-keyed rows key 0 col.num_rows (omega (arith, few)))
            (Permᴰ.map (λ e. e.row_idx)
              (select-perm (has_key key) (
                entries_of-perm crc32si p (partition-lt shift valid crc32si key) states shares
                  all))),
      )

  pub whole :
      (k n : ℕ)
      → col.num_rows ≤ n * k
      → keyed rows
          (reached crc32si col rows reads k 0)
          (reached crc32si col rows reads k (0 + n) - reached crc32si col rows reads k 0)
        ≡ all_rows
  whole k n enough =
      let last : (0 + n) * k ≡ n * k = omega arith in
      ap₂ (keyed rows) (omega arith) (omega (arith, last, enough))

  -- For a column of fewer than 2^30 rows that read without a fault, an address of the entries
  -- that leaves room for 2^30 of them below 2^48, and an `mmap` that never fails, a new table of
  -- the column's size is built by any number of threads but 0 without a fault, and the probe of
  -- every key then succeeds and finds, in some order, exactly the rows that are not null and hold
  -- the key.
  pub build_parallel-matching :
      (base others : ℕ) (g : GlobalAllocator)
      → base + entry_size * 2 ^ 30 < 2 ^ 48
      → Returns
          (new base col.num_rows >>= λ t. build_parallel crc32si mmap t col (suc others) g)
          λ r.
            (key : ℕ)
            → Returns
                (probe crc32si r.0 key)
                λ found. Permᴰ found (matching rows key 0 col.num_rows)
  unfolding build_parallel
  build_parallel-matching base others g address =
      let n = suc others in
      let (t, made, fresh) = new-Fresh base col.num_rows few (omega arith) in
      let (reserved, room, _) = reserve-Returns (reset g) (num_large_chunks col.num_rows n) in
      let k = (col.num_rows + n - 1) / n in
      let (filled, fills, (shares, all, shared)) =
        fill_threads-AllConsumed crc32si col rows reads n reserved k 0 in
      let same : joined shares ≡ all_rows =
        shared ∙ whole k n (enough_rounds col.num_rows n (omega arith)) in
      let (u, run, (shape, built)) =
        process_partitions-Built crc32si t.shift fresh.shift_valid filled.1 shares
          (thread_order n 0 n) t all (times-thread_order n (omega arith))
          (record {
            same_shift = refl;
            words = fresh.words;
            minus_one = fresh.minus_one ∙ sym fresh.same_base;
            fits =
                omega
                  (arith, offset_all filled.1 shares all same, fresh.tuples_length, fresh.enough);
            addresses = omega (arith, fresh.tuples_length, fresh.same_base, fresh.bounded, address);
          })
          fresh.zeroed in
      (
        (u, filled.0),
        rw (made, ◌>>=◌) (rw (room, ◌>>=◌) (rw (fills, ◌>>=◌) (rw (run, ◌>>=◌)))),
        probe-matching filled.1 shares all same t.shift u fresh.shift_valid shape built,
      )
