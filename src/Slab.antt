-- ===== src/Slab.antt =====
-- The slab allocator of include/utils.h: `GlobalAllocator`, `BumpAllocator`, `ThreadLocalState`,
-- and the iterator `forEachEntryInPartition` of include/unchained_ht.h over what it filled.
-- An address is a number. A chunk keeps the entries that have been written to it, from its start.
-- A write by a thread outside the data of its large chunks, or of the small chunk, is `none`.
pub mod Memory
pub mod Arena
pub mod Filled
pub mod Iterate
use optimized_hash_join_pipe.Base.{
  ℕ, zero, suc, ◌+◌, ◌-◌, ◌*◌, ◌/◌, ◌%◌, ◌^◌, min, ◌==◌, ltb, leb, ◌&&◌, ◌||◌, if◌then◌else◌, Bool,
  true, false, Option, some, none, List, [], ◌∷◌, ◌++◌, length, replicate, set,
}
use optimized_hash_join_pipe.Base.Partial.{◌>>=◌, load, store}
use optimized_hash_join_pipe.Unchained.{Entry, entry_size, num_partitions}

-- `SMALL_CHUNK_SIZE`, `LARGE_CHUNK_SIZE`: the sizes of the chunks with their link.
abbrev pub small_chunk_size : ℕ
small_chunk_size = 4096

abbrev pub large_chunk_size : ℕ
large_chunk_size = 65536

-- `LOG2_NUM_PARTITIONS`
abbrev pub log2_num_partitions : ℕ
log2_num_partitions = 6

-- The link before a chunk's data.
abbrev pub link_size : ℕ
link_size = 8

-- `ENTRIES_PER_CHUNK`
abbrev pub entries_per_chunk : ℕ
entries_per_chunk = 511

-- `GlobalAllocator`, and the addresses that `aligned_alloc` will return, by the index of the call.
pub record GlobalAllocator : Type 0 where
  pub arena : ℕ
  pub arena_size : ℕ
  pub arena_capacity : ℕ
  pub next_idx : ℕ
  pub heap : ℕ → ℕ

-- `reserve`; `mmap` returns the address of a mapping of a size, and a failure aborts.
unfoldable pub reserve : (ℕ → Option ℕ) → GlobalAllocator → ℕ → Option GlobalAllocator
reserve mmap g num_chunks =
    if leb num_chunks g.arena_capacity
    then some g
    else (let new_size = (num_chunks * large_chunk_size % 2 ^ 64 + 4095) % 2 ^ 64 / 4096 * 4096 in
        mmap new_size >>= λ address. some (record g {
          arena = address;
          arena_size = new_size;
          arena_capacity = new_size / large_chunk_size;
        }))

unfoldable pub reset : GlobalAllocator → GlobalAllocator
reset g = record g { next_idx = 0 }

-- `free_all`
unfoldable pub free_all : GlobalAllocator → GlobalAllocator
free_all g = record g { arena = 0; arena_size = 0; arena_capacity = 0; next_idx = 0 }

-- `allocate`: the chunk's address.
unfoldable pub allocate_large : GlobalAllocator → ℕ × GlobalAllocator
allocate_large g = (
  (if ltb g.next_idx g.arena_capacity
      then g.arena + g.next_idx * large_chunk_size
      else g.heap g.next_idx),
  record g { next_idx = g.next_idx + 1 },
)

pub record SmallChunk : Type 0 where
  pub address : ℕ
  pub entries : List Entry

-- `BumpAllocator`; `limit` is its `end`, and the newest chunk stands first.
pub record Bump (C : Type 0) : Type 0 where
  pub current : ℕ
  pub limit : ℕ
  pub chunks : List C

abbrev pub free_space : {C : Type 0} → Bump C → ℕ
free_space b = b.limit - b.current

-- `add_space`, for a chunk of `size` bytes at an address.
abbrev pub add_space : {C : Type 0} → Bump C → ℕ → ℕ → C → Bump C
add_space b size address chunk = record {
  current = address + link_size;
  limit = address + size;
  chunks = chunk ∷ b.chunks;
}

-- `ThreadLocalState`, without the reference to the shared allocator.
pub record ThreadLocalState : Type 0 where
  pub level2 : Bump ℕ
  pub level3 : List (Bump SmallChunk)
  pub counts : List ℕ

abbrev pub no_space : {C : Type 0} → Bump C
no_space = record { current = 0; limit = 0; chunks = [] }

abbrev pub new_state : ThreadLocalState
new_state = record {
  level2 = no_space;
  level3 = replicate num_partitions no_space;
  counts = replicate num_partitions 0;
}

-- The inner test of `consume`: a large chunk, if the last one has no room for a small one.
unfoldable pub refill_level2 : GlobalAllocator → Bump ℕ → GlobalAllocator × Bump ℕ
refill_level2 g b =
    if ltb (free_space b) small_chunk_size
    then (let (address, g') = allocate_large g in
        (g', add_space b large_chunk_size address address))
    else (g, b)

-- `size` bytes at an address lie in the data of one of the large chunks.
unfoldable pub in_memory : (large : List ℕ) → (address size : ℕ) → Bool
in_memory [] address size = false
in_memory (l ∷ large) address size =
    (leb (l + link_size) address && leb (address + size) (l + large_chunk_size))
    || in_memory large address size

-- The outer test: a small chunk, cut from the large one, if the partition has no room for an entry.
-- The link of the small chunk is written.
unfoldable pub refill_level3 :
    GlobalAllocator → Bump ℕ → Bump SmallChunk → Option (GlobalAllocator × Bump ℕ × Bump SmallChunk)
refill_level3 g b2 b3 =
    if ltb (free_space b3) entry_size
    then (let (g', b2') = refill_level2 g b2 in
        if in_memory b2'.chunks b2'.current link_size
        then some (
          g',
          record b2' { current = b2'.current + small_chunk_size },
          add_space b3 small_chunk_size b2'.current
              (record { address = b2'.current; entries = [] }),
        )
        else none)
    else some (g, b2, b3)

-- The caller of `consume` writes the entry at once, at the pointer that it got: behind the last
-- entry of the newest chunk, inside that chunk and inside the thread's memory.
unfoldable pub write_entry :
    (large : List ℕ) → List SmallChunk → ℕ → Entry → Option (List SmallChunk)
write_entry large [] ptr e = none
write_entry large (c ∷ cs) ptr e =
    if (ptr == c.address + link_size + entry_size * length c.entries)
      && (leb (ptr + entry_size) (c.address + small_chunk_size) && in_memory large ptr entry_size)
    then some ((record c { entries = c.entries ++ e ∷ [] }) ∷ cs)
    else none

-- `consume<Entry>(hash)`, with the write that follows it.
unfoldable pub consume :
    GlobalAllocator → ThreadLocalState → ℕ → Entry → Option (GlobalAllocator × ThreadLocalState)
consume g s hash e = do
  let part = hash / 2 ^ (64 - log2_num_partitions)
  b ← load s.level3 part
  count ← load s.counts part
  (g', b2, b3) ← refill_level3 g s.level2 b
  chunks ← write_entry b2.chunks b3.chunks b3.current e
  level3 ←
      store s.level3 part
        (record { current = b3.current + entry_size; limit = b3.limit; chunks = chunks })
  counts ← store s.counts part (count + 1)
  some (g', record { level2 = b2; level3 = level3; counts = counts })

-- `entries[0 .. count - 1]` of a chunk.
unfoldable pub read_entries : List Entry → ℕ → Option (List Entry)
read_entries xs zero = some []
read_entries [] (suc n) = none
read_entries (x ∷ xs) (suc n) = read_entries xs n >>= λ rest. some (x ∷ rest)

-- The loop over the chunks: `wanted` entries from this one, `entries_per_chunk` from the later ones.
unfoldable pub visit_chunks : List SmallChunk → ℕ → ℕ → Option (List Entry)
unfolding read_entries
visit_chunks [] wanted remaining = some []
visit_chunks (c ∷ cs) wanted remaining =
    let count = min wanted remaining in
    let later = visit_chunks cs entries_per_chunk (remaining - count) in
    if remaining == 0
    then some []
    else (read_entries c.entries count >>= λ here. later >>= λ rest. some (here ++ rest))

-- `forEachEntryInPartition`: the entries that it hands to its argument, in their order.
unfoldable pub for_each_entry : ThreadLocalState → ℕ → Option (List Entry)
unfolding visit_chunks
for_each_entry s partition = do
  total ← load s.counts partition
  b ← load s.level3 partition
  let remainder = total % entries_per_chunk
  if total == 0
      then some []
      else visit_chunks b.chunks (if remainder == 0 then entries_per_chunk else remainder) total
