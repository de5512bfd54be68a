-- ===== src/Unchained.antt =====
-- The hash table `UnchainedHashTable` of include/unchained_ht.h: its constructor, `lookup`,
-- `postProcessBuild`, and the scan that src/execute.cpp makes of a looked-up range.
--
-- `directory` is the allocation: its cell 0 is `directory[-1]` of the source, and `directory[i]`
-- is cell `i + 1`. A word holds a pointer shifted by 16, and a tag below it. A pointer into
-- `tuples` is an address: `base` is that of the first entry, and an entry has eight bytes.
pub mod Words
pub mod Slots
pub mod Counting
pub mod Starts
pub mod Placing
pub mod Partition
pub mod Processing
pub mod Probe
pub mod Found
pub mod Fresh
use optimized_hash_join_pipe.Base.{
  ℕ, zero, suc, ◌+◌, ◌-◌, ◌*◌, ◌/◌, ◌%◌, ◌^◌, ◌==◌, leb, ◌&&◌, if◌then◌else◌, Option, some, none,
  List, [], ◌∷◌, replicate, bit_or,
}
use optimized_hash_join_pipe.Base.Partial.{◌>>=◌, load, store}
use optimized_hash_join_pipe.Hash.{crc_hash, tag_at, could_contain}

-- `Entry`: the key as a 32-bit pattern.
pub record Entry : Type 0 where
  pub key : ℕ
  pub row_idx : ℕ

abbrev pub no_entry : Entry
no_entry = record { key = 0; row_idx = 0 }

pub record HashTable : Type 0 where
  pub directory : List ℕ
  pub tuples : List Entry
  pub base : ℕ
  pub shift : ℕ
  pub capacity : ℕ

-- `sizeof(Entry)`
abbrev pub entry_size : ℕ
entry_size = 8

-- `NUM_PARTITIONS`, `LOG2_NUM_PARTITIONS`
abbrev pub num_partitions : ℕ
num_partitions = 64

-- `while ((1 << shift_val) <= sz) shift_val++`, with the rounds that are left before `1 << 31`
-- overflows an `int`.
grow_shift : ℕ → ℕ → ℕ → Option ℕ
grow_shift zero shift_val sz = none
grow_shift (suc rounds) shift_val sz =
    let more = grow_shift rounds (shift_val + 1) sz in
    if leb (2 ^ shift_val) sz then more else some shift_val

-- The constructor, with the address at which the entries are allocated.
unfoldable pub new : ℕ → ℕ → Option HashTable
unfolding grow_shift
new base sz = grow_shift 22 9 sz >>= λ shift_val. some (record {
  directory = (base * 2 ^ 16 % 2 ^ 64) ∷ replicate (2 ^ shift_val) 0;
  tuples = replicate (2 ^ shift_val) no_entry;
  base = base;
  shift = 64 - shift_val;
  capacity = 2 ^ shift_val;
})

-- The entry that a pointer points to, by its index.
unfoldable pub index_of : ℕ → ℕ → Option ℕ
index_of base ptr =
    if leb base ptr && ((ptr - base) % entry_size == 0)
    then some ((ptr - base) / entry_size)
    else none

-- `directory[i] = f(directory[i])`
unfoldable pub update_word : List ℕ → ℕ → (ℕ → ℕ) → Option (List ℕ)
update_word directory i f = load directory (i + 1) >>= λ w. store directory (i + 1) (f w)

-- `directory[slot] += sizeof(Entry) << 16`
unfoldable pub advance : ℕ → ℕ
advance w = (w + entry_size * 2 ^ 16) % 2 ^ 64

module _ (crc32si : ℕ → ℕ → ℕ) where
  -- `hash >> shift`
  unfoldable pub slot_of : ℕ → ℕ → ℕ
  slot_of shift key = crc_hash crc32si key / 2 ^ shift

  -- The pair of pointers, (0, 0) for the null pointers.
  unfoldable pub lookup : HashTable → ℕ → Option (ℕ × ℕ)
  lookup t key = do
    entry ← load t.directory (slot_of t.shift key + 1)
    found ← could_contain (entry % 2 ^ 16) (crc_hash crc32si key)
    if found
        then load t.directory (slot_of t.shift key)
          >>= (λ before. some (before / 2 ^ 16, entry / 2 ^ 16))
        else some (0, 0)

  -- The body of the first loop of `postProcessBuild`.
  unfoldable pub count_entry : ℕ → List ℕ → Entry → Option (List ℕ)
  count_entry shift directory e = do
    advanced ← update_word directory (slot_of shift e.key) advance
    tag ← tag_at (crc_hash crc32si e.key)
    update_word advanced (slot_of shift e.key) (λ w. bit_or w tag)

  unfoldable pub count_entries : ℕ → List ℕ → List Entry → Option (List ℕ)
  count_entries shift directory [] = some directory
  count_entries shift directory (e ∷ es) =
      count_entry shift directory e >>= λ counted. count_entries shift counted es

  -- The body of its last loop, on the directory and the entries.
  unfoldable pub place_entry : ℕ → ℕ → List ℕ × List Entry → Entry → Option (List ℕ × List Entry)
  place_entry base shift (directory, tuples) e = do
    w ← load directory (slot_of shift e.key + 1)
    i ← index_of base (w / 2 ^ 16)
    written ← store tuples i e
    advanced ← update_word directory (slot_of shift e.key) advance
    some (advanced, written)

  unfoldable pub place_entries :
      ℕ → ℕ → List ℕ × List Entry → List Entry → Option (List ℕ × List Entry)
  place_entries base shift st [] = some st
  place_entries base shift st (e ∷ es) =
      place_entry base shift st e >>= λ placed. place_entries base shift placed es

-- Its middle loop: `rounds` slots from `i` on get their start, `cur`, in place of their size.
unfoldable pub assign_starts : List ℕ → ℕ → ℕ → ℕ → Option (List ℕ)
assign_starts directory i zero cur = some directory
assign_starts directory i (suc rounds) cur = do
  w ← load directory (i + 1)
  started ← store directory (i + 1) (bit_or (cur * 2 ^ 16 % 2 ^ 64) (w % 2 ^ 16))
  assign_starts started (i + 1) rounds ((cur + w / 2 ^ 16) % 2 ^ 64)

-- `(partition << k) / NUM_PARTITIONS`, `k = 64 - shift`: the first slot of a partition.
unfoldable pub first_slot : ℕ → ℕ → ℕ
first_slot shift partition = partition * 2 ^ (64 - shift) % 2 ^ 64 / num_partitions

-- `postProcessBuild`; `es` are the partition's entries, those of each thread in turn.
unfoldable pub post_process_build : (ℕ → ℕ → ℕ) → HashTable → ℕ → ℕ → List Entry → Option HashTable
post_process_build crc32si t partition prev_count es = do
  counted ← count_entries crc32si t.shift t.directory es
  let start = first_slot t.shift partition
  let end = first_slot t.shift (partition + 1)
  started ← assign_starts counted start (end - start) (t.base + entry_size * prev_count)
  (directory, tuples) ← place_entries crc32si t.base t.shift (started, t.tuples) es
  some (record t { directory = directory; tuples = tuples })

-- The loop over a looked-up range in src/execute.cpp: the row indices of the entries that have the
-- key. There are `rounds` pointers from `ptr` on below the end of the range.
unfoldable pub scan_range : HashTable → ℕ → ℕ → ℕ → Option (List ℕ)
scan_range t key ptr zero = some []
scan_range t key ptr (suc rounds) = do
  i ← index_of t.base ptr
  e ← load t.tuples i
  rest ← scan_range t key (ptr + entry_size) rounds
  some (if e.key == key then e.row_idx ∷ rest else rest)

-- `lookup`, then the loop.
unfoldable pub probe : (ℕ → ℕ → ℕ) → HashTable → ℕ → Option (List ℕ)
probe crc32si t key = do
  (start, end) ← lookup crc32si t key
  scan_range t key start ((end - start + (entry_size - 1)) / entry_size)
