-- ===== src/Slab/Arena.antt =====
-- The large chunks of `GlobalAllocator` lie in its arena, one behind the other.
use optimized_hash_join_pipe.Base.{◌+◌, ◌*◌, ◌≤◌, ◌≡◌}
use optimized_hash_join_pipe.Slab.{GlobalAllocator, large_chunk_size, allocate_large}

-- The chunks that the arena is said to have are in it.
abbrev pub Sound : GlobalAllocator → Type 0
Sound g = g.arena_capacity * large_chunk_size ≤ g.arena_size

-- The next call of `allocate` gives the chunk behind the earlier ones, inside the arena.
abbrev pub GivesNext : GlobalAllocator → Type 0
GivesNext g =
    ((allocate_large g).0 ≡ g.arena + g.next_idx * large_chunk_size)
    × ((allocate_large g).0 + large_chunk_size ≤ g.arena + g.arena_size)
    × ((allocate_large g).1.next_idx ≡ g.next_idx + 1)
    × Sound (allocate_large g).1
