-- ===== src/Slab/Memory.antt =====
-- The small chunks of a thread lie in its large chunks.
use optimized_hash_join_pipe.Base.{
  ℕ, ◌+◌, ◌≤◌, ◌≡◌, refl, arith, leb, ltb, ◌&&◌, true, Bool-cases, inl, inr, List, [], ◌∷◌,
}
use optimized_hash_join_pipe.Slab.{
  GlobalAllocator, Bump, SmallChunk, link_size, small_chunk_size, large_chunk_size, free_space,
  allocate_large, in_memory, refill_level2,
}

-- A part of a block in memory is in memory.
pub in_memory_part :
    (large : List ℕ) (address size start part : ℕ)
    → in_memory large address size ≡ true
    → address ≤ start
    → start + part ≤ address + size
    → in_memory large start part ≡ true
unfolding in_memory
in_memory_part [] address size start part h low high = h
in_memory_part (l ∷ large) address size start part h low high =
    elim (Bool-cases (leb (l + link_size) address && leb (address + size) (l + large_chunk_size))) [
      | inl here ↦
          let whole : (leb (l + link_size) start && leb (start + part) (l + large_chunk_size))
              ≡ true =
            ground (arith, here) in
          rw whole refl
      | inr other ↦
          let rest = in_memory_part large address size start part (rw other at h) low high in
          elim (Bool-cases
            (leb (l + link_size) start && leb (start + part) (l + large_chunk_size))) [
              | inl whole ↦ rw whole refl
              | inr apart ↦ rw apart rest
            ]
    ]

pub in_memory_more :
    (l : ℕ) (large : List ℕ) (address size : ℕ)
    → in_memory large address size ≡ true
    → in_memory (l ∷ large) address size ≡ true
unfolding in_memory
in_memory_more l large address size h =
    elim (Bool-cases (leb (l + link_size) address && leb (address + size) (l + large_chunk_size))) [
      | inl here ↦ rw here refl
      | inr other ↦ rw other h
    ]

pub in_memory_newest :
    (l : ℕ) (large : List ℕ) (address size : ℕ)
    → l + link_size ≤ address
    → address + size ≤ l + large_chunk_size
    → in_memory (l ∷ large) address size ≡ true
unfolding in_memory
in_memory_newest l large address size low high =
    let here : (leb (l + link_size) address && leb (address + size) (l + large_chunk_size)) ≡ true =
      ground arith in
    rw here refl

-- The free space of level 2 is the end of the newest large chunk.
abbrev pub Cut : Bump ℕ → List ℕ → Type 0
Cut b [] = b.limit ≡ b.current
Cut b (l ∷ large) =
    (l + link_size ≤ b.current) × (b.current ≤ b.limit) × (b.limit ≡ l + large_chunk_size)

abbrev pub AllInside : (large : List ℕ) → List SmallChunk → Type 0
AllInside large [] = Unit {0}
AllInside large (c ∷ cs) = (in_memory large c.address small_chunk_size ≡ true) × AllInside large cs

-- Every block of some chunks is a block of others.
abbrev pub Kept : (large more : List ℕ) → Type 0
Kept large more =
    (address size : ℕ) → in_memory large address size ≡ true → in_memory more address size ≡ true

pub AllInside-Kept :
    (large more : List ℕ) (cs : List SmallChunk)
    → Kept large more
    → AllInside large cs
    → AllInside more cs
AllInside-Kept large more [] k a = tt
AllInside-Kept large more (c ∷ cs) k a =
    (k c.address small_chunk_size a.0, AllInside-Kept large more cs k a.1)

-- There is room for a small chunk in the newest large one.
pub record Room (large : List ℕ) (b : Bump ℕ) : Type 0 where
  pub kept : Kept large b.chunks
  pub roomy : in_memory b.chunks b.current small_chunk_size ≡ true
  pub cut : Cut (record b { current = b.current + small_chunk_size }) b.chunks

room_left :
    (b : Bump ℕ) (large : List ℕ)
    → Cut b large
    → small_chunk_size ≤ free_space b
    → (in_memory large b.current small_chunk_size ≡ true)
      × Cut (record b { current = b.current + small_chunk_size }) large
room_left b [] cut roomy = absurd (omega arith)
room_left b (l ∷ large) (low, within, end) roomy = (
  in_memory_newest l large b.current small_chunk_size low (omega arith),
  (omega arith, omega arith, end),
)

pub refill_level2-Room :
    (g : GlobalAllocator) (b : Bump ℕ) → Cut b b.chunks → Room b.chunks (refill_level2 g b).1
unfolding refill_level2
refill_level2-Room g b cut = elim (Bool-cases (ltb (free_space b) small_chunk_size)) [
  | inl tight ↦
      let l = (allocate_large g).0 in
      rw tight (record {
        kept = λ address size h. in_memory_more l b.chunks address size h;
        roomy =
            in_memory_newest l b.chunks (l + link_size) small_chunk_size (omega arith)
              (omega arith);
        cut = (omega arith, omega arith, refl);
      })
  | inr roomy ↦
      let (room, cut') = room_left b b.chunks cut (ground arith) in
      rw roomy (record { kept = λ address size h. h; roomy = room; cut = cut' })
]
