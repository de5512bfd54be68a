-- ===== src/Slab/Filled.antt =====
-- What `consume` keeps: the chunks of a partition hold its entries, in full chunks but for the
-- newest, and the pointer stands behind the last entry.
use optimized_hash_join_pipe.Base.{
  ℕ, ◌+◌, ◌-◌, ◌*◌, ◌/◌, ◌^◌, ◌<◌, ◌≤◌, ◌≡◌, ◌≢◌, refl, arith, ap, ◌∙◌, sym, subst, List, [], ◌∷◌,
  ◌++◌, length, length-append, get_or, set, length-set, get_or-set_self, get_or-set_ne, select,
  select-append, ◌==◌, ==_refl, ltb, leb, Bool-cases, true, false, inl, inr, length-replicate,
  get_or-replicate, ℕ_discrete,
}
use optimized_hash_join_pipe.Base.Partial.{Returns, ◌>>=◌, load-get_or, store-set}
use optimized_hash_join_pipe.Unchained.{Entry, num_partitions, entry_size}
use mathlib.Core.List.{append-nil, append_assoc}
use optimized_hash_join_pipe.Slab.{
  SmallChunk, Bump, GlobalAllocator, ThreadLocalState, no_space, new_state, link_size,
  small_chunk_size, entries_per_chunk, add_space, refill_level2, refill_level3, write_entry,
  consume, log2_num_partitions, free_space, in_memory,
}
use optimized_hash_join_pipe.Slab.Memory.{
  in_memory_part, Cut, AllInside, Kept, AllInside-Kept, refill_level2-Room,
}

-- The entries of the chunks, from the oldest on.
unfoldable pub history : List SmallChunk → List Entry
history [] = []
history (c ∷ cs) = history cs ++ c.entries

abbrev pub AllFull : List SmallChunk → Type 0
AllFull [] = Unit
AllFull (c ∷ cs) = (length c.entries ≡ entries_per_chunk) × AllFull cs

-- The newest chunk, and where the pointers stand in it.
abbrev pub NewestFits : Bump SmallChunk → List SmallChunk → Type 0
NewestFits b [] = b.limit ≡ b.current
NewestFits b (c ∷ cs) =
    (0 < length c.entries)
    × (length c.entries ≤ entries_per_chunk)
    × (b.current ≡ c.address + link_size + entry_size * length c.entries)
    × (b.limit ≡ c.address + small_chunk_size)
    × AllFull cs

pub record Filled (b : Bump SmallChunk) (es : List Entry) : Type 0 where
  pub kept : history b.chunks ≡ es
  pub newest : NewestFits b b.chunks

-- One entry more in a partition.
abbrev pushed : Bump SmallChunk → List SmallChunk → Bump SmallChunk
pushed b chunks = record { current = b.current + entry_size; limit = b.limit; chunks = chunks }

-- Room is left in the newest chunk: it takes the entry.
write_in_newest :
    (large : List ℕ) (b : Bump SmallChunk) (chunks : List SmallChunk) (es : List Entry) (e : Entry)
    → b.chunks ≡ chunks
    → history chunks ≡ es
    → NewestFits b chunks
    → AllInside large chunks
    → entry_size ≤ free_space b
    → Returns
        (write_entry large chunks b.current e)
        λ cs. Filled (pushed b cs) (es ++ e ∷ []) × AllInside large cs
unfolding write_entry history
write_in_newest large b [] es e same kept newest inside roomy = absurd (omega arith)
write_in_newest large b (c ∷ cs) es e same kept (some_there, few, here, last, full) inside roomy =
    let place : (b.current == c.address + link_size + entry_size * length c.entries) ≡ true =
      ground arith in
    let fits : leb (b.current + entry_size) (c.address + small_chunk_size) ≡ true = ground arith in
    let mapped =
      in_memory_part large c.address small_chunk_size b.current entry_size inside.0 (omega arith)
        (omega arith) in
    (
      record c { entries = c.entries ++ e ∷ [] } ∷ cs,
      rw (place, fits, mapped) refl,
      (
        record {
          kept =
              ap (λ xs. xs) (sym (append_assoc (history cs) c.entries (e ∷ [])))
              ∙ ap (λ xs. xs ++ e ∷ []) kept;
          newest = (
            omega (arith, length-append c.entries (e ∷ [])),
            omega (arith, length-append c.entries (e ∷ [])),
            omega (arith, length-append c.entries (e ∷ [])),
            last,
            full,
          );
        },
        inside,
      ),
    )

-- A full partition, or one with no chunk: the entry goes first into a new chunk.
all_full :
    (b : Bump SmallChunk) (chunks : List SmallChunk)
    → NewestFits b chunks
    → free_space b < entry_size
    → AllFull chunks
all_full b [] newest tight = tt
all_full b (c ∷ cs) newest tight = (omega (arith, newest), newest.4)

write_in_new :
    (large : List ℕ) (b : Bump SmallChunk) (es : List Entry) (e : Entry) (address : ℕ)
    → Filled b es
    → AllInside large b.chunks
    → in_memory large address small_chunk_size ≡ true
    → free_space b < entry_size
    → Returns
        (write_entry large
          (record { address = address; entries = [] } ∷ b.chunks)
          (address + link_size)
          e)
        λ cs.
          Filled
            (pushed
              (add_space b small_chunk_size address (record { address = address; entries = [] }))
              cs)
            (es ++ e ∷ [])
          × AllInside large cs
unfolding write_entry history
write_in_new large b es e address f inside roomy tight =
    let place : (address + link_size == address + link_size + entry_size * 0) ≡ true =
      ground arith in
    let fits : leb (address + link_size + entry_size) (address + small_chunk_size) ≡ true =
      ground arith in
    let mapped =
      in_memory_part large address small_chunk_size (address + link_size) entry_size roomy
        (omega arith) (omega arith) in
    (
      record { address = address; entries = e ∷ [] } ∷ b.chunks,
      rw (place, fits, mapped) refl,
      (
        record {
          kept = ap (λ xs. xs ++ e ∷ []) f.kept;
          newest = (
            omega arith,
            omega arith,
            omega arith,
            omega arith,
            all_full b b.chunks f.newest tight,
          );
        },
        (roomy, inside),
      ),
    )

-- What `consume` does with the chunks: the memory only grows, and it has room for the entry.
abbrev Written :
    (large : List ℕ) (b : Bump SmallChunk)
    → List Entry
    → Entry
    → GlobalAllocator × Bump ℕ × Bump SmallChunk
    → Type 0
Written large b es e r =
    Kept large r.1.chunks
    × Cut r.1 r.1.chunks
    × Returns (write_entry r.1.chunks r.2.chunks r.2.current e)
        λ cs. Filled (pushed r.2 cs) (es ++ e ∷ []) × AllInside r.1.chunks cs

-- `consume` on the partition that the hash names.
refill_level3-Written :
    (g : GlobalAllocator) (b2 : Bump ℕ) (b : Bump SmallChunk) (es : List Entry) (e : Entry)
    → Filled b es
    → Cut b2 b2.chunks
    → AllInside b2.chunks b.chunks
    → Returns (refill_level3 g b2 b) (Written b2.chunks b es e)
unfolding refill_level3
refill_level3-Written g b2 b es e f cut inside = elim (Bool-cases (ltb (free_space b) entry_size)) [
  | inl tight ↦
      let room = refill_level2-Room g b2 cut in
      let (g', new2) = refill_level2 g b2 in
      let linked =
        in_memory_part new2.chunks new2.current small_chunk_size new2.current link_size room.roomy
          (omega arith) (omega arith) in
      rw tight (
        (
          g',
          record new2 { current = new2.current + small_chunk_size },
          add_space b small_chunk_size new2.current
              (record { address = new2.current; entries = [] }),
        ),
        rw linked refl,
        (
          room.kept,
          room.cut,
          write_in_new new2.chunks b es e new2.current f
              (AllInside-Kept b2.chunks new2.chunks b.chunks room.kept inside) room.roomy
              (ground arith),
        ),
      )
  | inr roomy ↦ rw roomy (
    (g, b2, b),
    refl,
    (
      λ address size h. h,
      cut,
      write_in_newest b2.chunks b b.chunks es e refl f.kept f.newest inside (ground arith),
    ),
  )
]

module _ (part : Entry → ℕ) where
  abbrev pub of_part : ℕ → List Entry → List Entry
  of_part p es = select (λ e. part e == p) es

  -- A thread's state after it has consumed `es`, in that order.
  pub record Consumed (s : ThreadLocalState) (es : List Entry) : Type 0 where
    pub level3_width : length s.level3 ≡ num_partitions
    pub counts_width : length s.counts ≡ num_partitions
    pub filled : (p : ℕ) → p < num_partitions → Filled (get_or s.level3 p no_space) (of_part p es)
    pub counted : (p : ℕ) → p < num_partitions → get_or s.counts p 0 ≡ length (of_part p es)
    pub cut : Cut s.level2 s.level2.chunks
    pub inside :
        (p : ℕ) → p < num_partitions → AllInside s.level2.chunks (get_or s.level3 p no_space).chunks

  pub new_state-Consumed : Consumed new_state []
  unfolding history
  new_state-Consumed = record {
    level3_width =
        length-replicate {A = Bump SmallChunk} num_partitions (no_space {C = SmallChunk});
    counts_width = length-replicate {A = ℕ} num_partitions 0;
    filled = λ p l.
        rw (get_or-replicate num_partitions p no_space) (record { kept = refl; newest = refl });
    counted = λ p l. get_or-replicate num_partitions p 0;
    cut = refl;
    inside = λ p l. rw (get_or-replicate num_partitions p no_space) tt;
  }

  of_part-snoc_self :
      (es : List Entry) (e : Entry)
      → of_part (part e) (es ++ e ∷ []) ≡ of_part (part e) es ++ e ∷ []
  of_part-snoc_self es e = rw (select-append, ==_refl)

  of_part-snoc_ne :
      (es : List Entry) (e : Entry) (p : ℕ) → part e ≢ p → of_part p (es ++ e ∷ []) ≡ of_part p es
  of_part-snoc_ne es e p ne =
      let test : (part e == p) ≡ false = ground arith in rw (select-append, test) (append-nil _)

  pub consume-Consumed :
      (g : GlobalAllocator) (s : ThreadLocalState) (hash : ℕ) (e : Entry) (es : List Entry)
      → hash / 2 ^ (64 - log2_num_partitions) ≡ part e
      → part e < num_partitions
      → Consumed s es
      → Returns (consume g s hash e) λ r. Consumed r.1 (es ++ e ∷ [])
  unfolding consume
  consume-Consumed g s hash e es same small c =
      let p = part e in
      let b = get_or s.level3 p no_space in
      let (next, refilled, (kept, cut, (chunks, run, (f, inside)))) =
        refill_level3-Written g s.level2 b (of_part p es) e (c.filled p small) c.cut
          (c.inside p small) in
      let in3 : p < length s.level3 = omega (arith, c.level3_width) in
      let inc : p < length s.counts = omega (arith, c.counts_width) in
      let b' : Bump SmallChunk = pushed next.2 chunks in
      (
        (
          next.0,
          record {
            level2 = next.1;
            level3 = set s.level3 p b';
            counts = set s.counts p (get_or s.counts p 0 + 1);
          },
        ),
        rw (same, load-get_or s.level3 p no_space in3, ◌>>=◌)
            (rw (load-get_or s.counts p 0 inc, ◌>>=◌)
              (rw (refilled, ◌>>=◌)
                (rw (run, ◌>>=◌)
                  (rw (store-set s.level3 p b' in3, ◌>>=◌)
                    (rw (store-set s.counts p _ inc, ◌>>=◌)))))),
        record {
          level3_width = length-set s.level3 p b' ∙ c.level3_width;
          counts_width = length-set s.counts p _ ∙ c.counts_width;
          filled = λ q l. elim (ℕ_discrete p q) [
            | no ne ↦
                rw (get_or-set_ne s.level3 p q b' no_space ne, of_part-snoc_ne es e q ne)
                  (c.filled q l)
            | yes eq ↦
                subst
                  (λ q'.
                    Filled (get_or (set s.level3 p b') q' no_space) (of_part q' (es ++ e ∷ [])))
                  eq (rw (get_or-set_self s.level3 p b' no_space in3, of_part-snoc_self es e) f)
          ];
          counted = λ q l. elim (ℕ_discrete p q) [
            | no ne ↦
                rw (get_or-set_ne s.counts p q _ 0 ne, of_part-snoc_ne es e q ne) (c.counted q l)
            | yes eq ↦
                subst
                  (λ q'.
                    get_or (set s.counts p (get_or s.counts p 0 + 1)) q' 0
                    ≡ length (of_part q' (es ++ e ∷ [])))
                  eq
                  (rw (get_or-set_self s.counts p _ 0 inc, of_part-snoc_self es e)
                    (omega (arith, c.counted p small, length-append (of_part p es) (e ∷ []))))
          ];
          cut = cut;
          inside = λ q l. elim (ℕ_discrete p q) [
            | no ne ↦ rw (get_or-set_ne s.level3 p q b' no_space ne) (
                AllInside-Kept s.level2.chunks next.1.chunks (get_or s.level3 q no_space).chunks
                  kept (c.inside q l))
            | yes eq ↦
                subst
                  (λ q'. AllInside next.1.chunks (get_or (set s.level3 p b') q' no_space).chunks) eq
                  (rw (get_or-set_self s.level3 p b' no_space in3) inside)
          ];
        },
      )
