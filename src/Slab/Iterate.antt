-- ===== src/Slab/Iterate.antt =====
-- `forEachEntryInPartition` visits every entry that the thread consumed into the partition: the
-- newest chunk first, each chunk from its start.
use mathlib.Core.List.{Permᴰ}
use mathlib.Core.List.Permᴰ
use optimized_hash_join_pipe.Base.{
  ℕ, ◌-◌, ◌*◌, ◌%◌, ◌<◌, min, ◌≡◌, refl, arith, ap, ◌∙◌, sym, List, [], ◌∷◌, ◌++◌, length,
  length-append, eq_nil_of_length, get_or, some, ◌==◌, if◌then◌else◌, Bool-cases, false, inl, inr,
}
use optimized_hash_join_pipe.Base.Partial.{Returns, ◌>>=◌, load-get_or}
use optimized_hash_join_pipe.Unchained.{Entry, num_partitions}
use optimized_hash_join_pipe.Slab.{
  SmallChunk, Bump, ThreadLocalState, no_space, entries_per_chunk, read_entries, visit_chunks,
  for_each_entry,
}
use optimized_hash_join_pipe.Slab.Filled.{history, AllFull, NewestFits, Consumed, of_part}

-- The entries of the chunks, the newest chunk first.
pub forward : List SmallChunk → List Entry
forward [] = []
forward (c ∷ cs) = c.entries ++ forward cs

read_entries-all : (xs : List Entry) → read_entries xs (length xs) ≡ some xs
unfolding read_entries
read_entries-all [] = refl
read_entries-all (x ∷ xs) = rw (read_entries-all xs)

length-history :
    (cs : List SmallChunk) → AllFull cs → length (history cs) ≡ entries_per_chunk * length cs
unfolding history
length-history [] full = refl
length-history (c ∷ cs) full =
    omega (arith, length-append (history cs) c.entries, length-history cs full.1, full.0)

-- One chunk with `wanted` entries, which are all of it.
visit_chunks-cons :
    (c : SmallChunk) (cs : List SmallChunk) (wanted remaining : ℕ) (rest : List Entry)
    → 0 < remaining
    → min wanted remaining ≡ length c.entries
    → visit_chunks cs entries_per_chunk (remaining - length c.entries) ≡ some rest
    → visit_chunks (c ∷ cs) wanted remaining ≡ some (c.entries ++ rest)
unfolding visit_chunks
visit_chunks-cons c cs wanted remaining rest pos count later =
    let more : (remaining == 0) ≡ false = ground arith in
    rw (more, count, read_entries-all c.entries, ◌>>=◌) (rw (later, ◌>>=◌))

visit_chunks-full :
    (cs : List SmallChunk)
    → AllFull cs
    → visit_chunks cs entries_per_chunk (entries_per_chunk * length cs) ≡ some (forward cs)
unfolding forward
visit_chunks-full [] full = unfold visit_chunks in refl
visit_chunks-full (c ∷ cs) (size, full) =
    visit_chunks-cons c cs entries_per_chunk _ (forward cs) (omega arith) (omega (arith, size))
      (ap (visit_chunks cs entries_per_chunk) (omega (arith, size)) ∙ visit_chunks-full cs full)

abbrev first_count : ℕ → ℕ
first_count total =
    if total % entries_per_chunk == 0 then entries_per_chunk else total % entries_per_chunk

visit_chunks-forward :
    (b : Bump SmallChunk) (chunks : List SmallChunk)
    → NewestFits b chunks
    → visit_chunks chunks (first_count (length (history chunks))) (length (history chunks))
      ≡ some (forward chunks)
unfolding forward history
visit_chunks-forward b [] newest = unfold visit_chunks in refl
visit_chunks-forward b (c ∷ cs) (filled, few, here, last, full) =
    let total = length-append (history cs) c.entries in
    let older = length-history cs full in
    visit_chunks-cons c cs _ _ (forward cs) (omega (arith, total)) (ground (arith, total, older)) (
      ap (visit_chunks cs entries_per_chunk) (omega (arith, total, older))
      ∙ visit_chunks-full cs full)

-- The chunks in the other order hold the same entries.
forward-perm : (cs : List SmallChunk) → Permᴰ (forward cs) (history cs)
unfolding forward history
forward-perm [] = Permᴰ.nil
forward-perm (c ∷ cs) =
    Permᴰ.trans (Permᴰ.append_left c.entries (forward-perm cs))
      (Permᴰ.append_comm c.entries (history cs))

module _ (part : Entry → ℕ) (s : ThreadLocalState) (es : List Entry) (c : Consumed part s es)
    (p : ℕ) (small : p < num_partitions) where
  -- From a state that has consumed `es`, the iterator over a partition reads no memory that was
  -- not written, and hands over exactly the partition's entries among `es`, each once, in some
  -- order.
  pub for_each_entry-perm : Returns (for_each_entry s p) λ xs. Permᴰ xs (of_part part p es)
  unfolding for_each_entry
  for_each_entry-perm =
      let b = get_or s.level3 p no_space in
      let f = c.filled p small in
      let all : length (history b.chunks) ≡ get_or s.counts p 0 =
        ap length f.kept ∙ sym (c.counted p small) in
      elim (Bool-cases (get_or s.counts p 0 == 0)) [
        | inl none ↦ (
          [],
          rw (load-get_or s.counts p 0 (omega (arith, c.counts_width)), ◌>>=◌)
              (rw (load-get_or s.level3 p no_space (omega (arith, c.level3_width)), ◌>>=◌)
                (rw none)),
          rw (eq_nil_of_length (of_part part p es) (ground (arith, c.counted p small))) Permᴰ.nil,
        )
        | inr more ↦ (
          forward b.chunks,
          rw (load-get_or s.counts p 0 (omega (arith, c.counts_width)), ◌>>=◌)
              (rw (load-get_or s.level3 p no_space (omega (arith, c.level3_width)), ◌>>=◌)
                (rw (more, ← all) (visit_chunks-forward b b.chunks f.newest))),
          rw f.kept at (forward-perm b.chunks),
        )
      ]
