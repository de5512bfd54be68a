-- ===== src/Unchained/Processing.antt =====
-- The proof that `postProcessBuild` does to a partition what it should.
use optimized_hash_join_pipe.Base.{
  ℕ, ◌+◌, ◌-◌, ◌*◌, ◌/◌, ◌^◌, ◌<◌, ◌≤◌, ◌≡◌, refl, arith, ap, ◌∙◌, List, length, get_or, some,
  sum_range, sum_range_congr, sum_range-mul, sum_range-lt, sum_range-last, dec_lt, inl, inr, Option,
}
use optimized_hash_join_pipe.Base.Partial.{Returns, ◌>>=◌}
use optimized_hash_join_pipe.Unchained.{
  Entry, HashTable, no_entry, entry_size, num_partitions, first_slot, count_entries, assign_starts,
  place_entries, post_process_build,
}
use optimized_hash_join_pipe.Unchained.Words.{pointer}
use optimized_hash_join_pipe.Unchained.Slots.{IsShift, width, width_bounds, first_slot-mul}
use optimized_hash_join_pipe.Unchained.Counting.{size, Counted, count_entries-Counted}
use optimized_hash_join_pipe.Unchained.Starts.{Started, assign_starts-Started}
use optimized_hash_join_pipe.Unchained.Placing.{Layout, Placed, place_entries-Placed}
use optimized_hash_join_pipe.Unchained.Partition.{
  AllIn, AllIn-AllSlots, sum-size, filled_slot, empty_outside, AllTagged-same, Processed, Ready,
}

module _ (crc32si : ℕ → ℕ → ℕ) (shift : ℕ) (valid : IsShift shift) where
  module _ (p prev : ℕ) (es : List Entry) (t : HashTable) (small : p < num_partitions)
      (all : AllIn crc32si p es) (ready : Ready crc32si shift valid p prev es t) where
    abbrev first : ℕ
    first = p * width shift

    abbrev total : ℕ → ℕ
    total n = sum_range (size crc32si shift es) first n

    total_all : total (width shift) ≡ length es
    total_all = sum-size crc32si shift valid p es all

    last_slot : first + width shift ≤ num_partitions * width shift
    last_slot = grind (arith, width_bounds shift valid)

    abbrev start : ℕ → ℕ
    start s = prev + total (s - first)

    size_fits :
        (s : ℕ) → 0 < size crc32si shift es s → start s + size crc32si shift es s ≤ prev + length es
    size_fits s l =
        let (low, high) = filled_slot crc32si shift valid p es s all l in
        omega (
          arith,
          total_all,
          sum_range-lt (size crc32si shift es) first (s - first) (width shift) (omega arith),
          ap (size crc32si shift es) (let e : first + (s - first) ≡ s = omega arith in e),
        )

    counted :
        Returns (count_entries crc32si shift t.directory es) (Counted crc32si shift t.directory es)
    counted =
        count_entries-Counted crc32si shift es t.directory (num_partitions * width shift)
          (omega (arith, ready.words)) (AllIn-AllSlots crc32si shift valid p es all)
          (λ s l.
            let (low, high) = filled_slot crc32si shift valid p es s all l in
            omega (
              arith,
              ap (λ (w : ℕ). w / 2 ^ 16) (ready.fresh s low high),
              size_fits s l,
              ready.room,
              ready.addresses,
            ))

    abbrev sized : List ℕ
    sized = counted.0

    sized-pointer :
        (s : ℕ)
        → first ≤ s
        → s < first + width shift
        → pointer sized s ≡ entry_size * size crc32si shift es s
    sized-pointer s low high =
        omega (arith, counted.2.sizes s, ap (λ (w : ℕ). w / 2 ^ 16) (ready.fresh s low high))

    sized_sum : (n : ℕ) → n ≤ width shift → sum_range (pointer sized) first n ≡ entry_size * total n
    sized_sum n h =
        sum_range_congr (pointer sized) (λ s. entry_size * size crc32si shift es s) first n
          (λ s low high. sized-pointer s low (omega arith))
        ∙ sum_range-mul entry_size (size crc32si shift es) first n

    abbrev cur : ℕ
    cur = t.base + entry_size * prev

    started :
        Returns
          (assign_starts sized first (width shift) cur)
          (Started sized first (width shift) cur)
    started =
        assign_starts-Started (width shift) sized first cur
          (omega (arith, counted.2.same_length, ready.words, last_slot))
          (omega
            (arith, sized_sum (width shift) (omega arith), total_all, ready.room, ready.addresses))

    started_pointer :
        (j : ℕ)
        → j < width shift
        → pointer started.0 (first + j) ≡ t.base + entry_size * (prev + total j)
    started_pointer j h = omega (arith, started.2.starts j h, sized_sum j (omega arith))

    start_at :
        (s : ℕ)
        → first ≤ s
        → s < first + width shift
        → pointer started.0 s ≡ t.base + entry_size * start s
    start_at s low high =
        ap (pointer started.0) (let e : s ≡ first + (s - first) = omega arith in e)
        ∙ started_pointer (s - first) (omega arith)

    bucket_before :
        (s s' : ℕ)
        → s < s'
        → 0 < size crc32si shift es s
        → 0 < size crc32si shift es s'
        → start s + size crc32si shift es s ≤ start s'
    bucket_before s s' lt l l' =
        let (low, high) = filled_slot crc32si shift valid p es s all l in
        omega (
          arith,
          sum_range-lt (size crc32si shift es) first (s - first) (s' - first) (omega arith),
          ap (size crc32si shift es) (let e : first + (s - first) ≡ s = omega arith in e),
        )

    layout : Layout crc32si shift t.base started.0 t.tuples es start
    layout = record {
      anchored = λ s l.
          let (low, high) = filled_slot crc32si shift valid p es s all l in start_at s low high;
      inside = λ s l. omega (arith, size_fits s l, ready.room);
      room = λ s l. omega (arith, size_fits s l, ready.room, ready.addresses);
      disjoint = λ s s' j j' ne l l' eq. elim (dec_lt s s') [
        | yes lt ↦ absurd (omega (arith, bucket_before s s' lt (omega arith) (omega arith)))
        | no ge ↦
            absurd (omega (arith, bucket_before s' s (omega arith) (omega arith) (omega arith)))
      ];
    }

    placed :
        Returns
          (place_entries crc32si t.base shift (started.0, t.tuples) es)
          (Placed crc32si shift t.base started.0 t.tuples es start)
    placed =
        place_entries-Placed crc32si shift t.base es started.0 t.tuples start
          (num_partitions * width shift)
          (omega (arith, started.2.same_length, counted.2.same_length, ready.words))
          (AllIn-AllSlots crc32si shift valid p es all) layout

    abbrev result : HashTable
    result = record t { directory = placed.0.0; tuples = placed.0.1 }

    abbrev process_with : ℕ → Option HashTable
    process_with sh = do
      words ← count_entries crc32si sh t.directory es
      let begin = first_slot sh p
      let end = first_slot sh (p + 1)
      located ← assign_starts words begin (end - begin) cur
      (directory, tuples) ← place_entries crc32si t.base sh (located, t.tuples) es
      some (record t { directory = directory; tuples = tuples })

    process_with-result : process_with shift ≡ some result
    process_with-result =
        rw (counted.1, ◌>>=◌)
          (rw
            (
              first_slot-mul shift valid p (omega arith),
              first_slot-mul shift valid (p + 1) (omega arith),
            )
            (rw (let e : (p + 1) * width shift - first ≡ width shift = omega arith in e)
              (rw (started.1, ◌>>=◌) (rw (placed.1, ◌>>=◌)))))

    Processed-result : Processed crc32si shift valid p prev es t result
    Processed-result = record {
      same_base = refl;
      same_shift = refl;
      words_length = placed.2.words_length ∙ started.2.same_length ∙ counted.2.same_length;
      tuples_length = placed.2.tuples_length;
      minus_one = placed.2.minus_one ∙ started.2.minus_one ∙ counted.2.minus_one;
      other_words = λ s out.
          let none = empty_outside crc32si shift valid p es s all out in
          placed.2.untouched s none
          ∙ (elim out [ inl below ↦ started.2.below s below | inr above ↦ started.2.above s above ])
          ∙ counted.2.untouched s none;
      other_tuples = λ i out. placed.2.outside i (λ s j l eq. elim out [
        | inl below ↦ absurd (omega arith)
        | inr above ↦ absurd (omega (arith, size_fits s (omega arith)))
      ]);
      ends = λ j l. omega (
        arith,
        placed.2.ends (first + j),
        started_pointer j l,
        sum_range-last (size crc32si shift es) first j,
      );
      tagged =
          AllTagged-same crc32si shift valid sized placed.0.0 es
            (λ s. placed.2.same_tags s ∙ started.2.same_tags s) counted.2.tagged;
      contents = λ j i l m.
          ap (λ (k : ℕ). get_or placed.0.1 k no_entry)
            (omega (arith, ap total (let e : j ≡ first + j - first = omega arith in e)))
          ∙ placed.2.contents (first + j) i m;
    }

    -- On a table with room, and a partition whose slots are unused and whose entries belong to
    -- it, `postProcessBuild` stays inside the arrays; afterwards the partition's slots end where
    -- their entries end, the entries stand there by slot and in order, the tag of every key is in
    -- its slot, and no word or entry of another partition has changed.
    pub post_process_build-Processed :
        Returns (post_process_build crc32si t p prev es) (Processed crc32si shift valid p prev es t)
    unfolding post_process_build
    post_process_build-Processed =
        (result, ap process_with ready.same_shift ∙ process_with-result, Processed-result)
