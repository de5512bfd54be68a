-- ===== src/Unchained/Found.antt =====
-- A probe of a table whose partitions have all been built.
use optimized_hash_join_pipe.Base.{
  ℕ, zero, suc, ◌+◌, ◌-◌, ◌*◌, ◌/◌, ◌^◌, ◌<◌, ◌≤◌, ◌≡◌, refl, arith, ap, ap₂, ◌∙◌, List, map,
  length, get_or, some, ◌==◌, Bool, false, Bool-cases, sum_range, sum_range-last, sum_range-zero,
  sum_range-lt, inl, inr, if◌then◌else◌, bit_and,
}
use optimized_hash_join_pipe.Base.Partial.{◌>>=◌, load-get_or}
use optimized_hash_join_pipe.Hash.{crc_hash, could_contain}
use optimized_hash_join_pipe.Hash.TagLaws.{tag_of, tag_at-tag_of}
use optimized_hash_join_pipe.Unchained.{
  Entry, HashTable, no_entry, entry_size, num_partitions, slot_of, lookup, scan_range, probe,
}
use optimized_hash_join_pipe.Unchained.Words.{pointer, tag_bits}
use optimized_hash_join_pipe.Unchained.Slots.{
  IsShift, partition_of, width, width_bounds, slot_within, partition-lt, slot-lt,
}
use optimized_hash_join_pipe.Unchained.Counting.{bucket, size, HasTag}
use optimized_hash_join_pipe.Unchained.Partition.{sum-size}
use optimized_hash_join_pipe.Unchained.Probe.{
  rows_of, offset, scan_range-rows_of, select-bucket, select-untagged, Built, Shape,
}

module _ (crc32si : ℕ → ℕ → ℕ) (shift : ℕ) where
  module _ (valid : IsShift shift) (entries : ℕ → List Entry) (t : HashTable)
      (shape : Shape crc32si shift entries t)
      (built : (p : ℕ) → p < num_partitions → Built crc32si shift entries p t) (key : ℕ) where
    abbrev part : ℕ
    part = partition_of crc32si key

    abbrev slot : ℕ
    slot = slot_of crc32si shift key

    abbrev es : List Entry
    es = entries part

    part-lt : part < num_partitions
    part-lt = partition-lt shift valid crc32si key

    within : (part * width shift ≤ slot) × (slot < part * width shift + width shift)
    within = slot_within shift valid crc32si key part refl

    abbrev rank : ℕ
    rank = slot - part * width shift

    abbrev done : Built crc32si shift entries part t
    done = built part part-lt

    abbrev total : ℕ → ℕ
    total n = sum_range (size crc32si shift es) (part * width shift) n

    end_pointer :
        pointer t.directory slot ≡ t.base + entry_size * (offset entries part + total (suc rank))
    end_pointer =
        ap (pointer t.directory)
          (let e : slot ≡ part * width shift + rank = omega (arith, within) in e)
        ∙ done.ends rank (omega (arith, within))

    -- The word before a partition's first slot points to the partition's first entry.
    first_pointer :
        (p : ℕ)
        → p < num_partitions
        → get_or t.directory (p * width shift) 0 / 2 ^ 16 ≡ t.base + entry_size * offset entries p
    first_pointer zero l =
        ap (λ (i : ℕ). get_or t.directory i 0 / 2 ^ 16)
          (let e : 0 * width shift ≡ 0 = omega arith in e)
        ∙ shape.minus_one
        ∙ omega (arith, sum_range-zero (λ q. length (entries q)) 0)
    first_pointer (suc p) l =
        let w = width_bounds shift valid in
        let before = built p (omega arith) in
        ap (λ (i : ℕ). get_or t.directory i 0 / 2 ^ 16)
          (let e : suc p * width shift ≡ p * width shift + (width shift - 1) + 1 =
              omega (arith, w) in
            e)
        ∙ before.ends (width shift - 1) (omega (arith, w))
        ∙ omega (
          arith,
          sum-size crc32si shift valid p (entries p) before.all_in,
          sum_range-last (λ q. length (entries q)) 0 p,
          ap (sum_range (size crc32si shift (entries p)) (p * width shift))
              (let e : suc (width shift - 1) ≡ width shift = omega (arith, w) in e),
          ap (λ (q : ℕ). length (entries q)) (let e : 0 + p ≡ p = omega arith in e),
        )

    start_pointer :
        (j : ℕ)
        → j ≡ rank
        → get_or t.directory slot 0 / 2 ^ 16 ≡ t.base + entry_size * (offset entries part + total j)
    start_pointer zero e =
        ap (λ (i : ℕ). get_or t.directory i 0 / 2 ^ 16)
          (let e : slot ≡ part * width shift = omega (arith, within) in e)
        ∙ first_pointer part part-lt
        ∙ omega (arith, sum_range-zero (size crc32si shift es) (part * width shift))
    start_pointer (suc j) e =
        ap (λ (i : ℕ). get_or t.directory i 0 / 2 ^ 16)
          (let e : slot ≡ part * width shift + j + 1 = omega (arith, within) in e)
        ∙ done.ends j (omega (arith, within))

    tag_there : Bool
    tag_there =
        bit_and (tag_of (crc_hash crc32si key)) (2 ^ 16 - 1 - tag_bits t.directory slot) == 0

    same_slot : slot_of crc32si t.shift key ≡ slot
    same_slot = ap (λ sh. slot_of crc32si sh key) shape.same_shift

    slot_inside : slot + 1 < length t.directory
    slot_inside = omega (arith, shape.words, slot-lt shift valid crc32si key)

    could_contain-tag_there :
        could_contain (tag_bits t.directory slot) (crc_hash crc32si key) ≡ some tag_there
    unfolding could_contain tag_there
    could_contain-tag_there = rw (tag_at-tag_of (crc_hash crc32si key), ◌>>=◌)

    lookup_cases : lookup crc32si t key ≡ (
        if tag_there
        then some (get_or t.directory slot 0 / 2 ^ 16, pointer t.directory slot)
        else some (0, 0))
    unfolding lookup
    lookup_cases = rw same_slot (
        rw (load-get_or t.directory (slot + 1) 0 slot_inside, ◌>>=◌)
          (rw (could_contain-tag_there, ◌>>=◌)
            (rw (load-get_or t.directory slot 0 (omega (arith, slot_inside)), ◌>>=◌))))

    bucket_scan :
        scan_range t key
          (t.base + entry_size * (offset entries part + total rank))
          (size crc32si shift es slot)
        ≡ some (rows_of key es)
    bucket_scan =
        scan_range-rows_of t key (bucket crc32si shift slot es) (offset entries part + total rank)
          fits same
        ∙ ap (λ xs. some (map (λ e. e.row_idx) xs)) (select-bucket crc32si shift key es)
      where
        at_slot : part * width shift + rank ≡ slot
        at_slot = omega (arith, within)

        fits : offset entries part + total rank + size crc32si shift es slot ≤ length t.tuples
        fits = omega (
          arith,
          shape.fits,
          sum-size crc32si shift valid part es done.all_in,
          sum_range-lt (size crc32si shift es) (part * width shift) rank (width shift)
              (omega (arith, within)),
          sum_range-lt (λ q. length (entries q)) 0 part num_partitions part-lt,
          ap (size crc32si shift es) at_slot,
          ap (λ (q : ℕ). length (entries q)) (let e : 0 + part ≡ part = omega arith in e),
        )

        same :
            (i : ℕ)
            → i < size crc32si shift es slot
            → get_or t.tuples (offset entries part + total rank + i) no_entry
              ≡ get_or (bucket crc32si shift slot es) i no_entry
        same i l =
            done.contents rank i (omega (arith, within))
              (omega (arith, ap (size crc32si shift es) at_slot))
            ∙ ap (λ s. get_or (bucket crc32si shift s es) i no_entry) at_slot

    rounds :
        (pointer t.directory slot - get_or t.directory slot 0 / 2 ^ 16 + (entry_size - 1))
          / entry_size
        ≡ size crc32si shift es slot
    rounds = omega (
      arith,
      start_pointer rank refl,
      end_pointer,
      sum_range-last (size crc32si shift es) (part * width shift) rank,
      ap (size crc32si shift es)
          (let e : part * width shift + rank ≡ slot = omega (arith, within) in e),
    )

    tag_missing : tag_there ≡ false → ¬ HasTag crc32si shift t.directory key
    unfolding tag_there
    tag_missing missing h = ground arith

    -- On a table whose 64 partitions have all been built, the probe of a key stays inside the
    -- arrays and finds exactly the row indices of the entries of the key's partition that have
    -- the key, in the order of those entries.
    pub probe-rows_of : probe crc32si t key ≡ some (rows_of key es)
    unfolding probe scan_range
    probe-rows_of = elim (Bool-cases tag_there) [
      | inl found ↦
          rw (lookup_cases, found, ◌>>=◌)
            (ap₂ (scan_range t key) (start_pointer rank refl) rounds ∙ bucket_scan)
      | inr missing ↦
          rw (lookup_cases, missing, ◌>>=◌)
            (rw
              (select-untagged crc32si shift key t.directory es done.tagged (tag_missing missing)))
    ]
