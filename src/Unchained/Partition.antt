-- ===== src/Unchained/Partition.antt =====
-- `postProcessBuild` on one partition: what it does to the directory and to the entries.
use optimized_hash_join_pipe.Base.{
  ℕ, suc, ◌+◌, ◌*◌, ◌^◌, ◌<◌, ◌≤◌, ◌≡◌, arith, ◌∙◌, List, [], ◌∷◌, length, get_or, ◌==◌, to_nat,
  sum_range, sum_range_congr, sum_range-add, sum_range-point, sum_range-none, dec_lt, ℕ_discrete,
  subst, ◌⊎◌,
}
use optimized_hash_join_pipe.Unchained.{
  Entry, HashTable, no_entry, entry_size, num_partitions, slot_of,
}
use optimized_hash_join_pipe.Unchained.Words.{word, pointer, tag_bits}
use optimized_hash_join_pipe.Unchained.Slots.{IsShift, partition_of, width, slot_within, slot-lt}
use optimized_hash_join_pipe.Unchained.Counting.{
  bucket, size, size-cons, bucket-cons_ne, AllSlots, AllTagged,
}

module _ (crc32si : ℕ → ℕ → ℕ) where
  abbrev pub AllIn : ℕ → List Entry → Type 0
  AllIn p [] = Unit
  AllIn p (e ∷ es) = (partition_of crc32si e.key ≡ p) × AllIn p es

  module _ (shift : ℕ) (valid : IsShift shift) where
    pub AllIn-AllSlots :
        (p : ℕ) (es : List Entry)
        → AllIn p es
        → AllSlots crc32si shift (num_partitions * width shift) es
    AllIn-AllSlots p [] h = tt
    AllIn-AllSlots p (e ∷ es) h = (slot-lt shift valid crc32si e.key, AllIn-AllSlots p es h.1)

    -- A partition's entries stand in its slots, all of them.
    pub sum-size :
        (p : ℕ) (es : List Entry)
        → AllIn p es
        → sum_range (size crc32si shift es) (p * width shift) (width shift) ≡ length es
    sum-size p [] h = sum_range-none (p * width shift) (width shift)
    sum-size p (e ∷ es) h =
        let (low, high) = slot_within shift valid crc32si e.key p h.0 in
        sum_range_congr _ _ (p * width shift) (width shift)
          (λ s l u. size-cons crc32si shift e es s)
        ∙ sum_range-add (λ s. to_nat (slot_of crc32si shift e.key == s)) (size crc32si shift es)
            (p * width shift) (width shift)
        ∙ omega (
          arith,
          sum_range-point (slot_of crc32si shift e.key) (p * width shift) (width shift) low high,
          sum-size p es h.1,
        )

    pub filled_slot :
        (p : ℕ) (es : List Entry) (s : ℕ)
        → AllIn p es
        → 0 < size crc32si shift es s
        → (p * width shift ≤ s) × (s < p * width shift + width shift)
    filled_slot p [] s h l = absurd (omega arith)
    filled_slot p (e ∷ es) s h l = elim (ℕ_discrete (slot_of crc32si shift e.key) s) [
      | yes eq ↦
          subst (λ s'. (p * width shift ≤ s') × (s' < p * width shift + width shift)) eq
            (slot_within shift valid crc32si e.key p h.0)
      | no ne ↦ filled_slot p es s h.1 (rw (bucket-cons_ne crc32si shift e es s ne) at l)
    ]

    pub empty_outside :
        (p : ℕ) (es : List Entry) (s : ℕ)
        → AllIn p es
        → (s < p * width shift) ⊎ (p * width shift + width shift ≤ s)
        → size crc32si shift es s ≡ 0
    empty_outside p es s all out = elim (dec_lt 0 (size crc32si shift es s)) [
      | yes l ↦ absurd (omega (arith, filled_slot p es s all l))
      | no z ↦ omega arith
    ]

    pub AllTagged-same :
        (before after : List ℕ) (es : List Entry)
        → ((s : ℕ) → tag_bits after s ≡ tag_bits before s)
        → AllTagged crc32si shift before es
        → AllTagged crc32si shift after es
    AllTagged-same before after [] same h = tt
    AllTagged-same before after (e ∷ es) same h =
        (rw (same (slot_of crc32si shift e.key)) h.0, AllTagged-same before after es same h.1)

    -- What one call does. `prev` entries stand before the partition's.
    pub record Processed (p prev : ℕ) (es : List Entry) (t u : HashTable) : Type 0 where
      pub same_base : u.base ≡ t.base
      pub same_shift : u.shift ≡ t.shift
      pub words_length : length u.directory ≡ length t.directory
      pub tuples_length : length u.tuples ≡ length t.tuples
      pub minus_one : get_or u.directory 0 0 ≡ get_or t.directory 0 0
      pub other_words :
          (s : ℕ)
          → (s < p * width shift) ⊎ (p * width shift + width shift ≤ s)
          → word u.directory s ≡ word t.directory s
      pub other_tuples :
          (i : ℕ)
          → (i < prev) ⊎ (prev + length es ≤ i)
          → get_or u.tuples i no_entry ≡ get_or t.tuples i no_entry
      pub ends :
          (j : ℕ)
          → j < width shift
          → pointer u.directory (p * width shift + j)
            ≡ t.base
              + entry_size * (prev + sum_range (size crc32si shift es) (p * width shift) (suc j))
      pub tagged : AllTagged crc32si shift u.directory es
      pub contents :
          (j i : ℕ)
          → j < width shift
          → i < size crc32si shift es (p * width shift + j)
          → get_or u.tuples
              (prev + sum_range (size crc32si shift es) (p * width shift) j + i)
              no_entry
            ≡ get_or (bucket crc32si shift (p * width shift + j) es) i no_entry

    -- What the call needs: arrays of the right size, room, and slots that nothing has used.
    pub record Ready (p prev : ℕ) (es : List Entry) (t : HashTable) : Type 0 where
      pub same_shift : t.shift ≡ shift
      pub words : length t.directory ≡ num_partitions * width shift + 1
      pub room : prev + length es ≤ length t.tuples
      pub addresses : t.base + entry_size * length t.tuples < 2 ^ 48
      pub fresh :
          (s : ℕ) → p * width shift ≤ s → s < p * width shift + width shift → word t.directory s ≡ 0
