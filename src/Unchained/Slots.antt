-- ===== src/Unchained/Slots.antt =====
-- Which slots belong to which partition: the top bits of the hash.
use native.Mathlib.Nat.{pow-zero, pow-suc, div-div-eq-div-mul, one-le-pow, pow-le-pow_right}
use optimized_hash_join_pipe.Base.{
  ℕ, zero, suc, ◌+◌, ◌-◌, ◌*◌, ◌/◌, ◌^◌, ◌<◌, ◌≤◌, ◌≡◌, arith, ap, ◌∙◌, sym, subst,
}
use optimized_hash_join_pipe.Hash.{crc_hash}
use optimized_hash_join_pipe.Unchained.{num_partitions, first_slot, slot_of}

pub pow_add : (b m n : ℕ) → b ^ (m + n) ≡ b ^ m * b ^ n
pow_add b zero n =
    let e : zero + n ≡ n = omega arith in
    rw e (omega (arith, ap (λ (t : ℕ). t * b ^ n) (pow-zero b)))
pow_add b (suc m) n =
    ap (λ (t : ℕ). b ^ t) (let e : suc m + n ≡ suc (m + n) = omega arith in e)
    ∙ pow-suc b (m + n)
    ∙ ap (λ (t : ℕ). t * b) (pow_add b m n)
    ∙ regroup
    ∙ ap (λ (t : ℕ). t * b ^ n) (sym (pow-suc b m))
  where
    regroup : b ^ m * b ^ n * b ≡ b ^ m * b * b ^ n
    regroup = omega arith

-- `hash >> (64 - LOG2_NUM_PARTITIONS)`
abbrev pub partition_of : (ℕ → ℕ → ℕ) → ℕ → ℕ
partition_of crc32si key = crc_hash crc32si key / 2 ^ 58

-- The number of slots of a partition.
pub width : ℕ → ℕ
width shift = 2 ^ (58 - shift)

-- The shifts that the constructor chooses.
pub record IsShift (shift : ℕ) : Type 0 where
  pub low : 34 ≤ shift
  pub high : shift ≤ 55

module _ (shift : ℕ) (valid : IsShift shift) where
  pub slots_total : 2 ^ (64 - shift) ≡ num_partitions * width shift
  unfolding width
  slots_total =
      ap (λ (t : ℕ). 2 ^ t) (let e : 64 - shift ≡ 6 + (58 - shift) = omega arith in e)
      ∙ pow_add 2 6 (58 - shift)

  pub width_bounds : (0 < width shift) × (width shift ≤ 2 ^ 24)
  unfolding width
  width_bounds = (
    one-le-pow (58 - shift) 2 (omega arith),
    pow-le-pow_right (omega arith) {j = 24} (omega arith),
  )

  pub first_slot-mul : (p : ℕ) → p ≤ num_partitions → first_slot shift p ≡ p * width shift
  unfolding first_slot
  first_slot-mul p h = rw slots_total (ground (arith, width_bounds, room))
    where
      room : p * width shift ≤ 64 * 2 ^ 24
      room = grind (arith, width_bounds)

  slots_wide : 2 ^ 58 ≡ 2 ^ shift * width shift
  unfolding width
  slots_wide =
      ap (λ (t : ℕ). 2 ^ t) (let e : 58 ≡ shift + (58 - shift) = omega arith in e)
      ∙ pow_add 2 shift (58 - shift)

  -- The slots of a key's partition are those that start with the same bits.
  pub slot-div-width :
      (crc32si : ℕ → ℕ → ℕ) (key : ℕ)
      → slot_of crc32si shift key / width shift ≡ partition_of crc32si key
  unfolding slot_of
  slot-div-width crc32si key =
      div-div-eq-div-mul (crc_hash crc32si key) (2 ^ shift) (width shift)
      ∙ ap (λ (t : ℕ). crc_hash crc32si key / t) (sym slots_wide)

  module _ (crc32si : ℕ → ℕ → ℕ) (key : ℕ) where
    pub partition-lt : partition_of crc32si key < num_partitions
    unfolding crc_hash
    partition-lt = omega arith

    -- Every slot of a partition lies between its first slot and that of the next partition.
    pub slot_in_partition :
        (partition_of crc32si key * width shift ≤ slot_of crc32si shift key)
        × (slot_of crc32si shift key < (partition_of crc32si key + 1) * width shift)
    slot_in_partition = rw (← slot-div-width crc32si key) (grind (arith, width_bounds))

    pub slot-lt : slot_of crc32si shift key < num_partitions * width shift
    slot-lt = grind (arith, slot_in_partition, partition-lt, width_bounds)

    pub slot_within :
        (p : ℕ)
        → partition_of crc32si key ≡ p
        → (p * width shift ≤ slot_of crc32si shift key)
          × (slot_of crc32si shift key < p * width shift + width shift)
    slot_within p e =
        subst
          (λ q.
            (q * width shift ≤ slot_of crc32si shift key)
            × (slot_of crc32si shift key < q * width shift + width shift))
          e (slot_in_partition.0, omega (arith, slot_in_partition))
