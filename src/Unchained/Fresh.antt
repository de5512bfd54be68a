-- ===== src/Unchained/Fresh.antt =====
-- The constructor: the smallest power of two above the size, at least 512, and a zeroed directory.
use native.Mathlib.Nat.{pow-suc, pow-le-pow_right}
use optimized_hash_join_pipe.Base.{
  ℕ, zero, suc, ◌+◌, ◌-◌, ◌*◌, ◌/◌, ◌%◌, ◌^◌, ◌<◌, ◌≤◌, ◌≡◌, refl, arith, ap, ◌∙◌, ◌⊎◌, inl, inr,
  leb, false, ◌∷◌, replicate, Bool-cases, length, get_or, length-replicate, get_or-replicate,
}
use optimized_hash_join_pipe.Base.Partial.{Returns, ◌>>=◌}
use optimized_hash_join_pipe.Unchained.{HashTable, no_entry, num_partitions, grow_shift, new}
use optimized_hash_join_pipe.Unchained.Words.{word}
use optimized_hash_join_pipe.Unchained.Slots.{IsShift, width, slots_total}

-- The first exponent from `from` on whose power is above `sz`.
abbrev Least : ℕ → ℕ → ℕ → Type 0
Least from sz k = (from ≤ k) × (sz < 2 ^ k) × ((k ≡ from) ⊎ (2 ^ (k - 1) ≤ sz))

grow_shift-Least :
    (rounds from sz : ℕ)
    → sz < 2 ^ (from + rounds)
    → Returns (grow_shift (suc rounds) from sz) λ k. Least from sz k × (k ≤ from + rounds)
unfolding grow_shift
grow_shift-Least zero from sz small =
    let above : leb (2 ^ from) sz ≡ false =
      ground (arith, ap (λ (x : ℕ). 2 ^ x) (let e : from + 0 ≡ from = omega arith in e)) in
    (from, rw above, ((omega arith, ground arith, inl refl), omega arith))
grow_shift-Least (suc r) from sz small = elim (Bool-cases (leb (2 ^ from) sz)) [
  | inr above ↦ (from, rw above, ((omega arith, ground arith, inl refl), omega arith))
  | inl below ↦
      let (k, run, ((low, above, least), high)) = grow_shift-Least r (from + 1) sz (
        omega (
          arith,
          ap (λ (x : ℕ). 2 ^ x) (let e : from + 1 + r ≡ from + suc r = omega arith in e),
        )) in
      (
        k,
        rw below run,
        (
          (
            omega arith,
            above,
            inr (elim least [
              | inl e ↦
                  ground (arith, ap (λ (x : ℕ). 2 ^ x) (let f : k - 1 ≡ from = omega arith in f))
              | inr h ↦ h
            ]),
          ),
          omega arith,
        ),
      )
]

-- An empty table for at least `sz` entries.
pub record Fresh (base sz : ℕ) (t : HashTable) : Type 0 where
  pub same_base : t.base ≡ base
  pub shift_valid : IsShift t.shift
  pub words : length t.directory ≡ num_partitions * width t.shift + 1
  pub tuples_length : length t.tuples ≡ t.capacity
  pub enough : sz < t.capacity
  pub bounded : t.capacity ≤ 2 ^ 30
  pub least : (t.capacity ≡ 512) ⊎ (t.capacity ≤ 2 * sz)
  pub minus_one : get_or t.directory 0 0 / 2 ^ 16 ≡ base
  pub zeroed : (s : ℕ) → word t.directory s ≡ 0

-- The table of the constructor, from the exponent.
abbrev made : ℕ → ℕ → HashTable
made base k = record {
  directory = base * 2 ^ 16 % 2 ^ 64 ∷ replicate (2 ^ k) 0;
  tuples = replicate (2 ^ k) no_entry;
  base = base;
  shift = 64 - k;
  capacity = 2 ^ k;
}

-- For fewer than 2^30 entries at an address below 2^48 the constructor succeeds: its capacity is
-- above the size, at most 2^30, and 512 or at most twice the size; the shift fits it, every slot
-- is zero, and the word before the slots points to the first entry.
pub new-Fresh : (base sz : ℕ) → sz < 2 ^ 30 → base < 2 ^ 48 → Returns (new base sz) (Fresh base sz)
unfolding new
new-Fresh base sz small address =
    let (k, run, ((low, above, least), high)) = grow_shift-Least 21 9 sz small in
    let valid : IsShift (64 - k) = record { low = omega arith; high = omega arith } in
    let exponent : 2 ^ k ≡ num_partitions * width (64 - k) =
      ap (λ (x : ℕ). 2 ^ x) (let e : k ≡ 64 - (64 - k) = omega arith in e)
      ∙ slots_total (64 - k) valid in
    (
      made base k,
      rw (run, ◌>>=◌),
      record {
        same_base = refl;
        shift_valid = valid;
        words = omega (arith, length-replicate {A = ℕ} (2 ^ k) 0, exponent);
        tuples_length = length-replicate (2 ^ k) no_entry;
        enough = above;
        bounded = pow-le-pow_right (omega arith) {j = 30} (omega arith);
        least = elim least [
          | inl e ↦ inl (ap (λ (x : ℕ). 2 ^ x) e)
          | inr h ↦ inr (
              omega (
                arith,
                h,
                pow-suc 2 (k - 1),
                ap (λ (x : ℕ). 2 ^ x) (let e : k ≡ suc (k - 1) = omega arith in e),
              ))
        ];
        minus_one = omega arith;
        zeroed = λ s.
            ap (λ (i : ℕ). get_or (base * 2 ^ 16 % 2 ^ 64 ∷ replicate (2 ^ k) 0) i 0)
              (let e : s + 1 ≡ suc s = omega arith in e)
            ∙ get_or-replicate (2 ^ k) s 0;
      },
    )
