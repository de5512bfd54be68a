-- ===== src/Filter/Bitmap/Selecting.antt =====
-- A bitmap that is filled row by row with the answers of a test, by `|=` of single bits.
use optimized_hash_join_pipe.Base.{
  ℕ, ◌+◌, ◌/◌, ◌%◌, ◌^◌, ◌<◌, min, max, ◌≡◌, arith, ap, ◌∙◌, ◌==◌, ltb, if◌then◌else◌, Bool, true,
  false, List, length, replicate, length-replicate, get_or-replicate, get_or, set, get_or-set,
  length-set, bit_or, to_nat, bit, bit-bit_or, bit-mod, bit-zero, bit-le, ℕ_discrete,
}
use optimized_hash_join_pipe.Filter.Bitmap.Rows.{row_bit, Bytes, row_bit-set}

-- The answers for the rows before `m`; no other bit is set.
pub record Selecting (passes : ℕ → Bool) (width m : ℕ) (ret : List ℕ) : Type 0 where
  pub same_width : length ret ≡ width
  pub bits : (i : ℕ) → row_bit ret i ≡ (if ltb i m then to_nat (passes i) else 0)
  pub bytes : Bytes ret

pub zeros-Selecting : (passes : ℕ → Bool) (width : ℕ) → Selecting passes width 0 (replicate width 0)
zeros-Selecting passes width = record {
  same_width = length-replicate {A = ℕ} width 0;
  bits = λ i.
      ap (bit (i % 8)) (get_or-replicate {A = ℕ} width (i / 8) 0) ∙ bit-zero (i % 8) ∙ ground arith;
  bytes = λ k. omega (arith, get_or-replicate {A = ℕ} width k 0);
}

module _ (passes : ℕ → Bool) (width m : ℕ) (ret : List ℕ) (s : Selecting passes width m ret) where
  -- The next row, whose bit alone may be set in `x`.
  pub next_row :
      (x : ℕ)
      → m / 8 < width
      → ((k : ℕ) → k < 8 → bit k x ≡ min (to_nat (passes m)) (to_nat (k == m % 8)))
      → Selecting passes width (m + 1) (set ret (m / 8) (bit_or (get_or ret (m / 8) 0) x % 2 ^ 8))
  next_row x inside single =
      let l : m / 8 < length ret = omega (arith, s.same_width) in
      let w = bit_or (get_or ret (m / 8) 0) x % 2 ^ 8 in
      record {
        same_width = length-set ret (m / 8) w ∙ s.same_width;
        bits = λ i. row_bit-set ret (m / 8) w i l ∙ elim (ℕ_discrete (m / 8) (i / 8)) [
          | yes e ↦
              let here : bit (i % 8) w ≡ max (row_bit ret i) (bit (i % 8) x) =
                bit-mod 8 (i % 8) (bit_or (get_or ret (m / 8) 0) x) (omega arith)
                ∙ bit-bit_or (i % 8) (get_or ret (m / 8) 0) x
                ∙ ap (λ (b : ℕ). max (bit (i % 8) (get_or ret b 0)) (bit (i % 8) x)) e in
              rw (let t : (m / 8 == i / 8) ≡ true = ground arith in t) (here ∙ merge i e)
          | no ne ↦
              rw (let t : (m / 8 == i / 8) ≡ false = ground arith in t)
                (s.bits i ∙ rw (let t : ltb i (m + 1) ≡ ltb i m = ground arith in t))
        ];
        bytes = λ k. ground (arith, get_or-set ret (m / 8) k w 0 l, s.bytes k);
      }
    where
      merge :
          (i : ℕ)
          → m / 8 ≡ i / 8
          → max (row_bit ret i) (bit (i % 8) x) ≡ (if ltb i (m + 1) then to_nat (passes i) else 0)
      merge i e = elim (ℕ_discrete i m) [
        | yes f ↦
            ground
              (arith, s.bits i, single (i % 8) (omega arith), ap (λ (j : ℕ). to_nat (passes j)) f)
        | no ne ↦ ground (arith, s.bits i, single (i % 8) (omega arith), bit-le (i % 8) x)
      ]
