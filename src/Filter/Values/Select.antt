-- ===== src/Filter/Values/Select.antt =====
-- The comparisons select, over all threads of the pool, the rows that hold a value that passes the
-- test.
use optimized_hash_join_pipe.Base.{
  ℕ, zero, suc, ◌+◌, ◌-◌, ◌*◌, ◌/◌, ◌%◌, ◌^◌, ◌<◌, ◌≤◌, min, ◌≡◌, refl, arith, ap, ◌∙◌, subst, ◌==◌,
  Bool, false, Option, some, none, List, length, get_or, set, bit_or, bit_and, to_nat, bit,
  bit-bit_and, bit-pow, bit-shifted,
}
use optimized_hash_join_pipe.Base.Partial.{Returns, ◌>>=◌, load-get_or, store-set}
use optimized_hash_join_pipe.Filter.{filter_run}
use optimized_hash_join_pipe.Filter.Shares.{run-Done}
use optimized_hash_join_pipe.Filter.Bitmap.Rows.{row_bit, Bytes}
use optimized_hash_join_pipe.Filter.Bitmap.Selecting.{Selecting, zeros-Selecting, next_row}
use optimized_hash_join_pipe.Filter.Values.{
  InnerColumn, compare_row, compare_rows, select_rows, zeros,
}
use optimized_hash_join_pipe.Filter.Values.Stored.{Stored, present, value_or, get_or-none}

-- A row passes if it holds a value that does.
abbrev pub passes {ℓ} : {T : Type ℓ} → (T → Bool) → Option T → Bool
passes test none = false
passes test (some v) = test v

module _ {T : Type 0} (blank : T) (test : T → Bool) (c : InnerColumn T) (rows : List (Option T))
    (s : Stored blank c rows) where
  abbrev answer : ℕ → Bool
  answer i = passes test (get_or rows i none)

  abbrev width : ℕ
  width = length c.bitmap

  one_bit :
      (o : Option T)
      → min (to_nat (present o)) (to_nat (test (value_or blank o))) ≡ to_nat (passes test o)
  one_bit none = ground arith
  one_bit (some v) = ground arith

  -- The bit that a round sets.
  bit_set :
      (m k : ℕ)
      → k < 8
      → bit k (
          bit_and
            (bit_and (get_or c.bitmap (m / 8) 0) (2 ^ (m % 8)))
            (to_nat (test (get_or c.values m blank)) * 2 ^ (m % 8)))
        ≡ min (to_nat (answer m)) (to_nat (k == m % 8))
  bit_set m k l =
      bit-bit_and k (bit_and (get_or c.bitmap (m / 8) 0) (2 ^ (m % 8)))
        (to_nat (test (get_or c.values m blank)) * 2 ^ (m % 8))
      ∙ ground (
        arith,
        bit-bit_and k (get_or c.bitmap (m / 8) 0) (2 ^ (m % 8)),
        bit-pow k (m % 8),
        bit-shifted (test (get_or c.values m blank)) k (m % 8),
        at_row,
        s.marked.bits m,
        one_bit (get_or rows m none),
        ap (λ v. to_nat (test v)) (s.values m),
      )
    where
      at_row : k ≡ m % 8 → bit k (get_or c.bitmap (m / 8) 0) ≡ row_bit c.bitmap m
      at_row e = ap (λ (j : ℕ). bit j (get_or c.bitmap (m / 8) 0)) e

  compare_row-Selecting :
      (ret : List ℕ) (byte_begin i : ℕ)
      → byte_begin * 8 + i < length rows
      → Selecting answer width (byte_begin * 8 + i) ret
      → Returns
          (compare_row test c byte_begin ret i)
          (Selecting answer width (byte_begin * 8 + i + 1))
  unfolding compare_row
  compare_row-Selecting ret byte_begin i l sel =
      let m = byte_begin * 8 + i in
      let byte : byte_begin + i / 8 ≡ m / 8 = omega arith in
      let place : i % 8 ≡ m % 8 = omega arith in
      let w : ℕ =
        bit_and (bit_and (get_or c.bitmap (m / 8) 0) (2 ^ (m % 8)))
          (to_nat (test (get_or c.values m blank)) * 2 ^ (m % 8)) in
      let inside : m / 8 < width = omega (arith, s.marked.width) in
      (
        set ret (m / 8) (bit_or (get_or ret (m / 8) 0) w % 2 ^ 8),
        rw (byte, place, load-get_or c.bitmap (m / 8) 0 inside, ◌>>=◌)
            (rw (load-get_or c.values m blank (omega (arith, s.count)), ◌>>=◌)
              (rw (load-get_or ret (m / 8) 0 (omega (arith, sel.same_width)), ◌>>=◌)
                (store-set ret (m / 8) (bit_or (get_or ret (m / 8) 0) w % 2 ^ 8)
                  (omega (arith, sel.same_width))))),
        next_row answer width m ret sel w inside (bit_set m),
      )

  compare_rows-Selecting :
      (rounds : ℕ) (ret : List ℕ) (byte_begin i : ℕ)
      → byte_begin * 8 + i + rounds ≤ length rows
      → Selecting answer width (byte_begin * 8 + i) ret
      → Returns
          (compare_rows test c byte_begin ret i rounds)
          (Selecting answer width (byte_begin * 8 + i + rounds))
  unfolding compare_rows
  compare_rows-Selecting zero ret byte_begin i l sel =
      (ret, refl, subst (λ (m : ℕ). Selecting answer width m ret) (omega arith) sel)
  compare_rows-Selecting (suc rounds) ret byte_begin i l sel =
      let (next, first, mid) = compare_row-Selecting ret byte_begin i (omega arith) sel in
      let (last, rest, done) =
        compare_rows-Selecting rounds next byte_begin (i + 1) (omega arith)
          (subst (λ (m : ℕ). Selecting answer width m next) (omega arith) mid) in
      (
        last,
        rw (first, ◌>>=◌) rest,
        subst (λ (m : ℕ). Selecting answer width m last) (omega arith) done,
      )

  -- A comparison of a number column, run by the pool's 12 threads, succeeds, and sets the bit of
  -- a row exactly if the row is not null and its value passes the test; all other bits are 0.
  pub select_rows-passes : Returns (select_rows test c) λ ret.
      (length ret ≡ length c.bitmap)
      × Bytes ret
      × ((i : ℕ) → row_bit ret i ≡ to_nat (passes test (get_or rows i none)))
  unfolding select_rows filter_run
  select_rows-passes =
      let n = length c.values in
      let (ret, ran, sel) =
        run-Done 12 ((n + 7) / 8) (omega arith)
          (λ r byte_begin byte_end.
            compare_rows test c byte_begin r 0 (min (byte_end * 8) n - byte_begin * 8))
          (λ b r. Selecting answer width (min (8 * b) n) r)
          (λ r a b less fits sel.
            let rounds = min (b * 8) n - a * 8 in
            let (r', run, done) =
              compare_rows-Selecting rounds r a 0 (omega (arith, s.count))
                (subst (λ (m : ℕ). Selecting answer width m r) (omega arith) sel) in
            (r', run, subst (λ (m : ℕ). Selecting answer width m r') (omega arith) done))
          (zeros width)
          (subst (λ (m : ℕ). Selecting answer width m (zeros width)) (omega arith)
            (zeros-Selecting answer width)) in
      (ret, ran, (sel.same_width, sel.bytes, λ i. sel.bits i ∙ ground (arith, s.count, behind i)))
    where
      behind : (i : ℕ) → length rows ≤ i → to_nat (answer i) ≡ 0
      behind i h = ap (λ o. to_nat (passes test o)) (get_or-none blank rows i h)
