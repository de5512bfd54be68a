-- ===== src/Build/Order.antt =====
-- The loops `for (p = t; p < NUM_PARTITIONS; p += num_threads)` of all threads visit every partition
-- exactly once.
use native.Mathlib.Nat.{
  mod-eq_of_lt, add-mod_right, mod-add-mod, mul-mod_right, div-add-mod, mod-lt,
}
use optimized_hash_join_pipe.Base.{
  ℕ, zero, suc, ◌+◌, ◌-◌, ◌*◌, ◌/◌, ◌%◌, ◌<◌, ◌≤◌, ◌≡◌, ◌≢◌, arith, ap, ap₂, ◌∙◌, Bool, dec_lt,
  ℕ_discrete, lt→ltb, sym, List, [], ◌∷◌, ◌++◌, ◌==◌, ltb, leb, ◌&&◌, to_nat, sum_range,
  sum_range-point, sum_range-suc, sum_range-zero,
}
use optimized_hash_join_pipe.Unchained.{num_partitions}
use optimized_hash_join_pipe.Build.{strided, thread_order}
use optimized_hash_join_pipe.Build.Process.{times}

times-append : (p : ℕ) (xs ys : List ℕ) → times p (xs ++ ys) ≡ times p xs + times p ys
times-append p [] ys = omega arith
times-append p (x ∷ xs) ys = omega (arith, times-append p xs ys)

module _ (n : ℕ) (pos : 0 < n) where
  -- `q` is reached from `p` in steps of `n`.
  abbrev reaches : ℕ → ℕ → Bool
  reaches p q = leb p q && (ltb q num_partitions && ((q - p) % n == 0))

  reaches-step :
      (p q : ℕ)
      → p < num_partitions
      → to_nat (q == p) + to_nat (reaches (p + n) q) ≡ to_nat (reaches p q)
  reaches-step p q small = elim (dec_lt q (p + n)) [
    | yes l ↦ elim (dec_lt q p) [
      | yes below ↦ ground arith
      | no above ↦ let e : (q - p) % n ≡ q - p = mod-eq_of_lt (omega arith) in ground (arith, e)
    ]
    | no ge ↦
        let e : (q - p) % n ≡ (q - (p + n)) % n =
          ap (λ (x : ℕ). x % n) (let e : q - p ≡ q - (p + n) + n = omega arith in e)
          ∙ add-mod_right (q - (p + n)) n in
        ground (arith, e)
  ]

  times-strided :
      (q p rounds : ℕ)
      → num_partitions ≤ p + rounds
      → times q (strided n p rounds) ≡ to_nat (reaches p q)
  unfolding strided
  times-strided q p zero enough = ground arith
  times-strided q p (suc rounds) enough = elim (dec_lt p num_partitions) [
    | yes l ↦
        rw (lt→ltb p num_partitions l)
          (omega (arith, times-strided q (p + n) rounds (omega arith), reaches-step p q l))
    | no ge ↦ ground arith
  ]

  -- The thread that visits a partition is its remainder.
  reaches-remainder :
      (t q : ℕ) → t < n → to_nat (reaches t q) ≡ to_nat (ltb q num_partitions) * to_nat (q % n == t)
  reaches-remainder t q l = elim (dec_lt q t) [
    | yes below ↦ let e : q % n ≡ q = mod-eq_of_lt (omega arith) in ground (arith, e)
    | no above ↦ elim (ℕ_discrete ((q - t) % n) 0) [
      | yes hit ↦
          let e : q % n ≡ t =
            ap (λ (x : ℕ). x % n) (let e : q ≡ q - t + t = omega arith in e)
            ∙ sym (mod-add-mod (q - t) n t)
            ∙ ap (λ (x : ℕ). (x + t) % n) hit
            ∙ ap (λ (x : ℕ). x % n) (let e : 0 + t ≡ t = omega arith in e)
            ∙ mod-eq_of_lt l in
          ground (arith, e, hit)
      | no miss ↦
          let ne : q % n ≢ t = λ e. miss (
            ap (λ (x : ℕ). x % n)
              (let f : q - t ≡ n * (q / n) = omega (arith, div-add-mod q n, e) in f)
            ∙ mul-mod_right n (q / n)) in
          ground (arith, ne, miss)
    ]
  ]

  times-thread_order_from :
      (q t rounds : ℕ)
      → t + rounds ≤ n
      → times q (thread_order n t rounds)
        ≡ to_nat (ltb q num_partitions) * sum_range (λ s. to_nat (q % n == s)) t rounds
  unfolding thread_order
  times-thread_order_from q t zero fits =
      rw (sum_range-zero (λ s. to_nat (q % n == s)) t) (omega arith)
  times-thread_order_from q t (suc rounds) fits =
      let rest = times-thread_order_from q (t + 1) rounds (omega arith) in
      let sum = sum_range-suc (λ s. to_nat (q % n == s)) t rounds in
      times-append q (strided n t num_partitions) (thread_order n (t + 1) rounds)
      ∙ ap₂ ◌+◌
          (times-strided q t num_partitions (omega arith) ∙ reaches-remainder t q (omega arith))
          rest
      ∙ (rw sum (omega arith))

  -- With at least one thread, the loops `for (p = t; p < NUM_PARTITIONS; p += num_threads)` of
  -- all threads together visit each of the 64 partitions exactly once, and nothing else.
  pub times-thread_order : (q : ℕ) → times q (thread_order n 0 n) ≡ to_nat (ltb q num_partitions)
  times-thread_order q =
      times-thread_order_from q 0 n (omega arith)
      ∙ rw (sum_range-point (q % n) 0 n (omega arith) (omega (arith, mod-lt q pos))) (omega arith)
