-- ===== src/Unchained/Starts.antt =====
-- The middle loop of `postProcessBuild`: each slot of the partition gets the start of its bucket.
use optimized_hash_join_pipe.Base.{
  ℕ, zero, suc, ◌+◌, ◌*◌, ◌/◌, ◌%◌, ◌^◌, ◌<◌, ◌≤◌, ◌≡◌, ◌≢◌, refl, arith, ap, ◌∙◌, List, length,
  get_or, set, length-set, get_or-set_self, get_or-set_ne, bit_or, sum_range, sum_range-suc,
  sum_range-zero, sum_range_congr, ℕ_discrete, subst,
}
use optimized_hash_join_pipe.Base.Partial.{Returns, ◌>>=◌, load-get_or, store-set}
use optimized_hash_join_pipe.Unchained.{assign_starts}
use optimized_hash_join_pipe.Unchained.Words.{word, pointer, tag_bits, start_parts}

pub record Started (before : List ℕ) (i n cur : ℕ) (after : List ℕ) : Type 0 where
  pub same_length : length after ≡ length before
  pub starts : (j : ℕ) → j < n → pointer after (i + j) ≡ cur + sum_range (pointer before) i j
  pub same_tags : (s : ℕ) → tag_bits after s ≡ tag_bits before s
  pub below : (s : ℕ) → s < i → word after s ≡ word before s
  pub above : (s : ℕ) → i + n ≤ s → word after s ≡ word before s
  pub minus_one : get_or after 0 0 ≡ get_or before 0 0

module _ (before : List ℕ) (i cur : ℕ) (inside : i + 1 < length before) (small : cur < 2 ^ 48) where
  start_word : ℕ
  start_word = bit_or (cur * 2 ^ 16 % 2 ^ 64) (word before i % 2 ^ 16)

  abbrev stepped : List ℕ
  stepped = set before (i + 1) start_word

  assign_starts-step :
      (n : ℕ)
      → cur + pointer before i < 2 ^ 48
      → assign_starts before i (suc n) cur
        ≡ assign_starts stepped (i + 1) n (cur + pointer before i)
  unfolding assign_starts start_word
  assign_starts-step n room =
      rw (load-get_or before (i + 1) 0 inside, ◌>>=◌)
        (rw
          (
            store-set before (i + 1) (bit_or (cur * 2 ^ 16 % 2 ^ 64) (word before i % 2 ^ 16))
                inside,
            ◌>>=◌,
          )
          (ap (assign_starts stepped (i + 1) n) (omega arith)))

  stepped_here : word stepped i ≡ start_word
  stepped_here = get_or-set_self before (i + 1) start_word 0 inside

  stepped_elsewhere : (s : ℕ) → i ≢ s → word stepped s ≡ word before s
  stepped_elsewhere s ne = get_or-set_ne before (i + 1) (s + 1) start_word 0 (λ e. ne (omega arith))

  stepped-pointer : pointer stepped i ≡ cur
  unfolding start_word
  stepped-pointer =
      ap (λ (w : ℕ). w / 2 ^ 16) stepped_here ∙ (start_parts cur (word before i) small).0

  stepped_tags : (s : ℕ) → tag_bits stepped s ≡ tag_bits before s
  unfolding start_word
  stepped_tags s = elim (ℕ_discrete i s) [
    | no ne ↦ ap (λ (w : ℕ). w % 2 ^ 16) (stepped_elsewhere s ne)
    | yes e ↦
        subst (λ s'. tag_bits stepped s' ≡ tag_bits before s') e
          (ap (λ (w : ℕ). w % 2 ^ 16) stepped_here ∙ (start_parts cur (word before i) small).1)
  ]

  -- The sizes of the slots that are still to come have not changed.
  stepped_sums :
      (n : ℕ) → sum_range (pointer stepped) (i + 1) n ≡ sum_range (pointer before) (i + 1) n
  stepped_sums n =
      sum_range_congr (pointer stepped) (pointer before) (i + 1) n
        (λ s l u. ap (λ (w : ℕ). w / 2 ^ 16) (stepped_elsewhere s (omega arith)))

  Started-suc :
      (n : ℕ) {after : List ℕ}
      → Started stepped (i + 1) n (cur + pointer before i) after
      → Started before i (suc n) cur after
  Started-suc n {after} t = record {
    same_length = t.same_length ∙ length-set before _ _;
    starts = starts;
    same_tags = λ s. t.same_tags s ∙ stepped_tags s;
    below = λ s l. t.below s (omega arith) ∙ stepped_elsewhere s (omega arith);
    above = λ s l. t.above s (omega arith) ∙ stepped_elsewhere s (omega arith);
    minus_one = t.minus_one ∙ get_or-set_ne before (i + 1) 0 start_word 0 (omega arith);
  }
    where
      starts : (j : ℕ) → j < suc n → pointer after (i + j) ≡ cur + sum_range (pointer before) i j
      starts zero l =
          ap (pointer after) (let e : i + 0 ≡ i = omega arith in e)
          ∙ ap (λ (w : ℕ). w / 2 ^ 16) (t.below i (omega arith))
          ∙ stepped-pointer
          ∙ omega (arith, sum_range-zero (pointer before) i)
      starts (suc j) l =
          ap (pointer after) (let e : i + suc j ≡ i + 1 + j = omega arith in e)
          ∙ t.starts j (omega arith)
          ∙ omega (arith, sum_range-suc (pointer before) i j, stepped_sums j)

-- Slot `i + j` points behind the buckets of the slots `i … i + j - 1`; tags are kept.
pub assign_starts-Started :
    (n : ℕ) (before : List ℕ) (i cur : ℕ)
    → i + n < length before
    → cur + sum_range (pointer before) i n < 2 ^ 48
    → Returns (assign_starts before i n cur) (Started before i n cur)
assign_starts-Started zero before i cur inside room = (
  before,
  unfold assign_starts in refl,
  record {
    same_length = refl;
    starts = λ j l. absurd (omega arith);
    same_tags = λ s. refl;
    below = λ s l. refl;
    above = λ s l. refl;
    minus_one = refl;
  },
)
assign_starts-Started (suc n) before i cur inside room =
    let small : cur + pointer before i < 2 ^ 48 =
      omega (arith, sum_range-suc (pointer before) i n) in
    let (after, run, t) =
      assign_starts-Started n (stepped before i cur (omega arith) (omega arith)) (i + 1)
        (cur + pointer before i) (rw length-set (omega arith))
        (omega (
          arith,
          sum_range-suc (pointer before) i n,
          stepped_sums before i cur (omega arith) (omega arith) n,
        )) in
    (
      after,
      assign_starts-step before i cur (omega arith) (omega arith) n small ∙ run,
      Started-suc before i cur (omega arith) (omega arith) n t,
    )
