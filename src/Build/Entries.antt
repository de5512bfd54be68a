-- ===== src/Build/Entries.antt =====
-- What the second pass reads back of the threads' states: the entries of a partition, their number
-- and the place of the first of them.
use mathlib.Core.List.{Permᴰ}
use mathlib.Core.List.Permᴰ
use optimized_hash_join_pipe.Base.{
  ℕ, zero, suc, ◌+◌, ◌<◌, ◌≤◌, ◌≡◌, refl, arith, ap, ◌∙◌, sym, subst, List, [], ◌∷◌, ◌++◌, length,
  length-append, select-append, perm-length, some, none, ◌==◌, ==_iff, Bool-cases, inl, inr,
  sum_range-last, sum_range-zero,
}
use optimized_hash_join_pipe.Base.Partial.{Returns, ◌>>=◌, load-get_or}
use optimized_hash_join_pipe.Unchained.{Entry, num_partitions}
use optimized_hash_join_pipe.Unchained.Slots.{partition_of}
use optimized_hash_join_pipe.Unchained.Partition.{AllIn}
use optimized_hash_join_pipe.Unchained.Probe.{offset}
use optimized_hash_join_pipe.Slab.{ThreadLocalState}
use optimized_hash_join_pipe.Slab.Filled.{of_part}
use optimized_hash_join_pipe.Slab.Iterate.{for_each_entry-perm}
use optimized_hash_join_pipe.Build.{partition_entries, count_total, partition_offset}
use optimized_hash_join_pipe.Build.Fill.{part_of, joined, AllConsumed}

-- The entries of a partition, in the order of the visits.
pub entries_of : List ThreadLocalState → ℕ → List Entry
entries_of states p = elim (partition_entries states p) [ none ↦ [] | some xs ↦ xs ]

module _ (crc32si : ℕ → ℕ → ℕ) where
  AllIn-perm :
      {xs ys : List Entry} → (p : ℕ) → Permᴰ xs ys → AllIn crc32si p xs → AllIn crc32si p ys
  AllIn-perm p Permᴰ.nil h = tt
  AllIn-perm p (Permᴰ.cons e q) h =
      (subst (λ x. partition_of crc32si x.key ≡ p) e h.0, AllIn-perm p q h.1)
  AllIn-perm p (Permᴰ.swap e f) h = rw (← e, ← f) (h.1.0, (h.0, h.1.1))
  AllIn-perm p (Permᴰ.trans q r) h = AllIn-perm p r (AllIn-perm p q h)

  AllIn-of_part : (p : ℕ) (es : List Entry) → AllIn crc32si p (of_part (part_of crc32si) p es)
  AllIn-of_part p [] = tt
  AllIn-of_part p (e ∷ es) = elim (Bool-cases (part_of crc32si e == p)) [
    | inl there ↦ rw there ((==_iff (part_of crc32si e) p).0 there, AllIn-of_part p es)
    | inr apart ↦ rw apart (AllIn-of_part p es)
  ]

  module _ (p : ℕ) (small : p < num_partitions) where
    partition_entries-perm :
        (states : List ThreadLocalState) (shares : List (List Entry))
        → AllConsumed crc32si states shares
        → Returns
            (partition_entries states p)
            λ xs. Permᴰ xs (of_part (part_of crc32si) p (joined shares))
    unfolding partition_entries
    partition_entries-perm [] [] all = ([], refl, Permᴰ.nil)
    partition_entries-perm [] (es ∷ shares) all = absurd all
    partition_entries-perm (s ∷ states) [] all = absurd all
    partition_entries-perm (s ∷ states) (es ∷ shares) (c, all) =
        let (here, run, q) = for_each_entry-perm (part_of crc32si) s es c p small in
        let (rest, runs, r) = partition_entries-perm states shares all in
        (
          here ++ rest,
          rw (run, ◌>>=◌) (rw (runs, ◌>>=◌)),
          rw select-append (
              Permᴰ.trans (Permᴰ.append_right rest q)
                (Permᴰ.append_left (of_part (part_of crc32si) p es) r)),
        )

    count_total-length :
        (states : List ThreadLocalState) (shares : List (List Entry))
        → AllConsumed crc32si states shares
        → count_total states p ≡ some (length (of_part (part_of crc32si) p (joined shares)))
    unfolding count_total
    count_total-length [] [] all = refl
    count_total-length [] (es ∷ shares) all = absurd all
    count_total-length (s ∷ states) [] all = absurd all
    count_total-length (s ∷ states) (es ∷ shares) (c, all) =
        rw (load-get_or s.counts p 0 (omega (arith, c.counts_width)), ◌>>=◌)
          (rw (count_total-length states shares all, ◌>>=◌)
            (ap some (
              rw select-append (
                omega (
                  arith,
                  c.counted p small,
                  length-append (of_part (part_of crc32si) p es)
                      (of_part (part_of crc32si) p (joined shares)),
                )))))

    module _ (states : List ThreadLocalState) (shares : List (List Entry))
        (all : AllConsumed crc32si states shares) where
      pub partition_entries-entries_of : partition_entries states p ≡ some (entries_of states p)
      unfolding entries_of
      partition_entries-entries_of =
          let (xs, run, q) = partition_entries-perm states shares all in
          let same : entries_of states p ≡ xs = rw (entries_of, run) in run ∙ ap some (sym same)

      pub entries_of-perm :
          Permᴰ (entries_of states p) (of_part (part_of crc32si) p (joined shares))
      unfolding entries_of
      entries_of-perm =
          let (xs, run, q) = partition_entries-perm states shares all in rw (entries_of, run) q

      pub entries_of-AllIn : AllIn crc32si p (entries_of states p)
      entries_of-AllIn = AllIn-perm p (Permᴰ.symm entries_of-perm) (AllIn-of_part p (joined shares))

      count_total-entries_of : count_total states p ≡ some (length (entries_of states p))
      count_total-entries_of =
          count_total-length states shares all ∙ ap some (sym (perm-length entries_of-perm))

  module _ (states : List ThreadLocalState) (shares : List (List Entry))
      (all : AllConsumed crc32si states shares) where
    pub partition_offset-offset :
        (p : ℕ)
        → p ≤ num_partitions
        → partition_offset states p ≡ some (offset (entries_of states) p)
    unfolding partition_offset
    partition_offset-offset zero h =
        ap some (sym (sum_range-zero (λ q. length (entries_of states q)) 0))
    partition_offset-offset (suc p) h =
        rw (partition_offset-offset p (omega arith), ◌>>=◌)
          (rw (count_total-entries_of p (omega arith) states shares all, ◌>>=◌)
            (ap some (
              omega (
                arith,
                sum_range-last (λ q. length (entries_of states q)) 0 p,
                ap (λ (q : ℕ). length (entries_of states q)) (let e : 0 + p ≡ p = omega arith in e),
              ))))
