-- ===== src/Build/Process.antt =====
-- The second call of `run_parallel`: every partition is built once, and what is built stays.
use optimized_hash_join_pipe.Base.{
  ℕ, ◌+◌, ◌*◌, ◌/◌, ◌^◌, ◌<◌, ◌≤◌, ◌≡◌, ◌≢◌, refl, arith, ap, ◌∙◌, sym, List, [], ◌∷◌, length, some,
  ◌==◌, ==_refl, to_nat, ltb, ◌⊎◌, inl, inr, ℕ_discrete, dec_lt, sum_range-lt, subst,
}
use optimized_hash_join_pipe.Base.Partial.{Returns, ◌>>=◌}
use optimized_hash_join_pipe.Unchained.{Entry, HashTable, num_partitions, post_process_build}
use optimized_hash_join_pipe.Unchained.Words.{word}
use optimized_hash_join_pipe.Unchained.Slots.{IsShift, width, slot_within}
use optimized_hash_join_pipe.Unchained.Counting.{size, AllTagged}
use optimized_hash_join_pipe.Unchained.Partition.{AllIn, sum-size, Processed, Ready}
use optimized_hash_join_pipe.Unchained.Processing.{post_process_build-Processed}
use optimized_hash_join_pipe.Unchained.Probe.{offset, Built, Shape}
use optimized_hash_join_pipe.Build.{process_partitions, partition_entries, partition_offset}
use optimized_hash_join_pipe.Slab.{ThreadLocalState}
use optimized_hash_join_pipe.Build.Entries.{
  entries_of, partition_entries-entries_of, entries_of-AllIn, partition_offset-offset,
}
use optimized_hash_join_pipe.Build.Fill.{AllConsumed}

-- How often a partition stands in a list of partitions.
abbrev pub times : ℕ → List ℕ → ℕ
times p [] = 0
times p (q ∷ qs) = to_nat (p == q) + times p qs

-- No partition stands in the list twice, and none that does not exist.
abbrev pub Once : List ℕ → Type 0
Once ps = (p : ℕ) → (times p ps ≤ 1) × (num_partitions ≤ p → times p ps ≡ 0)

head-lt : (p : ℕ) (ps : List ℕ) → Once (p ∷ ps) → p < num_partitions
head-lt p ps once = elim (dec_lt p num_partitions) [
  | yes l ↦ l
  | no ge ↦ absurd (omega (arith, (once p).1 (omega arith), ap to_nat (==_refl p)))
]

tail-Once : (p : ℕ) (ps : List ℕ) → Once (p ∷ ps) → Once ps
tail-Once p ps once q = (omega (arith, (once q).0), λ ge. omega (arith, (once q).1 ge))

head-ne : (p q : ℕ) (ps : List ℕ) → Once (p ∷ ps) → 0 < times q ps → q ≢ p
head-ne p q ps once more e =
    omega (arith, (once q).0, more, ap (λ (x : ℕ). to_nat (q == x)) e, ap to_nat (==_refl q))

module _ (crc32si : ℕ → ℕ → ℕ) (shift : ℕ) (valid : IsShift shift) where
  -- Different partitions have different slots.
  slots_apart :
      (p q s : ℕ)
      → p ≢ q
      → p * width shift ≤ s
      → s < p * width shift + width shift
      → (s < q * width shift) ⊎ (q * width shift + width shift ≤ s)
  slots_apart p q s ne low high = elim (dec_lt p q) [
    | yes lt ↦
        inl (
          let h : p * width shift + width shift ≤ q * width shift = grind arith in omega (arith, h))
    | no ge ↦
        inr (
          let h : q * width shift + width shift ≤ p * width shift = grind arith in omega (arith, h))
  ]

  AllTagged-elsewhere :
      (p : ℕ) (before after : List ℕ) (es : List Entry)
      → ((s : ℕ)
          → p * width shift ≤ s
          → s < p * width shift + width shift
          → word after s ≡ word before s)
      → AllIn crc32si p es
      → AllTagged crc32si shift before es
      → AllTagged crc32si shift after es
  AllTagged-elsewhere p before after [] same all h = tt
  AllTagged-elsewhere p before after (e ∷ es) same all h =
      let (low, high) = slot_within shift valid crc32si e.key p all.0 in
      (rw (same _ low high) h.0, AllTagged-elsewhere p before after es same all.1 h.1)

  module _ (entries : ℕ → List Entry)
      (all_in : (p : ℕ) → p < num_partitions → AllIn crc32si p (entries p)) where
    abbrev before_lt : (p q : ℕ) → p < q → offset entries p + length (entries p) ≤ offset entries q
    before_lt p q lt = omega (
      arith,
      sum_range-lt (λ r. length (entries r)) 0 p q lt,
      ap (λ (r : ℕ). length (entries r)) (let e : 0 + p ≡ p = omega arith in e),
    )

    -- A partition that has just been built.
    Processed-Built :
        (p : ℕ) (t u : HashTable)
        → p < num_partitions
        → Processed crc32si shift valid p (offset entries p) (entries p) t u
        → Built crc32si shift entries p u
    Processed-Built p t u small d = record {
      all_in = all_in p small;
      ends = λ j l. omega (arith, d.ends j l, d.same_base);
      tagged = d.tagged;
      contents = d.contents;
    }

    -- One that had been built stays so while another is.
    Built-kept :
        (p q : ℕ) (t u : HashTable)
        → p ≢ q
        → p < num_partitions
        → Processed crc32si shift valid q (offset entries q) (entries q) t u
        → Built crc32si shift entries p t
        → Built crc32si shift entries p u
    Built-kept p q t u ne small d b =
        let same : (s : ℕ)
            → p * width shift ≤ s
            → s < p * width shift + width shift
            → word u.directory s ≡ word t.directory s =
          λ s low high. d.other_words s (slots_apart p q s ne low high) in
        record {
          all_in = b.all_in;
          ends = λ j l. omega (
            arith,
            b.ends j l,
            d.same_base,
            ap (λ (w : ℕ). w / 2 ^ 16) (same (p * width shift + j) (omega arith) (omega arith)),
          );
          tagged = AllTagged-elsewhere p t.directory u.directory (entries p) same b.all_in b.tagged;
          contents = λ j i l m.
              let inside =
                sum_range-lt (size crc32si shift (entries p)) (p * width shift) j (width shift) l in
              let total = sum-size crc32si shift valid p (entries p) b.all_in in
              d.other_tuples _ (elim (dec_lt p q) [
                | yes lt ↦ inl (omega (arith, inside, total, before_lt p q lt))
                | no ge ↦ inr (omega (arith, before_lt q p (omega arith)))
              ])
              ∙ b.contents j i l m;
        }

    -- The table while the partitions `ps` are still to be built.
    pub record Underway (ps : List ℕ) (t : HashTable) : Type 0 where
      pub shape : Shape crc32si shift entries t
      pub fresh :
          (p s : ℕ)
          → 0 < times p ps
          → p * width shift ≤ s
          → s < p * width shift + width shift
          → word t.directory s ≡ 0
      pub built : (p : ℕ) → p < num_partitions → times p ps ≡ 0 → Built crc32si shift entries p t

    Underway-step :
        (p : ℕ) (ps : List ℕ) (t : HashTable)
        → Once (p ∷ ps)
        → Underway (p ∷ ps) t
        → Returns (post_process_build crc32si t p (offset entries p) (entries p)) (Underway ps)
    Underway-step p ps t once w =
        let there : to_nat (p == p) ≡ 1 = ap to_nat (==_refl p) in
        let small : p < num_partitions = head-lt p ps once in
        let ready : Ready crc32si shift valid p (offset entries p) (entries p) t = record {
          same_shift = w.shape.same_shift;
          words = w.shape.words;
          room = omega (arith, before_lt p num_partitions small, w.shape.fits);
          addresses = w.shape.addresses;
          fresh = λ s low high. w.fresh p s (omega (arith, there)) low high;
        } in
        let (u, run, d) =
          post_process_build-Processed crc32si shift valid p (offset entries p) (entries p) t small
            (all_in p small) ready in
        (
          u,
          run,
          record {
            shape = record {
              same_shift = d.same_shift ∙ w.shape.same_shift;
              words = d.words_length ∙ w.shape.words;
              minus_one =
                  ap (λ (x : ℕ). x / 2 ^ 16) d.minus_one ∙ w.shape.minus_one ∙ sym d.same_base;
              fits = omega (arith, w.shape.fits, d.tuples_length);
              addresses = omega (arith, w.shape.addresses, d.tuples_length, d.same_base);
            };
            fresh = λ q s l low high.
                let ne : q ≢ p = head-ne p q ps once l in
                d.other_words s (slots_apart q p s ne low high)
                ∙ w.fresh q s (omega arith) low high;
            built = λ q l none. elim (ℕ_discrete q p) [
              | yes e ↦
                  subst (λ r. Built crc32si shift entries r u) (sym e)
                    (Processed-Built p t u small d)
              | no ne ↦ Built-kept q p t u ne l d (w.built q l (ground (arith, none)))
            ];
          },
        )

    Underway-rest :
        (ps : List ℕ) (states : List ThreadLocalState) (t : HashTable)
        → ((p : ℕ) → p < num_partitions → partition_entries states p ≡ some (entries p))
        → ((p : ℕ) → p < num_partitions → partition_offset states p ≡ some (offset entries p))
        → Once ps
        → Underway ps t
        → Returns (process_partitions crc32si states t ps) (Underway [])
    unfolding process_partitions
    Underway-rest [] states t read place once w = (t, refl, w)
    Underway-rest (p ∷ ps) states t read place once w =
        let small = head-lt p ps once in
        let (u, run, next) = Underway-step p ps t once w in
        let (v, runs, last) = Underway-rest ps states u read place (tail-Once p ps once) next in
        (v, rw (place p small, ◌>>=◌) (rw (read p small, ◌>>=◌) (rw (run, ◌>>=◌) runs)), last)

  -- From a fresh table with room, and states that have consumed their shares, the second pass
  -- over a list that has each of the 64 partitions once succeeds, and leaves a table in which
  -- every partition is built, whatever the order of the list.
  pub process_partitions-Built :
      (states : List ThreadLocalState) (shares : List (List Entry)) (ps : List ℕ) (t : HashTable)
      → AllConsumed crc32si states shares
      → ((p : ℕ) → times p ps ≡ to_nat (ltb p num_partitions))
      → Shape crc32si shift (entries_of states) t
      → ((s : ℕ) → word t.directory s ≡ 0)
      → Returns (process_partitions crc32si states t ps) λ u.
        Shape crc32si shift (entries_of states) u
        × ((p : ℕ) → p < num_partitions → Built crc32si shift (entries_of states) p u)
  process_partitions-Built states shares ps t all once shape zeroed =
      let (u, run, w) =
        Underway-rest (entries_of states)
          (λ p small. entries_of-AllIn crc32si p small states shares all) ps states t
          (λ p small. partition_entries-entries_of crc32si p small states shares all)
          (λ p small. partition_offset-offset crc32si states shares all p (omega arith))
          (λ p. (ground (arith, once p), λ ge. ground (arith, once p)))
          (record {
            shape = shape;
            fresh = λ p s l low high. zeroed s;
            built = λ p small none. absurd (ground (arith, once p));
          }) in
      (u, run, (w.shape, λ p small. w.built p small refl))
