-- ===== src/Build/Fill.antt =====
-- The partitioning loops consume every row that is not null, once and in order.
use mathlib.Core.List.{append-nil, append_assoc}
use optimized_hash_join_pipe.Base.{
  ℕ, zero, suc, ◌+◌, ◌-◌, ◌*◌, ◌<◌, ◌≤◌, min, ◌≡◌, refl, arith, ap, ap₂, ◌∙◌, sym, dec_lt, List, [],
  ◌∷◌, ◌++◌, some, ◌==◌, if◌then◌else◌, Bool-cases, inl, inr,
}
use optimized_hash_join_pipe.Base.Partial.{Returns, ◌>>=◌}
use optimized_hash_join_pipe.Hash.{crc_hash}
use optimized_hash_join_pipe.Unchained.{Entry, num_partitions}
use optimized_hash_join_pipe.Unchained.Slots.{partition_of}
use optimized_hash_join_pipe.Column.{Value, ColumnT, get_value}
use optimized_hash_join_pipe.Slab.{GlobalAllocator, ThreadLocalState, new_state}
use optimized_hash_join_pipe.Slab.Filled.{Consumed, new_state-Consumed, consume-Consumed}
use optimized_hash_join_pipe.Build.{entry_of, fill_row, fill_rows, fill_threads, start_idx, end_idx}

-- The entries of the rows `from … from + n - 1` that are not null.
unfoldable pub keyed : (ℕ → Value) → ℕ → ℕ → List Entry
keyed rows from zero = []
keyed rows from (suc n) =
    if (rows from).status == 0
    then keyed rows (from + 1) n
    else entry_of (rows from) from ∷ keyed rows (from + 1) n

pub keyed-append :
    (rows : ℕ → Value) (from m n : ℕ)
    → keyed rows from (m + n) ≡ keyed rows from m ++ keyed rows (from + m) n
unfolding keyed
keyed-append rows from zero n =
    ap₂ (keyed rows) (let e : from ≡ from + 0 = omega arith in e)
      (let e : 0 + n ≡ n = omega arith in e)
keyed-append rows from (suc m) n =
    let e : suc m + n ≡ suc (m + n) = omega arith in
    let next : keyed rows (from + 1 + m) n ≡ keyed rows (from + suc m) n =
      ap (λ (i : ℕ). keyed rows i n) (omega arith) in
    rw e (elim (Bool-cases ((rows from).status == 0)) [
      | inl h ↦ rw (h, keyed-append rows (from + 1) m n, next)
      | inr h ↦ rw (h, keyed-append rows (from + 1) m n, next)
    ])

abbrev pub joined : List (List Entry) → List Entry
joined [] = []
joined (es ∷ shares) = es ++ joined shares

-- The rows of a column read without a fault.
abbrev pub Reads : ColumnT → (ℕ → Value) → Type 0
Reads col rows = (i : ℕ) → i < col.num_rows → get_value col i ≡ some (rows i)

module _ (crc32si : ℕ → ℕ → ℕ) where
  abbrev pub part_of : Entry → ℕ
  part_of e = partition_of crc32si e.key

  pub part_of-lt : (e : Entry) → part_of e < num_partitions
  part_of-lt e = unfold crc_hash in omega arith

  -- What the threads have consumed, one list for each.
  abbrev pub AllConsumed : List ThreadLocalState → List (List Entry) → Type 0
  AllConsumed [] [] = Unit
  AllConsumed [] (x ∷ xs) = ⊥
  AllConsumed (s ∷ states) [] = ⊥
  AllConsumed (s ∷ states) (es ∷ shares) = Consumed part_of s es × AllConsumed states shares

  module _ (col : ColumnT) (rows : ℕ → Value) (reads : Reads col rows) where
    fill_row-Consumed :
        (g : GlobalAllocator) (s : ThreadLocalState) (from : ℕ) (es : List Entry)
        → from < col.num_rows
        → Consumed part_of s es
        → Returns
            (fill_row crc32si col g s from)
            λ r. Consumed part_of r.1 (es ++ keyed rows from 1)
    unfolding fill_row keyed
    fill_row-Consumed g s from es inside c = elim (Bool-cases ((rows from).status == 0)) [
      | inl null ↦ ((g, s), rw (reads from inside, ◌>>=◌) (rw null), rw (null, append-nil) c)
      | inr value ↦
          let e = entry_of (rows from) from in
          let (r, run, d) =
            consume-Consumed part_of g s (crc_hash crc32si (rows from).val) e es refl (part_of-lt e)
              c in
          (r, rw (reads from inside, ◌>>=◌) (rw value run), rw value d)
    ]

    fill_rows-Consumed :
        (n : ℕ) (g : GlobalAllocator) (s : ThreadLocalState) (from : ℕ) (es : List Entry)
        → (0 < n → from + n ≤ col.num_rows)
        → Consumed part_of s es
        → Returns
            (fill_rows crc32si col g s from n)
            λ r. Consumed part_of r.1 (es ++ keyed rows from n)
    unfolding fill_rows
    fill_rows-Consumed zero g s from es fits c = ((g, s), refl, unfold keyed in rw append-nil c)
    fill_rows-Consumed (suc n) g s from es fits c =
        let (mid, first, d) = fill_row-Consumed g s from es (omega (arith, fits (omega arith))) c in
        let (r, rest, f) =
          fill_rows-Consumed n mid.0 mid.1 (from + 1) (es ++ keyed rows from 1)
            (λ _. omega (arith, fits (omega arith))) d in
        let joined : (es ++ keyed rows from 1) ++ keyed rows (from + 1) n
            ≡ es ++ keyed rows from (suc n) =
          append_assoc es (keyed rows from 1) (keyed rows (from + 1) n)
          ∙ ap (λ xs. es ++ xs)
              (sym (keyed-append rows from 1 n)
                ∙ ap (keyed rows from) (let e : 1 + n ≡ suc n = omega arith in e)) in
        (r, rw (first, ◌>>=◌) rest, rw joined at f)

    -- The first row that the threads before `t` leave.
    abbrev pub reached : ℕ → ℕ → ℕ
    reached tuples_per_thread t = min (t * tuples_per_thread) col.num_rows

    keyed_nil : (from n : ℕ) → n ≡ 0 → keyed rows from n ≡ []
    unfolding keyed
    keyed_nil from zero h = refl
    keyed_nil from (suc n) h = absurd (omega arith)

    -- A thread's rows, also where it starts behind the last row.
    share :
        (k t : ℕ)
        → keyed rows (t * k) (min (t * k + k) col.num_rows - t * k)
          ≡ keyed rows (reached k t) (reached k (t + 1) - reached k t)
    share k t = elim (dec_lt col.num_rows (t * k)) [
      | yes past ↦ keyed_nil _ _ (omega arith) ∙ sym (keyed_nil _ _ (grind arith))
      | no within ↦
          ap₂ (keyed rows) (let e : t * k ≡ reached k t = omega arith in e)
            (let next : (t + 1) * k ≡ t * k + k = omega arith in omega (arith, next))
    ]

    append_shares :
        (k t n : ℕ)
        → keyed rows (reached k t) (reached k (t + 1) - reached k t)
            ++ keyed rows (reached k (t + 1)) (reached k (t + 1 + n) - reached k (t + 1))
          ≡ keyed rows (reached k t) (reached k (t + suc n) - reached k t)
    append_shares k t n =
        let next : (t + 1) * k ≡ t * k + k = omega arith in
        let last : (t + 1 + n) * k ≡ t * k + k + n * k = omega arith in
        let same : (t + suc n) * k ≡ t * k + k + n * k = omega arith in
        ap
          (λ (from : ℕ).
            keyed rows (reached k t) (reached k (t + 1) - reached k t)
            ++ keyed rows from (reached k (t + 1 + n) - reached k (t + 1)))
          (omega (arith, next))
        ∙ sym (
            keyed-append rows (reached k t) (reached k (t + 1) - reached k t)
              (reached k (t + 1 + n) - reached k (t + 1)))
        ∙ ap (keyed rows (reached k t)) (omega (arith, next, last, same))

    fits_share :
        (k t : ℕ)
        → 0 < min (t * k + k) col.num_rows - t * k
        → t * k + (min (t * k + k) col.num_rows - t * k) ≤ col.num_rows
    fits_share k t more = omega (arith, more)

    -- On a column whose rows read without a fault, the threads of the first pass succeed, and one
    -- after the other have consumed the entries of the rows of their shares that are not null:
    -- together those of the rows from the first thread's start to the last one's end, each once
    -- and in order.
    pub fill_threads-AllConsumed :
        (n : ℕ) (g : GlobalAllocator) (tuples_per_thread t : ℕ)
        → Returns (fill_threads crc32si col g tuples_per_thread t n) λ r.
          (shares : List (List Entry)) × AllConsumed r.1 shares
          × (joined shares
              ≡ keyed rows
                  (reached tuples_per_thread t)
                  (reached tuples_per_thread (t + n) - reached tuples_per_thread t))
    unfolding fill_threads
    fill_threads-AllConsumed zero g k t = (
      (g, []),
      refl,
      (
        [],
        tt,
        sym (keyed_nil _ _ (omega (arith, ap (reached k) (let e : t + 0 ≡ t = omega arith in e)))),
      ),
    )
    fill_threads-AllConsumed (suc n) g k t =
        let rounds = end_idx crc32si col k t - start_idx crc32si col k t in
        let (mid, first, c) =
          fill_rows-Consumed rounds g new_state (t * k) [] (λ more. fits_share k t more)
            (new_state-Consumed part_of) in
        let (last, rest, (shares, all, left)) = fill_threads-AllConsumed n mid.0 k (t + 1) in
        (
          (last.0, mid.1 ∷ last.1),
          rw (first, ◌>>=◌) (rw (rest, ◌>>=◌)),
          (
            keyed rows (t * k) rounds ∷ shares,
            (c, all),
            ap₂ ◌++◌ (share k t) left ∙ append_shares k t n,
          ),
        )
