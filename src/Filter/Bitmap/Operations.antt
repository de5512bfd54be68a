-- ===== src/Filter/Bitmap/Operations.antt =====
-- `bitmap_not`, `bitmap_and` and `bitmap_or` by their rows.
use optimized_hash_join_pipe.Base.{
  ℕ, zero, suc, ◌+◌, ◌-◌, ◌*◌, ◌/◌, ◌%◌, ◌^◌, ◌<◌, ◌≤◌, min, max, ◌≡◌, refl, arith, ap, ◌∙◌, subst,
  ◌==◌, ltb, if◌then◌else◌, true, false, List, length, replicate, length-replicate,
  get_or-replicate, get_or, set, get_or-set, length-set, bit_and, bit_or, bit, bit-bit_and,
  bit-bit_or, bit-complement, bit_and-lt, bit_or-lt, ℕ_discrete,
}
use optimized_hash_join_pipe.Base.Partial.{Returns, ◌>>=◌, load-get_or, store-set}
use optimized_hash_join_pipe.Filter.{filter_run}
use optimized_hash_join_pipe.Filter.Bitmap.Rows.{row_bit, Bytes}
use optimized_hash_join_pipe.Filter.Shares.{run-Done}
use optimized_hash_join_pipe.Filter.Bitmap.{
  not_bytes, join_bytes, bitmap_not, bitmap_join, bitmap_and, bitmap_or,
}

-- The bytes before `b` have their new value, the others their old one.
abbrev Upto : (ℕ → ℕ) → (ℕ → ℕ) → ℕ → ℕ → List ℕ → Type 0
Upto target source width b s =
    (length s ≡ width) × ((k : ℕ) → get_or s k 0 ≡ (if ltb k b then target k else source k))

Upto-next :
    (target source : ℕ → ℕ) (width i : ℕ) (s : List ℕ)
    → i < width
    → Upto target source width i s
    → Upto target source width (i + 1) (set s i (target i))
Upto-next target source width i s l (same, bytes) = (
  length-set s i (target i) ∙ same,
  λ k. get_or-set s i k (target i) 0 (omega arith) ∙ elim (ℕ_discrete i k) [
    | yes e ↦
        rw (let t : (i == k) ≡ true = ground arith in t)
          (rw (let t : ltb k (i + 1) ≡ true = ground arith in t) (ap target e))
    | no ne ↦
        rw (let t : (i == k) ≡ false = ground arith in t)
          (bytes k ∙ rw (let t : ltb k (i + 1) ≡ ltb k i = ground arith in t))
  ],
)

not_bytes-Upto :
    (bitmap : List ℕ) (rounds : ℕ) (s : List ℕ) (i : ℕ)
    → i + rounds ≤ length bitmap
    → Upto (λ k. 2 ^ 8 - 1 - get_or bitmap k 0) (λ k. get_or bitmap k 0) (length bitmap) i s
    → Returns (not_bytes s i rounds) (
        Upto
          (λ k. 2 ^ 8 - 1 - get_or bitmap k 0)
          (λ k. get_or bitmap k 0)
          (length bitmap)
          (i + rounds))
unfolding not_bytes
not_bytes-Upto bitmap zero s i fits u = (
  s,
  refl,
  subst
      (λ (b : ℕ).
        Upto (λ k. 2 ^ 8 - 1 - get_or bitmap k 0) (λ k. get_or bitmap k 0) (length bitmap) b s)
      (omega arith) u,
)
not_bytes-Upto bitmap (suc rounds) s i fits u =
    let target : ℕ → ℕ = λ k. 2 ^ 8 - 1 - get_or bitmap k 0 in
    let here : get_or s i 0 ≡ get_or bitmap i 0 = u.1 i ∙ ground arith in
    let (r, ran, last) =
      not_bytes-Upto bitmap rounds (set s i (target i)) (i + 1) (omega arith)
        (Upto-next target (λ k. get_or bitmap k 0) (length bitmap) i s (omega arith) u) in
    (
      r,
      rw (load-get_or s i 0 (omega (arith, u.0)), ◌>>=◌)
          (rw here (rw (store-set s i (target i) (omega (arith, u.0)), ◌>>=◌) ran)),
      subst (λ (b : ℕ). Upto target (λ k. get_or bitmap k 0) (length bitmap) b r) (omega arith)
          last,
    )

join_bytes-Upto :
    (f : ℕ → ℕ → ℕ) (lhs rhs : List ℕ) (rounds : ℕ) (s : List ℕ) (i : ℕ)
    → i + rounds ≤ length lhs
    → length lhs ≡ length rhs
    → Upto (λ k. f (get_or lhs k 0) (get_or rhs k 0)) (λ k. 0) (length lhs) i s
    → Returns
        (join_bytes f lhs rhs s i rounds)
        (Upto (λ k. f (get_or lhs k 0) (get_or rhs k 0)) (λ k. 0) (length lhs) (i + rounds))
unfolding join_bytes
join_bytes-Upto f lhs rhs zero s i fits same u = (
  s,
  refl,
  subst (λ (b : ℕ). Upto (λ k. f (get_or lhs k 0) (get_or rhs k 0)) (λ k. 0) (length lhs) b s)
      (omega arith) u,
)
join_bytes-Upto f lhs rhs (suc rounds) s i fits same u =
    let target : ℕ → ℕ = λ k. f (get_or lhs k 0) (get_or rhs k 0) in
    let (r, ran, last) =
      join_bytes-Upto f lhs rhs rounds (set s i (target i)) (i + 1) (omega arith) same
        (Upto-next target (λ k. 0) (length lhs) i s (omega arith) u) in
    (
      r,
      rw (load-get_or lhs i 0 (omega arith), ◌>>=◌)
          (rw (load-get_or rhs i 0 (omega arith), ◌>>=◌)
            (rw (store-set s i (target i) (omega (arith, u.0)), ◌>>=◌) ran)),
      subst (λ (b : ℕ). Upto target (λ k. 0) (length lhs) b r) (omega arith) last,
    )

-- On a bitmap of bytes, `bitmap_not` succeeds and gives a bitmap of bytes of the same size with
-- every bit turned over.
pub bitmap_not-row_bit :
    (bitmap : List ℕ)
    → Bytes bitmap
    → Returns (bitmap_not bitmap) λ ret.
      (length ret ≡ length bitmap)
      × Bytes ret
      × ((i : ℕ) → i < 8 * length bitmap → row_bit ret i ≡ 1 - row_bit bitmap i)
unfolding bitmap_not filter_run
bitmap_not-row_bit bitmap bytes =
    let target : ℕ → ℕ = λ k. 2 ^ 8 - 1 - get_or bitmap k 0 in
    let (ret, ran, (same, all)) =
      run-Done 12 (length bitmap) (omega arith) (λ bs begin end. not_bytes bs begin (end - begin))
        (Upto target (λ k. get_or bitmap k 0) (length bitmap))
        (λ s a b less fits u.
          let (r, run, d) = not_bytes-Upto bitmap (b - a) s a (omega arith) u in
          (
            r,
            run,
            subst (λ (c : ℕ). Upto target (λ k. get_or bitmap k 0) (length bitmap) c r)
                (omega arith) d,
          ))
        bitmap (refl, λ k. ground arith) in
    (
      ret,
      ran,
      (
        same,
        λ k. ground (arith, all k, bytes k),
        λ i l.
            ap (bit (i % 8))
              (all (i / 8) ∙ rw (let t : ltb (i / 8) (length bitmap) ≡ true = ground arith in t))
            ∙ bit-complement 8 (i % 8) (get_or bitmap (i / 8) 0) (bytes (i / 8)) (omega arith),
      ),
    )

module _ (f : ℕ → ℕ → ℕ) (g : ℕ → ℕ → ℕ) (small : (a b : ℕ) → a < 2 ^ 8 → b < 2 ^ 8 → f a b < 2 ^ 8)
    (bitwise : (k a b : ℕ) → bit k (f a b) ≡ g (bit k a) (bit k b)) where
  bitmap_join-row_bit :
      (lhs rhs : List ℕ)
      → length lhs ≡ length rhs
      → Bytes lhs
      → Bytes rhs
      → Returns (bitmap_join f lhs rhs) λ ret.
        (length ret ≡ length lhs)
        × Bytes ret
        × ((i : ℕ) → i < 8 * length lhs → row_bit ret i ≡ g (row_bit lhs i) (row_bit rhs i))
  unfolding bitmap_join filter_run
  bitmap_join-row_bit lhs rhs same lbytes rbytes =
      let target : ℕ → ℕ = λ k. f (get_or lhs k 0) (get_or rhs k 0) in
      let (ret, ran, (width, all)) =
        run-Done 12 (length lhs) (omega arith)
          (λ bs begin end. join_bytes f lhs rhs bs begin (end - begin))
          (Upto target (λ k. 0) (length lhs))
          (λ s a b less fits u.
            let (r, run, d) = join_bytes-Upto f lhs rhs (b - a) s a (omega arith) same u in
            (r, run, subst (λ (c : ℕ). Upto target (λ k. 0) (length lhs) c r) (omega arith) d))
          (replicate (length lhs) 0)
          (
            length-replicate {A = ℕ} (length lhs) 0,
            λ k. get_or-replicate (length lhs) k 0 ∙ ground arith,
          ) in
      (
        ret,
        rw (let t : (length lhs == length rhs) ≡ true = ground arith in t) ran,
        (
          width,
          λ k. ground (arith, all k, small _ _ (lbytes k) (rbytes k)),
          λ i l.
              ap (bit (i % 8))
                (all (i / 8) ∙ rw (let t : ltb (i / 8) (length lhs) ≡ true = ground arith in t))
              ∙ bitwise (i % 8) (get_or lhs (i / 8) 0) (get_or rhs (i / 8) 0),
        ),
      )

-- On two bitmaps of bytes of the same size, `bitmap_and` succeeds and gives a bitmap of bytes of that
-- size whose every bit is the smaller of the two bits.
pub bitmap_and-row_bit :
    (lhs rhs : List ℕ)
    → length lhs ≡ length rhs
    → Bytes lhs
    → Bytes rhs
    → Returns (bitmap_and lhs rhs) λ ret.
      (length ret ≡ length lhs)
      × Bytes ret
      × ((i : ℕ) → i < 8 * length lhs → row_bit ret i ≡ min (row_bit lhs i) (row_bit rhs i))
unfolding bitmap_and
bitmap_and-row_bit = bitmap_join-row_bit bit_and min (bit_and-lt 8) bit-bit_and

-- On two bitmaps of bytes of the same size, `bitmap_or` succeeds and gives a bitmap of bytes of that
-- size whose every bit is the larger of the two bits.
pub bitmap_or-row_bit :
    (lhs rhs : List ℕ)
    → length lhs ≡ length rhs
    → Bytes lhs
    → Bytes rhs
    → Returns (bitmap_or lhs rhs) λ ret.
      (length ret ≡ length lhs)
      × Bytes ret
      × ((i : ℕ) → i < 8 * length lhs → row_bit ret i ≡ max (row_bit lhs i) (row_bit rhs i))
unfolding bitmap_or
bitmap_or-row_bit = bitmap_join-row_bit bit_or max (bit_or-lt 8) bit-bit_or
