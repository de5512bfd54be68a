-- ===== src/Filter/Bitmap/Rows.antt =====
-- A bitmap as the truth values of its rows: what writes of bits and the operations on bitmaps do.
use native.Mathlib.Nat.{pow-le-pow_right, one-le-pow}
use optimized_hash_join_pipe.Base.{
  ℕ, ◌-◌, ◌*◌, ◌/◌, ◌%◌, ◌^◌, ◌<◌, min, ◌≡◌, ◌≢◌, arith, ap, ◌∙◌, sym, ◌==◌, not, if◌then◌else◌,
  Bool, true, false, some, List, [], ◌∷◌, ◌++◌, length, get_or, set, get_or-set, length-set,
  bit_and, bit_or, to_nat, bit, bit-bit_and, bit-bit_or, bit-pow, bit-mod, bit-complement, bit-le,
  bit_and-pow, bit-shifted, get_or-snoc, bit_and-lt, Bool-cases, inl, inr, dec_lt, ℕ_discrete,
}
use optimized_hash_join_pipe.Base.Partial.{Returns, ◌>>=◌, load-get_or, store-set}
use optimized_hash_join_pipe.Filter.Bitmap.{write_bit, is_not_null}

-- The bit of a row; 0 behind the bitmap.
abbrev pub row_bit : List ℕ → ℕ → ℕ
row_bit bitmap i = bit (i % 8) (get_or bitmap (i / 8) 0)

-- Every byte has eight bits.
abbrev pub Bytes : List ℕ → Type 0
Bytes bitmap = (k : ℕ) → get_or bitmap k 0 < 2 ^ 8

pub row_bit-set :
    (bitmap : List ℕ) (byte w i : ℕ)
    → byte < length bitmap
    → row_bit (set bitmap byte w) i ≡ (if byte == i / 8 then bit (i % 8) w else row_bit bitmap i)
row_bit-set bitmap byte w i l = elim (Bool-cases (byte == i / 8)) [
  | inl e ↦ rw (get_or-set bitmap byte (i / 8) w 0 l, e)
  | inr e ↦ rw (get_or-set bitmap byte (i / 8) w 0 l, e)
]

-- Rows of different bytes are different.
apart_row : (i j : ℕ) → i / 8 ≢ j / 8 → (i == j) ≡ false
apart_row i j ne = ground arith

pub write_bit-row_bit :
    (bitmap : List ℕ) (row : ℕ) (b : Bool)
    → row / 8 < length bitmap
    → Returns (write_bit bitmap row b) λ after.
      (length after ≡ length bitmap)
      × ((i : ℕ) → row_bit after i ≡ (if i == row then to_nat b else row_bit bitmap i))
      × (Bytes bitmap → Bytes after)
unfolding write_bit
write_bit-row_bit bitmap row b l =
    let old = get_or bitmap (row / 8) 0 in
    let w : ℕ =
      if b then bit_or old (2 ^ (row % 8)) % 2 ^ 8 else bit_and old (2 ^ 8 - 1 - 2 ^ (row % 8)) in
    (
      set bitmap (row / 8) w,
      rw (load-get_or bitmap (row / 8) 0 l, ◌>>=◌) (store-set bitmap (row / 8) w l),
      (
        length-set bitmap (row / 8) w,
        λ i. row_bit-set bitmap (row / 8) w i l ∙ elim (ℕ_discrete (i / 8) (row / 8)) [
          | yes e ↦ rw (let t : (row / 8 == i / 8) ≡ true = ground arith in t) (
              written b (i % 8) (row % 8) old (omega arith) (omega arith)
              ∙ (rw (same_bool i row e) (
                  ap (λ (x : ℕ). if i == row then to_nat b else bit (i % 8) x)
                    (ap (λ (k : ℕ). get_or bitmap k 0) (sym e)))))
          | no ne ↦
              rw ((let t : (row / 8 == i / 8) ≡ false = ground arith in t), apart_row i row ne)
        ],
        λ bytes k. ground (
          arith,
          get_or-set bitmap (row / 8) k w 0 l,
          bytes k,
          small_byte b (row % 8) old (omega arith) (bytes (row / 8)),
        ),
      ),
    )
  where
    small_byte :
        (b : Bool) (j old : ℕ)
        → j < 8
        → old < 2 ^ 8
        → (if b then bit_or old (2 ^ j) % 2 ^ 8 else bit_and old (2 ^ 8 - 1 - 2 ^ j)) < 2 ^ 8
    small_byte true j old jl l = omega arith
    small_byte false j old jl l = bit_and-lt 8 old (2 ^ 8 - 1 - 2 ^ j) l (omega arith)

    same_bool : (i j : ℕ) → i / 8 ≡ j / 8 → (i % 8 == j % 8) ≡ (i == j)
    same_bool i j e = ground arith

    written :
        (b : Bool) (k j old : ℕ)
        → k < 8
        → j < 8
        → bit k (if b then bit_or old (2 ^ j) % 2 ^ 8 else bit_and old (2 ^ 8 - 1 - 2 ^ j))
          ≡ (if k == j then to_nat b else bit k old)
    written true k j old kl jl =
        bit-mod 8 k (bit_or old (2 ^ j)) kl
        ∙ bit-bit_or k old (2 ^ j)
        ∙ ground (arith, bit-pow k j, bit-le k old)
    written false k j old kl jl =
        let small : 2 ^ j < 2 ^ 8 =
          omega (arith, pow-le-pow_right {n = 2} (omega arith) {i = j} {j = 7} (omega arith)) in
        bit-bit_and k old (2 ^ 8 - 1 - 2 ^ j)
        ∙ ground (arith, bit-complement 8 k (2 ^ j) small kl, bit-pow k j, bit-le k old)

-- A byte more, behind the others.
pub row_bit-snoc :
    (bitmap : List ℕ) (w i : ℕ)
    → row_bit (bitmap ++ w ∷ []) i
      ≡ (if i / 8 == length bitmap then bit (i % 8) w else row_bit bitmap i)
row_bit-snoc bitmap w i = elim (Bool-cases (i / 8 == length bitmap)) [
  | inl e ↦ rw (get_or-snoc bitmap w 0 (i / 8), e)
  | inr e ↦ rw (get_or-snoc bitmap w 0 (i / 8), e)
]

pub bit-to_nat : (k : ℕ) (b : Bool) → bit k (to_nat b) ≡ min (to_nat b) (to_nat (k == 0))
bit-to_nat k b =
    ap (bit k) (let e : to_nat b ≡ to_nat b * 2 ^ 0 = omega arith in e) ∙ bit-shifted b k 0

pub is_not_null-row_bit :
    (bitmap : List ℕ) (i : ℕ)
    → i / 8 < length bitmap
    → is_not_null bitmap i ≡ some (not (row_bit bitmap i == 0))
unfolding is_not_null
is_not_null-row_bit bitmap i l =
    rw (load-get_or bitmap (i / 8) 0 l, ◌>>=◌) (ap some (masked (i % 8) (get_or bitmap (i / 8) 0)))
  where
    masked : (k w : ℕ) → not (bit_and w (2 ^ k) == 0) ≡ not (bit k w == 0)
    masked k w = elim (dec_lt 0 (bit k w)) [
      | yes l ↦
          let one : bit k w ≡ 1 = omega (arith, bit-le k w) in
          ground (
            arith,
            bit_and-pow k w,
            one,
            ap (λ (t : ℕ). t * 2 ^ k) one,
            one-le-pow k 2 (omega arith),
          )
      | no z ↦
          let none : bit k w ≡ 0 = omega arith in
          ground (arith, bit_and-pow k w, none, ap (λ (t : ℕ). t * 2 ^ k) none)
    ]
