-- ===== src/Base/Digits.antt =====
-- Single bits of a number, and what `&`, `|`, `~` and shifts do to them.
use Prim.Native.Nat.{
  ℕ, zero, suc, ◌+◌, ◌-◌, ◌*◌, ◌/◌, ◌%◌, ◌^◌, ◌≤◌, ◌<◌, min, max, bit_and, bit_or,
}
use mathlib.Core.Path.{◌≡◌, refl, ap, ◌∙◌, sym}
use mathlib.Core.Bool.{Bool, true, false}
use native.Mathlib.Nat.{
  pow-suc, div-add-mod, mod-lt, one-le-pow, mod-eq_of_lt, mul-add-mod_self_left,
}
use native.Mathlib.Omega.{arith}
use optimized_hash_join_pipe.Base.Truth.{◌==◌, to_nat}
use optimized_hash_join_pipe.Base.Bits.{bit_and_low, bit_or_low, bit_and-zero}

-- Bit `k`, 0 or 1.
abbrev pub bit : ℕ → ℕ → ℕ
bit zero w = w % 2
bit (suc k) w = bit k (w / 2)

pub bit-le : (k w : ℕ) → bit k w ≤ 1
bit-le zero w = omega arith
bit-le (suc k) w = bit-le k (w / 2)

pub bit-bit_and : (k a b : ℕ) → bit k (bit_and a b) ≡ min (bit k a) (bit k b)
bit-bit_and zero a b = omega (arith, bit_and_low a b)
bit-bit_and (suc k) a b =
    ap (bit k)
      (let e : bit_and a b / 2 ≡ bit_and (a / 2) (b / 2) = omega (arith, bit_and_low a b) in e)
    ∙ bit-bit_and k (a / 2) (b / 2)

pub bit-bit_or : (k a b : ℕ) → bit k (bit_or a b) ≡ max (bit k a) (bit k b)
bit-bit_or zero a b = omega (arith, bit_or_low a b)
bit-bit_or (suc k) a b =
    ap (bit k)
      (let e : bit_or a b / 2 ≡ bit_or (a / 2) (b / 2) = omega (arith, bit_or_low a b) in e)
    ∙ bit-bit_or k (a / 2) (b / 2)

pub bit-zero : (k : ℕ) → bit k 0 ≡ 0
bit-zero zero = refl
bit-zero (suc k) = bit-zero k

-- `1 << j`
pub bit-pow : (k j : ℕ) → bit k (2 ^ j) ≡ to_nat (k == j)
bit-pow zero zero = refl
bit-pow zero (suc j) = ground (arith, pow-suc 2 j)
bit-pow (suc k) zero = ground (arith, bit-zero k)
bit-pow (suc k) (suc j) =
    ap (bit k) (let e : 2 ^ suc j / 2 ≡ 2 ^ j = omega (arith, pow-suc 2 j) in e)
    ∙ bit-pow k j
    ∙ ground arith

-- `b << j` for a truth value.
pub bit-shifted : (b : Bool) (k j : ℕ) → bit k (to_nat b * 2 ^ j) ≡ min (to_nat b) (to_nat (k == j))
bit-shifted true k j =
    ap (bit k) (let e : 1 * 2 ^ j ≡ 2 ^ j = omega arith in e) ∙ bit-pow k j ∙ ground arith
bit-shifted false k j =
    ap (bit k) (let e : 0 * 2 ^ j ≡ 0 = omega arith in e) ∙ bit-zero k ∙ ground arith

half-mod : (n w : ℕ) → w % 2 ^ suc n / 2 ≡ w / 2 % 2 ^ n
half-mod n w =
    let q = w / 2 ^ suc n in
    let r = w % 2 ^ suc n in
    let split : w / 2 ≡ 2 ^ n * q + r / 2 =
      omega (arith, div-add-mod w (2 ^ suc n), ap (λ (t : ℕ). t * q) (pow-suc 2 n), twice q) in
    let small : r / 2 < 2 ^ n =
      omega (arith, mod-lt w (one-le-pow (suc n) 2 (omega arith)), pow-suc 2 n) in
    sym (mod-eq_of_lt small)
    ∙ sym (mul-add-mod_self_left (2 ^ n) q (r / 2))
    ∙ ap (λ (t : ℕ). t % 2 ^ n) (sym split)
  where
    twice : (q : ℕ) → 2 ^ n * 2 * q ≡ 2 * (2 ^ n * q)
    twice q = omega arith

even-mod : (n w : ℕ) → w % 2 ^ suc n % 2 ≡ w % 2
even-mod n w = omega (
  arith,
  div-add-mod w (2 ^ suc n),
  ap (λ (t : ℕ). t * (w / 2 ^ suc n)) (pow-suc 2 n),
  twice (w / 2 ^ suc n),
)
  where
    twice : (q : ℕ) → 2 ^ n * 2 * q ≡ 2 * (2 ^ n * q)
    twice q = omega arith

-- The bits below `n` of a number cut to `n` bits.
pub bit-mod : (n k w : ℕ) → k < n → bit k (w % 2 ^ n) ≡ bit k w
bit-mod zero k w h = absurd (omega arith)
bit-mod (suc n) zero w h = even-mod n w
bit-mod (suc n) (suc k) w h = ap (bit k) (half-mod n w) ∙ bit-mod n k (w / 2) (omega arith)

-- `~` of `n` bits.
pub bit-complement : (n k w : ℕ) → w < 2 ^ n → k < n → bit k (2 ^ n - 1 - w) ≡ 1 - bit k w
bit-complement zero k w h l = absurd (omega arith)
bit-complement (suc n) zero w h l = omega (arith, pow-suc 2 n)
bit-complement (suc n) (suc k) w h l =
    ap (bit k)
      (let e : (2 ^ suc n - 1 - w) / 2 ≡ 2 ^ n - 1 - w / 2 = omega (arith, pow-suc 2 n) in e)
    ∙ bit-complement n k (w / 2) (omega (arith, pow-suc 2 n)) (omega arith)

-- `w & (1 << k)`
pub bit_and-pow : (k w : ℕ) → bit_and w (2 ^ k) ≡ bit k w * 2 ^ k
bit_and-pow zero w = omega (arith, bit_and_low w 1, bit_and-zero (w / 2))
bit_and-pow (suc k) w = omega (
  arith,
  bit_and_low w (2 ^ suc k),
  ap (bit_and (w / 2)) (let e : 2 ^ suc k / 2 ≡ 2 ^ k = omega (arith, pow-suc 2 k) in e),
  pow-suc 2 k,
  bit_and-pow k (w / 2),
  ap (λ (t : ℕ). bit k (w / 2) * t) (pow-suc 2 k),
)
