-- ===== src/Base/Bits.antt =====
-- Laws of `&` and `|` at variables, by recursion on the width.
use Prim.Native.Nat.{
  ℕ, zero, suc, ◌+◌, ◌-◌, ◌*◌, ◌/◌, ◌%◌, ◌^◌, ◌≤◌, ◌<◌, min, max, digits, bit_and, bit_or,
  bit_and-bitwise, bit_or-bitwise,
}
use mathlib.Core.Path.{◌≡◌, refl, ap}
use native.Mathlib.Nat.{pow-suc}
use native.Mathlib.Omega.{arith}

-- What a budget of digits computes does not depend on the budget, if it is no less than the number.
digits_budget :
    (z : ℕ → ℕ) (f : ℕ → ℕ → ℕ) (small large a b : ℕ)
    → a ≤ small
    → small ≤ large
    → digits z f large a b ≡ digits z f small a b
digits_budget z f zero zero zero b p q = refl
digits_budget z f zero (suc l) zero b p q = refl
digits_budget z f (suc s) (suc l) zero b p q = refl
digits_budget z f zero l (suc a) b p q = absurd (omega arith)
digits_budget z f (suc s) zero a b p q = absurd (omega arith)
digits_budget z f (suc s) (suc l) (suc a) b p q =
    ap (λ (t : ℕ). t * 2 + f (suc a % 2) (b % 2))
      (digits_budget z f s l (suc a / 2) (b / 2) (omega arith) (omega arith))

-- The lowest digit of each operation, and the rest.
pub bit_and_low : (a b : ℕ) → bit_and a b ≡ 2 * bit_and (a / 2) (b / 2) + min (a % 2) (b % 2)
bit_and_low zero b = simp bit_and-bitwise (omega arith)
bit_and_low (suc a) b = simp bit_and-bitwise (
    omega (
      arith,
      digits_budget (λ y. 0) min (suc a / 2) a (suc a / 2) (b / 2) (omega arith) (omega arith),
    ))

pub bit_or_low : (a b : ℕ) → bit_or a b ≡ 2 * bit_or (a / 2) (b / 2) + max (a % 2) (b % 2)
bit_or_low zero b = simp bit_or-bitwise (omega arith)
bit_or_low (suc a) b = simp bit_or-bitwise (
    omega (
      arith,
      digits_budget (λ y. y) max (suc a / 2) a (suc a / 2) (b / 2) (omega arith) (omega arith),
    ))

double_shift : (q k : ℕ) → q * 2 ^ suc k ≡ 2 * (q * 2 ^ k)
double_shift q k = omega (arith, ap (λ (t : ℕ). q * t) (pow-suc 2 k))

bit_or-zero_below : (k a : ℕ) → a < 2 ^ k → bit_or a 0 ≡ a
bit_or-zero_below zero a h = let e : a ≡ 0 = omega arith in rw e
bit_or-zero_below (suc k) a h =
    omega (arith, bit_or_low a 0, bit_or-zero_below k (a / 2) (omega (arith, pow-suc 2 k)))

lt-two-pow : (a : ℕ) → a < 2 ^ a
lt-two-pow zero = omega arith
lt-two-pow (suc a) = omega (arith, lt-two-pow a, pow-suc 2 a)

pub bit_or-zero : (a : ℕ) → bit_or a 0 ≡ a
bit_or-zero a = bit_or-zero_below a a (lt-two-pow a)

bit_and-zero_below : (k a : ℕ) → a < 2 ^ k → bit_and a 0 ≡ 0
bit_and-zero_below zero a h = let e : a ≡ 0 = omega arith in rw e (bit_and-bitwise 0 0)
bit_and-zero_below (suc k) a h =
    omega (arith, bit_and_low a 0, bit_and-zero_below k (a / 2) (omega (arith, pow-suc 2 k)))

pub bit_and-zero : (a : ℕ) → bit_and a 0 ≡ 0
bit_and-zero a = bit_and-zero_below a a (lt-two-pow a)

-- `|` with a number of `k` bits leaves the bits above alone.
pub bit_or_high :
    (k q t r : ℕ) → t < 2 ^ k → r < 2 ^ k → bit_or (q * 2 ^ k + t) r ≡ q * 2 ^ k + bit_or t r
bit_or_high zero q t r ht hr =
    let et : t ≡ 0 = omega arith in
    let er : r ≡ 0 = omega arith in
    rw (et, er) (omega (arith, bit_or-zero (q * 1 + 0), bit_or-zero 0))
bit_or_high (suc k) q t r ht hr = omega (
  arith,
  bit_or_low (q * 2 ^ suc k + t) r,
  bit_or_low t r,
  half,
  double_shift q k,
  bit_or_high k q (t / 2) (r / 2) (omega (arith, pow-suc 2 k)) (omega (arith, pow-suc 2 k)),
)
  where
    half : bit_or ((q * 2 ^ suc k + t) / 2) (r / 2) ≡ bit_or (q * 2 ^ k + t / 2) (r / 2)
    half = ap (λ (x : ℕ). bit_or x (r / 2)) (omega (arith, double_shift q k))

pub bit_or-lt : (k a b : ℕ) → a < 2 ^ k → b < 2 ^ k → bit_or a b < 2 ^ k
bit_or-lt zero a b ha hb =
    let ea : a ≡ 0 = omega arith in let eb : b ≡ 0 = omega arith in rw (ea, eb) (omega arith)
bit_or-lt (suc k) a b ha hb = omega (
  arith,
  bit_or_low a b,
  pow-suc 2 k,
  bit_or-lt k (a / 2) (b / 2) (omega (arith, pow-suc 2 k)) (omega (arith, pow-suc 2 k)),
)

pub bit_and-lt : (k a b : ℕ) → a < 2 ^ k → b < 2 ^ k → bit_and a b < 2 ^ k
bit_and-lt zero a b ha hb =
    let ea : a ≡ 0 = omega arith in let eb : b ≡ 0 = omega arith in rw (ea, eb) (omega arith)
bit_and-lt (suc k) a b ha hb = omega (
  arith,
  bit_and_low a b,
  pow-suc 2 k,
  bit_and-lt k (a / 2) (b / 2) (omega (arith, pow-suc 2 k)) (omega (arith, pow-suc 2 k)),
)

-- A `k`-bit mask `t` is contained in `x`: no bit of it meets the complement of `x`.
abbrev pub misses : ℕ → ℕ → ℕ → ℕ
misses k t x = bit_and t (2 ^ k - 1 - x)

misses_low :
    (k t x : ℕ)
    → x < 2 ^ suc k
    → misses (suc k) t x ≡ 2 * misses k (t / 2) (x / 2) + min (t % 2) (1 - x % 2)
misses_low k t x h = omega (arith, bit_and_low t (2 ^ suc k - 1 - x), half, bit)
  where
    half : bit_and (t / 2) ((2 ^ suc k - 1 - x) / 2) ≡ bit_and (t / 2) (2 ^ k - 1 - x / 2)
    half = ap (bit_and (t / 2)) (omega (arith, pow-suc 2 k))

    bit : (2 ^ suc k - 1 - x) % 2 ≡ 1 - x % 2
    bit = omega (arith, pow-suc 2 k)

-- What was or-ed in is contained.
pub misses-bit_or : (k x t : ℕ) → x < 2 ^ k → t < 2 ^ k → misses k t (bit_or x t) ≡ 0
misses-bit_or zero x t hx ht = let e : t ≡ 0 = omega arith in rw e (bit_and-bitwise 0 _)
misses-bit_or (suc k) x t hx ht = omega (
  arith,
  misses_low k t (bit_or x t) (bit_or-lt (suc k) x t hx ht),
  bit_or_low x t,
  half,
  misses-bit_or k (x / 2) (t / 2) (omega (arith, pow-suc 2 k)) (omega (arith, pow-suc 2 k)),
)
  where
    half : misses k (t / 2) (bit_or x t / 2) ≡ misses k (t / 2) (bit_or (x / 2) (t / 2))
    half = ap (λ (y : ℕ). misses k (t / 2) y) (omega (arith, bit_or_low x t))

-- What is contained stays so when more bits are or-ed in.
pub misses_mono :
    (k x t y : ℕ) → x < 2 ^ k → y < 2 ^ k → misses k t x ≡ 0 → misses k t (bit_or x y) ≡ 0
misses_mono zero x t y hx hy h =
    let ex : x ≡ 0 = omega arith in
    let ey : y ≡ 0 = omega arith in
    omega (arith, h, ap (λ (z : ℕ). bit_and t (2 ^ 0 - 1 - z)) (same ex ey))
  where
    same : x ≡ 0 → y ≡ 0 → bit_or x y ≡ x
    same ex ey = rw (ex, ey)
misses_mono (suc k) x t y hx hy h = omega (
  arith,
  misses_low k t (bit_or x y) (bit_or-lt (suc k) x y hx hy),
  low,
  bit_or_low x y,
  half,
  misses_mono k (x / 2) (t / 2) (y / 2) (omega (arith, pow-suc 2 k)) (omega (arith, pow-suc 2 k))
      (omega (arith, low)),
)
  where
    low : 2 * misses k (t / 2) (x / 2) + min (t % 2) (1 - x % 2) ≡ 0
    low = omega (arith, misses_low k t x hx)

    half : misses k (t / 2) (bit_or x y / 2) ≡ misses k (t / 2) (bit_or (x / 2) (y / 2))
    half = ap (λ (z : ℕ). misses k (t / 2) z) (omega (arith, bit_or_low x y))
