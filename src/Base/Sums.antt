-- ===== src/Base/Sums.antt =====
-- Sums over a range of indices.
use Prim.Native.Nat.{ℕ, zero, suc, ◌+◌, ◌*◌, ◌≤◌, ◌<◌}
use mathlib.Core.Path.{◌≡◌, refl, ap, ap₂}
use native.Mathlib.Omega.{arith}
use native.Mathlib.Decide.{ℕ_discrete}
use optimized_hash_join_pipe.Base.Truth.{◌==◌, ==_refl, to_nat}

-- `f i + … + f (i + n - 1)`
pub sum_range : (ℕ → ℕ) → ℕ → ℕ → ℕ
sum_range f i zero = 0
sum_range f i (suc n) = f i + sum_range f (i + 1) n

pub sum_range-zero : (f : ℕ → ℕ) (i : ℕ) → sum_range f i 0 ≡ 0
unfolding sum_range
sum_range-zero f i = refl

pub sum_range-suc : (f : ℕ → ℕ) (i n : ℕ) → sum_range f i (suc n) ≡ f i + sum_range f (i + 1) n
unfolding sum_range
sum_range-suc f i n = refl

pub sum_range_congr :
    (f g : ℕ → ℕ) (i n : ℕ)
    → ((s : ℕ) → i ≤ s → s < i + n → f s ≡ g s)
    → sum_range f i n ≡ sum_range g i n
unfolding sum_range
sum_range_congr f g i zero h = refl
sum_range_congr f g i (suc n) h =
    ap₂ ◌+◌ (h i (omega arith) (omega arith))
      (sum_range_congr f g (i + 1) n (λ s l u. h s (omega arith) (omega arith)))

pub sum_range-last : (f : ℕ → ℕ) (i n : ℕ) → sum_range f i (suc n) ≡ sum_range f i n + f (i + n)
unfolding sum_range
sum_range-last f i zero = ground arith
sum_range-last f i (suc n) =
    omega
      (arith, sum_range-last f (i + 1) n, ap f (let e : i + 1 + n ≡ i + suc n = omega arith in e))

pub sum_range-add :
    (f g : ℕ → ℕ) (i n : ℕ) → sum_range (λ s. f s + g s) i n ≡ sum_range f i n + sum_range g i n
unfolding sum_range
sum_range-add f g i zero = refl
sum_range-add f g i (suc n) = omega (arith, sum_range-add f g (i + 1) n)

pub sum_range-mul :
    (c : ℕ) (f : ℕ → ℕ) (i n : ℕ) → sum_range (λ s. c * f s) i n ≡ c * sum_range f i n
unfolding sum_range
sum_range-mul c f i zero = omega arith
sum_range-mul c f i (suc n) = omega (arith, sum_range-mul c f (i + 1) n)

-- A sum over a shorter range is no larger.
pub sum_range-le : (f : ℕ → ℕ) (i m n : ℕ) → m ≤ n → sum_range f i m ≤ sum_range f i n
unfolding sum_range
sum_range-le f i zero n h = omega arith
sum_range-le f i (suc m) zero h = absurd (omega arith)
sum_range-le f i (suc m) (suc n) h = omega (arith, sum_range-le f (i + 1) m n (omega arith))

-- The part before an index, with the term at it, is within the part before any later index.
pub sum_range-lt : (f : ℕ → ℕ) (i m n : ℕ) → m < n → sum_range f i m + f (i + m) ≤ sum_range f i n
sum_range-lt f i m n h = omega (arith, sum_range-last f i m, sum_range-le f i (suc m) n h)

-- The sum of an indicator over a range that has its point.
pub sum_range-point : (a i n : ℕ) → i ≤ a → a < i + n → sum_range (λ s. to_nat (a == s)) i n ≡ 1
unfolding sum_range
sum_range-point a i zero l u = absurd (omega arith)
sum_range-point a i (suc n) l u = elim (ℕ_discrete a i) [
  | yes e ↦ omega (
    arith,
    beyond (i + 1) n (omega arith),
    ap (λ (x : ℕ). to_nat (x == i)) e,
    ap to_nat (==_refl i),
  )
  | no ne ↦
      let miss : to_nat (a == i) ≡ 0 = ground arith in
      omega (arith, miss, sum_range-point a (i + 1) n (omega arith) (omega arith))
]
  where
    beyond : (j m : ℕ) → a < j → sum_range (λ s. to_nat (a == s)) j m ≡ 0
    beyond j zero h = refl
    beyond j (suc m) h =
        let miss : to_nat (a == j) ≡ 0 = ground arith in
        omega (arith, miss, beyond (j + 1) m (omega arith))

pub sum_range-none : (i n : ℕ) → sum_range (λ _. 0) i n ≡ 0
unfolding sum_range
sum_range-none i zero = refl
sum_range-none i (suc n) = omega (arith, sum_range-none (i + 1) n)
