-- ===== src/Base/Partial.antt =====
-- Code that can run into undefined behaviour: `none` is an access outside an array.
use Prim.Native.Nat.{ℕ, zero, suc, ◌<◌}
use mathlib.Core.Path.{◌≡◌, refl}
use mathlib.Core.List.{List, [], ◌∷◌}
use mathlib.Core.Option.{Option, none, some}
use native.Mathlib.Omega.{arith}
use optimized_hash_join_pipe.Base.Lists.{length, get_or, set}

infixl 5 ◌>>=◌
abbrev pub ◌>>=◌ {ℓ κ} : {A : Type ℓ} {B : Type κ} → Option A → (A → Option B) → Option B
none >>= f = none
some a >>= f = f a

-- The run ends, in a value that satisfies `P`.
abbrev pub Returns {ℓ κ} : {A : Type ℓ} → Option A → (A → Type κ) → Type (ℓ ⊔ κ)
Returns {A} r P = (a : A) × (r ≡ some a) × P a

module _ {ℓ} {A : Type ℓ} where
  -- `xs[i]`
  unfoldable pub load : List A → ℕ → Option A
  load [] i = none
  load (x ∷ xs) zero = some x
  load (x ∷ xs) (suc i) = load xs i

  -- `xs[i] = v`
  unfoldable pub store : List A → ℕ → A → Option (List A)
  store [] i v = none
  store (x ∷ xs) zero v = some (v ∷ xs)
  store (x ∷ xs) (suc i) v = store xs i v >>= λ ys. some (x ∷ ys)

  pub load-get_or : (xs : List A) (i : ℕ) (d : A) → i < length xs → load xs i ≡ some (get_or xs i d)
  unfolding load
  load-get_or [] i d h = absurd (omega arith)
  load-get_or (x ∷ xs) zero d h = refl
  load-get_or (x ∷ xs) (suc i) d h = load-get_or xs i d (omega arith)

  pub store-set : (xs : List A) (i : ℕ) (v : A) → i < length xs → store xs i v ≡ some (set xs i v)
  unfolding store
  store-set [] i v h = absurd (omega arith)
  store-set (x ∷ xs) zero v h = refl
  store-set (x ∷ xs) (suc i) v h = rw (store-set xs i v (omega arith))
