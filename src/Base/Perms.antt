-- ===== src/Base/Perms.antt =====
-- Permutations against this library's own `length` and `select`.
use mathlib.Core.Path.{◌≡◌, refl, ◌∙◌}
use mathlib.Core.Logic.{inl, inr}
use mathlib.Core.Bool.{Bool}
use mathlib.Core.List.{List, ◌∷◌, Permᴰ}
use mathlib.Core.List.Permᴰ
use native.Mathlib.Omega.{arith}
use optimized_hash_join_pipe.Base.Truth.{Bool-cases}
use optimized_hash_join_pipe.Base.Lists.{length, select}

module _ {ℓ} {A : Type ℓ} where
  pub perm-length : {xs ys : List A} → Permᴰ xs ys → length xs ≡ length ys
  perm-length Permᴰ.nil = refl
  perm-length (Permᴰ.cons e p) = omega (arith, perm-length p)
  perm-length (Permᴰ.swap e f) = refl
  perm-length (Permᴰ.trans p q) = perm-length p ∙ perm-length q

  swap-select :
      (t : A → Bool) (a b : A) (l : List A) → Permᴰ (select t (a ∷ b ∷ l)) (select t (b ∷ a ∷ l))
  swap-select t a b l = elim (Bool-cases (t a)) [
    | inl ha ↦ elim (Bool-cases (t b)) [
      | inl hb ↦ rw (ha, hb) (Permᴰ.swap refl refl)
      | inr hb ↦ rw (ha, hb) (Permᴰ.refl _)
    ]
    | inr ha ↦ elim (Bool-cases (t b)) [
      | inl hb ↦ rw (ha, hb) (Permᴰ.refl _)
      | inr hb ↦ rw (ha, hb) (Permᴰ.refl _)
    ]
  ]

  pub select-perm :
      (t : A → Bool) {xs ys : List A} → Permᴰ xs ys → Permᴰ (select t xs) (select t ys)
  select-perm t Permᴰ.nil = Permᴰ.nil
  select-perm t (Permᴰ.cons {a} {b} e p) = rw e (elim (Bool-cases (t b)) [
    | inl h ↦ rw h (Permᴰ.cons refl (select-perm t p))
    | inr h ↦ rw h (select-perm t p)
  ])
  select-perm t (Permᴰ.swap {a} {b} {l} e f) = rw (← e, ← f) (swap-select t a b l)
  select-perm t (Permᴰ.trans p q) = Permᴰ.trans (select-perm t p) (select-perm t q)
