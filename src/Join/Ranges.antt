-- ===== src/Join/Ranges.antt =====
-- Loops over a range of numbers that each add to a list.
use mathlib.Core.List.{append_assoc, append-nil, map-append, Permᴰ}
use mathlib.Core.List.Permᴰ
use optimized_hash_join_pipe.Base.{
  ℕ, zero, suc, ◌+◌, ◌<◌, ◌≤◌, ◌≡◌, refl, arith, ap, ap₂, ◌∙◌, sym, subst, ◌==◌, if◌then◌else◌,
  Bool-cases, inl, inr, false, List, [], ◌++◌, map,
}

-- `f from`, … , `f (from + n - 1)`, one after the other
unfoldable pub gather {ℓ} : {A : Type ℓ} → (ℕ → List A) → ℕ → ℕ → List A
gather f from zero = []
gather f from (suc n) = f from ++ gather f (from + 1) n

module _ {ℓ} {A : Type ℓ} where
  pub gather_add :
      (f : ℕ → List A) (from n k : ℕ)
      → gather f from (n + k) ≡ gather f from n ++ gather f (from + n) k
  unfolding gather
  gather_add f from zero k = ap₂ (gather f) (omega arith) (omega arith)
  gather_add f from (suc n) k =
      ap (gather f from) (let t : suc n + k ≡ suc (n + k) = omega arith in t)
      ∙ ap (λ t. f from ++ t) (gather_add f (from + 1) n k)
      ∙ sym (append_assoc (f from) (gather f (from + 1) n) (gather f (from + 1 + n) k))
      ∙ ap (λ (i : ℕ). (f from ++ gather f (from + 1) n) ++ gather f i k) (omega arith)

  pub gather_perm :
      (f g : ℕ → List A) (from n : ℕ)
      → ((i : ℕ) → from ≤ i → i < from + n → Permᴰ (f i) (g i))
      → Permᴰ (gather f from n) (gather g from n)
  unfolding gather
  gather_perm f g from zero h = Permᴰ.nil
  gather_perm f g from (suc n) h =
      Permᴰ.trans (Permᴰ.append_right (gather f (from + 1) n) (h from (omega arith) (omega arith)))
        (Permᴰ.append_left (g from)
          (gather_perm f g (from + 1) n (λ i l u. h i (omega arith) (omega arith))))

  pub gather_congr :
      (f g : ℕ → List A) (from n : ℕ)
      → ((i : ℕ) → from ≤ i → i < from + n → f i ≡ g i)
      → gather f from n ≡ gather g from n
  unfolding gather
  gather_congr f g from zero h = refl
  gather_congr f g from (suc n) h =
      ap₂ ◌++◌ (h from (omega arith) (omega arith))
        (gather_congr f g (from + 1) n (λ i l u. h i (omega arith) (omega arith)))

  pub gather_none : (from n : ℕ) → gather {A = A} (λ i. []) from n ≡ []
  unfolding gather
  gather_none from zero = refl
  gather_none from (suc n) = gather_none (from + 1) n

  middle_swap : (ws xs ys zs : List A) → Permᴰ ((ws ++ xs) ++ (ys ++ zs)) ((ws ++ ys) ++ (xs ++ zs))
  middle_swap ws xs ys zs =
      rw (append_assoc ws xs (ys ++ zs), append_assoc ws ys (xs ++ zs))
        (Permᴰ.append_left ws (
          rw (← append_assoc xs ys zs, ← append_assoc ys xs zs)
            (Permᴰ.append_right zs (Permᴰ.append_comm xs ys))))

  gather-append :
      (f g : ℕ → List A) (from n : ℕ)
      → Permᴰ (gather (λ i. f i ++ g i) from n) (gather f from n ++ gather g from n)
  unfolding gather
  gather-append f g from zero = Permᴰ.nil
  gather-append f g from (suc n) =
      Permᴰ.trans (Permᴰ.append_left (f from ++ g from) (gather-append f g (from + 1) n))
        (middle_swap (f from) (g from) (gather f (from + 1) n) (gather g (from + 1) n))

  -- The two loops of a nest can change places.
  pub gather-gather_swap :
      (f : ℕ → ℕ → List A) (from n start k : ℕ)
      → Permᴰ
          (gather (λ i. gather (λ j. f i j) start k) from n)
          (gather (λ j. gather (λ i. f i j) from n) start k)
  unfolding gather
  gather-gather_swap f from zero start k = subst (Permᴰ []) (sym (gather_none start k)) Permᴰ.nil
  gather-gather_swap f from (suc n) start k =
      Permᴰ.trans
        (Permᴰ.append_left (gather (f from) start k) (gather-gather_swap f (from + 1) n start k))
        (Permᴰ.symm (gather-append (f from) (λ j. gather (λ i. f i j) (from + 1) n) start k))

  -- Only one round of a loop adds something.
  pub gather_point :
      (xs : List A) (at from n : ℕ)
      → from ≤ at
      → at < from + n
      → gather (λ i. if at == i then xs else []) from n ≡ xs
  unfolding gather
  gather_point xs at from zero l u = absurd (omega arith)
  gather_point xs at from (suc n) l u = elim (Bool-cases (at == from)) [
    | inl here ↦ rw here (
        ap (λ (t : List A). xs ++ t)
          (gather_congr (λ i. if at == i then xs else []) (λ i. []) (from + 1) n
              (λ i lo hi. let apart : (at == i) ≡ false = ground arith in rw apart refl)
            ∙ gather_none (from + 1) n)
        ∙ append-nil xs)
    | inr later ↦ rw later (gather_point xs at (from + 1) n (ground arith) (omega arith))
  ]

pub map-gather {ℓ κ} :
    {A : Type ℓ} {B : Type κ} (h : A → B) (f : ℕ → List A) (from n : ℕ)
    → map h (gather f from n) ≡ gather (λ i. map h (f i)) from n
unfolding gather
map-gather h f from zero = refl
map-gather h f from (suc n) =
    map-append h (f from) (gather f (from + 1) n)
    ∙ ap (λ t. map h (f from) ++ t) (map-gather h f (from + 1) n)
