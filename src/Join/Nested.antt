-- ===== src/Join/Nested.antt =====
-- The join by a nest of two loops, and what the rows of the probe side add up to.
use mathlib.Core.List.{Permᴰ}
use mathlib.Core.List.Permᴰ
use optimized_hash_join_pipe.Base.{
  ℕ, zero, suc, ◌+◌, ◌≤◌, ◌≡◌, ◌⊎◌, refl, arith, ap, sym, subst, ◌==◌, not, ◌&&◌, if◌then◌else◌,
  Bool, Bool-cases, inl, inr, true, false, List, [], ◌∷◌, map,
}
use optimized_hash_join_pipe.Column.{Value}
use optimized_hash_join_pipe.Build.Correct.{matching}
use optimized_hash_join_pipe.Join.Ranges.{gather, gather_congr, gather_none, gather-gather_swap}
use optimized_hash_join_pipe.Join.Results.{Within}

-- Neither is null, and the keys are the same.
abbrev pub same_key : Value → Value → Bool
same_key a b = not (a.status == 0) && (not (b.status == 0) && (b.val == a.val))

-- The pairs of a left and a right row that join.
unfoldable pub nested_loop : (left right : ℕ → Value) (left_rows right_rows : ℕ) → List (ℕ × ℕ)
nested_loop left right left_rows right_rows =
    gather (λ l. gather (λ r. if same_key (left l) (right r) then (l, r) ∷ [] else []) 0 right_rows)
      0 left_rows

pub nested_loop-none :
    (left right : ℕ → Value) (left_rows right_rows : ℕ)
    → ((left_rows ≡ 0) ⊎ (right_rows ≡ 0))
    → nested_loop left right left_rows right_rows ≡ []
unfolding nested_loop gather
nested_loop-none left right left_rows right_rows (inl e) = rw e refl
nested_loop-none left right left_rows right_rows (inr e) = rw e (gather_none 0 left_rows)

same_key_comm : (a b : Value) → same_key a b ≡ same_key b a
same_key_comm a b = elim (Bool-cases (a.status == 0)) [
  | inl na ↦ elim (Bool-cases (b.status == 0)) [
    | inl nb ↦ rw (na, nb) refl
    | inr vb ↦ rw (na, vb) refl
  ]
  | inr va ↦ elim (Bool-cases (b.status == 0)) [
    | inl nb ↦ rw (va, nb) refl
    | inr vb ↦
        rw (va, vb)
          (elim (Bool-cases (b.val == a.val)) [
            | inl same ↦ let t : (a.val == b.val) ≡ true = ground arith in rw (same, t) refl
            | inr apart ↦ let t : (a.val == b.val) ≡ false = ground arith in rw (apart, t) refl
          ])
  ]
]

-- The left side is built, and the right side probes.
pub nested_loop-swap :
    (left right : ℕ → Value) (left_rows right_rows : ℕ)
    → Permᴰ
        (gather
          (λ r. gather (λ l. if same_key (right r) (left l) then (l, r) ∷ [] else []) 0 left_rows)
          0
          right_rows)
        (nested_loop left right left_rows right_rows)
unfolding nested_loop
nested_loop-swap left right left_rows right_rows =
    Permᴰ.trans
      (gather-gather_swap (λ r l. if same_key (right r) (left l) then (l, r) ∷ [] else []) 0
        right_rows 0 left_rows)
      (subst (Permᴰ _)
        (gather_congr _ _ 0 left_rows (λ l lo hi.
          gather_congr (λ r. if same_key (right r) (left l) then (l, r) ∷ [] else [])
            (λ r. if same_key (left l) (right r) then (l, r) ∷ [] else []) 0 right_rows
            (λ r lo' hi'.
              ap (λ (b : Bool). if b then (l, r) ∷ [] else []) (same_key_comm (right r) (left l)))))
        (Permᴰ.refl _))

matching-gather :
    (rows : ℕ → Value) (h : ℕ → ℕ × ℕ) (key from n : ℕ)
    → map h (matching rows key from n)
      ≡ gather
          (λ b. if not ((rows b).status == 0) && ((rows b).val == key) then h b ∷ [] else [])
          from
          n
unfolding matching gather
matching-gather rows h key from zero = refl
matching-gather rows h key from (suc n) =
    elim (Bool-cases (not ((rows from).status == 0) && ((rows from).val == key))) [
      | inl hit ↦ rw hit (ap (λ t. h from ∷ t) (matching-gather rows h key (from + 1) n))
      | inr miss ↦ rw miss (matching-gather rows h key (from + 1) n)
    ]

pub matching-Within :
    (rows : ℕ → Value) (key from n limit : ℕ)
    → from + n ≤ limit
    → Within limit (matching rows key from n)
unfolding matching
matching-Within rows key from zero limit l = tt
matching-Within rows key from (suc n) limit l =
    let rest = matching-Within rows key (from + 1) n limit (omega arith) in
    elim (Bool-cases (not ((rows from).status == 0) && ((rows from).val == key))) [
      | inl hit ↦ rw hit (omega arith, rest)
      | inr miss ↦ rw miss rest
    ]

-- What a value of the probe side finds.
pub found-gather :
    (rows : ℕ → Value) (h : ℕ → ℕ × ℕ) (v : Value) (n : ℕ) (found : List ℕ)
    → Permᴰ found (matching rows v.val 0 n)
    → Permᴰ
        (if v.status == 0 then [] else map h found)
        (gather (λ b. if same_key v (rows b) then h b ∷ [] else []) 0 n)
found-gather rows h v n found p = elim (Bool-cases (v.status == 0)) [
  | inl null ↦ rw null (subst (Permᴰ []) (sym (gather_none 0 n)) Permᴰ.nil)
  | inr value ↦
      rw value (subst (Permᴰ (map h found)) (matching-gather rows h v.val 0 n) (Permᴰ.map h p))
]
