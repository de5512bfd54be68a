-- ===== src/Column/Packed.antt =====
-- Buffers that are full but for the last: the values that they hold, and pushes of a value.
use mathlib.Core.List.{append_assoc}
use optimized_hash_join_pipe.Base.{
  ℕ, zero, suc, ◌+◌, ◌-◌, ◌/◌, ◌%◌, ◌<◌, ◌≤◌, ◌≡◌, refl, arith, ap, ◌∙◌, sym, ◌==◌, if◌then◌else◌,
  Bool-cases, inl, inr, some, List, [], ◌∷◌, ◌++◌, length, length-append, get_or,
  get_or-append_left, dec_lt,
}
use optimized_hash_join_pipe.Base.Partial.{load, load-get_or}
use optimized_hash_join_pipe.Column.{Value, Buffer, max_per_buffer, buffer_value}

abbrev pub Packed : List Buffer → List Value → Type 0
Packed [] vs = vs ≡ []
Packed (b ∷ []) vs = (vs ≡ b) × (0 < length b) × (length b ≤ max_per_buffer)
Packed (b ∷ (c ∷ bs)) vs =
    (length b ≡ max_per_buffer) × (rest : List Value) × (vs ≡ b ++ rest) × Packed (c ∷ bs) rest

-- A value behind the last: in a new buffer, if there is none or the last is full.
unfoldable pub push_value : List Buffer → Value → List Buffer
push_value [] v = (v ∷ []) ∷ []
push_value (b ∷ []) v =
    if length b == max_per_buffer then b ∷ ((v ∷ []) ∷ []) else (b ++ v ∷ []) ∷ []
push_value (b ∷ (c ∷ bs)) v = b ∷ push_value (c ∷ bs) v

pub push_value-Packed :
    (bs : List Buffer) (vs : List Value) (v : Value)
    → Packed bs vs
    → Packed (push_value bs v) (vs ++ v ∷ [])
unfolding push_value
push_value-Packed [] vs v p = (ap (λ t. t ++ v ∷ []) p, omega arith, omega arith)
push_value-Packed (b ∷ []) vs v (e, pos, fits) = elim (Bool-cases (length b == max_per_buffer)) [
  | inl full ↦
      rw full (ground arith, v ∷ [], ap (λ t. t ++ v ∷ []) e, (refl, omega arith, omega arith))
  | inr more ↦ rw more (
    ap (λ t. t ++ v ∷ []) e,
    omega (arith, length-append b (v ∷ [])),
    ground (arith, length-append b (v ∷ [])),
  )
]
push_value-Packed (b ∷ (c ∷ [])) vs v (full, rest, e, p) =
    elim (Bool-cases (length c == max_per_buffer)) [
      | inl end ↦
          let q : Packed (push_value (c ∷ []) v) (rest ++ v ∷ []) =
            push_value-Packed (c ∷ []) rest v p in
          rw end (
            full,
            rest ++ v ∷ [],
            ap (λ t. t ++ v ∷ []) e ∙ append_assoc b rest (v ∷ []),
            rw end at q,
          )
      | inr more ↦
          let q : Packed (push_value (c ∷ []) v) (rest ++ v ∷ []) =
            push_value-Packed (c ∷ []) rest v p in
          rw more (
            full,
            rest ++ v ∷ [],
            ap (λ t. t ++ v ∷ []) e ∙ append_assoc b rest (v ∷ []),
            rw more at q,
          )
    ]
push_value-Packed (b ∷ (c ∷ (d ∷ bs))) vs v (full, rest, e, p) = (
  full,
  rest ++ v ∷ [],
  ap (λ t. t ++ v ∷ []) e ∙ append_assoc b rest (v ∷ []),
  push_value-Packed (c ∷ (d ∷ bs)) rest v p,
)

pub get_or-behind {ℓ} :
    {A : Type ℓ} (xs ys : List A) (i : ℕ) (d : A)
    → length xs ≤ i
    → get_or (xs ++ ys) i d ≡ get_or ys (i - length xs) d
get_or-behind [] ys i d h = ap (λ (k : ℕ). get_or ys k d) (omega arith)
get_or-behind (x ∷ xs) ys zero d h = absurd (omega arith)
get_or-behind (x ∷ xs) ys (suc i) d h =
    get_or-behind xs ys i d (omega arith) ∙ ap (λ (k : ℕ). get_or ys k d) (omega arith)

-- `get_value` finds the values.
pub buffer_value-Packed :
    (bs : List Buffer) (vs : List Value) (d : Value) (i : ℕ)
    → Packed bs vs
    → i < length vs
    → buffer_value bs i ≡ some (get_or vs i d)
unfolding buffer_value load
buffer_value-Packed [] vs d i p l = absurd (omega (arith, ap length p))
buffer_value-Packed (b ∷ []) vs d i (e, pos, fits) l =
    let size : length vs ≡ length b = ap length e in
    let first : i / max_per_buffer ≡ 0 = omega arith in
    let within : i % max_per_buffer ≡ i = omega arith in
    rw (first, within)
      (load-get_or b i d (omega arith) ∙ ap (λ (x : List Value). some (get_or x i d)) (sym e))
buffer_value-Packed (b ∷ (c ∷ bs)) vs d i (full, rest, e, p) l = elim (dec_lt i max_per_buffer) [
  | yes first ↦
      let at_first : i / max_per_buffer ≡ 0 = omega arith in
      let within : i % max_per_buffer ≡ i = omega arith in
      rw (at_first, within)
        (load-get_or b i d (omega arith)
          ∙ ap some (
              sym (get_or-append_left b rest i d (omega arith))
              ∙ ap (λ (x : List Value). get_or x i d) (sym e)))
  | no later ↦
      let size : length vs ≡ max_per_buffer + length rest =
        omega (arith, ap length e, length-append b rest) in
      let next : i / max_per_buffer ≡ suc ((i - max_per_buffer) / max_per_buffer) =
        omega (arith, later) in
      let same : i % max_per_buffer ≡ (i - max_per_buffer) % max_per_buffer =
        omega (arith, later) in
      rw (next, same)
        (buffer_value-Packed (c ∷ bs) rest d (i - max_per_buffer) p (omega arith)
          ∙ ap some (
              ap (λ (k : ℕ). get_or rest (i - k) d) (sym full)
              ∙ sym (get_or-behind b rest i d (omega (arith, later)))
              ∙ ap (λ (x : List Value). get_or x i d) (sym e)))
]
