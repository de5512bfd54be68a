-- ===== src/Join/Chunks.antt =====
-- A column in pages or in buffers, part by part.
use mathlib.Core.List.{append_assoc, append-nil, map-append}
use optimized_hash_join_pipe.Base.{
  ℕ, zero, suc, ◌+◌, ◌*◌, ◌<◌, ◌≤◌, ◌≡◌, refl, arith, ap, ap₂, ◌∙◌, sym, some, List, [], ◌∷◌, ◌++◌,
  map, length, length-append, get_or,
}
use optimized_hash_join_pipe.Base.Partial.{Returns, load}
use optimized_hash_join_pipe.Column.{Value, Page, Buffer, max_per_buffer}
use optimized_hash_join_pipe.Column.Packed.{Packed}
use optimized_hash_join_pipe.Column.Readable.{AllInts, starts_of}
use optimized_hash_join_pipe.Pages.Numbers.{HoldsNumbers, join}
use optimized_hash_join_pipe.Pages.Scans.{length-map}
use optimized_hash_join_pipe.Join.Ranges.{gather}

-- The part `k`, and where it begins.
abbrev pub part {ℓ} : {A : Type ℓ} → List (List A) → ℕ → List A
part chunks k = get_or chunks k []

abbrev pub start_of {ℓ} : {A : Type ℓ} → List (List A) → ℕ → ℕ
start_of chunks k = get_or (starts_of 0 chunks) k 0

module _ {ℓ} {A : Type ℓ} where
  pub length-starts_of :
      (from : ℕ) (chunks : List (List A)) → length (starts_of from chunks) ≡ suc (length chunks)
  length-starts_of from [] = refl
  length-starts_of from (vs ∷ chunks) = ap suc (length-starts_of (from + length vs) chunks)

  pub starts_of-le :
      (from : ℕ) (chunks : List (List A)) (k : ℕ)
      → k < length chunks
      → get_or (starts_of from chunks) k 0 + length (part chunks k) ≤ from + length (join chunks)
  starts_of-le from [] k l = absurd (omega arith)
  starts_of-le from (vs ∷ chunks) zero l = omega (arith, length-append vs (join chunks))
  starts_of-le from (vs ∷ chunks) (suc k) l = omega (
    arith,
    starts_of-le (from + length vs) chunks k (omega arith),
    length-append vs (join chunks),
  )

pub starts_of-map {ℓ κ} :
    {A : Type ℓ} {B : Type κ} (f : A → B) (from : ℕ) (chunks : List (List A))
    → starts_of from (map (map f) chunks) ≡ starts_of from chunks
starts_of-map f from [] = refl
starts_of-map f from (vs ∷ chunks) =
    ap₂ (λ (n : ℕ) (t : List ℕ). n ∷ t) refl
      (ap (λ (n : ℕ). starts_of (from + n) (map (map f) chunks)) (length-map f vs)
        ∙ starts_of-map f (from + length vs) chunks)

pub part-map {ℓ κ} :
    {A : Type ℓ} {B : Type κ} (f : A → B) (chunks : List (List A)) (k : ℕ)
    → part (map (map f) chunks) k ≡ map f (part chunks k)
part-map f [] k = refl
part-map f (vs ∷ chunks) zero = refl
part-map f (vs ∷ chunks) (suc k) = part-map f chunks k

pub join-map {ℓ κ} :
    {A : Type ℓ} {B : Type κ} (f : A → B) (chunks : List (List A))
    → join (map (map f) chunks) ≡ map f (join chunks)
join-map f [] = refl
join-map f (vs ∷ chunks) =
    ap (λ t. map f vs ++ t) (join-map f chunks) ∙ sym (map-append f vs (join chunks))

pub length-AllInts :
    (pages : List Page) (chunks : List (List ℕ))
    → AllInts pages chunks
    → length pages ≡ length chunks
length-AllInts [] [] a = refl
length-AllInts [] (vs ∷ chunks) a = absurd a
length-AllInts (page ∷ pages) [] a = absurd a
length-AllInts (page ∷ pages) (vs ∷ chunks) a = ap suc (length-AllInts pages chunks a.1)

pub load-AllInts :
    (pages : List Page) (chunks : List (List ℕ)) (k : ℕ)
    → AllInts pages chunks
    → k < length pages
    → Returns (load pages k) λ page. HoldsNumbers 4 page (map some (part chunks k))
unfolding load
load-AllInts [] chunks k a l = absurd (omega arith)
load-AllInts (page ∷ pages) [] k a l = absurd a
load-AllInts (page ∷ pages) (vs ∷ chunks) zero a l = (page, refl, a.0)
load-AllInts (page ∷ pages) (vs ∷ chunks) (suc k) a l =
    load-AllInts pages chunks k a.1 (omega arith)

pub join-Packed : (bs : List Buffer) (vs : List Value) → Packed bs vs → vs ≡ join bs
join-Packed [] vs p = p
join-Packed (b ∷ []) vs (e, pos, fits) = e ∙ sym (append-nil b)
join-Packed (b ∷ (c ∷ bs)) vs (full, rest, e, p) =
    e ∙ ap (λ t. b ++ t) (join-Packed (c ∷ bs) rest p)

pub starts_of-Packed :
    (from : ℕ) (bs : List Buffer) (vs : List Value) (k : ℕ)
    → Packed bs vs
    → k < length bs
    → get_or (starts_of from bs) k 0 ≡ from + k * max_per_buffer
starts_of-Packed from [] vs k p l = absurd (omega arith)
starts_of-Packed from (b ∷ bs) vs zero p l = omega arith
starts_of-Packed from (b ∷ []) vs (suc k) p l = absurd (omega arith)
starts_of-Packed from (b ∷ (c ∷ bs)) vs (suc k) (full, rest, e, p) l =
    omega (arith, starts_of-Packed (from + length b) (c ∷ bs) rest k p (omega arith))

-- What each value adds, from row `from` on.
abbrev pub each_value {ℓ κ} : {A : Type ℓ} {B : Type κ} → (ℕ → A → List B) → ℕ → List A → List B
each_value f from [] = []
each_value f from (v ∷ vs) = f from v ++ each_value f (from + 1) vs

module _ {ℓ κ} {A : Type ℓ} {B : Type κ} (f : ℕ → A → List B) where
  pub each_value-append :
      (from : ℕ) (vs ws : List A)
      → each_value f from (vs ++ ws) ≡ each_value f from vs ++ each_value f (from + length vs) ws
  each_value-append from [] ws = ap (λ (n : ℕ). each_value f n ws) (omega arith)
  each_value-append from (v ∷ vs) ws =
      ap (λ t. f from v ++ t) (each_value-append (from + 1) vs ws)
      ∙ sym (
          append_assoc (f from v) (each_value f (from + 1) vs)
            (each_value f (from + 1 + length vs) ws))
      ∙ ap (λ (n : ℕ). (f from v ++ each_value f (from + 1) vs) ++ each_value f n ws) (omega arith)

  gather-shift : (g : ℕ → List B) (i n : ℕ) → gather (λ k. g (suc k)) i n ≡ gather g (suc i) n
  unfolding gather
  gather-shift g i zero = refl
  gather-shift g i (suc n) =
      ap (λ t. g (suc i) ++ t) (gather-shift g (i + 1) n)
      ∙ ap (λ (m : ℕ). g (suc i) ++ gather g m n) (omega arith)

  -- The parts one after the other.
  pub each_value-join :
      (from : ℕ) (chunks : List (List A))
      → each_value f from (join chunks)
        ≡ gather
            (λ k. each_value f (get_or (starts_of from chunks) k 0) (part chunks k))
            0
            (length chunks)
  unfolding gather
  each_value-join from [] = refl
  each_value-join from (vs ∷ chunks) =
      each_value-append from vs (join chunks)
      ∙ ap (λ t. each_value f from vs ++ t)
          (each_value-join (from + length vs) chunks
            ∙ gather-shift
                (λ k.
                  each_value f (get_or (starts_of from (vs ∷ chunks)) k 0) (part (vs ∷ chunks) k))
                0 (length chunks))

  -- The values one after the other, by their rows.
  pub each_value-gather :
      (d : A) (vs : List A) (get : ℕ → A) (from : ℕ)
      → ((i : ℕ) → i < length vs → get (from + i) ≡ get_or vs i d)
      → each_value f from vs ≡ gather (λ i. f i (get i)) from (length vs)
  unfolding gather
  each_value-gather d [] get from h = refl
  each_value-gather d (v ∷ vs) get from h =
      ap₂ ◌++◌
        (ap (f from)
          (sym (h 0 (omega arith)) ∙ ap get (let t : from + 0 ≡ from = omega arith in t)))
        (each_value-gather d vs get (from + 1) (λ i l.
          ap get (let t : from + 1 + i ≡ from + suc i = omega arith in t)
          ∙ h (suc i) (omega arith)))
