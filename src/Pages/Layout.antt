-- ===== src/Pages/Layout.antt =====
-- Which bytes stand where in a page.
use native.Mathlib.Nat.{pow-suc}
use optimized_hash_join_pipe.Base.{
  ℕ, zero, suc, ◌+◌, ◌*◌, ◌/◌, ◌%◌, ◌^◌, ◌<◌, ◌≤◌, ◌≡◌, refl, arith, ap, ap₂, ◌∙◌, ◌⊎◌, inl, inr,
  some, List, [], ◌∷◌, ◌++◌, length, length-append, get_or, get_or-append_left, set, get_or-set,
  length-set, Option-cases,
}
use optimized_hash_join_pipe.Base.Partial.{Returns, ◌>>=◌, load, load-get_or, store-set}
use optimized_hash_join_pipe.Column.{Page, read_u16}
use optimized_hash_join_pipe.Pages.{le_bytes, le_values, write_bytes, read_le}

-- The page has the bytes `bs` from `p` on, and they are within it.
pub record At (page : Page) (p : ℕ) (bs : List ℕ) : Type 0 where
  pub inside : p + length bs ≤ length page
  pub bytes : (i : ℕ) → i < length bs → get_or page (p + i) 0 ≡ get_or bs i 0

-- What a write of `bs` at `p` does.
pub record Written (page : Page) (p : ℕ) (bs : List ℕ) (after : Page) : Type 0 where
  pub same : length after ≡ length page
  pub at : At after p bs
  pub others : (k : ℕ) → (k < p) ⊎ (p + length bs ≤ k) → get_or after k 0 ≡ get_or page k 0

pub write_bytes-Written :
    (bs : List ℕ) (page : Page) (p : ℕ)
    → p + length bs ≤ length page
    → Returns (write_bytes page p bs) λ after. Written page p bs after
unfolding write_bytes
write_bytes-Written [] page p fits = (
  page,
  refl,
  record {
    same = refl;
    at = record { inside = fits; bytes = λ i l. absurd (omega arith) };
    others = λ k _. refl;
  },
)
write_bytes-Written (b ∷ bs) page p fits =
    let width = length-set page p b in
    let (after, ran, w) = write_bytes-Written bs (set page p b) (p + 1) (omega arith) in
    let kept : (k : ℕ)
        → (k < p + 1) ⊎ (p + 1 + length bs ≤ k)
        → get_or after k 0 ≡ get_or (set page p b) k 0 =
      w.others in
    (
      after,
      rw (store-set page p b (omega arith), ◌>>=◌) ran,
      record {
        same = omega (arith, w.same, width);
        at = record { inside = omega (arith, w.same, width); bytes = λ i l. here after w i l };
        others = λ k out. other after w k out;
      },
    )
  where
    here :
        (after : Page)
        → Written (set page p b) (p + 1) bs after
        → (i : ℕ) → i < suc (length bs)
        → get_or after (p + i) 0 ≡ get_or (b ∷ bs) i 0
    here after w zero l =
        w.others (p + 0) (inl (omega arith))
        ∙ get_or-set page p (p + 0) b 0 (omega arith)
        ∙ ground arith
    here after w (suc i) l =
        ap (λ (k : ℕ). get_or after k 0) (let e : p + suc i ≡ p + 1 + i = omega arith in e)
        ∙ w.at.bytes i (omega arith)

    other :
        (after : Page)
        → Written (set page p b) (p + 1) bs after
        → (k : ℕ) → (k < p) ⊎ (p + suc (length bs) ≤ k)
        → get_or after k 0 ≡ get_or page k 0
    other after w k (inl l) =
        w.others k (inl (omega arith)) ∙ get_or-set page p k b 0 (omega arith) ∙ ground arith
    other after w k (inr u) =
        w.others k (inr (omega arith)) ∙ get_or-set page p k b 0 (omega arith) ∙ ground arith

-- A write elsewhere leaves bytes where they are.
pub At-Written :
    (page after : Page) (p q : ℕ) (bs cs : List ℕ)
    → Written page p bs after
    → At page q cs
    → (q + length cs ≤ p) ⊎ (p + length bs ≤ q)
    → At after q cs
At-Written page after p q bs cs w a apart = record {
  inside = omega (arith, w.same, a.inside);
  bytes = λ i l.
      w.others (q + i) (elim apart [ inl e ↦ inl (omega arith) | inr e ↦ inr (omega arith) ])
      ∙ a.bytes i l;
}

module _ (page : Page) (p : ℕ) (bs cs : List ℕ) (a : At page p (bs ++ cs)) where
  pub At-left : At page p bs
  At-left = record {
    inside = omega (arith, a.inside, length-append bs cs);
    bytes = λ i l. a.bytes i (omega (arith, length-append bs cs)) ∙ get_or-append_left bs cs i 0 l;
  }

  pub At-right : At page (p + length bs) cs
  At-right = record {
    inside = omega (arith, a.inside, length-append bs cs);
    bytes = λ i l.
        ap (λ (k : ℕ). get_or page k 0)
          (let e : p + length bs + i ≡ p + (length bs + i) = omega arith in e)
        ∙ a.bytes (length bs + i) (omega (arith, length-append bs cs))
        ∙ behind bs cs i;
  }
    where
      behind : (xs ys : List ℕ) (i : ℕ) → get_or (xs ++ ys) (length xs + i) 0 ≡ get_or ys i 0
      behind [] ys i = ap (λ (k : ℕ). get_or ys k 0) (omega arith)
      behind (x ∷ xs) ys i =
          ap (λ (k : ℕ). get_or (x ∷ (xs ++ ys)) k 0)
            (let e : suc (length xs) + i ≡ suc (length xs + i) = omega arith in e)
          ∙ behind xs ys i

pub length-le_bytes : (width v : ℕ) → length (le_bytes width v) ≡ width
length-le_bytes zero v = refl
length-le_bytes (suc width) v = ap suc (length-le_bytes width (v / 2 ^ 8))

pub length-le_values : (width : ℕ) (vs : List ℕ) → length (le_values width vs) ≡ width * length vs
length-le_values width [] = omega arith
length-le_values width (v ∷ vs) =
    length-append (le_bytes width v) (le_values width vs)
    ∙ ap₂ ◌+◌ (length-le_bytes width v) (length-le_values width vs)
    ∙ grind arith

pub read_le-At :
    (width : ℕ) (page : Page) (p v : ℕ)
    → v < 256 ^ width
    → At page p (le_bytes width v)
    → read_le page width p ≡ some v
unfolding read_le
read_le-At zero page p v small a = ap some (let z : 256 ^ 0 ≡ 1 = refl in omega (arith, z))
read_le-At (suc width) page p v small a =
    let size : suc (length (le_bytes width (v / 2 ^ 8))) ≡ suc width =
      ap suc (length-le_bytes width (v / 2 ^ 8)) in
    let low : load page p ≡ some (v % 2 ^ 8) =
      load-get_or page p 0 (omega (arith, a.inside, size))
      ∙ ap some (
          ap (λ (k : ℕ). get_or page k 0) (let e : p ≡ p + 0 = omega arith in e)
          ∙ a.bytes 0 (omega (arith, size))) in
    let less : v / 2 ^ 8 < 256 ^ width = omega (arith, pow-suc 256 width) in
    let rest = read_le-At width page (p + 1) (v / 2 ^ 8) less (record {
      inside = omega (arith, a.inside, size);
      bytes = λ i l.
          ap (λ (k : ℕ). get_or page k 0) (let e : p + 1 + i ≡ p + suc i = omega arith in e)
          ∙ a.bytes (suc i) (omega arith);
    }) in
    rw (low, ◌>>=◌) (rw (rest, ◌>>=◌) (ap some (omega arith)))

-- `read_u16` and `read_i32` are cases of `read_le`.
pub read_u16-read_le : (page : Page) (p : ℕ) → read_u16 page p ≡ read_le page 2 p
unfolding read_u16 read_le
read_u16-read_le page p = elim (Option-cases (load page p)) [
  | inl e ↦ rw e
  | inr (low, e) ↦
      rw (e, ◌>>=◌)
        (elim (Option-cases (load page (p + 1))) [
          | inl e' ↦ rw e'
          | inr (high, e') ↦ rw (e', ◌>>=◌) (ap some (omega arith))
        ])
]
