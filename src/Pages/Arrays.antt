-- ===== src/Pages/Arrays.antt =====
-- Arrays, bitmaps and characters in a page.
use optimized_hash_join_pipe.Base.{
  ℕ, zero, suc, ◌+◌, ◌*◌, ◌/◌, ◌%◌, ◌^◌, ◌<◌, ◌≡◌, refl, arith, ap, ◌∙◌, sym, ◌==◌, not, Option,
  some, List, [], ◌∷◌, length, get_or, Option-cases, inl, inr, bit_and,
}
use optimized_hash_join_pipe.Base.Partial.{◌>>=◌, load, load-get_or}
use optimized_hash_join_pipe.Column.{Page, read_i32}
use optimized_hash_join_pipe.Filter.Bitmap.{is_not_null}
use optimized_hash_join_pipe.Filter.Bitmap.Rows.{row_bit, is_not_null-row_bit}
use optimized_hash_join_pipe.Pages.{le_bytes, le_values, read_le, read_bytes, get_bitmap}
use optimized_hash_join_pipe.Pages.Layout.{
  At, At-left, At-right, length-le_bytes, read_le-At, read_u16-read_le,
}

-- All numbers fit `width` bytes.
abbrev pub AllBelow : ℕ → List ℕ → Type 0
AllBelow bound vs = (k : ℕ) → get_or vs k 0 < bound

pub read_i32-read_le : (page : Page) (p : ℕ) → read_i32 page p ≡ read_le page 4 p
unfolding read_i32 read_le
read_i32-read_le page p =
    rw (read_u16-read_le page p) (rw (read_u16-read_le page (p + 2)) (halves page p))
  where
    halves :
        (page : Page) (p : ℕ)
        → (read_le page 2 p >>= λ low.
            read_le page 2 (p + 2) >>= λ high. some (low + 2 ^ 16 * high))
          ≡ read_le page 4 p
    halves page p = elim (Option-cases (load page p)) [
      | inl e ↦ rw e
      | inr (a, e) ↦
          rw (e, ◌>>=◌)
            (elim (Option-cases (load page (p + 1))) [
              | inl f ↦ rw f
              | inr (b, f) ↦
                  rw (f, ◌>>=◌)
                    (let two : p + 1 + 1 ≡ p + 2 = omega arith in
                      rw two (elim (Option-cases (load page (p + 2))) [
                        | inl g ↦ rw g
                        | inr (c, g) ↦
                            rw (g, ◌>>=◌)
                              (elim (Option-cases (load page (p + 2 + 1))) [
                                | inl h ↦ rw h
                                | inr (d, h) ↦ rw (h, ◌>>=◌) (ap some (omega arith))
                              ])
                      ]))
            ])
    ]

-- The numbers of an array.
pub read_le-le_values :
    (width : ℕ) (vs : List ℕ) (page : Page) (p k : ℕ)
    → AllBelow (256 ^ width) vs
    → At page p (le_values width vs)
    → k < length vs
    → read_le page width (p + width * k) ≡ some (get_or vs k 0)
read_le-le_values width [] page p k small a l = absurd (omega arith)
read_le-le_values width (v ∷ vs) page p zero small a l =
    ap (read_le page width) (let e : p + width * 0 ≡ p = omega arith in e)
    ∙ read_le-At width page p v (small 0) (At-left page p (le_bytes width v) (le_values width vs) a)
read_le-le_values width (v ∷ vs) page p (suc k) small a l =
    let next : p + width * suc k ≡ p + length (le_bytes width v) + width * k =
      grind (arith, length-le_bytes width v) in
    ap (read_le page width) next
    ∙ read_le-le_values width vs page (p + length (le_bytes width v)) k (λ j. small (suc j))
        (At-right page p (le_bytes width v) (le_values width vs) a) (omega arith)

-- A bit of a bitmap.
pub get_bitmap-At :
    (page : Page) (p : ℕ) (bitmap : List ℕ) (idx : ℕ)
    → At page p bitmap
    → idx / 8 < length bitmap
    → get_bitmap page p idx ≡ some (not (row_bit bitmap idx == 0))
unfolding get_bitmap is_not_null
get_bitmap-At page p bitmap idx a l =
    let same : load page (p + idx / 8) ≡ load bitmap (idx / 8) =
      load-get_or page (p + idx / 8) 0 (omega (arith, a.inside))
      ∙ ap some (a.bytes (idx / 8) l)
      ∙ sym (load-get_or bitmap (idx / 8) 0 l) in
    ap (λ (w : Option ℕ). w >>= λ x. some (not (bit_and x (2 ^ (idx % 8)) == 0))) same
    ∙ is_not_null-row_bit bitmap idx l

-- Characters.
pub read_bytes-At :
    (bs : List ℕ) (page : Page) (p : ℕ) → At page p bs → read_bytes page p (length bs) ≡ some bs
unfolding read_bytes
read_bytes-At [] page p a = refl
read_bytes-At (b ∷ bs) page p a =
    let first : load page p ≡ some b =
      load-get_or page p 0 (omega (arith, a.inside))
      ∙ ap some (
          ap (λ (k : ℕ). get_or page k 0) (let e : p ≡ p + 0 = omega arith in e)
          ∙ a.bytes 0 (omega arith)) in
    let rest = read_bytes-At bs page (p + 1) (record {
      inside = omega (arith, a.inside);
      bytes = λ i l.
          ap (λ (k : ℕ). get_or page k 0) (let e : p + 1 + i ≡ p + suc i = omega arith in e)
          ∙ a.bytes (suc i) (omega arith);
    }) in
    rw (first, ◌>>=◌) (rw (rest, ◌>>=◌) refl)
