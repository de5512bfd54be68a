-- ===== src/Pages/Marking.antt =====
-- `set_bitmap` and `unset_bitmap` of src/build_table.cpp on a bitmap that grows with its rows.
use optimized_hash_join_pipe.Base.{
  ℕ, zero, suc, ◌+◌, ◌-◌, ◌/◌, ◌%◌, ◌≤◌, ◌≡◌, refl, arith, ap, ◌∙◌, sym, ◌==◌, Bool, Option, none,
  List, [], ◌∷◌, ◌++◌, length, length-append, get_or, get_or-snoc, to_nat, Bool-cases, inl, inr,
  bit,
}
use optimized_hash_join_pipe.Base.Partial.{Returns}
use optimized_hash_join_pipe.Filter.Bitmap.Rows.{write_bit-row_bit}
use optimized_hash_join_pipe.Filter.Values.Stored.{Marked, present}
use optimized_hash_join_pipe.Pages.Writer.{grow_bitmap, mark_row}

pub get_or_past {ℓ} : {A : Type ℓ} (xs : List A) (k : ℕ) (d : A) → length xs ≤ k → get_or xs k d ≡ d
get_or_past [] k d h = refl
get_or_past (x ∷ xs) zero d h = absurd (omega arith)
get_or_past (x ∷ xs) (suc k) d h = get_or_past xs k d (omega arith)

get_or-snoc_zero : (bitmap : List ℕ) (k : ℕ) → get_or (bitmap ++ 0 ∷ []) k 0 ≡ get_or bitmap k 0
get_or-snoc_zero bitmap k = get_or-snoc bitmap 0 0 k ∙ elim (Bool-cases (k == length bitmap)) [
  | inl e ↦ rw e (sym (get_or_past bitmap k 0 (ground arith)))
  | inr e ↦ rw e
]

get_or-grow_bitmap :
    (rounds : ℕ) (bitmap : List ℕ) (k : ℕ)
    → get_or (grow_bitmap bitmap rounds) k 0 ≡ get_or bitmap k 0
unfolding grow_bitmap
get_or-grow_bitmap zero bitmap k = refl
get_or-grow_bitmap (suc rounds) bitmap k =
    get_or-grow_bitmap rounds (bitmap ++ 0 ∷ []) k ∙ get_or-snoc_zero bitmap k

length-grow_bitmap :
    (rounds : ℕ) (bitmap : List ℕ) → length (grow_bitmap bitmap rounds) ≡ length bitmap + rounds
unfolding grow_bitmap
length-grow_bitmap zero bitmap = omega arith
length-grow_bitmap (suc rounds) bitmap =
    omega (arith, length-grow_bitmap rounds (bitmap ++ 0 ∷ []), length-append bitmap (0 ∷ []))

-- A bit for one row more.
pub mark_row-Marked :
    {T : Type 0} (blank : T) (bitmap : List ℕ) (rows : List (Option T)) (r : Option T) (b : Bool)
    → Marked blank bitmap rows
    → b ≡ present r
    → Returns (mark_row bitmap (length rows) b) λ after. Marked blank after (rows ++ r ∷ [])
unfolding mark_row
mark_row-Marked {T} blank bitmap rows r b m e =
    let n = length rows / 8 + 1 - length bitmap in
    let grown = grow_bitmap bitmap n in
    let size : length grown ≡ length bitmap + n = length-grow_bitmap n bitmap in
    let (after, ran, (same, bits, bytes)) =
      write_bit-row_bit grown (length rows) b (omega (arith, size, m.width)) in
    (
      after,
      ran,
      record {
        width = omega (arith, same, size, m.width, length-append rows (r ∷ []));
        bits = λ i.
            bits i
            ∙ ground (
              arith,
              ap (λ (x : ℕ). bit (i % 8) x) (get_or-grow_bitmap n bitmap (i / 8)),
              m.bits i,
              ap (λ (o : Option T). to_nat (present o)) (get_or-snoc rows r none i),
              ap to_nat e,
            );
        bytes = bytes (λ k. omega (arith, get_or-grow_bitmap n bitmap k, m.bytes k));
      },
    )
