-- ===== src/Pages/Grid.antt =====
-- The records that the scans fill, a column at a time.
use optimized_hash_join_pipe.Base.{
  ℕ, zero, suc, ◌+◌, ◌<◌, ◌≡◌, refl, arith, ap, ap₂, ◌∙◌, sym, leb, false, some, none, Option, List,
  [], ◌∷◌, ◌++◌, length, set, length-set,
}
use optimized_hash_join_pipe.Base.Partial.{◌>>=◌, load, store, store-set}
use optimized_hash_join_pipe.Filter.Statement.{Data}
use optimized_hash_join_pipe.Pages.Scanner.{put_cell, put_next}

abbrev pub Grid : Type 0 → Type 0
Grid Fp = List (List (Data Fp))

-- A chain that ends in `some b` also does so with a step behind it.
then_step :
    {A B C D : Type 0} (a : Option A) (f : A → Option B) (g : A → B → Option C) (h : C → D) (c : C)
    → (a >>= λ x. f x >>= λ y. g x y) ≡ some c
    → (a >>= λ x. f x >>= λ y. g x y >>= λ z. some (h z)) ≡ some (h c)
then_step none f g h c e = cc
then_step (some x) f g h c e = last (f x) (g x) h c e
  where
    last :
        {B C D : Type 0} (b : Option B) (g : B → Option C) (h : C → D) (c : C)
        → (b >>= λ y. g y) ≡ some c
        → (b >>= λ y. g y >>= λ z. some (h z)) ≡ some (h c)
    last none g h c e = cc
    last (some y) g h c e = rw (e, ◌>>=◌) refl

module _ {Fp : Type 0} where
  abbrev pub IsValue : Data Fp → Type 0
  IsValue Data.null = ⊥
  IsValue _ = Unit {0}

  abbrev pub Wide : ℕ → Grid Fp → Type 0
  Wide width [] = Unit {0}
  Wide width (r ∷ rows) = (length r ≡ width) × Wide width rows

  -- A null leaves what is there.
  abbrev pub set_value : List (Data Fp) → ℕ → Data Fp → List (Data Fp)
  set_value r col Data.null = r
  set_value r col d = set r col d

  -- The values `ds`, in the column `col` from the row `from` on.
  unfoldable pub fill : ℕ → ℕ → List (Data Fp) → Grid Fp → Grid Fp
  fill col from ds [] = []
  fill col zero [] (r ∷ rows) = r ∷ rows
  fill col zero (d ∷ ds) (r ∷ rows) = set_value r col d ∷ fill col zero ds rows
  fill col (suc from) ds (r ∷ rows) = r ∷ fill col from ds rows

  pub fill-nil : (col from : ℕ) (rows : Grid Fp) → fill col from [] rows ≡ rows
  unfolding fill
  fill-nil col from [] = refl
  fill-nil col zero (r ∷ rows) = refl
  fill-nil col (suc from) (r ∷ rows) = ap (λ t. r ∷ t) (fill-nil col from rows)

  pub fill-append :
      (col from to : ℕ) (ds es : List (Data Fp)) (rows : Grid Fp)
      → to ≡ from + length ds
      → fill col to es (fill col from ds rows) ≡ fill col from (ds ++ es) rows
  unfolding fill
  fill-append col from to ds es [] e = refl
  fill-append col zero zero [] es (r ∷ rows) e = refl
  fill-append col zero (suc to) [] es (r ∷ rows) e = absurd (omega arith)
  fill-append col zero zero (d ∷ ds) es (r ∷ rows) e = absurd (omega arith)
  fill-append col zero (suc to) (d ∷ ds) es (r ∷ rows) e =
      ap (λ t. set_value r col d ∷ t) (fill-append col zero to ds es rows (omega arith))
  fill-append col (suc from) zero ds es (r ∷ rows) e = absurd (omega arith)
  fill-append col (suc from) (suc to) ds es (r ∷ rows) e =
      ap (λ t. r ∷ t) (fill-append col from to ds es rows (omega arith))

  pub length-fill :
      (col from : ℕ) (ds : List (Data Fp)) (rows : Grid Fp)
      → length (fill col from ds rows) ≡ length rows
  unfolding fill
  length-fill col from ds [] = refl
  length-fill col zero [] (r ∷ rows) = refl
  length-fill col zero (d ∷ ds) (r ∷ rows) = ap suc (length-fill col zero ds rows)
  length-fill col (suc from) ds (r ∷ rows) = ap suc (length-fill col from ds rows)

  length-set_value :
      (r : List (Data Fp)) (col : ℕ) (d : Data Fp) → length (set_value r col d) ≡ length r
  length-set_value r col Data.null = refl
  length-set_value r col (Data.i32 v) = length-set r col (Data.i32 v)
  length-set_value r col (Data.i64 v) = length-set r col (Data.i64 v)
  length-set_value r col (Data.f64 v) = length-set r col (Data.f64 v)
  length-set_value r col (Data.str v) = length-set r col (Data.str v)

  pub fill-Wide :
      (width col from : ℕ) (ds : List (Data Fp)) (rows : Grid Fp)
      → Wide width rows
      → Wide width (fill col from ds rows)
  unfolding fill
  fill-Wide width col from ds [] w = tt
  fill-Wide width col zero [] (r ∷ rows) w = w
  fill-Wide width col zero (d ∷ ds) (r ∷ rows) w =
      (length-set_value r col d ∙ w.0, fill-Wide width col zero ds rows w.1)
  fill-Wide width col (suc from) ds (r ∷ rows) w = (w.0, fill-Wide width col from ds rows w.1)

  pub fill-null : (col from : ℕ) (rows : Grid Fp) → fill col from (Data.null ∷ []) rows ≡ rows
  unfolding fill
  fill-null col from [] = refl
  fill-null col zero (r ∷ rows) = ap (λ t. r ∷ t) (fill-nil col 0 rows)
  fill-null col (suc from) (r ∷ rows) = ap (λ t. r ∷ t) (fill-null col from rows)

  -- A write of one cell.
  pub put_cell-fill :
      (width col from : ℕ) (d : Data Fp) (rows : Grid Fp)
      → IsValue d
      → Wide width rows
      → from < length rows
      → col < width
      → put_cell rows from col d ≡ some (fill col from (d ∷ []) rows)
  unfolding put_cell load store fill
  put_cell-fill width col from d [] v w l c = absurd (omega arith)
  put_cell-fill width col zero d (r ∷ rows) v w l c =
      rw (store-set r col d (omega (arith, w.0)), ◌>>=◌)
        (ap some (ap₂ ◌∷◌ (here r d v) (sym (fill-nil col 0 rows))))
    where
      here : (r : List (Data Fp)) (d : Data Fp) → IsValue d → set r col d ≡ set_value r col d
      here r Data.null v = absurd v
      here r (Data.i32 x) v = refl
      here r (Data.i64 x) v = refl
      here r (Data.f64 x) v = refl
      here r (Data.str x) v = refl
  put_cell-fill width col (suc from) d (r ∷ rows) v w l c =
      then_step (load rows from) (λ q. store q col d) (λ q x. store rows from x) (λ ys. r ∷ ys)
        (fill col from (d ∷ []) rows) (put_cell-fill width col from d rows v w.1 (omega arith) c)

  pub put_next-fill :
      (num_rows width col from : ℕ) (d : Data Fp) (rows : Grid Fp)
      → IsValue d
      → Wide width rows
      → length rows ≡ num_rows
      → from < num_rows
      → col < width
      → (of_bits : ℕ → Fp)
      → put_next of_bits num_rows col rows from d ≡ some (fill col from (d ∷ []) rows, from + 1)
  unfolding put_next
  put_next-fill num_rows width col from d rows v w e l c of_bits =
      rw (let t : leb num_rows from ≡ false = ground arith in t)
        (rw (put_cell-fill width col from d rows v w (omega arith) c, ◌>>=◌) refl)
