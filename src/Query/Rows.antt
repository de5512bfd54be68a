-- ===== src/Query/Rows.antt =====
-- Relations as lists of rows, and their join.
use mathlib.Core.List.{append_assoc, Permᴰ}
use mathlib.Core.List.Permᴰ
use optimized_hash_join_pipe.Base.{
  ℕ, zero, suc, ◌+◌, ◌-◌, ◌<◌, ◌≡◌, refl, arith, ap, ap₂, ◌∙◌, ltb, if◌then◌else◌, List, [], ◌∷◌,
  ◌++◌, map, length, get_or,
}
use optimized_hash_join_pipe.Column.{DataType, Value, ColumnT}
use optimized_hash_join_pipe.Join.Ranges.{gather}
use optimized_hash_join_pipe.Join.Results.{no_value, Relation}
use optimized_hash_join_pipe.Join.Nested.{same_key}

abbrev pub Row : Type 0
Row = List Value

abbrev pub first_of : Row → Value
first_of [] = no_value
first_of (v ∷ row) = v

abbrev pub rest_of : Row → Row
rest_of [] = []
rest_of (v ∷ row) = row

-- The first `width` columns.
abbrev pub columns_of : (width : ℕ) → List Row → List (List Value)
columns_of zero rows = []
columns_of (suc width) rows = map first_of rows ∷ columns_of width (map rest_of rows)

-- Columns that hold rows.
abbrev pub Rows : List ColumnT → List Row → Type 0
Rows cs rows = Relation cs (columns_of (length cs) rows) (length rows)

abbrev pub field : Row → ℕ → Value
field row j = get_or row j no_value

pub map-map {ℓ κ μ} :
    {A : Type ℓ} {B : Type κ} {C : Type μ} (f : B → C) (g : A → B) (xs : List A)
    → map f (map g xs) ≡ map (λ x. f (g x)) xs
map-map f g [] = refl
map-map f g (x ∷ xs) = ap (λ t. f (g x) ∷ t) (map-map f g xs)

map_congr {ℓ κ} :
    {A : Type ℓ} {B : Type κ} (f g : A → B) (xs : List A)
    → ((x : A) → f x ≡ g x)
    → map f xs ≡ map g xs
map_congr f g [] h = refl
map_congr f g (x ∷ xs) h = ap₂ ◌∷◌ (h x) (map_congr f g xs h)

pub columns_of-field :
    (width : ℕ) (rows : List Row) (j : ℕ)
    → j < width
    → get_or (columns_of width rows) j [] ≡ map (λ r. field r j) rows
columns_of-field zero rows j l = absurd (omega arith)
columns_of-field (suc width) rows zero l = map_congr first_of (λ r. field r 0) rows first
  where
    first : (r : Row) → first_of r ≡ field r 0
    first [] = refl
    first (v ∷ r) = refl
columns_of-field (suc width) rows (suc j) l =
    columns_of-field width (map rest_of rows) j (omega arith)
    ∙ map-map (λ r. field r j) rest_of rows
    ∙ map_congr (λ r. field (rest_of r) j) (λ r. field r (suc j)) rows rest
  where
    rest : (r : Row) → field (rest_of r) j ≡ field r (suc j)
    rest [] = refl
    rest (v ∷ r) = refl

-- The rows that a pass over `xs` adds.
abbrev pub flat {ℓ κ} : {A : Type ℓ} {B : Type κ} → (A → List B) → List A → List B
flat f [] = []
flat f (x ∷ xs) = f x ++ flat f xs

-- A row of the output.
abbrev pub joined_row : (left_size : ℕ) → List (ℕ × DataType) → Row → Row → Row
joined_row left_size [] l r = []
joined_row left_size ((col_idx, type) ∷ attrs) l r =
    (if ltb col_idx left_size then field l col_idx else field r (col_idx - left_size))
    ∷ joined_row left_size attrs l r

-- The join of two relations, row by row.
abbrev pub join_rows :
    (left_size left_attr right_attr : ℕ) → List (ℕ × DataType) → List Row → List Row → List Row
join_rows left_size left_attr right_attr attrs left right =
    flat
      (λ l.
        flat
          (λ r.
            if same_key (field l left_attr) (field r right_attr)
            then joined_row left_size attrs l r ∷ []
            else [])
          right)
      left

module _ {ℓ κ} {A : Type ℓ} {B : Type κ} where
  pub flat_perm : (f : A → List B) {xs ys : List A} → Permᴰ xs ys → Permᴰ (flat f xs) (flat f ys)
  flat_perm f Permᴰ.nil = Permᴰ.nil
  flat_perm f (Permᴰ.cons {a} {b} e p) = rw e (Permᴰ.append_left (f b) (flat_perm f p))
  flat_perm f (Permᴰ.swap {a} {b} {a'} {b'} {l} e e') =
      rw (e, e', ← append_assoc (f b') (f a') (flat f l), ← append_assoc (f a') (f b') (flat f l))
        (Permᴰ.append_right (flat f l) (Permᴰ.append_comm (f b') (f a')))
  flat_perm f (Permᴰ.trans p q) = Permᴰ.trans (flat_perm f p) (flat_perm f q)

  pub flat_each :
      (f g : A → List B) (xs : List A)
      → ((x : A) → Permᴰ (f x) (g x))
      → Permᴰ (flat f xs) (flat g xs)
  flat_each f g [] h = Permᴰ.nil
  flat_each f g (x ∷ xs) h =
      Permᴰ.trans (Permᴰ.append_right (flat f xs) (h x))
        (Permᴰ.append_left (g x) (flat_each f g xs h))

  gather-flat_from :
      (f : A → List B) (d : A) (xs : List A) (get : ℕ → A) (from : ℕ)
      → ((i : ℕ) → i < length xs → get (from + i) ≡ get_or xs i d)
      → gather (λ i. f (get i)) from (length xs) ≡ flat f xs
  unfolding gather
  gather-flat_from f d [] get from h = refl
  gather-flat_from f d (x ∷ xs) get from h =
      ap₂ ◌++◌ (ap f (ap get (let t : from ≡ from + 0 = omega arith in t) ∙ h 0 (omega arith))) (
        gather-flat_from f d xs get (from + 1) (λ i l.
          ap get (let t : from + 1 + i ≡ from + suc i = omega arith in t)
          ∙ h (suc i) (omega arith)))

  pub gather-flat :
      (f : A → List B) (d : A) (xs : List A)
      → gather (λ i. f (get_or xs i d)) 0 (length xs) ≡ flat f xs
  gather-flat f d xs =
      gather-flat_from f d xs (λ i. get_or xs i d) 0
        (λ i l. ap (λ (k : ℕ). get_or xs k d) (omega arith))

-- The order of the rows does not matter but for the order of the result.
pub join_rows_perm :
    (left_size left_attr right_attr : ℕ) (attrs : List (ℕ × DataType)) {ls ls' rs rs' : List Row}
    → Permᴰ ls ls'
    → Permᴰ rs rs'
    → Permᴰ
        (join_rows left_size left_attr right_attr attrs ls rs)
        (join_rows left_size left_attr right_attr attrs ls' rs')
join_rows_perm left_size left_attr right_attr attrs {ls} {ls'} {rs} {rs'} p q =
    let f : Row → Row → List Row = λ l r.
      if same_key (field l left_attr) (field r right_attr)
      then joined_row left_size attrs l r ∷ []
      else [] in
    Permᴰ.trans (flat_perm (λ l. flat (f l) rs) p)
      (flat_each (λ l. flat (f l) rs) (λ l. flat (f l) rs') ls' (λ l. flat_perm (f l) q))
