-- ===== src/Pages/Numbers.antt =====
-- Pages of numbers, by the rows that they hold.
pub mod Scanned
pub mod Saved
pub mod Inserted
pub mod Columns
use optimized_hash_join_pipe.Base.{
  ℕ, zero, suc, ◌+◌, ◌-◌, ◌*◌, ◌/◌, ◌^◌, ◌<◌, ◌≤◌, ◌≡◌, Option, none, some, List, [], ◌∷◌, ◌++◌,
  length,
}
use optimized_hash_join_pipe.Column.{Page, page_size}
use optimized_hash_join_pipe.Filter.Statement.{Data}
use optimized_hash_join_pipe.Filter.Values.Stored.{Marked}
use optimized_hash_join_pipe.Pages.{le_bytes, le_values}
use optimized_hash_join_pipe.Pages.Layout.{At}
use optimized_hash_join_pipe.Pages.Arrays.{AllBelow}

-- The values of the rows that have one.
abbrev pub values_of {ℓ} : {A : Type ℓ} → List (Option A) → List A
values_of [] = []
values_of (none ∷ rows) = values_of rows
values_of (some v ∷ rows) = v ∷ values_of rows

pub record HoldsNumbers (width : ℕ) (page : Page) (rows : List (Option ℕ)) : Type 0 where
  pub whole : length page ≡ page_size
  pub few : length rows < 2 ^ 16
  pub rows_at : At page 0 (le_bytes 2 (length rows))
  pub count_at : At page 2 (le_bytes 2 (length (values_of rows)))
  pub small : AllBelow (256 ^ width) (values_of rows)
  pub values_at : At page width (le_values width (values_of rows))
  pub bitmap : List ℕ
  pub marked : Marked 0 bitmap rows
  pub bitmap_at : At page (page_size - (length rows + 7) / 8) bitmap

-- The pages of a column, each with its rows.
abbrev pub AllHold : ℕ → List Page → List (List (Option ℕ)) → Type 0
AllHold width [] [] = Unit {0}
AllHold width [] (rows ∷ chunks) = ⊥
AllHold width (page ∷ pages) [] = ⊥
AllHold width (page ∷ pages) (rows ∷ chunks) =
    HoldsNumbers width page rows × AllHold width pages chunks

abbrev pub join {ℓ} : {A : Type ℓ} → List (List A) → List A
join [] = []
join (xs ∷ xss) = xs ++ join xss

-- The cell that a row is read as.
abbrev pub cell_of : {Fp : Type 0} {A : Type 0} → (A → Data Fp) → Option A → Data Fp
cell_of make none = Data.null
cell_of make (some v) = make v
