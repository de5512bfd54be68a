-- ===== src/Pages.antt =====
-- The pages of include/plan.h and the bytes in them: what src/build_table.cpp and the inserters of
-- include/plan.h write through pointers into a page, and what is read through them. Numbers are
-- stored with their lowest byte first.
pub mod Layout
pub mod Arrays
pub mod Scanner
pub mod Writer
pub mod Grid
pub mod Marking
pub mod Numbers
pub mod Scans
pub mod Strings
pub mod Filled
pub mod Typed
pub mod RoundTrip
use optimized_hash_join_pipe.Base.{
  ℕ, zero, suc, ◌+◌, ◌*◌, ◌/◌, ◌%◌, ◌^◌, ◌==◌, not, Bool, Option, some, none, List, [], ◌∷◌, ◌++◌,
  bit_and,
}
use optimized_hash_join_pipe.Base.Partial.{◌>>=◌, load, store}
use optimized_hash_join_pipe.Column.{DataType, Page}

-- `Column`; its memory mapping is left out.
pub record Column : Type 0 where
  pub type : DataType
  pub pages : List Page

pub record ColumnarTable : Type 0 where
  pub num_rows : ℕ
  pub columns : List Column

-- The bytes of a number that has `width` of them.
abbrev pub le_bytes : ℕ → ℕ → List ℕ
le_bytes zero v = []
le_bytes (suc width) v = (v % 2 ^ 8) ∷ le_bytes width (v / 2 ^ 8)

-- Those of an array.
abbrev pub le_values : ℕ → List ℕ → List ℕ
le_values width [] = []
le_values width (v ∷ vs) = le_bytes width v ++ le_values width vs

-- `memcpy` into a page, and a store of a number.
unfoldable pub write_bytes : Page → ℕ → List ℕ → Option Page
write_bytes page p [] = some page
write_bytes page p (b ∷ bs) = store page p b >>= λ written. write_bytes written (p + 1) bs

-- A number of `width` bytes.
unfoldable pub read_le : Page → ℕ → ℕ → Option ℕ
read_le page zero p = some 0
read_le page (suc width) p = do
  low ← load page p
  high ← read_le page width (p + 1)
  some (low + 2 ^ 8 * high)

-- The `n` characters from `p` on.
unfoldable pub read_bytes : Page → ℕ → ℕ → Option (List ℕ)
read_bytes page p zero = some []
read_bytes page p (suc n) = do b ← load page p; bs ← read_bytes page (p + 1) n; some (b ∷ bs)

-- `get_bitmap`; `bitmap` is the place in the page that the pointer points to.
unfoldable pub get_bitmap : Page → ℕ → ℕ → Option Bool
get_bitmap page bitmap idx =
    load page (bitmap + idx / 8) >>= λ w. some (not (bit_and w (2 ^ (idx % 8)) == 0))
