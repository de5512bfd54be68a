-- ===== src/Tests/Pages.antt =====
-- A small table written to pages and read back; two values stand for the
-- `double`s.
use optimized_hash_join_pipe.Base.{
  ℕ, zero, suc, ◌^◌, ◌<◌, ◌≡◌, refl, arith, some, Bool, true, false, not, to_nat, ◌==◌, List, [],
  ◌∷◌, replicate, length, length-replicate, get_or,
}
use optimized_hash_join_pipe.Base.Partial.{Returns, ◌>>=◌, load, store}
use optimized_hash_join_pipe.Column.{DataType, Page, page_size, read_u16}
use optimized_hash_join_pipe.Filter.{filter_run}
use optimized_hash_join_pipe.Filter.Bitmap.{write_bit}
use optimized_hash_join_pipe.Filter.Statement.{Data}
use optimized_hash_join_pipe.Pages.{write_bytes, read_le, read_bytes, get_bitmap}
use optimized_hash_join_pipe.Pages.Scanner.{Table, from_columnar, copy_scan}
use optimized_hash_join_pipe.Pages.Writer.{to_columnar, mark_row}
use optimized_hash_join_pipe.Pages.Filled.{cell}
use optimized_hash_join_pipe.Pages.Typed.{Layout, HasType, IsTable}
use optimized_hash_join_pipe.Pages.RoundTrip.{from_columnar-to_columnar, copy_scan-project, project}

abbrev two_doubles : Layout Bool
two_doubles = record {
  to_bits = to_nat;
  of_bits = λ n. not (n == 0);
  bits_small = λ x. small x;
  same_again = λ x. again x;
}
  where
    small : (x : Bool) → to_nat x < 2 ^ 64
    small true = omega arith
    small false = omega arith

    again : (x : Bool) → not (to_nat x == 0) ≡ x
    again true = refl
    again false = refl

-- The memory that `new` gives.
abbrev old_memory : ℕ → ℕ → Page
old_memory c k = replicate page_size 170

old_memory-length : (c k : ℕ) → length (old_memory c k) ≡ page_size
old_memory-length c k = length-replicate {A = ℕ} page_size 170

abbrev two_rows : Table Bool
two_rows = record {
  types = DataType.int32 ∷ DataType.varchar ∷ DataType.fp64 ∷ [];
  records =
      (Data.i32 7 ∷ Data.str (97 ∷ 98 ∷ []) ∷ Data.null ∷ [])
      ∷ (Data.null ∷ Data.str [] ∷ Data.f64 true ∷ [])
      ∷ [];
}

two_rows-IsTable : IsTable two_rows
two_rows-IsTable = record { wide = (refl, (refl, tt)); typed = λ i j l k. typed i j l k }
  where
    typed :
        (i j : ℕ)
        → i < 2
        → j < 3
        → HasType (get_or two_rows.types j DataType.int32) (cell two_rows.records i j)
    typed zero zero l k = omega arith
    typed zero (suc zero) l k = tt
    typed zero (suc (suc zero)) l k = tt
    typed zero (suc (suc (suc j))) l k = absurd (omega arith)
    typed (suc zero) zero l k = tt
    typed (suc zero) (suc zero) l k = tt
    typed (suc zero) (suc (suc zero)) l k = tt
    typed (suc zero) (suc (suc (suc j))) l k = absurd (omega arith)
    typed (suc (suc i)) j l k = absurd (omega arith)

from_columnar-to_columnar_example :
    Returns
      (to_columnar to_nat old_memory two_rows)
      λ table. from_columnar (λ n. not (n == 0)) table ≡ some two_rows
from_columnar-to_columnar_example =
    from_columnar-to_columnar two_doubles old_memory old_memory-length two_rows two_rows-IsTable

-- The second column, and the first one behind it.
abbrev some_columns : List (ℕ × DataType)
some_columns = (1, DataType.varchar) ∷ (0, DataType.int32) ∷ []

some_columns_named : (j : ℕ) → j < 2 → (get_or some_columns j (0, DataType.int32)).0 < 3
some_columns_named zero l = omega arith
some_columns_named (suc zero) l = omega arith
some_columns_named (suc (suc j)) l = absurd (omega arith)

copy_scan-project_example : Returns (to_columnar to_nat old_memory two_rows) λ table.
    copy_scan (λ n. not (n == 0)) table some_columns ≡ some (project some_columns two_rows.records)
copy_scan-project_example =
    copy_scan-project two_doubles old_memory old_memory-length two_rows two_rows-IsTable
      some_columns some_columns_named

two_rows_again :
    (to_columnar to_nat old_memory two_rows >>= from_columnar (λ n. not (n == 0))) ≡ some two_rows
unfolding to_columnar from_columnar load mark_row write_bit store write_bytes filter_run read_u16
    get_bitmap read_le read_bytes
two_rows_again = refl
