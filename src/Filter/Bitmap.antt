-- ===== src/Filter/Bitmap.antt =====
-- The bitmaps of src/statement.cpp and include/inner_column.h: a bit for each row, eight rows in a
-- byte.
pub mod Rows
pub mod Operations
pub mod Selecting
use optimized_hash_join_pipe.Base.{
  ℕ, zero, suc, ◌+◌, ◌-◌, ◌*◌, ◌/◌, ◌%◌, ◌^◌, ◌==◌, ltb, not, if◌then◌else◌, Bool, Option, some,
  none, List, [], ◌∷◌, ◌++◌, length, replicate, bit_and, bit_or, to_nat,
}
use optimized_hash_join_pipe.Base.Partial.{◌>>=◌, load, store}
use optimized_hash_join_pipe.Filter.{filter_run}

-- `bitmap[byte_idx] |= (0x1 << bit_idx)`, or `&= ~(0x1 << bit_idx)`
unfoldable pub write_bit : List ℕ → ℕ → Bool → Option (List ℕ)
write_bit bitmap row not_null = load bitmap (row / 8) >>= λ w.
    store bitmap (row / 8)
      (if not_null then bit_or w (2 ^ (row % 8)) % 2 ^ 8 else bit_and w (2 ^ 8 - 1 - 2 ^ (row % 8)))

-- `bitmap[byte_idx] & (0x1 << bit_idx)` as a truth value.
unfoldable pub is_not_null : List ℕ → ℕ → Option Bool
is_not_null bitmap idx = load bitmap (idx / 8) >>= λ w. some (not (bit_and w (2 ^ (idx % 8)) == 0))

-- The tasks of `bitmap_not`, `bitmap_and` and `bitmap_or`: `rounds` bytes from `i` on.
unfoldable pub not_bytes : List ℕ → ℕ → ℕ → Option (List ℕ)
not_bytes bitmap i zero = some bitmap
not_bytes bitmap i (suc rounds) = load bitmap i >>= λ w.
    store bitmap i (2 ^ 8 - 1 - w) >>= λ written. not_bytes written (i + 1) rounds

unfoldable pub join_bytes : (ℕ → ℕ → ℕ) → List ℕ → List ℕ → List ℕ → ℕ → ℕ → Option (List ℕ)
join_bytes f lhs rhs ret i zero = some ret
join_bytes f lhs rhs ret i (suc rounds) = do
  a ← load lhs i
  b ← load rhs i
  written ← store ret i (f a b)
  join_bytes f lhs rhs written (i + 1) rounds

unfoldable pub bitmap_not : List ℕ → Option (List ℕ)
bitmap_not bitmap =
    filter_run (λ bytes begin end. not_bytes bytes begin (end - begin)) (length bitmap) bitmap

-- The two with their `assert`.
unfoldable pub bitmap_join : (ℕ → ℕ → ℕ) → List ℕ → List ℕ → Option (List ℕ)
bitmap_join f lhs rhs =
    if length lhs == length rhs
    then filter_run (λ ret begin end. join_bytes f lhs rhs ret begin (end - begin)) (length lhs)
        (replicate (length lhs) 0)
    else none

unfoldable pub bitmap_and : List ℕ → List ℕ → Option (List ℕ)
unfolding bitmap_join
bitmap_and lhs rhs = bitmap_join bit_and lhs rhs

unfoldable pub bitmap_or : List ℕ → List ℕ → Option (List ℕ)
unfolding bitmap_join
bitmap_or lhs rhs = bitmap_join bit_or lhs rhs
