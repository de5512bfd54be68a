-- ===== src/Filter/Values.antt =====
-- `InnerColumn<T>` of include/inner_column.h for the number types: a vector of values, with any
-- value for a null, and a bitmap. The six comparisons and their loops are one function of the test.
pub mod Stored
pub mod Select
use optimized_hash_join_pipe.Base.{
  ℕ, zero, suc, ◌+◌, ◌-◌, ◌*◌, ◌/◌, ◌%◌, ◌^◌, min, ltb, not, if◌then◌else◌, Bool, true, false,
  Option, some, none, List, [], ◌∷◌, ◌++◌, length, replicate, bit_and, bit_or, to_nat,
}
use optimized_hash_join_pipe.Base.Partial.{◌>>=◌, load, store}
use optimized_hash_join_pipe.Filter.{filter_run}
use optimized_hash_join_pipe.Filter.Bitmap.{write_bit}

pub record InnerColumn (T : Type 0) : Type 0 where
  pub values : List T
  pub bitmap : List ℕ

-- `std::vector<uint8_t>(n)` holds zeros.
abbrev pub zeros : ℕ → List ℕ
zeros n = replicate n 0

module _ {T : Type 0} where
  abbrev pub empty_column : InnerColumn T
  empty_column = record { values = []; bitmap = [] }

  -- `bitmap_push_back`, after the value is in `values`.
  unfoldable pub bitmap_push_back : InnerColumn T → Bool → Option (InnerColumn T)
  bitmap_push_back c not_null =
      if ltb (length c.bitmap) ((length c.values + 7) / 8)
      then some (record c { bitmap = c.bitmap ++ to_nat not_null ∷ [] })
      else (write_bit c.bitmap (length c.values - 1) not_null >>= λ bitmap.
          some (record c { bitmap = bitmap }))

  unfoldable pub push_back : InnerColumn T → T → Option (InnerColumn T)
  unfolding bitmap_push_back
  push_back c value = bitmap_push_back (record c { values = c.values ++ value ∷ [] }) true

  -- `push_back_null`; `blank` is `T()`.
  unfoldable pub push_back_null : T → InnerColumn T → Option (InnerColumn T)
  unfolding bitmap_push_back
  push_back_null blank c = bitmap_push_back (record c { values = c.values ++ blank ∷ [] }) false

  module _ (test : T → Bool) where
    -- One round of the static loops: row `i` of those behind the pointers, `test` for `values[i] < rhs`
    -- and the like. `byte_begin` is the offset of the pointers.
    unfoldable pub compare_row : InnerColumn T → ℕ → List ℕ → ℕ → Option (List ℕ)
    compare_row c byte_begin output i = do
      w ← load c.bitmap (byte_begin + i / 8)
      v ← load c.values (byte_begin * 8 + i)
      o ← load output (byte_begin + i / 8)
      store output (byte_begin + i / 8)
          (bit_or o (bit_and (bit_and w (2 ^ (i % 8))) (to_nat (test v) * 2 ^ (i % 8))) % 2 ^ 8)

    -- The static loops, from row `i` on.
    unfoldable pub compare_rows : InnerColumn T → ℕ → List ℕ → ℕ → ℕ → Option (List ℕ)
    unfolding compare_row
    compare_rows c byte_begin output i zero = some output
    compare_rows c byte_begin output i (suc rounds) =
        compare_row c byte_begin output i >>= λ written.
        compare_rows c byte_begin written (i + 1) rounds

    -- `less` and the others: the loops, run by the pool.
    unfoldable pub select_rows : InnerColumn T → Option (List ℕ)
    unfolding compare_rows
    select_rows c =
        filter_run
          (λ ret byte_begin byte_end.
            compare_rows c byte_begin ret 0 (min (byte_end * 8) (length c.values) - byte_begin * 8))
          ((length c.values + 7) / 8) (zeros (length c.bitmap))

-- The comparisons of a type.
pub record Comparisons (T : Type 0) : Type 0 where
  pub lt : T → T → Bool
  pub le : T → T → Bool
  pub eq : T → T → Bool

module _ {T : Type 0} (o : Comparisons T) (c : InnerColumn T) (rhs : T) where
  unfoldable pub less : Option (List ℕ)
  less = select_rows (λ x. o.lt x rhs) c

  unfoldable pub greater : Option (List ℕ)
  greater = select_rows (λ x. o.lt rhs x) c

  unfoldable pub less_equal : Option (List ℕ)
  less_equal = select_rows (λ x. o.le x rhs) c

  unfoldable pub greater_equal : Option (List ℕ)
  greater_equal = select_rows (λ x. o.le rhs x) c

  unfoldable pub equal : Option (List ℕ)
  equal = select_rows (λ x. o.eq x rhs) c

  unfoldable pub not_equal : Option (List ℕ)
  not_equal = select_rows (λ x. not (o.eq x rhs)) c
