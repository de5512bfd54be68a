-- ===== src/Tests/Join.antt =====
-- A scan of one page, and a join of two small columns.
use mathlib.Core.List.{Permᴰ}
use optimized_hash_join_pipe.Base.{
  ℕ, zero, suc, ◌+◌, ◌*◌, ◌/◌, ◌%◌, ◌^◌, ◌<◌, ◌≤◌, ◌≡◌, bit-zero, to_nat, length-append,
  length-replicate, refl, arith, ap, inl, some, none, Option, List, [], ◌∷◌, ◌++◌, map, replicate,
  length, get_or,
}
use optimized_hash_join_pipe.Base.Partial.{Returns, load}
use optimized_hash_join_pipe.Column.{
  DataType, Value, Page, page_size, ColumnT, new_column, read_u16, read_i32,
}
use optimized_hash_join_pipe.Column.Readable.{int_value, Readable}
use optimized_hash_join_pipe.Filter.Values.Stored.{present}
use optimized_hash_join_pipe.Filter.Bitmap.Rows.{row_bit}
use optimized_hash_join_pipe.Pages.{get_bitmap}
use optimized_hash_join_pipe.Pages.Layout.{At}
use optimized_hash_join_pipe.Pages.Numbers.{HoldsNumbers}
use optimized_hash_join_pipe.Scan.{
  build_column_inserter, check_pages, add_integer_pages, add_value, close_buffers,
}
use optimized_hash_join_pipe.Scan.Correct.{SameSize, build_column_inserter-Readable}
use optimized_hash_join_pipe.Slab.{GlobalAllocator}
use optimized_hash_join_pipe.Join.{mappings_of, run}
use optimized_hash_join_pipe.Join.Ranges.{gather}
use optimized_hash_join_pipe.Join.Results.{Relation, no_value, Collected}
use optimized_hash_join_pipe.Join.Nested.{nested_loop}
use optimized_hash_join_pipe.Join.Correct.{run-nested_loop}

-- A row with the number 7, and a null.
abbrev pub page : Page
page = 2 ∷ 0 ∷ 1 ∷ 0 ∷ 7 ∷ 0 ∷ 0 ∷ 0 ∷ (replicate 8183 0 ++ 1 ∷ [])

abbrev pub rows : List (Option ℕ)
rows = some 7 ∷ none ∷ []

page_scanned :
    (build_column_inserter 5 1 2 (page ∷ []) DataType.int32 (new_column DataType.int32))
    ≡ some (record (new_column DataType.int32) {
      buffers = (int_value 7 ∷ record { val = 5; status = 0 } ∷ []) ∷ [];
      num_rows = 2;
    })
unfolding build_column_inserter check_pages add_integer_pages add_value close_buffers read_u16
    read_i32 load get_bitmap
page_scanned = refl

page-length : length page ≡ page_size
page-length =
    omega
      (arith, length-append {A = ℕ} (replicate 8183 0) (1 ∷ []), length-replicate {A = ℕ} 8183 0)

rows-bits : (i : ℕ) → row_bit (1 ∷ []) i ≡ to_nat (present (get_or rows i none))
rows-bits zero = refl
rows-bits (suc zero) = refl
rows-bits (suc (suc i)) = later i
  where
    later : (i : ℕ) → row_bit (1 ∷ []) (suc (suc i)) ≡ 0
    later zero = refl
    later (suc zero) = refl
    later (suc (suc zero)) = refl
    later (suc (suc (suc zero))) = refl
    later (suc (suc (suc (suc zero)))) = refl
    later (suc (suc (suc (suc (suc zero))))) = refl
    later (suc (suc (suc (suc (suc (suc i)))))) =
        let next : (i + 8) / 8 ≡ suc (i / 8) = omega arith in
        let row : suc (suc (suc (suc (suc (suc (suc (suc i))))))) ≡ i + 8 = omega arith in
        rw row (rw next (bit-zero ((i + 8) % 8)))

one-bytes : (k : ℕ) → get_or (1 ∷ []) k 0 < 2 ^ 8
one-bytes zero = omega arith
one-bytes (suc k) = omega arith

seven-small : (k : ℕ) → get_or (7 ∷ []) k 0 < 256 ^ 4
seven-small zero = omega arith
seven-small (suc k) = omega arith

-- Bytes that are found one by one.
two-At :
    (p a b : ℕ)
    → p + 2 ≤ page_size
    → get_or page (p + 0) 0 ≡ a
    → get_or page (p + 1) 0 ≡ b
    → At page p (a ∷ b ∷ [])
two-At p a b l first second = record {
  inside = omega (arith, page-length);
  bytes = λ i l. each i l;
}
  where
    each : (i : ℕ) → i < 2 → get_or page (p + i) 0 ≡ get_or (a ∷ b ∷ []) i 0
    each zero l = first
    each (suc zero) l = second
    each (suc (suc i)) l = absurd (omega arith)

seven-At : At page 4 (7 ∷ 0 ∷ 0 ∷ 0 ∷ [])
seven-At = record { inside = omega (arith, page-length); bytes = λ i l. each i l }
  where
    each : (i : ℕ) → i < 4 → get_or page (4 + i) 0 ≡ get_or (7 ∷ 0 ∷ 0 ∷ 0 ∷ []) i 0
    each zero l = refl
    each (suc zero) l = refl
    each (suc (suc zero)) l = refl
    each (suc (suc (suc zero))) l = refl
    each (suc (suc (suc (suc i)))) l = absurd (omega arith)

bitmap-At : At page 8191 (1 ∷ [])
bitmap-At = record { inside = omega (arith, page-length); bytes = λ i l. each i l }
  where
    each : (i : ℕ) → i < 1 → get_or page (8191 + i) 0 ≡ get_or (1 ∷ []) i 0
    each zero l = refl
    each (suc i) l = absurd (omega arith)

pub page-HoldsNumbers : HoldsNumbers 4 page rows
page-HoldsNumbers = record {
  whole = page-length;
  few = omega arith;
  rows_at = two-At 0 2 0 (omega arith) refl refl;
  count_at = two-At 2 1 0 (omega arith) refl refl;
  small = seven-small;
  values_at = seven-At;
  bitmap = 1 ∷ [];
  marked = record { width = refl; bits = rows-bits; bytes = one-bytes };
  bitmap_at = bitmap-At;
}

pub same_size : (ints : List (List ℕ)) → rows ∷ [] ≡ map (map some) ints → SameSize ints
same_size [] e = tt
same_size (vs ∷ []) e = (tt, inl refl)
same_size (vs ∷ (ws ∷ ints)) e = absurd (omega (arith, ap length e))

build_column_inserter-Readable_example :
    Returns
      (build_column_inserter 5 1 2 (page ∷ []) DataType.int32 (new_column DataType.int32))
      λ c. Readable c (int_value 7 ∷ record { val = 5; status = 0 } ∷ [])
build_column_inserter-Readable_example =
    build_column_inserter-Readable 5 1 2 (page ∷ []) (rows ∷ []) (page-HoldsNumbers, tt) same_size

-- Two sides of one column each.
abbrev left_values : List Value
left_values = int_value 7 ∷ record { val = 7; status = 0 } ∷ int_value 9 ∷ int_value 7 ∷ []

abbrev right_values : List Value
right_values = int_value 7 ∷ int_value 8 ∷ []

abbrev side : List Value → List ColumnT
side vs = record (new_column DataType.int32) { buffers = vs ∷ []; num_rows = length vs } ∷ []

left_held : Relation (side left_values) (left_values ∷ []) 4
left_held = (
  record {
    count = refl;
    place = inl (record { original = refl; packed = (refl, omega arith, omega arith) });
  },
  refl,
  tt,
)

right_held : Relation (side right_values) (right_values ∷ []) 2
right_held = (
  record {
    count = refl;
    place = inl (record { original = refl; packed = (refl, omega arith, omega arith) });
  },
  refl,
  tt,
)

abbrev pub spread : ℕ → ℕ → ℕ
spread key data_word = key * 0x9E3779B1 % 2 ^ 32

abbrev pub allocator : GlobalAllocator
allocator = record {
  arena = 0;
  arena_size = 0;
  arena_capacity = 0;
  next_idx = 0;
  heap = λ i. 2 ^ 20 * (i + 1);
}

abbrev pub mapped : ℕ → Option ℕ
mapped size = some (2 ^ 30)

abbrev pub both_columns : List (ℕ × DataType)
both_columns = (0, DataType.int32) ∷ (1, DataType.int32) ∷ []

run-nested_loop_example :
    Returns
      (run spread mapped 4096 3
        (λ k. k % 3)
        (side left_values)
        (side right_values)
        0
        0
        both_columns
        allocator)
      λ out.
        (pairs : List (ℕ × ℕ)) × Permᴰ pairs (
          nested_loop
            (λ l. get_or left_values l no_value)
            (λ r. get_or right_values r no_value)
            4
            2)
        × Collected (left_values ∷ []) (right_values ∷ []) (mappings_of 1 both_columns) out.0 pairs
run-nested_loop_example =
    run-nested_loop spread mapped (λ size. (2 ^ 30, refl, tt)) 4096 2 (omega arith) (λ k. k % 3)
      (λ k. omega arith) (side left_values) (side right_values) (left_values ∷ [])
      (right_values ∷ []) 4 2 left_held right_held both_columns (omega arith, (omega arith, tt)) 0 0
      (omega arith) (omega arith) (omega arith) allocator

joined_pairs :
    nested_loop (λ l. get_or left_values l no_value) (λ r. get_or right_values r no_value) 4 2
    ≡ (0, 0) ∷ (3, 0) ∷ []
unfolding nested_loop gather
joined_pairs = refl
