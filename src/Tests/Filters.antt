-- ===== src/Tests/Filters.antt =====
-- The filters on a small table, with numbers in place of the `double`s.
use optimized_hash_join_pipe.Base.{
  ℕ, zero, suc, ◌+◌, ◌-◌, ◌/◌, ◌%◌, ◌^◌, ◌<◌, ◌≡◌, refl, arith, inl, inr, Bool, false, some, none,
  Option, List, [], ◌∷◌, get_or, length, min, max, ltb, leb, ◌==◌, to_nat,
}
use optimized_hash_join_pipe.Base.Partial.{Returns}
use optimized_hash_join_pipe.Filter.{begin_idx}
use optimized_hash_join_pipe.Filter.Shares.{begin_idx-share}
use optimized_hash_join_pipe.Filter.Bitmap.{bitmap_not, bitmap_and, bitmap_or}
use optimized_hash_join_pipe.Filter.Bitmap.Rows.{row_bit, Bytes}
use optimized_hash_join_pipe.Filter.Bitmap.Operations.{
  bitmap_not-row_bit, bitmap_and-row_bit, bitmap_or-row_bit,
}
use optimized_hash_join_pipe.Filter.Values.{
  Comparisons, empty_column, push_back, push_back_null, select_rows,
}
use optimized_hash_join_pipe.Filter.Values.Stored.{Stored, empty_column-Stored, push_back-Stored}
use optimized_hash_join_pipe.Filter.Values.Select.{passes, select_rows-passes}
use optimized_hash_join_pipe.Filter.Strings.{
  String, empty_strings, push_string, push_null_string, search_rows, get_string,
}
use optimized_hash_join_pipe.Filter.Strings.Kept.{
  Kept, empty_strings-Kept, push_string-Kept, get_string-value,
}
use optimized_hash_join_pipe.Filter.Strings.Search.{search_rows-passes}
use optimized_hash_join_pipe.Filter.Statement.{
  Op, and_node, not_node, int32_column, Statement, comparison, logical, child, no_child,
  int_literal, no_literal, string_eq, flipped, eval_table, eval_record,
}
use optimized_hash_join_pipe.Filter.Statement.Typed.{int32_rows, Exact, record_at}
use optimized_hash_join_pipe.Filter.Statement.Comparing.{Answers}
use optimized_hash_join_pipe.Filter.Statement.Agree.{eval_table-eval_record}
use optimized_hash_join_pipe.Filter.Like.{like_match, matches, Compiled, like_match-matches}

begin_idx-share_example :
    (begin_idx 12 100 0 ≡ 0)
    × (begin_idx 12 100 12 ≡ 100)
    × ((t : ℕ)
        → begin_idx 12 100 (t + 1) ≡ begin_idx 12 100 t + 100 / 12 + to_nat (ltb t (100 % 12)))
begin_idx-share_example = begin_idx-share 12 100 (omega arith)

-- A column with 5, a null and -3.
abbrev one : Returns (push_back {T = ℕ} empty_column 5) λ c. Stored {T = ℕ} 0 c (some 5 ∷ [])
one = (push_back-Stored {T = ℕ} 0 empty_column [] (empty_column-Stored {T = ℕ} 0)).0 5

abbrev two : Returns (push_back_null {T = ℕ} 0 one.0) λ c. Stored {T = ℕ} 0 c (some 5 ∷ none ∷ [])
two = (push_back-Stored {T = ℕ} 0 one.0 (some 5 ∷ []) one.2).1

abbrev three :
    Returns
      (push_back {T = ℕ} two.0 (2 ^ 32 - 3))
      λ c. Stored {T = ℕ} 0 c (some 5 ∷ none ∷ some (2 ^ 32 - 3) ∷ [])
three = (push_back-Stored {T = ℕ} 0 two.0 (some 5 ∷ none ∷ []) two.2).0 (2 ^ 32 - 3)

abbrev column_rows : List (Option ℕ)
column_rows = some 5 ∷ none ∷ some (2 ^ 32 - 3) ∷ []

push_back-Stored_example :
    ((v : ℕ)
      → Returns (push_back {T = ℕ} two.0 v) λ c. Stored {T = ℕ} 0 c (some 5 ∷ none ∷ some v ∷ []))
    × (Returns (push_back_null {T = ℕ} 0 two.0) λ c. Stored {T = ℕ} 0 c (some 5 ∷ none ∷ none ∷ []))
push_back-Stored_example = push_back-Stored {T = ℕ} 0 two.0 (some 5 ∷ none ∷ []) two.2

select_rows-passes_example : Returns (select_rows (λ x. ltb x 7) three.0) λ ret.
    (length ret ≡ length three.0.bitmap)
    × Bytes ret
    × ((i : ℕ) → row_bit ret i ≡ to_nat (passes (λ x. ltb x 7) (get_or column_rows i none)))
select_rows-passes_example = select_rows-passes {T = ℕ} 0 (λ x. ltb x 7) three.0 column_rows three.2

two_numbers-Bytes : Bytes (5 ∷ 255 ∷ [])
two_numbers-Bytes zero = omega arith
two_numbers-Bytes (suc zero) = omega arith
two_numbers-Bytes (suc (suc k)) = omega arith

bitmap_not-row_bit_example : Returns (bitmap_not (5 ∷ 255 ∷ [])) λ ret.
    (length ret ≡ 2) × Bytes ret × ((i : ℕ) → i < 16 → row_bit ret i ≡ 1 - row_bit (5 ∷ 255 ∷ []) i)
bitmap_not-row_bit_example = bitmap_not-row_bit (5 ∷ 255 ∷ []) two_numbers-Bytes

bitmap_and-row_bit_example : Returns (bitmap_and (5 ∷ 255 ∷ []) (5 ∷ 255 ∷ [])) λ ret.
    (length ret ≡ 2)
    × Bytes ret
    × ((i : ℕ) → i < 16 → row_bit ret i ≡ min (row_bit (5 ∷ 255 ∷ []) i) (row_bit (5 ∷ 255 ∷ []) i))
bitmap_and-row_bit_example =
    bitmap_and-row_bit (5 ∷ 255 ∷ []) (5 ∷ 255 ∷ []) refl two_numbers-Bytes two_numbers-Bytes

bitmap_or-row_bit_example : Returns (bitmap_or (5 ∷ 255 ∷ []) (5 ∷ 255 ∷ [])) λ ret.
    (length ret ≡ 2)
    × Bytes ret
    × ((i : ℕ) → i < 16 → row_bit ret i ≡ max (row_bit (5 ∷ 255 ∷ []) i) (row_bit (5 ∷ 255 ∷ []) i))
bitmap_or-row_bit_example =
    bitmap_or-row_bit (5 ∷ 255 ∷ []) (5 ∷ 255 ∷ []) refl two_numbers-Bytes two_numbers-Bytes

abbrev first_string :
    Returns (push_string empty_strings (97 ∷ 98 ∷ [])) λ c. Kept c (some (97 ∷ 98 ∷ []) ∷ [])
first_string = (push_string-Kept empty_strings [] empty_strings-Kept).0 (97 ∷ 98 ∷ [])

push_string-Kept_example :
    ((v : String)
      → Returns (push_string first_string.0 v) λ c. Kept c (some (97 ∷ 98 ∷ []) ∷ some v ∷ []))
    × (Returns (push_null_string first_string.0) λ c. Kept c (some (97 ∷ 98 ∷ []) ∷ none ∷ []))
push_string-Kept_example = push_string-Kept first_string.0 (some (97 ∷ 98 ∷ []) ∷ []) first_string.2

get_string-value_example : get_string first_string.0 0 ≡ some (97 ∷ 98 ∷ [])
get_string-value_example =
    get_string-value first_string.0 (some (97 ∷ 98 ∷ []) ∷ []) first_string.2 0 (omega arith)

search_rows-passes_example : Returns (search_rows (string_eq (97 ∷ 98 ∷ [])) first_string.0) λ ret.
    (length ret ≡ length first_string.0.bitmap)
    × Bytes ret
    × ((i : ℕ)
        → row_bit ret i
          ≡ to_nat (passes (string_eq (97 ∷ 98 ∷ [])) (get_or (some (97 ∷ 98 ∷ []) ∷ []) i none)))
search_rows-passes_example =
    search_rows-passes (string_eq (97 ∷ 98 ∷ [])) first_string.0 (some (97 ∷ 98 ∷ []) ∷ [])
      first_string.2

-- Numbers for `double`s: an integer of 32 bits is its place in the order.
abbrev numbers : Comparisons ℕ
numbers = record { lt = ltb; le = leb; eq = ◌==◌ }

abbrev place32 : ℕ → ℕ
place32 v = flipped 32 v

abbrev place64 : ℕ → ℕ
place64 v = flipped 32 (v % 2 ^ 32)

numbers-Exact : Exact ℕ numbers place32 place64
numbers-Exact = record {
  narrow = λ v range. refl;
  keeps_lt = λ a b l m. refl;
  keeps_le = λ a b l m. refl;
  keeps_eq = λ a b l m. ground arith;
}

abbrev never : String → String → Bool
never text pattern = false

-- NOT (column < 0) AND column IS NOT NULL
abbrev statement : Statement ℕ
statement = logical and_node (
    child (logical not_node (child (comparison 0 Op.lt (int_literal 0)) no_child))
      (child (comparison 0 Op.is_not_null no_literal) no_child))

small_values : (i v : ℕ) → get_or column_rows i none ≡ some v → v < 2 ^ 32
small_values zero v e = ground (arith, e)
small_values (suc zero) v e = ground (arith, e)
small_values (suc (suc zero)) v e = ground (arith, e)
small_values (suc (suc (suc i))) v e = ground (arith, e)

eval_table-eval_record_example :
    Returns
      (eval_table ℕ numbers place32 place64 never (int32_column three.0 ∷ []) statement)
      λ ret.
        (f : ℕ → Bool) × Answers 3 f ret
        × ((i : ℕ)
            → eval_record ℕ numbers place32 place64 never
                (record_at ℕ (int32_rows column_rows ∷ []) i)
                statement
              ≡ some (f i))
eval_table-eval_record_example =
    eval_table-eval_record ℕ numbers place32 place64 never numbers-Exact 0 3
      (int32_column three.0 ∷ []) (int32_rows column_rows ∷ []) ((three.2, refl, small_values), tt)
      statement (inr (tt, inl (omega arith)), tt)

abbrev itself : String → Option String
itself pattern = some pattern

like_match-matches_example :
    ((like_match itself string_eq [] (97 ∷ []) (97 ∷ [])).0
      ≡ matches itself string_eq (97 ∷ []) (97 ∷ []))
    × Compiled itself string_eq (like_match itself string_eq [] (97 ∷ []) (97 ∷ [])).1
like_match-matches_example = like_match-matches itself string_eq [] (97 ∷ []) (97 ∷ []) tt
