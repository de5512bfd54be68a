-- ===== src/Filter/Statement/Comparing.antt =====
-- A comparison on a column answers, row by row, what it answers on the row's value.
use optimized_hash_join_pipe.Base.{
  ℕ, ◌+◌, ◌/◌, ◌%◌, ◌^◌, ◌<◌, ◌≡◌, refl, arith, ap, ◌∙◌, sym, not, Bool, false, Option, some, none,
  List, length, get_or, to_nat,
}
use optimized_hash_join_pipe.Base.Partial.{Returns}
use optimized_hash_join_pipe.Filter.Bitmap.{bitmap_not}
use optimized_hash_join_pipe.Filter.Bitmap.Rows.{row_bit, Bytes}
use optimized_hash_join_pipe.Filter.Bitmap.Operations.{bitmap_not-row_bit}
use optimized_hash_join_pipe.Filter.Values.{
  Comparisons, InnerColumn, select_rows, less, greater, less_equal, greater_equal, equal, not_equal,
}
use optimized_hash_join_pipe.Filter.Values.Stored.{Stored, Marked, present}
use optimized_hash_join_pipe.Filter.Values.Select.{passes, select_rows-passes}
use optimized_hash_join_pipe.Filter.Strings.{String, StringColumn, search_rows}
use optimized_hash_join_pipe.Filter.Strings.Kept.{Kept}
use optimized_hash_join_pipe.Filter.Strings.Search.{search_rows-passes}
use optimized_hash_join_pipe.Filter.Statement.{
  Op, Data, i32, f64, str, null, Literal, int_literal, fp_literal, str_literal, signed, strings,
  holds, compare_column, eval_value, is_monostate, compare_data,
}
use optimized_hash_join_pipe.Filter.Statement.Typed.{in_data, Ordering, InInt32, Exact}

-- A bitmap with a bit for each of `n` rows, which answers `f`.
pub record Answers (n : ℕ) (f : ℕ → Bool) (ret : List ℕ) : Type 0 where
  pub width : length ret ≡ (n + 7) / 8
  pub bytes : Bytes ret
  pub bits : (i : ℕ) → i < n → row_bit ret i ≡ to_nat (f i)

compare_column-select_rows :
    {T : Type 0} (o : Comparisons T) (c : InnerColumn T) (op : Op) (rhs : T)
    → Ordering op
    → compare_column o c op rhs ≡ select_rows (λ x. holds o op x rhs) c
unfolding compare_column less greater less_equal greater_equal equal not_equal
compare_column-select_rows o c Op.eq rhs h = refl
compare_column-select_rows o c Op.neq rhs h = refl
compare_column-select_rows o c Op.lt rhs h = refl
compare_column-select_rows o c Op.gt rhs h = refl
compare_column-select_rows o c Op.leq rhs h = refl
compare_column-select_rows o c Op.geq rhs h = refl
compare_column-select_rows o c Op.like rhs h = absurd h
compare_column-select_rows o c Op.not_like rhs h = absurd h
compare_column-select_rows o c Op.is_null rhs h = absurd h
compare_column-select_rows o c Op.is_not_null rhs h = absurd h

module _ (Fp : Type 0) (fp : Comparisons Fp) (of_int32 of_int64 : ℕ → Fp)
    (like_match : String → String → Bool) where
  abbrev answer : Op → Data Fp → Literal Fp → Bool
  answer = eval_value Fp fp of_int32 of_int64 like_match

  is_monostate-present :
      {T : Type 0} (f : T → Data Fp)
      → ((v : T) → is_monostate Fp (f v) ≡ false)
      → (o : Option T) → is_monostate Fp (in_data Fp f o) ≡ not (present o)
  is_monostate-present f h none = refl
  is_monostate-present f h (some v) = h v

  module _ {T : Type 0} (blank : T) (f : T → Data Fp)
      (is_value : (v : T) → is_monostate Fp (f v) ≡ false) (bitmap : List ℕ)
      (rows : List (Option T)) (m : Marked blank bitmap rows) where
    pub null-Answers :
        Returns
          (bitmap_not bitmap)
          (Answers (length rows) (λ i. is_monostate Fp (in_data Fp f (get_or rows i none))))
    null-Answers =
        let (ret, ran, (width, bytes, bits)) = bitmap_not-row_bit bitmap m.bytes in
        (
          ret,
          ran,
          record {
            width = width ∙ m.width;
            bytes = bytes;
            bits = λ i l. ground (
              arith,
              bits i (omega (arith, m.width)),
              m.bits i,
              is_monostate-present f is_value (get_or rows i none),
            );
          },
        )

    pub not_null-Answers :
        Answers
          (length rows)
          (λ i. not (is_monostate Fp (in_data Fp f (get_or rows i none))))
          bitmap
    not_null-Answers = record {
      width = m.width;
      bytes = m.bytes;
      bits = λ i l. ground (arith, m.bits i, is_monostate-present f is_value (get_or rows i none));
    }

  pub select-Answers :
      {T : Type 0} (o : Comparisons T) (blank : T) (c : InnerColumn T) (rows : List (Option T))
      (s : Stored blank c rows) (op : Op) (rhs : T) (f : ℕ → Bool)
      → Ordering op
      → ((i : ℕ) → passes (λ x. holds o op x rhs) (get_or rows i none) ≡ f i)
      → Returns (compare_column o c op rhs) (Answers (length rows) f)
  select-Answers o blank c rows s op rhs f ordering same =
      let (ret, ran, (width, bytes, bits)) =
        select_rows-passes blank (λ x. holds o op x rhs) c rows s in
      (
        ret,
        compare_column-select_rows o c op rhs ordering ∙ ran,
        record {
          width = width ∙ s.marked.width;
          bytes = bytes;
          bits = λ i l. bits i ∙ ap to_nat (same i);
        },
      )

  eval_value-compare_data :
      (op : Op) (d : Data Fp) (l : Literal Fp)
      → Ordering op
      → answer op d l ≡ compare_data Fp fp of_int32 of_int64 like_match op d l
  unfolding eval_value
  eval_value-compare_data Op.eq d l h = refl
  eval_value-compare_data Op.neq d l h = refl
  eval_value-compare_data Op.lt d l h = refl
  eval_value-compare_data Op.gt d l h = refl
  eval_value-compare_data Op.leq d l h = refl
  eval_value-compare_data Op.geq d l h = refl
  eval_value-compare_data Op.like d l h = absurd h
  eval_value-compare_data Op.not_like d l h = absurd h
  eval_value-compare_data Op.is_null d l h = absurd h
  eval_value-compare_data Op.is_not_null d l h = absurd h

  -- An ordering on `double`s.
  pub passes_fp :
      (op : Op) (rhs : Fp) (o : Option Fp)
      → Ordering op
      → passes (λ x. holds fp op x rhs) o ≡ answer op (in_data Fp f64 o) (fp_literal rhs)
  passes_fp op rhs none h = sym (eval_value-compare_data op null (fp_literal rhs) h)
  passes_fp op rhs (some v) h = sym (eval_value-compare_data op (f64 v) (fp_literal rhs) h)

  module _ (exact : Exact Fp fp of_int32 of_int64) where
    -- An ordering of integers of 32 bits is that of their `double`s.
    holds_exact :
        (op : Op) (a b : ℕ)
        → Ordering op
        → a < 2 ^ 32
        → b < 2 ^ 32
        → holds fp op (of_int32 a) (of_int32 b) ≡ holds (signed 32) op a b
    holds_exact Op.eq a b h la lb = exact.keeps_eq a b la lb
    holds_exact Op.neq a b h la lb = ap not (exact.keeps_eq a b la lb)
    holds_exact Op.lt a b h la lb = exact.keeps_lt a b la lb
    holds_exact Op.gt a b h la lb = exact.keeps_lt b a lb la
    holds_exact Op.leq a b h la lb = exact.keeps_le a b la lb
    holds_exact Op.geq a b h la lb = exact.keeps_le b a lb la
    holds_exact Op.like a b h la lb = absurd h
    holds_exact Op.not_like a b h la lb = absurd h
    holds_exact Op.is_null a b h la lb = absurd h
    holds_exact Op.is_not_null a b h la lb = absurd h

    pub passes_int32 :
        (op : Op) (lit : ℕ) (o : Option ℕ)
        → Ordering op
        → InInt32 lit
        → ((v : ℕ) → o ≡ some v → v < 2 ^ 32)
        → passes (λ x. holds (signed 32) op x (lit % 2 ^ 32)) o
          ≡ answer op (in_data Fp i32 o) (int_literal lit)
    passes_int32 op lit none h range small =
        sym (eval_value-compare_data op null (int_literal lit) h)
    passes_int32 op lit (some v) h range small =
        sym (holds_exact op v (lit % 2 ^ 32) h (small v refl) (omega arith))
        ∙ ap (λ x. holds fp op (of_int32 v) x) (sym (exact.narrow lit range))
        ∙ sym (eval_value-compare_data op (i32 v) (int_literal lit) h)

  -- Every operator but the tests for null, on strings.
  pub compare_strings-Answers :
      (c : StringColumn) (rows : List (Option String)) (k : Kept c rows) (rhs : String)
      (test : String → Bool) (f : ℕ → Bool)
      → ((i : ℕ) → passes test (get_or rows i none) ≡ f i)
      → Returns (search_rows test c) (Answers (length rows) f)
  compare_strings-Answers c rows k rhs test f same =
      let (ret, ran, (width, bytes, bits)) = search_rows-passes test c rows k in
      (
        ret,
        ran,
        record {
          width = width ∙ k.marked.width;
          bytes = bytes;
          bits = λ i l. bits i ∙ ap to_nat (same i);
        },
      )

  pub passes-strings :
      (op : Op) (rhs : String) (o : Option String)
      → Ordering op
      → passes (λ x. holds strings op x rhs) o ≡ answer op (in_data Fp str o) (str_literal rhs)
  passes-strings op rhs none h = sym (eval_value-compare_data op null (str_literal rhs) h)
  passes-strings op rhs (some v) h = sym (eval_value-compare_data op (str v) (str_literal rhs) h)
