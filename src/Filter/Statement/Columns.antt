-- ===== src/Filter/Statement/Columns.antt =====
-- A comparison on a column of any type answers what it answers on the values of the rows.
use optimized_hash_join_pipe.Base.{
  ℕ, ◌%◌, ◌^◌, ◌<◌, ◌≡◌, refl, ◌∙◌, subst, not, Bool, false, Option, some, none, List, [], length,
  get_or, inl, inr,
}
use optimized_hash_join_pipe.Base.Partial.{Returns}
use optimized_hash_join_pipe.Filter.Values.{Comparisons, InnerColumn}
use optimized_hash_join_pipe.Filter.Values.Stored.{Stored}
use optimized_hash_join_pipe.Filter.Values.Select.{passes}
use optimized_hash_join_pipe.Filter.Strings.{String, StringColumn, search_rows}
use optimized_hash_join_pipe.Filter.Strings.Kept.{Kept}
use optimized_hash_join_pipe.Filter.Statement.{
  Op, Data, i32, i64, f64, str, Literal, int_literal, fp_literal, str_literal, no_literal,
  TableColumn, int32_column, int64_column, fp64_column, varchar_column, signed, strings, holds,
  compare_column, compare_strings, like_rows, not_like_rows, eval_value, eval_numbers, eval_strings,
  eval_column, is_monostate, get_int,
}
use optimized_hash_join_pipe.Filter.Statement.Typed.{
  ColumnRows, int32_rows, int64_rows, fp64_rows, varchar_rows, in_data, data_at, Column, Ordering,
  NullTest, Suits, Exact,
}
use optimized_hash_join_pipe.Filter.Statement.Comparing.{
  Answers, null-Answers, not_null-Answers, select-Answers, passes_fp, passes_int32, passes-strings,
  compare_strings-Answers,
}

same_Answers : {n m : ℕ} (f : ℕ → Bool) (ret : List ℕ) → n ≡ m → Answers n f ret → Answers m f ret
same_Answers f ret e a = subst (λ (k : ℕ). Answers k f ret) e a

module _ (Fp : Type 0) (fp : Comparisons Fp) (of_int32 of_int64 : ℕ → Fp)
    (like_match : String → String → Bool) (exact : Exact Fp fp of_int32 of_int64) (blank : Fp) where
  abbrev answer : Op → Data Fp → Literal Fp → Bool
  answer = eval_value Fp fp of_int32 of_int64 like_match

  -- The tests for null on a column of numbers.
  null_numbers :
      {T : Type 0} (o : Comparisons T) (zero_value : T) (f : T → Data Fp)
      → ((v : T) → is_monostate Fp (f v) ≡ false)
      → (c : InnerColumn T) (rows : List (Option T)) (s : Stored zero_value c rows) (op : Op)
        (value : Option T) (l : Literal Fp)
      → NullTest op
      → Returns
          (eval_numbers Fp fp of_int32 of_int64 like_match o c op value)
          (Answers (length rows) (λ i. answer op (in_data Fp f (get_or rows i none)) l))
  unfolding eval_numbers eval_value
  null_numbers o z f v c rows s Op.is_null value l h =
      null-Answers Fp fp of_int32 of_int64 like_match z f v c.bitmap rows s.marked
  null_numbers o z f v c rows s Op.is_not_null value l h = (
    c.bitmap,
    refl,
    not_null-Answers Fp fp of_int32 of_int64 like_match z f v c.bitmap rows s.marked,
  )
  null_numbers o z f v c rows s Op.eq value l h = absurd h
  null_numbers o z f v c rows s Op.neq value l h = absurd h
  null_numbers o z f v c rows s Op.lt value l h = absurd h
  null_numbers o z f v c rows s Op.gt value l h = absurd h
  null_numbers o z f v c rows s Op.leq value l h = absurd h
  null_numbers o z f v c rows s Op.geq value l h = absurd h
  null_numbers o z f v c rows s Op.like value l h = absurd h
  null_numbers o z f v c rows s Op.not_like value l h = absurd h

  eval_numbers-compare_column :
      {T : Type 0} (o : Comparisons T) (c : InnerColumn T) (op : Op) (v : T)
      → Ordering op
      → eval_numbers Fp fp of_int32 of_int64 like_match o c op (some v) ≡ compare_column o c op v
  unfolding eval_numbers
  eval_numbers-compare_column o c Op.eq v h = refl
  eval_numbers-compare_column o c Op.neq v h = refl
  eval_numbers-compare_column o c Op.lt v h = refl
  eval_numbers-compare_column o c Op.gt v h = refl
  eval_numbers-compare_column o c Op.leq v h = refl
  eval_numbers-compare_column o c Op.geq v h = refl
  eval_numbers-compare_column o c Op.like v h = absurd h
  eval_numbers-compare_column o c Op.not_like v h = absurd h
  eval_numbers-compare_column o c Op.is_null v h = absurd h
  eval_numbers-compare_column o c Op.is_not_null v h = absurd h

  like_string :
      (rhs : String) (o : Option String)
      → passes (λ v. like_match v rhs) o ≡ answer Op.like (in_data Fp str o) (str_literal rhs)
  unfolding eval_value
  like_string rhs none = refl
  like_string rhs (some v) = refl

  not_like_string :
      (rhs : String) (o : Option String)
      → passes (λ v. not (like_match v rhs)) o
        ≡ answer Op.not_like (in_data Fp str o) (str_literal rhs)
  unfolding eval_value
  not_like_string rhs none = refl
  not_like_string rhs (some v) = refl

  order_strings :
      (c : StringColumn) (rows : List (Option String)) (k : Kept c rows) (op : Op) (rhs : String)
      → Ordering op
      → Returns (search_rows (λ v. holds strings op v rhs) c) (
          Answers
            (length rows)
            (λ i. answer op (in_data Fp str (get_or rows i none)) (str_literal rhs)))
  order_strings c rows k op rhs h =
      compare_strings-Answers Fp fp of_int32 of_int64 like_match c rows k rhs
        (λ v. holds strings op v rhs)
        (λ i. answer op (in_data Fp str (get_or rows i none)) (str_literal rhs))
        (λ i. passes-strings Fp fp of_int32 of_int64 like_match op rhs (get_or rows i none) h)

  -- Every operator on a column of strings.
  eval_strings-Answers :
      (c : StringColumn) (rows : List (Option String)) (k : Kept c rows) (op : Op) (rhs : String)
      → Returns (eval_strings Fp fp of_int32 of_int64 like_match c op (some rhs)) (
          Answers
            (length rows)
            (λ i. answer op (in_data Fp str (get_or rows i none)) (str_literal rhs)))
  unfolding eval_strings compare_strings like_rows not_like_rows eval_value
  eval_strings-Answers c rows k Op.is_null rhs =
      null-Answers Fp fp of_int32 of_int64 like_match [] str (λ v. refl) c.bitmap rows k.marked
  eval_strings-Answers c rows k Op.is_not_null rhs = (
    c.bitmap,
    refl,
    not_null-Answers Fp fp of_int32 of_int64 like_match [] str (λ v. refl) c.bitmap rows k.marked,
  )
  eval_strings-Answers c rows k Op.like rhs =
      compare_strings-Answers Fp fp of_int32 of_int64 like_match c rows k rhs
        (λ v. like_match v rhs) _ (λ i. like_string rhs (get_or rows i none))
  eval_strings-Answers c rows k Op.not_like rhs =
      compare_strings-Answers Fp fp of_int32 of_int64 like_match c rows k rhs
        (λ v. not (like_match v rhs)) _ (λ i. not_like_string rhs (get_or rows i none))
  eval_strings-Answers c rows k Op.eq rhs = order_strings c rows k Op.eq rhs tt
  eval_strings-Answers c rows k Op.neq rhs = order_strings c rows k Op.neq rhs tt
  eval_strings-Answers c rows k Op.lt rhs = order_strings c rows k Op.lt rhs tt
  eval_strings-Answers c rows k Op.gt rhs = order_strings c rows k Op.gt rhs tt
  eval_strings-Answers c rows k Op.leq rhs = order_strings c rows k Op.leq rhs tt
  eval_strings-Answers c rows k Op.geq rhs = order_strings c rows k Op.geq rhs tt

  null_strings :
      (c : StringColumn) (rows : List (Option String)) (k : Kept c rows) (op : Op)
      (value : Option String) (l : Literal Fp)
      → NullTest op
      → Returns
          (eval_strings Fp fp of_int32 of_int64 like_match c op value)
          (Answers (length rows) (λ i. answer op (in_data Fp str (get_or rows i none)) l))
  unfolding eval_strings eval_value
  null_strings c rows k Op.is_null value l h =
      null-Answers Fp fp of_int32 of_int64 like_match [] str (λ v. refl) c.bitmap rows k.marked
  null_strings c rows k Op.is_not_null value l h = (
    c.bitmap,
    refl,
    not_null-Answers Fp fp of_int32 of_int64 like_match [] str (λ v. refl) c.bitmap rows k.marked,
  )
  null_strings c rows k Op.eq value l h = absurd h
  null_strings c rows k Op.neq value l h = absurd h
  null_strings c rows k Op.lt value l h = absurd h
  null_strings c rows k Op.gt value l h = absurd h
  null_strings c rows k Op.leq value l h = absurd h
  null_strings c rows k Op.geq value l h = absurd h
  null_strings c rows k Op.like value l h = absurd h
  null_strings c rows k Op.not_like value l h = absurd h

  int32-Answers :
      (c : InnerColumn ℕ) (rows : List (Option ℕ)) (s : Stored 0 c rows) (op : Op) (l : Literal Fp)
      → ((i v : ℕ) → get_or rows i none ≡ some v → v < 2 ^ 32)
      → Suits Fp (int32_rows rows) op l
      → Returns
          (eval_column Fp fp of_int32 of_int64 like_match (int32_column c) op l)
          (Answers (length rows) (λ i. answer op (in_data Fp i32 (get_or rows i none)) l))
  unfolding eval_column
  int32-Answers c rows s op (int_literal v) small (inl h) =
      null_numbers (signed 32) 0 i32 (λ x. refl) c rows s op (some (v % 2 ^ 32)) (int_literal v) h
  int32-Answers c rows s op (int_literal v) small (inr (h, range)) =
      let (ret, ran, a) =
        select-Answers Fp fp of_int32 of_int64 like_match (signed 32) 0 c rows s op (v % 2 ^ 32)
          (λ i. answer op (in_data Fp i32 (get_or rows i none)) (int_literal v)) h
          (λ i.
            passes_int32 Fp fp of_int32 of_int64 like_match exact op v (get_or rows i none) h range
              (small i)) in
      (ret, eval_numbers-compare_column (signed 32) c op (v % 2 ^ 32) h ∙ ran, a)
  int32-Answers c rows s op (fp_literal v) small h =
      null_numbers (signed 32) 0 i32 (λ x. refl) c rows s op none (fp_literal v) h
  int32-Answers c rows s op (str_literal v) small h =
      null_numbers (signed 32) 0 i32 (λ x. refl) c rows s op none (str_literal v) h
  int32-Answers c rows s op no_literal small h =
      null_numbers (signed 32) 0 i32 (λ x. refl) c rows s op none no_literal h

  fp64-Answers :
      (c : InnerColumn Fp) (rows : List (Option Fp)) (s : Stored blank c rows) (op : Op)
      (l : Literal Fp)
      → Suits Fp (fp64_rows rows) op l
      → Returns
          (eval_column Fp fp of_int32 of_int64 like_match (fp64_column c) op l)
          (Answers (length rows) (λ i. answer op (in_data Fp f64 (get_or rows i none)) l))
  unfolding eval_column
  fp64-Answers c rows s op (fp_literal v) (inl h) =
      null_numbers fp blank f64 (λ x. refl) c rows s op (some v) (fp_literal v) h
  fp64-Answers c rows s op (fp_literal v) (inr h) =
      let (ret, ran, a) =
        select-Answers Fp fp of_int32 of_int64 like_match fp blank c rows s op v
          (λ i. answer op (in_data Fp f64 (get_or rows i none)) (fp_literal v)) h
          (λ i. passes_fp Fp fp of_int32 of_int64 like_match op v (get_or rows i none) h) in
      (ret, eval_numbers-compare_column fp c op v h ∙ ran, a)
  fp64-Answers c rows s op (int_literal v) h =
      null_numbers fp blank f64 (λ x. refl) c rows s op none (int_literal v) h
  fp64-Answers c rows s op (str_literal v) h =
      null_numbers fp blank f64 (λ x. refl) c rows s op none (str_literal v) h
  fp64-Answers c rows s op no_literal h =
      null_numbers fp blank f64 (λ x. refl) c rows s op none no_literal h

  varchar-Answers :
      (c : StringColumn) (rows : List (Option String)) (k : Kept c rows) (op : Op) (l : Literal Fp)
      → Suits Fp (varchar_rows rows) op l
      → Returns
          (eval_column Fp fp of_int32 of_int64 like_match (varchar_column c) op l)
          (Answers (length rows) (λ i. answer op (in_data Fp str (get_or rows i none)) l))
  unfolding eval_column
  varchar-Answers c rows k op (str_literal v) h = eval_strings-Answers c rows k op v
  varchar-Answers c rows k op (int_literal v) h = null_strings c rows k op none (int_literal v) h
  varchar-Answers c rows k op (fp_literal v) h = null_strings c rows k op none (fp_literal v) h
  varchar-Answers c rows k op no_literal h = null_strings c rows k op none no_literal h

  -- Every column, every operator and literal that suit it.
  pub eval_column-Answers :
      (n : ℕ) (c : TableColumn Fp) (r : ColumnRows Fp) (op : Op) (l : Literal Fp)
      → Column Fp blank n c r
      → Suits Fp r op l
      → Returns
          (eval_column Fp fp of_int32 of_int64 like_match c op l)
          (Answers n (λ i. answer op (data_at Fp i r) l))
  unfolding eval_column
  eval_column-Answers n (int32_column c) (int32_rows rows) op l (s, e, small) h =
      let (ret, ran, a) = int32-Answers c rows s op l small h in (ret, ran, same_Answers _ ret e a)
  eval_column-Answers n (int64_column c) (int64_rows rows) op l (s, e) h =
      let (ret, ran, a) =
        null_numbers (signed 64) 0 i64 (λ x. refl) c rows s op (get_int Fp l) l h in
      (ret, ran, same_Answers _ ret e a)
  eval_column-Answers n (fp64_column c) (fp64_rows rows) op l (s, e) h =
      let (ret, ran, a) = fp64-Answers c rows s op l h in (ret, ran, same_Answers _ ret e a)
  eval_column-Answers n (varchar_column c) (varchar_rows rows) op l (k, e) h =
      let (ret, ran, a) = varchar-Answers c rows k op l h in (ret, ran, same_Answers _ ret e a)
  eval_column-Answers n _ _ op l column h = absurd column
