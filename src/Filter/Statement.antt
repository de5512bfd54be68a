-- ===== src/Filter/Statement.antt =====
-- The statements of include/statement.h and their two evaluations in src/statement.cpp: on columns,
-- to a bitmap, and on one record.
--
-- The `double`s and their comparisons are parameters, and so are the conversions from integers. An
-- integer is its bit pattern. `like_match` is a parameter here: Filter/Like.antt models it.
pub mod Typed
pub mod Comparing
pub mod Columns
pub mod Agree
use optimized_hash_join_pipe.Base.{
  ℕ, zero, suc, ◌+◌, ◌-◌, ◌%◌, ◌^◌, ◌==◌, ltb, leb, not, if◌then◌else◌, Bool, true, false, Option,
  some, none, List, [], ◌∷◌,
}
use optimized_hash_join_pipe.Base.Partial.{◌>>=◌, load}
use optimized_hash_join_pipe.Filter.Bitmap.{bitmap_not, bitmap_and, bitmap_or}
use optimized_hash_join_pipe.Filter.Values.{
  InnerColumn, Comparisons, less, greater, less_equal, greater_equal, equal, not_equal,
}
use optimized_hash_join_pipe.Filter.Strings.{String, StringColumn, search_rows}

-- `Comparison::Op`
pub data Op : Type 0 where
  eq neq lt gt leq geq like not_like is_null is_not_null : Op

-- `LogicalOperation::Type`
pub data Connective : Type 0 where
  and_node or_node not_node : Connective

-- A signed order: the pattern with its sign bit flipped.
abbrev pub flipped : ℕ → ℕ → ℕ
flipped bits v = (v + 2 ^ (bits - 1)) % 2 ^ bits

abbrev pub signed : ℕ → Comparisons ℕ
signed bits = record {
  lt = λ a b. ltb (flipped bits a) (flipped bits b);
  le = λ a b. leb (flipped bits a) (flipped bits b);
  eq = λ a b. a == b;
}

abbrev pub string_lt : String → String → Bool
string_lt [] [] = false
string_lt [] (y ∷ ys) = true
string_lt (x ∷ xs) [] = false
string_lt (x ∷ xs) (y ∷ ys) = if ltb x y then true else if x == y then string_lt xs ys else false

abbrev pub string_eq : String → String → Bool
string_eq [] [] = true
string_eq [] (y ∷ ys) = false
string_eq (x ∷ xs) [] = false
string_eq (x ∷ xs) (y ∷ ys) = if x == y then string_eq xs ys else false

abbrev pub strings : Comparisons String
strings = record { lt = string_lt; le = λ a b. not (string_lt b a); eq = string_eq }

-- The six comparisons of two values; no other operator holds.
abbrev pub holds : {T : Type 0} → Comparisons T → Op → T → T → Bool
holds o Op.eq a b = o.eq a b
holds o Op.neq a b = not (o.eq a b)
holds o Op.lt a b = o.lt a b
holds o Op.gt a b = o.lt b a
holds o Op.leq a b = o.le a b
holds o Op.geq a b = o.le b a
holds o _ a b = false

-- The inner `switch` of a number column; the other operators are unreachable.
unfoldable pub compare_column :
    {T : Type 0} → Comparisons T → InnerColumn T → Op → T → Option (List ℕ)
compare_column o c Op.eq rhs = equal o c rhs
compare_column o c Op.neq rhs = not_equal o c rhs
compare_column o c Op.lt rhs = less o c rhs
compare_column o c Op.gt rhs = greater o c rhs
compare_column o c Op.leq rhs = less_equal o c rhs
compare_column o c Op.geq rhs = greater_equal o c rhs
compare_column o c _ rhs = none

module _ (Fp : Type 0) where
  -- `Data`, a value of a record; `null` is `std::monostate`.
  pub data Data : Type 0 where
    i32 i64 : ℕ → Data
    f64 : Fp → Data
    str : String → Data
    null : Data

  pub data Literal : Type 0 where
    int_literal : ℕ → Literal
    fp_literal : Fp → Literal
    str_literal : String → Literal
    no_literal : Literal

  -- An `InnerColumnBase*` with the type that it has.
  pub data TableColumn : Type 0 where
    int32_column int64_column : InnerColumn ℕ → TableColumn
    fp64_column : InnerColumn Fp → TableColumn
    varchar_column : StringColumn → TableColumn

  mutual
    pub data Statement : Type 0 where
      comparison : ℕ → Op → Literal → Statement
      logical : Connective → Children → Statement

    pub data Children : Type 0 where
      no_child : Children
      child : Statement → Children → Children

  -- `get_numeric_value`, of a value and of a literal.
  abbrev pub numeric_data : (of_int32 of_int64 : ℕ → Fp) → Data → Option Fp
  numeric_data of_int32 of_int64 (i32 v) = some (of_int32 v)
  numeric_data of_int32 of_int64 (i64 v) = some (of_int64 v)
  numeric_data of_int32 of_int64 (f64 v) = some v
  numeric_data of_int32 of_int64 (str v) = none
  numeric_data of_int32 of_int64 null = none

  abbrev pub numeric_literal : (of_int64 : ℕ → Fp) → Literal → Option Fp
  numeric_literal of_int64 (int_literal v) = some (of_int64 v)
  numeric_literal of_int64 (fp_literal v) = some v
  numeric_literal of_int64 (str_literal v) = none
  numeric_literal of_int64 no_literal = none

  -- `std::get_if<std::string>`
  abbrev pub string_data : Data → Option String
  string_data (str v) = some v
  string_data _ = none

  abbrev pub string_literal : Literal → Option String
  string_literal (str_literal v) = some v
  string_literal _ = none

  -- `std::holds_alternative<std::monostate>`
  abbrev pub is_monostate : Data → Bool
  is_monostate null = true
  is_monostate _ = false

  -- `std::get<…>(value)`, which throws for another alternative.
  abbrev pub get_int : Literal → Option ℕ
  get_int (int_literal v) = some v
  get_int _ = none

  abbrev pub get_fp : Literal → Option Fp
  get_fp (fp_literal v) = some v
  get_fp _ = none

  -- The string branches of `Comparison::eval`.
  abbrev pub when_strings : Data → Literal → (String → String → Bool) → Bool
  when_strings d l f = elim (string_data d) [
    | none ↦ false
    | some a ↦ elim (string_literal l) [ none ↦ false | some b ↦ f a b ]
  ]

  module _ (fp : Comparisons Fp) (of_int32 of_int64 : ℕ → Fp)
      (like_match : String → String → Bool) where
    -- The numbers if both are numbers, else the strings if both are strings.
    abbrev pub compare_data : Op → Data → Literal → Bool
    compare_data op d l = elim (numeric_data of_int32 of_int64 d) [
      | none ↦ when_strings d l (holds strings op)
      | some a ↦ elim (numeric_literal of_int64 l) [
        | none ↦ when_strings d l (holds strings op)
        | some b ↦ holds fp op a b
      ]
    ]

    -- `Comparison::eval(record)`, for the record's value `d`.
    unfoldable pub eval_value : Op → Data → Literal → Bool
    eval_value Op.is_null d l = is_monostate d
    eval_value Op.is_not_null d l = not (is_monostate d)
    eval_value Op.like d l = when_strings d l like_match
    eval_value Op.not_like d l = when_strings d l (λ a b. not (like_match a b))
    eval_value op d l = compare_data op d l

    -- `Comparison::eval(record)` and `LogicalOperation::eval(record)`
    unfoldable mutual
      unfolding eval_value

      pub eval_record : List Data → Statement → Option Bool
      eval_record row (comparison column op value) =
          load row column >>= λ d. some (eval_value op d value)
      eval_record row (logical Connective.and_node children) = all_children row children
      eval_record row (logical Connective.or_node children) = any_child row children
      eval_record row (logical Connective.not_node (child c no_child)) =
          eval_record row c >>= λ b. some (not b)
      eval_record row (logical Connective.not_node _) = some false

      pub all_children : List Data → Children → Option Bool
      all_children row no_child = some true
      all_children row (child c more) =
          let rest = all_children row more in
          eval_record row c >>= λ b. if b then rest else some false

      pub any_child : List Data → Children → Option Bool
      any_child row no_child = some false
      any_child row (child c more) =
          let rest = any_child row more in eval_record row c >>= λ b. if b then some true else rest

    -- `like` and `not_like` of a string column.
    unfoldable pub like_rows : StringColumn → String → Option (List ℕ)
    like_rows c rhs = search_rows (λ v. like_match v rhs) c

    unfoldable pub not_like_rows : StringColumn → String → Option (List ℕ)
    not_like_rows c rhs = search_rows (λ v. not (like_match v rhs)) c

    -- The inner `switch` of a string column.
    unfoldable pub compare_strings : StringColumn → Op → String → Option (List ℕ)
    unfolding like_rows not_like_rows
    compare_strings c Op.like rhs = like_rows c rhs
    compare_strings c Op.not_like rhs = not_like_rows c rhs
    compare_strings c Op.is_null rhs = none
    compare_strings c Op.is_not_null rhs = none
    compare_strings c op rhs = search_rows (λ v. holds strings op v rhs) c

    -- `Comparison::eval(table)` on a column: the case of a number type, whose literal is a parameter,
    -- and that of strings.
    unfoldable pub eval_numbers :
        {T : Type 0} → Comparisons T → InnerColumn T → Op → Option T → Option (List ℕ)
    eval_numbers o c Op.is_null value = bitmap_not c.bitmap
    eval_numbers o c Op.is_not_null value = some c.bitmap
    eval_numbers o c op value = value >>= λ comp_value. compare_column o c op comp_value

    unfoldable pub eval_strings : StringColumn → Op → Option String → Option (List ℕ)
    eval_strings c Op.is_null value = bitmap_not c.bitmap
    eval_strings c Op.is_not_null value = some c.bitmap
    eval_strings c op value = value >>= λ comp_value. compare_strings c op comp_value

    unfoldable pub eval_column : TableColumn → Op → Literal → Option (List ℕ)
    unfolding eval_numbers eval_strings compare_column compare_strings
    eval_column (int32_column c) op l =
        eval_numbers (signed 32) c op (get_int l >>= λ v. some (v % 2 ^ 32))
    eval_column (int64_column c) op l = eval_numbers (signed 64) c op (get_int l)
    eval_column (fp64_column c) op l = eval_numbers fp c op (get_fp l)
    eval_column (varchar_column c) op l = eval_strings c op (string_literal l)

    -- `Comparison::eval(table)` and `LogicalOperation::eval(table)`: the first two children, or the first.
    unfoldable pub eval_table : List TableColumn → Statement → Option (List ℕ)
    unfolding eval_column
    eval_table table (comparison column op value) =
        load table column >>= λ c. eval_column c op value
    eval_table table (logical Connective.and_node (child l (child r more))) =
        eval_table table l >>= λ lhs. eval_table table r >>= λ rhs. bitmap_and lhs rhs
    eval_table table (logical Connective.or_node (child l (child r more))) =
        eval_table table l >>= λ lhs. eval_table table r >>= λ rhs. bitmap_or lhs rhs
    eval_table table (logical Connective.not_node (child c more)) =
        eval_table table c >>= λ bits. bitmap_not bits
    eval_table table _ = none
