-- ===== src/Filter/Statement/Typed.antt =====
-- What a table holds, row by row, and the statements whose two evaluations are meant to agree.
use optimized_hash_join_pipe.Base.{
  ℕ, zero, suc, ◌-◌, ◌%◌, ◌^◌, ◌<◌, ◌≤◌, ◌≡◌, ◌⊎◌, Option, some, none, List, [], ◌∷◌, length,
  get_or, map,
}
use optimized_hash_join_pipe.Filter.Values.{Comparisons}
use optimized_hash_join_pipe.Filter.Values.Stored.{Stored}
use optimized_hash_join_pipe.Filter.Strings.{String}
use optimized_hash_join_pipe.Filter.Strings.Kept.{Kept}
use optimized_hash_join_pipe.Filter.Statement.{
  Op, Connective, Data, i32, i64, f64, str, null, Literal, int_literal, fp_literal, str_literal,
  TableColumn, int32_column, int64_column, fp64_column, varchar_column, Statement, comparison,
  logical, child, no_child, signed,
}

-- The six comparisons.
abbrev pub Ordering : Op → Type 0
Ordering Op.like = ⊥
Ordering Op.not_like = ⊥
Ordering Op.is_null = ⊥
Ordering Op.is_not_null = ⊥
Ordering _ = Unit

abbrev pub NullTest : Op → Type 0
NullTest Op.is_null = Unit
NullTest Op.is_not_null = Unit
NullTest _ = ⊥

-- The patterns of 64 bits whose value is that of a pattern of 32 bits.
abbrev pub InInt32 : ℕ → Type 0
InInt32 v = (v < 2 ^ 31) ⊎ ((2 ^ 64 - 2 ^ 31 ≤ v) × (v < 2 ^ 64))

module _ (Fp : Type 0) where
  -- The rows of a column.
  pub data ColumnRows : Type 0 where
    int32_rows int64_rows : List (Option ℕ) → ColumnRows
    fp64_rows : List (Option Fp) → ColumnRows
    varchar_rows : List (Option String) → ColumnRows

  abbrev pub in_data : {T : Type 0} → (T → Data Fp) → Option T → Data Fp
  in_data f none = null
  in_data f (some v) = f v

  -- The value of a row in a record.
  abbrev pub data_at : ℕ → ColumnRows → Data Fp
  data_at i (int32_rows rows) = in_data i32 (get_or rows i none)
  data_at i (int64_rows rows) = in_data i64 (get_or rows i none)
  data_at i (fp64_rows rows) = in_data f64 (get_or rows i none)
  data_at i (varchar_rows rows) = in_data str (get_or rows i none)

  -- The record of a row.
  abbrev pub record_at : List ColumnRows → ℕ → List (Data Fp)
  record_at rs i = map (data_at i) rs

  -- A column holds `n` rows; the `int32` are patterns of 32 bits.
  abbrev pub Column : Fp → ℕ → TableColumn Fp → ColumnRows → Type 0
  Column blank n (int32_column c) (int32_rows rows) =
      Stored 0 c rows × (length rows ≡ n) × ((i v : ℕ) → get_or rows i none ≡ some v → v < 2 ^ 32)
  Column blank n (int64_column c) (int64_rows rows) = Stored 0 c rows × (length rows ≡ n)
  Column blank n (fp64_column c) (fp64_rows rows) = Stored blank c rows × (length rows ≡ n)
  Column blank n (varchar_column c) (varchar_rows rows) = Kept c rows × (length rows ≡ n)
  Column blank n _ _ = ⊥

  abbrev pub Table : Fp → ℕ → List (TableColumn Fp) → List ColumnRows → Type 0
  Table blank n [] [] = Unit
  Table blank n (c ∷ cs) (r ∷ rs) = Column blank n c r × Table blank n cs rs
  Table blank n _ _ = ⊥

  -- An operator and a literal that suit a column. An `int64` column has only the tests for null:
  -- in a record its values are compared as `double`s.
  abbrev pub Suits : ColumnRows → Op → Literal Fp → Type 0
  Suits (int32_rows rows) op (int_literal v) = NullTest op ⊎ (Ordering op × InInt32 v)
  Suits (fp64_rows rows) op (fp_literal v) = NullTest op ⊎ Ordering op
  Suits (varchar_rows rows) op (str_literal v) = Unit
  Suits _ op l = NullTest op

  abbrev pub ColumnSuits : List ColumnRows → ℕ → Op → Literal Fp → Type 0
  ColumnSuits [] column op l = ⊥
  ColumnSuits (r ∷ rs) zero op l = Suits r op l
  ColumnSuits (r ∷ rs) (suc column) op l = ColumnSuits rs column op l

  -- A statement as the factory functions build it, on columns that suit.
  abbrev pub WellFormed : List ColumnRows → Statement Fp → Type 0
  WellFormed rs (comparison column op l) = ColumnSuits rs column op l
  WellFormed rs (logical Connective.and_node (child l (child r no_child))) =
      WellFormed rs l × WellFormed rs r
  WellFormed rs (logical Connective.or_node (child l (child r no_child))) =
      WellFormed rs l × WellFormed rs r
  WellFormed rs (logical Connective.not_node (child c no_child)) = WellFormed rs c
  WellFormed rs _ = ⊥

  -- What is asked of the `double`s: an integer of 32 bits converts exactly, whatever its width.
  pub record Exact (fp : Comparisons Fp) (of_int32 of_int64 : ℕ → Fp) : Type 0 where
    pub narrow : (v : ℕ) → InInt32 v → of_int64 v ≡ of_int32 (v % 2 ^ 32)
    pub keeps_lt :
        (a b : ℕ) → a < 2 ^ 32 → b < 2 ^ 32 → fp.lt (of_int32 a) (of_int32 b) ≡ (signed 32).lt a b
    pub keeps_le :
        (a b : ℕ) → a < 2 ^ 32 → b < 2 ^ 32 → fp.le (of_int32 a) (of_int32 b) ≡ (signed 32).le a b
    pub keeps_eq :
        (a b : ℕ) → a < 2 ^ 32 → b < 2 ^ 32 → fp.eq (of_int32 a) (of_int32 b) ≡ (signed 32).eq a b
