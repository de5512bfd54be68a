-- ===== src/Filter/Statement/Agree.antt =====
-- The evaluation of a statement on columns and its evaluation on each record agree.
use optimized_hash_join_pipe.Base.{
  ℕ, zero, suc, ◌≡◌, refl, arith, ◌∙◌, sym, not, ◌&&◌, ◌||◌, Bool, true, false, if◌then◌else◌, some,
  List, [], ◌∷◌,
}
use optimized_hash_join_pipe.Base.Partial.{Returns, ◌>>=◌, load}
use optimized_hash_join_pipe.Filter.Bitmap.Operations.{
  bitmap_not-row_bit, bitmap_and-row_bit, bitmap_or-row_bit,
}
use optimized_hash_join_pipe.Filter.Values.{Comparisons}
use optimized_hash_join_pipe.Filter.Strings.{String}
use optimized_hash_join_pipe.Filter.Statement.{
  Op, Connective, Literal, TableColumn, Statement, comparison, logical, child, no_child, eval_value,
  eval_record, eval_table,
}
use optimized_hash_join_pipe.Filter.Statement.Typed.{
  ColumnRows, data_at, record_at, Column, Table, Suits, ColumnSuits, WellFormed, Exact,
}
use optimized_hash_join_pipe.Filter.Statement.Comparing.{Answers}
use optimized_hash_join_pipe.Filter.Statement.Columns.{eval_column-Answers}

module _ (Fp : Type 0) (fp : Comparisons Fp) (of_int32 of_int64 : ℕ → Fp)
    (like_match : String → String → Bool) (exact : Exact Fp fp of_int32 of_int64) (blank : Fp) where
  -- The column of a comparison, in the table and in the records.
  load-Column :
      (n : ℕ) (cs : List (TableColumn Fp)) (rs : List (ColumnRows Fp)) (column : ℕ) (op : Op)
      (l : Literal Fp)
      → Table Fp blank n cs rs
      → ColumnSuits Fp rs column op l
      → (c : TableColumn Fp) × (r : ColumnRows Fp) × (load cs column ≡ some c)
        × ((i : ℕ) → load (record_at Fp rs i) column ≡ some (data_at Fp i r))
        × Column Fp blank n c r
        × Suits Fp r op l
  unfolding load
  load-Column n cs [] column op l t h = absurd h
  load-Column n [] (r ∷ rs) column op l t h = absurd t
  load-Column n (c ∷ cs) (r ∷ rs) zero op l t h = (c, r, refl, (λ i. refl), t.0, h)
  load-Column n (c ∷ cs) (r ∷ rs) (suc column) op l t h = load-Column n cs rs column op l t.1 h

  -- A bitmap that answers what the records do.
  abbrev Verdicts : ℕ → List (ColumnRows Fp) → Statement Fp → List ℕ → Type 0
  Verdicts n rs st ret =
      (f : ℕ → Bool) × Answers n f ret
      × ((i : ℕ)
          → eval_record Fp fp of_int32 of_int64 like_match (record_at Fp rs i) st ≡ some (f i))

  module _ (n : ℕ) (cs : List (TableColumn Fp)) (rs : List (ColumnRows Fp))
      (t : Table Fp blank n cs rs) where
    -- On columns that hold `n` rows each, for a statement whose connectives have one or two
    -- children as the factory functions make them, whose comparisons of INT32 columns have
    -- literals of 32 bits, whose comparisons of INT64 columns are tests for null, and whose other
    -- literals suit their columns, the evaluation on columns succeeds, and the bit of every row
    -- is what the evaluation of the row's record returns; `double`s are taken to represent
    -- integers of 32 bits exactly.
    pub eval_table-eval_record :
        (st : Statement Fp)
        → WellFormed Fp rs st
        → Returns (eval_table Fp fp of_int32 of_int64 like_match cs st) λ ret.
          (f : ℕ → Bool) × Answers n f ret
          × ((i : ℕ)
              → eval_record Fp fp of_int32 of_int64 like_match (record_at Fp rs i) st ≡ some (f i))
    unfolding eval_table eval_record
    eval_table-eval_record (comparison column op l) h =
        let (c, r, here, there, held, suits) = load-Column n cs rs column op l t h in
        let (ret, ran, a) =
          eval_column-Answers Fp fp of_int32 of_int64 like_match exact blank n c r op l held
            suits in
        (
          ret,
          rw (here, ◌>>=◌) ran,
          (
            (λ i. eval_value Fp fp of_int32 of_int64 like_match op (data_at Fp i r) l),
            a,
            λ i. rw (there i, ◌>>=◌),
          ),
        )
    eval_table-eval_record (logical Connective.and_node (child l (child r no_child))) (hl, hr) =
        let (lhs, lran, (f, fa, fr)) = eval_table-eval_record l hl in
        let (rhs, rran, (g, ga, gr)) = eval_table-eval_record r hr in
        let (ret, ran, (width, bytes, bits)) =
          bitmap_and-row_bit lhs rhs (fa.width ∙ sym ga.width) fa.bytes ga.bytes in
        (
          ret,
          rw (lran, ◌>>=◌) (rw (rran, ◌>>=◌) ran),
          (
            (λ i. f i && g i),
            record {
              width = width ∙ fa.width;
              bytes = bytes;
              bits = λ i small.
                  ground
                    (arith, bits i (omega (arith, fa.width)), fa.bits i small, ga.bits i small);
            },
            λ i. rw (fr i, ◌>>=◌) (rw (gr i, ◌>>=◌) (both (f i) (g i))),
          ),
        )
      where
        both :
            (a b : Bool)
            → (if a then (if b then some true else some false) else some false) ≡ some (a && b)
        both true true = refl
        both true false = refl
        both false b = refl
    eval_table-eval_record (logical Connective.or_node (child l (child r no_child))) (hl, hr) =
        let (lhs, lran, (f, fa, fr)) = eval_table-eval_record l hl in
        let (rhs, rran, (g, ga, gr)) = eval_table-eval_record r hr in
        let (ret, ran, (width, bytes, bits)) =
          bitmap_or-row_bit lhs rhs (fa.width ∙ sym ga.width) fa.bytes ga.bytes in
        (
          ret,
          rw (lran, ◌>>=◌) (rw (rran, ◌>>=◌) ran),
          (
            (λ i. f i || g i),
            record {
              width = width ∙ fa.width;
              bytes = bytes;
              bits = λ i small.
                  ground
                    (arith, bits i (omega (arith, fa.width)), fa.bits i small, ga.bits i small);
            },
            λ i. rw (fr i, ◌>>=◌) (rw (gr i, ◌>>=◌) (either (f i) (g i))),
          ),
        )
      where
        either :
            (a b : Bool)
            → (if a then some true else (if b then some true else some false)) ≡ some (a || b)
        either true b = refl
        either false true = refl
        either false false = refl
    eval_table-eval_record (logical Connective.not_node (child c no_child)) h =
        let (bits_of, bran, (f, fa, fr)) = eval_table-eval_record c h in
        let (ret, ran, (width, bytes, bits)) = bitmap_not-row_bit bits_of fa.bytes in
        (
          ret,
          rw (bran, ◌>>=◌) ran,
          (
            (λ i. not (f i)),
            record {
              width = width ∙ fa.width;
              bytes = bytes;
              bits = λ i small. ground (arith, bits i (omega (arith, fa.width)), fa.bits i small);
            },
            λ i. rw (fr i, ◌>>=◌),
          ),
        )
    eval_table-eval_record (logical _ _) h = absurd h
