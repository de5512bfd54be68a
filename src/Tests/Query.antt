-- ===== src/Tests/Query.antt =====
-- A plan that joins a table of two rows with itself.
use mathlib.Core.List.{Permᴰ}
use optimized_hash_join_pipe.Base.{
  ℕ, zero, suc, ◌%◌, ◌^◌, ◌≡◌, refl, arith, true, List, [], ◌∷◌, length,
}
use optimized_hash_join_pipe.Base.Partial.{Returns, load}
use optimized_hash_join_pipe.Column.{DataType}
use optimized_hash_join_pipe.Column.Readable.{int_value}
use optimized_hash_join_pipe.Pages.{ColumnarTable}
use optimized_hash_join_pipe.Query.{NodeData, PlanNode, Plan, execute_impl}
use optimized_hash_join_pipe.Query.Ordered.{Ordered, execute_impl-Ordered}
use optimized_hash_join_pipe.Query.Rows.{Row, Rows}
use optimized_hash_join_pipe.Query.Correct.{
  Query, StandsFor, answer, TableHolds, Valid, execute_impl-answer,
}
use optimized_hash_join_pipe.Tests.Join.{
  page, rows, same_size, page-HoldsNumbers, spread, allocator, mapped, both_columns,
}

abbrev table : ColumnarTable
table = record { num_rows = 2; columns = record { type = DataType.int32; pages = page ∷ [] } ∷ [] }

abbrev first_column : List (ℕ × DataType)
first_column = (0, DataType.int32) ∷ []

abbrev self_join : Plan
self_join = record {
  nodes =
      record { data_of = NodeData.scan_node 0; output_attrs = first_column }
      ∷ record { data_of = NodeData.scan_node 0; output_attrs = first_column }
      ∷ record { data_of = NodeData.join_node true 0 1 0 0; output_attrs = both_columns }
      ∷ [];
  inputs = table ∷ [];
  root = 2;
}

abbrev query : Query
query = Query.join_of (Query.scan 0 first_column) (Query.scan 0 first_column) 0 0 both_columns

abbrev contents : ℕ → List Row
contents table_id = (int_value 7 ∷ []) ∷ (record { val = 5; status = 0 } ∷ []) ∷ []

stands : StandsFor self_join 2 query
unfolding load
stands = (true, 0, 1, refl, refl, refl)

table_held : TableHolds 5 table (contents 0)
unfolding load
table_held zero l = (
  record { type = DataType.int32; pages = page ∷ [] },
  refl,
  (rows ∷ [], refl, (page-HoldsNumbers, tt), same_size, refl),
)
table_held (suc c) l = absurd (omega arith)

valid : Valid 5 self_join.inputs contents query
unfolding load
valid = (
  (table, refl, (table_held, (omega arith, tt))),
  (table, refl, (table_held, (omega arith, tt))),
  omega arith,
  omega arith,
  (omega arith, (omega arith, tt)),
  omega arith,
)

execute_impl-answer_example :
    Returns
      (execute_impl spread mapped (λ i. 4096) 3 (λ i k. k % 3) 5 self_join 2 2 allocator)
      λ out.
        (found : List Row) × Permᴰ found (answer contents query)
        × Rows out.0 found
        × (length out.0 ≡ 2)
execute_impl-answer_example =
    execute_impl-answer spread mapped (λ size. (2 ^ 30, refl, tt)) (λ i. 4096) 2 (λ i. omega arith)
      (λ i k. k % 3) (λ i k. omega arith) 5 self_join contents query 2 2 (omega arith) stands valid
      allocator

answer_lem : answer contents query ≡ (int_value 7 ∷ int_value 7 ∷ []) ∷ []
answer_lem = refl

self_join-Ordered : Ordered self_join
self_join-Ordered = (tt, (tt, ((omega arith, omega arith), tt)))

execute_impl-Ordered_example :
    Returns
      (execute_impl spread mapped (λ i. 4096) 3 (λ i k. k % 3) 5 self_join 3 2 allocator)
      λ out.
        (found : List Row) × Permᴰ found (answer contents query)
        × Rows out.0 found
        × (length out.0 ≡ 2)
execute_impl-Ordered_example =
    execute_impl-Ordered spread mapped (λ size. (2 ^ 30, refl, tt)) (λ i. 4096) 2 (λ i. omega arith)
      (λ i k. k % 3) (λ i k. omega arith) 5 self_join contents self_join-Ordered query 2 stands
      valid allocator

-- One more scan, or a join of the last node and the second.
abbrev new_scan : PlanNode
new_scan = record { data_of = NodeData.scan_node 0; output_attrs = both_columns }

abbrev new_join : PlanNode
new_join = record { data_of = NodeData.join_node true 2 1 0 0; output_attrs = both_columns }
