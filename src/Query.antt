-- ===== src/Query.antt =====
-- The execution of a plan: `execute_impl`, `execute_hash_join` and `execute_scan` of
-- src/execute.cpp, on the plans of include/plan.h. The addresses of the tables' entries and the
-- races for work differ from join to join: `base` and `owner` depend on the node.
pub mod Rows
pub mod Joined
pub mod Correct
pub mod Ordered
use optimized_hash_join_pipe.Base.{
  ℕ, zero, suc, Bool, Option, some, none, List, [], ◌∷◌, ◌++◌, length,
}
use optimized_hash_join_pipe.Base.Partial.{◌>>=◌, load}
use optimized_hash_join_pipe.Column.{DataType, ColumnT, new_column}
use optimized_hash_join_pipe.Pages.{Column, ColumnarTable}
use optimized_hash_join_pipe.Scan.{build_column_inserter}
use optimized_hash_join_pipe.Slab.{GlobalAllocator}
use optimized_hash_join_pipe.Join.{run}

-- `ScanNode` and `JoinNode`
pub data NodeData : Type 0 where
  scan_node : (base_table_id : ℕ) → NodeData
  join_node : (build_left : Bool) → (left right left_attr right_attr : ℕ) → NodeData

pub record PlanNode : Type 0 where
  pub data_of : NodeData
  pub output_attrs : List (ℕ × DataType)

pub record Plan : Type 0 where
  pub nodes : List PlanNode
  pub inputs : List ColumnarTable
  pub root : ℕ

-- The two ways to add a node; the result has the index of the node.
unfoldable pub new_join_node :
    (build_left : Bool)
    → (left right left_attr right_attr : ℕ) → List (ℕ × DataType)
    → Plan
    → ℕ × Plan
new_join_node build_left left right left_attr right_attr output_attrs plan = (
  length plan.nodes,
  record plan {
    nodes =
        plan.nodes
        ++ record {
          data_of = join_node build_left left right left_attr right_attr;
          output_attrs = output_attrs;
        }
          ∷ [];
  },
)

unfoldable pub new_scan_node : (base_table_id : ℕ) → List (ℕ × DataType) → Plan → ℕ × Plan
new_scan_node base_table_id output_attrs plan = (
  length plan.nodes,
  record plan {
    nodes =
        plan.nodes
        ++ record { data_of = scan_node base_table_id; output_attrs = output_attrs } ∷ [];
  },
)

-- `results[idx]`, attribute by attribute
unfoldable pub scan_attributes :
    (blank table_id : ℕ) → ColumnarTable → List (ℕ × DataType) → Option (List ColumnT)
scan_attributes blank table_id input [] = some []
scan_attributes blank table_id input ((col_idx, type) ∷ attrs) = do
  column ← load input.columns col_idx
  c ← build_column_inserter blank table_id col_idx column.pages column.type (new_column column.type)
  rest ← scan_attributes blank table_id input attrs
  some (c ∷ rest)

unfoldable pub execute_scan :
    (blank : ℕ) → Plan → (base_table_id : ℕ) → List (ℕ × DataType) → Option (List ColumnT)
execute_scan blank plan base_table_id output_attrs = load plan.inputs base_table_id >>= λ input.
    scan_attributes blank base_table_id input output_attrs

module _ (crc32si : ℕ → ℕ → ℕ) (mmap : ℕ → Option ℕ) (base : ℕ → ℕ) (threads : ℕ)
    (owner : ℕ → ℕ → ℕ) where
  -- `impl` is `execute_impl` for the two sides.
  unfoldable pub execute_hash_join :
      (impl : ℕ → GlobalAllocator → Option (List ColumnT × GlobalAllocator)) (node_idx : ℕ)
      (left_idx right_idx left_attr right_attr : ℕ)
      → List (ℕ × DataType)
      → GlobalAllocator
      → Option (List ColumnT × GlobalAllocator)
  execute_hash_join impl node_idx left_idx right_idx left_attr right_attr output_attrs g =
      impl left_idx g >>= λ (left, g'). impl right_idx g' >>= λ (right, g'').
      run crc32si mmap (base node_idx) threads (owner node_idx) left right left_attr right_attr
        output_attrs g''

  -- `fuel` bounds the depth of the recursion.
  unfoldable pub execute_impl :
      (blank : ℕ)
      → Plan
      → (fuel node_idx : ℕ) → GlobalAllocator
      → Option (List ColumnT × GlobalAllocator)
  unfolding execute_hash_join
  execute_impl blank plan zero node_idx g = none
  execute_impl blank plan (suc fuel) node_idx g = load plan.nodes node_idx >>= λ node.
      elim node.data_of [
        | scan_node base_table_id ↦
            execute_scan blank plan base_table_id node.output_attrs >>= λ results. some (results, g)
        | join_node build_left left right left_attr right_attr ↦
            execute_hash_join (λ i g'. execute_impl blank plan fuel i g') node_idx left right
              left_attr right_attr node.output_attrs g
      ]
