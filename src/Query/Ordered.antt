-- ===== src/Query/Ordered.antt =====
-- Plans whose joins refer to earlier nodes: the recursion over them ends.
use mathlib.Core.Option.{none-ne-some, some-injective}
use optimized_hash_join_pipe.Base.{
  ℕ, zero, suc, ◌+◌, ◌<◌, ◌≤◌, ◌≡◌, arith, ◌*◌, ◌^◌, subst, some, Option, List, [], ◌∷◌, length,
}
use optimized_hash_join_pipe.Base.Partial.{Returns, load}
use optimized_hash_join_pipe.Query.{NodeData, PlanNode, Plan, execute_impl}
use optimized_hash_join_pipe.Slab.{GlobalAllocator}
use optimized_hash_join_pipe.Unchained.{entry_size}
use optimized_hash_join_pipe.Query.Correct.{
  Query, StandsFor, depth, Valid, Answers, execute_impl-answer,
}
use optimized_hash_join_pipe.Query.Rows.{Row}

-- The sides of node `i` come before it.
abbrev pub Earlier : ℕ → NodeData → Type 0
Earlier i (NodeData.scan_node table_id) = Unit {0}
Earlier i (NodeData.join_node build_left left right left_attr right_attr) = (left < i) × (right < i)

abbrev pub OrderedFrom : ℕ → List PlanNode → Type 0
OrderedFrom from [] = Unit {0}
OrderedFrom from (n ∷ nodes) = Earlier from n.data_of × OrderedFrom (suc from) nodes

abbrev pub Ordered : Plan → Type 0
Ordered plan = OrderedFrom 0 plan.nodes

load-OrderedFrom :
    (from : ℕ) (nodes : List PlanNode) (i : ℕ) (n : PlanNode)
    → OrderedFrom from nodes
    → load nodes i ≡ some n
    → Earlier (from + i) n.data_of
unfolding load
load-OrderedFrom from [] i n o e = absurd (none-ne-some n e)
load-OrderedFrom from (m ∷ nodes) zero n o e =
    subst (λ (k : PlanNode). Earlier (from + 0) k.data_of) (some-injective m n e)
      (subst (λ (k : ℕ). Earlier k m.data_of) (omega arith) o.0)
load-OrderedFrom from (m ∷ nodes) (suc i) n o e =
    subst (λ (k : ℕ). Earlier k n.data_of) (omega arith)
      (load-OrderedFrom (suc from) nodes i n o.1 e)

-- `node` is the new, last node of a plan, at the index `added`; the rest is as before, also node
-- `i`.
abbrev pub Added : (old new : Plan) (added : ℕ) → PlanNode → (i : ℕ) → Type 0
Added old new added node i =
    Ordered new
    × (added ≡ length old.nodes)
    × (length new.nodes ≡ suc added)
    × (load new.nodes added ≡ some node)
    × (load new.nodes i ≡ load old.nodes i)
    × (new.inputs ≡ old.inputs)
    × (new.root ≡ old.root)

depth-StandsFor :
    (plan : Plan) → Ordered plan → (q : Query) (i : ℕ) → StandsFor plan i q → depth q ≤ suc i
depth-StandsFor plan o (Query.scan table_id attrs) i stands = omega arith
depth-StandsFor plan o (Query.join_of l r left_attr right_attr attrs) i
      (build_left, left_idx, right_idx, node, l_stands, r_stands) =
    let e = load-OrderedFrom 0 plan.nodes i _ o node in
    ground (
      arith,
      e.0,
      e.1,
      depth-StandsFor plan o l left_idx l_stands,
      depth-StandsFor plan o r right_idx r_stands,
    )

module _ (crc32si : ℕ → ℕ → ℕ) (mmap : ℕ → Option ℕ)
    (maps : (size : ℕ) → Returns (mmap size) λ _. Unit {0}) (base : ℕ → ℕ) (others : ℕ)
    (address : (i : ℕ) → base i + entry_size * 2 ^ 30 < 2 ^ 48) (owner : ℕ → ℕ → ℕ)
    (owned_by : (i k : ℕ) → owner i k < suc others) (blank : ℕ) (plan : Plan)
    (contents : ℕ → List Row) where
  -- In a plan whose joins refer to earlier nodes the recursion of `execute_impl` ends: a depth of
  -- the node's index and one is enough for the answer of the query that the node stands for, with
  -- the conditions of `execute_impl-answer` on the tables, the threads, the addresses and `mmap`.
  pub execute_impl-Ordered :
      Ordered plan
      → (q : Query) (node_idx : ℕ) → StandsFor plan node_idx q
      → Valid blank plan.inputs contents q
      → (g : GlobalAllocator)
      → Answers crc32si mmap maps base others address owner owned_by blank plan contents q
          (execute_impl crc32si mmap base (suc others) owner blank plan (suc node_idx) node_idx g)
  execute_impl-Ordered o q node_idx stands valid g =
      execute_impl-answer crc32si mmap maps base others address owner owned_by blank plan contents q
        (suc node_idx) node_idx (depth-StandsFor plan o q node_idx stands) stands valid g
