-- ===== src/Query/Correct.antt =====
-- The execution of a plan computes the query that the plan stands for.
use mathlib.Core.List.{Permᴰ}
use mathlib.Core.List.Permᴰ
use optimized_hash_join_pipe.Base.{
  ℕ, zero, suc, ◌+◌, ◌*◌, ◌^◌, ◌<◌, ◌≤◌, ◌≡◌, refl, arith, ap, ap₂, ◌∙◌, sym, subst, min, max, Bool,
  some, Option, List, [], ◌∷◌, map, length, perm-length,
}
use optimized_hash_join_pipe.Base.Partial.{Returns, ◌>>=◌, load}
use optimized_hash_join_pipe.Column.{DataType, Value, ColumnT, new_column}
use optimized_hash_join_pipe.Column.Readable.{Readable}
use optimized_hash_join_pipe.Pages.{Column, ColumnarTable}
use optimized_hash_join_pipe.Pages.Numbers.{AllHold, join}
use optimized_hash_join_pipe.Pages.Scans.{length-map}
use optimized_hash_join_pipe.Scan.{build_column_inserter}
use optimized_hash_join_pipe.Scan.Integers.{row_value}
use optimized_hash_join_pipe.Scan.Correct.{SameSize, build_column_inserter-Readable}
use optimized_hash_join_pipe.Slab.{GlobalAllocator}
use optimized_hash_join_pipe.Unchained.{entry_size}
use optimized_hash_join_pipe.Join.Correct.{Named}
use optimized_hash_join_pipe.Join.Results.{Relation}
use optimized_hash_join_pipe.Query.{NodeData, Plan, scan_attributes, execute_scan, execute_impl}
use optimized_hash_join_pipe.Query.Rows.{
  Row, first_of, rest_of, columns_of, Rows, field, map-map, join_rows, join_rows_perm,
}
use optimized_hash_join_pipe.Query.Joined.{run-join_rows}

-- What a plan stands for.
pub data Query : Type 0 where
  scan : (table_id : ℕ) → List (ℕ × DataType) → Query
  join_of : Query → Query → (left_attr right_attr : ℕ) → List (ℕ × DataType) → Query

-- The attributes of the result.
abbrev pub attributes : Query → List (ℕ × DataType)
attributes (scan table_id attrs) = attrs
attributes (join_of l r left_attr right_attr attrs) = attrs

-- The depth of the plan.
abbrev pub depth : Query → ℕ
depth (scan table_id attrs) = 1
depth (join_of l r left_attr right_attr attrs) = suc (max (depth l) (depth r))

abbrev pub StandsFor : Plan → ℕ → Query → Type 0
StandsFor plan node_idx (scan table_id attrs) =
    load plan.nodes node_idx
    ≡ some (record { data_of = NodeData.scan_node table_id; output_attrs = attrs })
StandsFor plan node_idx (join_of l r left_attr right_attr attrs) =
    (build_left : Bool) × (left_idx : ℕ) × (right_idx : ℕ) × (load plan.nodes node_idx
      ≡ some (record {
        data_of = NodeData.join_node build_left left_idx right_idx left_attr right_attr;
        output_attrs = attrs;
      }))
    × StandsFor plan left_idx l
    × StandsFor plan right_idx r

-- A row of a table, as the scan puts it out.
abbrev pub projected : List (ℕ × DataType) → Row → Row
projected [] r = []
projected ((col_idx, type) ∷ attrs) r = field r col_idx ∷ projected attrs r

-- The rows of the query; `contents` holds the rows of each table.
abbrev pub answer : (contents : ℕ → List Row) → Query → List Row
answer contents (scan table_id attrs) = map (projected attrs) (contents table_id)
answer contents (join_of l r left_attr right_attr attrs) =
    join_rows (length (attributes l)) left_attr right_attr attrs (answer contents l)
      (answer contents r)

-- A column of integers with the given values.
abbrev pub ColumnHolds : (blank : ℕ) → Column → List Value → Type 0
ColumnHolds blank column vs =
    (chunks : List (List (Option ℕ))) × (column.type ≡ DataType.int32)
    × AllHold 4 column.pages chunks
    × ((ints : List (List ℕ)) → chunks ≡ map (map some) ints → SameSize ints)
    × (map (row_value blank) (join chunks) ≡ vs)

abbrev pub TableHolds : (blank : ℕ) → ColumnarTable → List Row → Type 0
TableHolds blank table rows =
    (c : ℕ)
    → c < length table.columns
    → Returns (load table.columns c) λ column. ColumnHolds blank column (map (λ r. field r c) rows)

module _ (blank : ℕ) (inputs : List ColumnarTable) (contents : ℕ → List Row) where
  -- The tables hold their rows, attributes name columns that exist, and no join is too large.
  abbrev pub Valid : Query → Type 0
  Valid (scan table_id attrs) =
      Returns (load inputs table_id)
        λ table. TableHolds blank table (contents table_id) × Named (length table.columns) attrs
  Valid (join_of l r left_attr right_attr attrs) =
      Valid l
      × Valid r
      × (left_attr < length (attributes l))
      × (right_attr < length (attributes r))
      × Named (length (attributes l) + length (attributes r)) attrs
      × (min (length (answer contents l)) (length (answer contents r)) < 2 ^ 30)

scan_attributes-Relation :
    (blank table_id : ℕ) (table : ColumnarTable) (rows : List Row) (attrs : List (ℕ × DataType))
    → TableHolds blank table rows
    → Named (length table.columns) attrs
    → Returns (scan_attributes blank table_id table attrs) λ cs.
      Relation cs (columns_of (length cs) (map (projected attrs) rows)) (length rows)
      × (length cs ≡ length attrs)
unfolding scan_attributes
scan_attributes-Relation blank table_id table rows [] held named = ([], refl, (tt, refl))
scan_attributes-Relation blank table_id table rows ((col_idx, type) ∷ attrs) held named =
    let (column, loaded, (chunks, is_int, pages, even, values)) = held col_idx named.0 in
    let (c, ran, readable) =
      build_column_inserter-Readable blank table_id col_idx column.pages chunks pages even in
    let (cs, rest, (relation, same)) =
      scan_attributes-Relation blank table_id table rows attrs held named.1 in
    let row = projected ((col_idx, type) ∷ attrs) in
    let built : build_column_inserter blank table_id col_idx column.pages column.type
          (new_column column.type)
        ≡ some c =
      ap (λ t. build_column_inserter blank table_id col_idx column.pages t (new_column t)) is_int
      ∙ ran in
    (
      c ∷ cs,
      rw (loaded, ◌>>=◌) (rw (built, ◌>>=◌) (rw (rest, ◌>>=◌) refl)),
      (
        (
          subst (Readable c) (values ∙ sym (map-map first_of row rows)) readable,
          length-map first_of (map row rows) ∙ length-map row rows,
          subst (λ (t : List Row). Relation cs (columns_of (length cs) t) (length rows))
              (sym (map-map rest_of row rows)) relation,
        ),
        ap suc same,
      ),
    )

module _ (crc32si : ℕ → ℕ → ℕ) (mmap : ℕ → Option ℕ)
    (maps : (size : ℕ) → Returns (mmap size) λ _. Unit {0}) (base : ℕ → ℕ) (others : ℕ)
    (address : (i : ℕ) → base i + entry_size * 2 ^ 30 < 2 ^ 48) (owner : ℕ → ℕ → ℕ)
    (owned_by : (i k : ℕ) → owner i k < suc others) (blank : ℕ) (plan : Plan)
    (contents : ℕ → List Row) where
  abbrev pub Answers : Query → Option (List ColumnT × GlobalAllocator) → Type 0
  Answers q result = Returns result λ out.
      (rows : List Row) × Permᴰ rows (answer contents q)
      × Rows out.0 rows
      × (length out.0 ≡ length (attributes q))

  -- Let a node of a plan stand for a query whose attributes name columns that exist, let the
  -- columns of the tables be of integers and hold the rows, on pages of one size but for the last
  -- if they have no null, and let the smaller side of each join have fewer than 2^30 rows. If the
  -- fuel is at least the depth of the query, then `execute_impl` does not fault or run out of
  -- fuel, and its columns hold the rows of the query's answer, in some order: for any number of
  -- threads but 0, however they share the work of each join out, for addresses of the entries that
  -- leave room for 2^30 of them below 2^48, and an `mmap` that never fails.
  pub execute_impl-answer :
      (q : Query) (fuel node_idx : ℕ)
      → depth q ≤ fuel
      → StandsFor plan node_idx q
      → Valid blank plan.inputs contents q
      → (g : GlobalAllocator)
      → Answers q (execute_impl crc32si mmap base (suc others) owner blank plan fuel node_idx g)
  unfolding execute_impl execute_scan
  execute_impl-answer (scan table_id attrs) zero node_idx deep stands valid g =
      absurd (omega (arith, deep))
  execute_impl-answer (join_of l r left_attr right_attr attrs) zero node_idx deep stands valid g =
      absurd (omega (arith, deep))
  execute_impl-answer (scan table_id attrs) (suc fuel) node_idx l stands
        (table, loaded, (held, named)) g =
      let (cs, ran, (relation, same)) =
        scan_attributes-Relation blank table_id table (contents table_id) attrs held named in
      let rows = map (projected attrs) (contents table_id) in
      (
        (cs, g),
        rw (stands, ◌>>=◌) (rw (loaded, ◌>>=◌) (rw (ran, ◌>>=◌) refl)),
        (
          rows,
          Permᴰ.refl rows,
          subst (Relation cs (columns_of (length cs) rows))
              (sym (length-map (projected attrs) (contents table_id))) relation,
          same,
        ),
      )
  execute_impl-answer (join_of l r left_attr right_attr attrs) (suc fuel) node_idx deep
        (build_left, left_idx, right_idx, node, l_stands, r_stands)
        (l_valid, r_valid, l_in, r_in, named, few) g =
      let ((left, g'), l_ran, (ls, l_perm, l_held, l_same)) =
        execute_impl-answer l fuel left_idx (omega (arith, deep)) l_stands l_valid g in
      let ((right, g''), r_ran, (rs, r_perm, r_held, r_same)) =
        execute_impl-answer r fuel right_idx (omega (arith, deep)) r_stands r_valid g' in
      let (out, ran, (rows, perm, held, same)) =
        run-join_rows crc32si mmap maps (base node_idx) others (address node_idx) (owner node_idx)
          (owned_by node_idx) left right ls rs l_held r_held left_attr right_attr
          (omega (arith, l_same)) (omega (arith, r_same)) attrs
          (subst (λ (n : ℕ). Named n attrs) (sym (ap₂ (λ (a b : ℕ). a + b) l_same r_same)) named)
          (omega (arith, perm-length l_perm, perm-length r_perm, few)) g'' in
      (
        out,
        rw (node, ◌>>=◌) (rw (l_ran, ◌>>=◌) (rw (r_ran, ◌>>=◌) ran)),
        (
          rows,
          subst
              (λ (n : ℕ).
                Permᴰ rows
                  (join_rows n left_attr right_attr attrs (answer contents l) (answer contents r)))
              l_same
              (Permᴰ.trans perm
                (join_rows_perm (length left) left_attr right_attr attrs l_perm r_perm)),
          held,
          same,
        ),
      )
