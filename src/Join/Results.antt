-- ===== src/Join/Results.antt =====
-- Columns as a relation, and the columns of results that a thread fills.
use mathlib.Core.List.{map-append, Permᴰ}
use optimized_hash_join_pipe.Base.{
  ℕ, zero, suc, ◌<◌, ◌≡◌, refl, arith, sym, subst, if◌then◌else◌, Bool, Bool-cases, inl, inr, some,
  none, List, [], ◌∷◌, ◌++◌, map, length, length-append, get_or, replicate,
}
use mathlib.Core.List.{append_assoc, append-nil}
use optimized_hash_join_pipe.Base.Partial.{Returns, ◌>>=◌, load}
use optimized_hash_join_pipe.Column.{Value, ColumnT, get_value}
use optimized_hash_join_pipe.Column.Packed.{Packed, push_value-Packed}
use optimized_hash_join_pipe.Column.Readable.{Readable, get_value-Readable}
use optimized_hash_join_pipe.Join.{OutputMapping, default_column, add_result, emit_row, emit_rows}

-- Columns of `n` rows each.
abbrev pub Relation : List ColumnT → List (List Value) → ℕ → Type 0
Relation [] [] n = Unit {0}
Relation [] (vs ∷ vss) n = ⊥
Relation (c ∷ cs) [] n = ⊥
Relation (c ∷ cs) (vs ∷ vss) n = Readable c vs × (length vs ≡ n) × Relation cs vss n

pub load-Relation :
    (cs : List ColumnT) (vss : List (List Value)) (n i : ℕ)
    → Relation cs vss n
    → i < length cs
    → Returns (load cs i) λ c. Readable c (get_or vss i []) × (length (get_or vss i []) ≡ n)
unfolding load
load-Relation [] vss n i r l = absurd (omega arith)
load-Relation (c ∷ cs) [] n i r l = absurd r
load-Relation (c ∷ cs) (vs ∷ vss) n zero r l = (c, refl, (r.0, r.1))
load-Relation (c ∷ cs) (vs ∷ vss) n (suc i) r l = load-Relation cs vss n i r.2 (omega arith)

abbrev pub no_value : Value
no_value = record { val = 0; status = 0 }

-- A column of results: its values are in buffers.
pub record Buffered (c : ColumnT) (vs : List Value) : Type 0 where
  pub original : c.original_col ≡ none
  pub packed : Packed c.buffers vs
  pub count : c.num_rows ≡ length vs

add_result-Buffered :
    (c : ColumnT) (vs : List Value) (v : Value)
    → Buffered c vs
    → Buffered (add_result c v) (vs ++ v ∷ [])
add_result-Buffered c vs v b = record {
  original = b.original;
  packed = push_value-Packed c.buffers vs v b.packed;
  count = omega (arith, b.count, length-append vs (v ∷ []));
}

abbrev pub Within : ℕ → List ℕ → Type 0
Within n [] = Unit {0}
Within n (i ∷ is) = (i < n) × Within n is

pub perm-Within : (n : ℕ) {is js : List ℕ} → Permᴰ is js → Within n is → Within n js
perm-Within n Permᴰ.nil w = w
perm-Within n (Permᴰ.cons e p) w = (omega (arith, w.0), perm-Within n p w.1)
perm-Within n (Permᴰ.swap e f) w = (omega (arith, w.1.0), (omega (arith, w.0), w.1.1))
perm-Within n (Permᴰ.trans p q) w = perm-Within n q (perm-Within n p w)

module _ (left_values right_values : List (List Value)) where
  -- The value of an output column in the row that joins two rows.
  abbrev pub cell : OutputMapping → ℕ × ℕ → Value
  cell m (l, r) =
      if m.use_left
      then get_or (get_or left_values m.col_idx []) l no_value
      else get_or (get_or right_values m.col_idx []) r no_value

  -- The columns hold the rows of the pairs.
  abbrev pub Collected : List OutputMapping → List ColumnT → List (ℕ × ℕ) → Type 0
  Collected [] [] pairs = Unit {0}
  Collected [] (c ∷ cs) pairs = ⊥
  Collected (m ∷ ms) [] pairs = ⊥
  Collected (m ∷ ms) (c ∷ cs) pairs = Buffered c (map (cell m) pairs) × Collected ms cs pairs

  pub Collected-none :
      (ms : List OutputMapping) → Collected ms (replicate (length ms) default_column) []
  Collected-none [] = tt
  Collected-none (m ∷ ms) =
      (record { original = refl; packed = refl; count = refl }, Collected-none ms)

module _ (left right : List ColumnT) (left_values right_values : List (List Value))
    (left_rows right_rows : ℕ) (left_held : Relation left left_values left_rows)
    (right_held : Relation right right_values right_rows) where
  abbrev pub InRange : List OutputMapping → Type 0
  InRange [] = Unit {0}
  InRange (m ∷ ms) = (m.col_idx < (if m.use_left then length left else length right)) × InRange ms

  read_cell :
      (m : OutputMapping) (l r : ℕ)
      → m.col_idx < (if m.use_left then length left else length right)
      → l < left_rows
      → r < right_rows
      → Returns (load (if m.use_left then left else right) m.col_idx) λ side.
        get_value side (if m.use_left then l else r) ≡ some (cell left_values right_values m (l, r))
  read_cell m l r within l_in r_in = elim (Bool-cases m.use_left) [
    | inl is_left ↦
        let (side, run, (readable, size)) =
          load-Relation left left_values left_rows m.col_idx left_held (rw is_left at within) in
        rw is_left (
          side,
          run,
          get_value-Readable side (get_or left_values m.col_idx []) no_value l readable
              (omega (arith, size)),
        )
    | inr is_right ↦
        let (side, run, (readable, size)) =
          load-Relation right right_values right_rows m.col_idx right_held
            (rw is_right at within) in
        rw is_right (
          side,
          run,
          get_value-Readable side (get_or right_values m.col_idx []) no_value r readable
              (omega (arith, size)),
        )
  ]

  emit_row-Collected :
      (l r : ℕ) (ms : List OutputMapping) (cs : List ColumnT) (pairs : List (ℕ × ℕ))
      → InRange ms
      → l < left_rows
      → r < right_rows
      → Collected left_values right_values ms cs pairs
      → Returns
          (emit_row left right l r ms cs)
          λ cs'. Collected left_values right_values ms cs' (pairs ++ (l, r) ∷ [])
  unfolding emit_row
  emit_row-Collected l r [] [] pairs within l_in r_in held = ([], refl, tt)
  emit_row-Collected l r [] (c ∷ cs) pairs within l_in r_in held = absurd held
  emit_row-Collected l r (m ∷ ms) [] pairs within l_in r_in held = absurd held
  emit_row-Collected l r (m ∷ ms) (c ∷ cs) pairs within l_in r_in held =
      let (side, loaded, value) = read_cell m l r within.0 l_in r_in in
      let (rest, run, others) = emit_row-Collected l r ms cs pairs within.1 l_in r_in held.1 in
      let v = cell left_values right_values m (l, r) in
      (
        add_result c v ∷ rest,
        rw (loaded, ◌>>=◌) (rw (value, ◌>>=◌) (rw (run, ◌>>=◌) refl)),
        (
          subst (Buffered (add_result c v))
              (sym (map-append (cell left_values right_values m) pairs ((l, r) ∷ [])))
              (add_result-Buffered c (map (cell left_values right_values m) pairs) v held.0),
          others,
        ),
      )

  module _ (build_left : Bool) where
    -- The rows of the build side and of the probe side, as a pair.
    abbrev pub pair_of : (probe_row build_row : ℕ) → ℕ × ℕ
    pair_of p b = (if build_left then b else p, if build_left then p else b)

    pub emit_rows-Collected :
        (ms : List OutputMapping) (p : ℕ) (found : List ℕ) (cs : List ColumnT)
        (pairs : List (ℕ × ℕ))
        → InRange ms
        → p < (if build_left then right_rows else left_rows)
        → Within (if build_left then left_rows else right_rows) found
        → Collected left_values right_values ms cs pairs
        → Returns
            (emit_rows left right build_left ms p found cs)
            λ cs'. Collected left_values right_values ms cs' (pairs ++ map (pair_of p) found)
    unfolding emit_rows
    emit_rows-Collected ms p [] cs pairs within p_in w held =
        (cs, refl, subst (Collected left_values right_values ms cs) (sym (append-nil pairs)) held)
    emit_rows-Collected ms p (b ∷ found) cs pairs within p_in w held =
        let l = if build_left then b else p in
        let r = if build_left then p else b in
        let (l_in, r_in) : (l < left_rows) × (r < right_rows) = elim (Bool-cases build_left) [
          | inl is_left ↦ rw is_left (rw is_left at w.0, rw is_left at p_in)
          | inr is_right ↦ rw is_right (rw is_right at p_in, rw is_right at w.0)
        ] in
        let (cs', run, held') = emit_row-Collected l r ms cs pairs within l_in r_in held in
        let (cs'', run', held'') =
          emit_rows-Collected ms p found cs' (pairs ++ (l, r) ∷ []) within p_in w.1 held' in
        (
          cs'',
          rw (run, ◌>>=◌) run',
          subst (Collected left_values right_values ms cs'')
              (append_assoc pairs ((l, r) ∷ []) (map (pair_of p) found)) held'',
        )
