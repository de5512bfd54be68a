-- ===== src/Unchained/Probe.antt =====
-- `lookup` and the scan of its range, on a table whose partitions have all been built.
use optimized_hash_join_pipe.Base.{
  ℕ, suc, ◌+◌, ◌*◌, ◌/◌, ◌^◌, ◌<◌, ◌≤◌, ◌≡◌, refl, arith, ap, ◌∙◌, List, [], ◌∷◌, map, length,
  get_or, select, some, ◌==◌, ==_iff, ==_refl, Bool, true, Bool-cases, sum_range, inl, inr, subst,
}
use optimized_hash_join_pipe.Base.Partial.{◌>>=◌, load-get_or}
use optimized_hash_join_pipe.Unchained.{
  Entry, HashTable, no_entry, entry_size, num_partitions, slot_of, scan_range,
}
use optimized_hash_join_pipe.Unchained.Words.{pointer, index_of_entry}
use optimized_hash_join_pipe.Unchained.Slots.{width}
use optimized_hash_join_pipe.Unchained.Counting.{bucket, size, AllTagged, HasTag}
use optimized_hash_join_pipe.Unchained.Partition.{AllIn}

abbrev pub has_key : ℕ → Entry → Bool
has_key key e = e.key == key

-- The row indices of the entries with a key, in their order.
abbrev pub rows_of : ℕ → List Entry → List ℕ
rows_of key es = map (λ e. e.row_idx) (select (has_key key) es)

-- The number of entries in the partitions before `p`: `partition_offsets[p]`.
abbrev pub offset : (ℕ → List Entry) → ℕ → ℕ
offset entries p = sum_range (λ q. length (entries q)) 0 p

-- The scan reads the places from `a` on, whose contents are `xs`.
pub scan_range-rows_of :
    (t : HashTable) (key : ℕ) (xs : List Entry) (a : ℕ)
    → a + length xs ≤ length t.tuples
    → ((i : ℕ) → i < length xs → get_or t.tuples (a + i) no_entry ≡ get_or xs i no_entry)
    → scan_range t key (t.base + entry_size * a) (length xs) ≡ some (rows_of key xs)
unfolding scan_range
scan_range-rows_of t key [] a fits same = refl
scan_range-rows_of t key (x ∷ xs) a fits same =
    let here : get_or t.tuples a no_entry ≡ x =
      ap (λ (i : ℕ). get_or t.tuples i no_entry) (let e : a ≡ a + 0 = omega arith in e)
      ∙ same 0 (omega arith) in
    let rest : scan_range t key (t.base + entry_size * a + entry_size) (length xs)
        ≡ some (rows_of key xs) =
      ap (λ (ptr : ℕ). scan_range t key ptr (length xs)) (omega arith)
      ∙ scan_range-rows_of t key xs (a + 1) (omega arith) (λ i l.
        ap (λ (k : ℕ). get_or t.tuples k no_entry)
          (let e : a + 1 + i ≡ a + suc i = omega arith in e)
        ∙ same (suc i) (omega arith)) in
    rw (index_of_entry t.base a, ◌>>=◌)
      (rw (load-get_or t.tuples a no_entry (omega arith), ◌>>=◌)
        (rw (rest, ◌>>=◌)
          (rw here (elim (Bool-cases (has_key key x)) [ inl e ↦ rw e | inr e ↦ rw e ]))))

module _ (crc32si : ℕ → ℕ → ℕ) (shift : ℕ) where
  -- Entries with one key share its slot.
  pub select-bucket :
      (key : ℕ) (es : List Entry)
      → select (has_key key) (bucket crc32si shift (slot_of crc32si shift key) es)
        ≡ select (has_key key) es
  select-bucket key [] = refl
  select-bucket key (e ∷ es) = elim (Bool-cases (has_key key e)) [
    | inl same ↦
        let eq : e.key ≡ key = (==_iff e.key key).0 same in
        let there : (slot_of crc32si shift e.key == slot_of crc32si shift key) ≡ true =
          rw eq (==_refl _) in
        rw (there, same, select-bucket key es)
    | inr other ↦ elim (Bool-cases (slot_of crc32si shift e.key == slot_of crc32si shift key)) [
      | inl there ↦ rw (there, other, select-bucket key es)
      | inr apart ↦ rw (apart, other, select-bucket key es)
    ]
  ]

  -- A key whose tag is missing is the key of no entry.
  pub select-untagged :
      (key : ℕ) (directory : List ℕ) (es : List Entry)
      → AllTagged crc32si shift directory es
      → ¬ HasTag crc32si shift directory key
      → select (has_key key) es ≡ []
  select-untagged key directory [] h absent = refl
  select-untagged key directory (e ∷ es) h absent = elim (Bool-cases (has_key key e)) [
    | inl same ↦
        absurd (absent (subst (HasTag crc32si shift directory) ((==_iff e.key key).0 same) h.0))
    | inr other ↦ rw (other, select-untagged key directory es h.1 absent)
  ]

  -- What `postProcessBuild` leaves for partition `p`.
  pub record Built (entries : ℕ → List Entry) (p : ℕ) (t : HashTable) : Type 0 where
    pub all_in : AllIn crc32si p (entries p)
    pub ends :
        (j : ℕ)
        → j < width shift
        → pointer t.directory (p * width shift + j)
          ≡ t.base
            + entry_size
              * (offset entries p
                  + sum_range (size crc32si shift (entries p)) (p * width shift) (suc j))
    pub tagged : AllTagged crc32si shift t.directory (entries p)
    pub contents :
        (j i : ℕ)
        → j < width shift
        → i < size crc32si shift (entries p) (p * width shift + j)
        → get_or t.tuples
            (offset entries p + sum_range (size crc32si shift (entries p)) (p * width shift) j + i)
            no_entry
          ≡ get_or (bucket crc32si shift (p * width shift + j) (entries p)) i no_entry

  pub record Shape (entries : ℕ → List Entry) (t : HashTable) : Type 0 where
    pub same_shift : t.shift ≡ shift
    pub words : length t.directory ≡ num_partitions * width shift + 1
    pub minus_one : get_or t.directory 0 0 / 2 ^ 16 ≡ t.base
    pub fits : offset entries num_partitions ≤ length t.tuples
    pub addresses : t.base + entry_size * length t.tuples < 2 ^ 48
