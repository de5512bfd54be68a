-- ===== src/Filter/Values/Stored.antt =====
-- What a column of numbers stores: for every row pushed a value or a null.
use optimized_hash_join_pipe.Base.{
  ℕ, zero, suc, ◌+◌, ◌-◌, ◌/◌, ◌%◌, ◌<◌, ◌≤◌, ◌≡◌, refl, arith, ap, ◌∙◌, ◌==◌, ltb, Bool, true,
  false, Option, some, none, List, [], ◌∷◌, ◌++◌, length, length-append, get_or, get_or-snoc,
  to_nat, Bool-cases, inl, inr, bit-zero,
}
use optimized_hash_join_pipe.Base.Partial.{Returns, ◌>>=◌}
use optimized_hash_join_pipe.Filter.Bitmap.{write_bit}
use optimized_hash_join_pipe.Filter.Bitmap.Rows.{
  row_bit, Bytes, write_bit-row_bit, row_bit-snoc, bit-to_nat,
}
use optimized_hash_join_pipe.Filter.Values.{
  InnerColumn, empty_column, bitmap_push_back, push_back, push_back_null,
}

abbrev pub present {ℓ} : {A : Type ℓ} → Option A → Bool
present none = false
present (some a) = true

module _ {T : Type 0} (blank : T) where
  abbrev pub value_or : Option T → T
  value_or none = blank
  value_or (some v) = v

  -- The bitmap has a bit for each of `rows`, and no byte more than that takes.
  pub record Marked (bitmap : List ℕ) (rows : List (Option T)) : Type 0 where
    pub width : length bitmap ≡ (length rows + 7) / 8
    pub bits : (i : ℕ) → row_bit bitmap i ≡ to_nat (present (get_or rows i none))
    pub bytes : Bytes bitmap

  pub record Stored (c : InnerColumn T) (rows : List (Option T)) : Type 0 where
    pub count : length c.values ≡ length rows
    pub values : (i : ℕ) → get_or c.values i blank ≡ value_or (get_or rows i none)
    pub marked : Marked c.bitmap rows

  pub get_or-none : (rows : List (Option T)) (i : ℕ) → length rows ≤ i → get_or rows i none ≡ none
  get_or-none [] i h = refl
  get_or-none (r ∷ rows) zero h = absurd (omega arith)
  get_or-none (r ∷ rows) (suc i) h = get_or-none rows i (omega arith)

  -- A new byte, or a bit of the last byte.
  pub snoc_byte :
      (bitmap : List ℕ) (rows : List (Option T)) (r : Option T)
      → Marked bitmap rows
      → length bitmap < (length rows + 8) / 8
      → Marked (bitmap ++ to_nat (present r) ∷ []) (rows ++ r ∷ [])
  snoc_byte bitmap rows r m short = record {
    width = omega (
      arith,
      length-append bitmap (to_nat (present r) ∷ []),
      length-append rows (r ∷ []),
      m.width,
    );
    bits = λ i.
        row_bit-snoc bitmap (to_nat (present r)) i
        ∙ ground (
          arith,
          bit-to_nat (i % 8) (present r),
          m.bits i,
          m.width,
          ap (λ o. to_nat (present o)) (get_or-snoc rows r none i),
          behind i,
        );
    bytes = λ k. ground (arith, get_or-snoc bitmap (to_nat (present r)) 0 k, m.bytes k);
  }
    where
      behind : (i : ℕ) → length rows ≤ i → to_nat (present (get_or rows i none)) ≡ 0
      behind i h = rw (get_or-none rows i h)

  pub snoc_bit :
      (bitmap : List ℕ) (rows : List (Option T)) (r : Option T)
      → Marked bitmap rows
      → (length rows + 8) / 8 ≤ length bitmap
      → Returns (write_bit bitmap (length rows) (present r)) λ after. Marked after (rows ++ r ∷ [])
  snoc_bit bitmap rows r m enough =
      let (after, ran, (same, bits, bytes)) =
        write_bit-row_bit bitmap (length rows) (present r) (omega arith) in
      (
        after,
        ran,
        record {
          width = omega (arith, same, length-append rows (r ∷ []), m.width);
          bits = λ i.
              bits i
              ∙ ground (arith, m.bits i, ap (λ o. to_nat (present o)) (get_or-snoc rows r none i));
          bytes = bytes m.bytes;
        },
      )

  -- `bitmap_push_back` after a value for the row has been added.
  bitmap_push_back-Stored :
      (c : InnerColumn T) (rows : List (Option T)) (r : Option T)
      → Stored c rows
      → Returns
          (bitmap_push_back (record c { values = c.values ++ value_or r ∷ [] }) (present r))
          λ c'. Stored c' (rows ++ r ∷ [])
  unfolding bitmap_push_back
  bitmap_push_back-Stored c rows r s =
      let more = length-append c.values (value_or r ∷ []) in
      let stored : (i : ℕ)
          → get_or (c.values ++ value_or r ∷ []) i blank
            ≡ value_or (get_or (rows ++ r ∷ []) i none) =
        λ i. values_snoc i in
      elim (Bool-cases (ltb (length c.bitmap) ((length (c.values ++ value_or r ∷ []) + 7) / 8))) [
        | inl short ↦ (
          record {
            values = c.values ++ value_or r ∷ [];
            bitmap = c.bitmap ++ to_nat (present r) ∷ [];
          },
          rw short,
          record {
            count = omega (arith, more, length-append rows (r ∷ []), s.count);
            values = stored;
            marked = snoc_byte c.bitmap rows r s.marked (ground (arith, more, s.count));
          },
        )
        | inr enough ↦
            let (after, ran, m) =
              snoc_bit c.bitmap rows r s.marked (ground (arith, more, s.count)) in
            (
              record { values = c.values ++ value_or r ∷ []; bitmap = after },
              rw enough (
                  rw (
                    (let e : length (c.values ++ value_or r ∷ []) - 1 ≡ length rows =
                          omega (arith, more, s.count) in
                        e),
                    ran,
                    ◌>>=◌,
                  )),
              record {
                count = omega (arith, more, length-append rows (r ∷ []), s.count);
                values = stored;
                marked = m;
              },
            )
      ]
    where
      values_snoc :
          (i : ℕ)
          → get_or (c.values ++ value_or r ∷ []) i blank ≡ value_or (get_or (rows ++ r ∷ []) i none)
      values_snoc i = elim (Bool-cases (i == length rows)) [
        | inl e ↦
            rw (get_or-snoc c.values (value_or r) blank i, get_or-snoc rows r none i, s.count, e)
        | inr e ↦
            rw (get_or-snoc c.values (value_or r) blank i, get_or-snoc rows r none i, s.count, e)
              (s.values i)
      ]

  pub empty_column-Stored : Stored empty_column []
  empty_column-Stored = record {
    count = refl;
    values = λ i. refl;
    marked = record { width = refl; bits = λ i. bit-zero (i % 8); bytes = λ k. omega arith };
  }

  -- On a number column that stores `rows`, a push of a value succeeds and stores the value behind
  -- them, and a push of a null stores a null: every other row keeps its value and its bit, and
  -- the bitmap has no byte too many.
  pub push_back-Stored :
      (c : InnerColumn T) (rows : List (Option T))
      → Stored c rows
      → ((v : T) → Returns (push_back c v) λ c'. Stored c' (rows ++ some v ∷ []))
        × (Returns (push_back_null blank c) λ c'. Stored c' (rows ++ none ∷ []))
  unfolding push_back push_back_null
  push_back-Stored c rows s =
      (λ v. bitmap_push_back-Stored c rows (some v) s, bitmap_push_back-Stored c rows none s)
