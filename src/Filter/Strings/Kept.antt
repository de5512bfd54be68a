-- ===== src/Filter/Strings/Kept.antt =====
-- What a column of strings stores: for every row pushed a string or a null.
use mathlib.Core.List.{append-nil, append_assoc}
use optimized_hash_join_pipe.Base.{
  ℕ, zero, suc, ◌+◌, ◌-◌, ◌/◌, ◌%◌, ◌<◌, ◌≤◌, ◌≡◌, refl, arith, ap, ap₂, ◌∙◌, sym, ◌==◌, ltb, leb,
  ◌&&◌, true, Option, some, none, List, [], ◌∷◌, ◌++◌, length, length-append, take, get_or,
  get_or-snoc, get_or-append_left, drop-append, take-append, bit-zero, to_nat, Bool-cases, inl, inr,
  dec_lt,
}
use optimized_hash_join_pipe.Base.Partial.{Returns, ◌>>=◌, load, load-get_or}
use optimized_hash_join_pipe.Filter.Values.Stored.{present, value_or, Marked, snoc_byte, snoc_bit}
use optimized_hash_join_pipe.Filter.Strings.{
  String, StringColumn, empty_strings, string_bitmap_push_back, push_string, push_null_string, view,
  begin_of, get_string,
}

-- The characters of the rows before `i`.
pub text : List (Option String) → ℕ → String
text rows zero = []
text [] (suc i) = []
text (r ∷ rows) (suc i) = value_or [] r ++ text rows i

pub record Kept (c : StringColumn) (rows : List (Option String)) : Type 0 where
  pub count : c.row ≡ length rows
  pub offsets_count : length c.offsets ≡ length rows
  pub all_chars : c.chars ≡ text rows (length rows)
  pub ends : (i : ℕ) → i < length rows → get_or c.offsets i 0 ≡ length (text rows (i + 1))
  pub marked : Marked [] c.bitmap rows

text-snoc_before :
    (rows : List (Option String)) (r : Option String) (i : ℕ)
    → i ≤ length rows
    → text (rows ++ r ∷ []) i ≡ text rows i
unfolding text
text-snoc_before rows r zero h = refl
text-snoc_before [] r (suc i) h = absurd (omega arith)
text-snoc_before (q ∷ rows) r (suc i) h =
    ap (λ xs. value_or [] q ++ xs) (text-snoc_before rows r i (omega arith))

text-snoc :
    (rows : List (Option String)) (r : Option String)
    → text (rows ++ r ∷ []) (suc (length rows)) ≡ text rows (length rows) ++ value_or [] r
unfolding text
text-snoc [] r = append-nil (value_or [] r)
text-snoc (q ∷ rows) r =
    ap (λ xs. value_or [] q ++ xs) (text-snoc rows r)
    ∙ sym (append_assoc (value_or [] q) (text rows (length rows)) (value_or [] r))

-- The bitmap's part of a push, after the row's characters and its end have been added.
string_bitmap_push_back-Kept :
    (c : StringColumn) (rows : List (Option String)) (r : Option String)
    → Kept c rows
    → Returns
        (string_bitmap_push_back
          (record c {
            chars = c.chars ++ value_or [] r;
            offsets = c.offsets ++ length (c.chars ++ value_or [] r) ∷ [];
          })
          (present r))
        λ c'. Kept c' (rows ++ r ∷ [])
unfolding string_bitmap_push_back
string_bitmap_push_back-Kept c rows r k =
    let end = length (c.chars ++ value_or [] r) in
    let more = length-append rows (r ∷ []) in
    let chars : c.chars ++ value_or [] r ≡ text (rows ++ r ∷ []) (length (rows ++ r ∷ [])) =
      ap (λ xs. xs ++ value_or [] r) k.all_chars
      ∙ sym (text-snoc rows r)
      ∙ ap (text (rows ++ r ∷ []))
          (let e : suc (length rows) ≡ length (rows ++ r ∷ []) = omega (arith, more) in e) in
    let ends : (i : ℕ)
        → i < length (rows ++ r ∷ [])
        → get_or (c.offsets ++ end ∷ []) i 0 ≡ length (text (rows ++ r ∷ []) (i + 1)) =
      λ i l. ends_snoc end chars i l in
    elim (Bool-cases (ltb (length c.bitmap) (c.row / 8 + 1))) [
      | inl short ↦ (
        record {
          chars = c.chars ++ value_or [] r;
          offsets = c.offsets ++ end ∷ [];
          bitmap = c.bitmap ++ to_nat (present r) ∷ [];
          row = c.row + 1;
        },
        rw short,
        record {
          count = omega (arith, more, k.count);
          offsets_count = omega (arith, more, k.offsets_count, length-append c.offsets (end ∷ []));
          all_chars = chars;
          ends = ends;
          marked = snoc_byte [] c.bitmap rows r k.marked (ground (arith, k.count));
        },
      )
      | inr enough ↦
          let (after, ran, m) = snoc_bit [] c.bitmap rows r k.marked (ground (arith, k.count)) in
          (
            record {
              chars = c.chars ++ value_or [] r;
              offsets = c.offsets ++ end ∷ [];
              bitmap = after;
              row = c.row + 1;
            },
            rw enough (rw (k.count, ran, ◌>>=◌)),
            record {
              count = omega (arith, more, k.count);
              offsets_count =
                  omega (arith, more, k.offsets_count, length-append c.offsets (end ∷ []));
              all_chars = chars;
              ends = ends;
              marked = m;
            },
          )
    ]
  where
    ends_snoc :
        (end : ℕ)
        → c.chars ++ value_or [] r ≡ text (rows ++ r ∷ []) (length (rows ++ r ∷ []))
        → (i : ℕ) → i < length (rows ++ r ∷ [])
        → get_or (c.offsets ++ length (c.chars ++ value_or [] r) ∷ []) i 0
          ≡ length (text (rows ++ r ∷ []) (i + 1))
    ends_snoc end chars i l = elim (dec_lt i (length rows)) [
      | yes before ↦
          get_or-append_left c.offsets _ i 0 (omega (arith, k.offsets_count))
          ∙ k.ends i before
          ∙ ap length (sym (text-snoc_before rows r (i + 1) (omega arith)))
      | no last ↦
          let e : i ≡ length rows = omega (arith, length-append rows (r ∷ [])) in
          get_or-snoc c.offsets (length (c.chars ++ value_or [] r)) 0 i
          ∙ rw (let t : (i == length c.offsets) ≡ true = ground (arith, k.offsets_count, e) in t) (
              ap length chars
              ∙ ap (λ (j : ℕ). length (text (rows ++ r ∷ []) j))
                  (omega (arith, e, length-append rows (r ∷ []))))
    ]

pub empty_strings-Kept : Kept empty_strings []
unfolding text
empty_strings-Kept = record {
  count = refl;
  offsets_count = refl;
  all_chars = refl;
  ends = λ i l. absurd (omega arith);
  marked = record { width = refl; bits = λ i. bit-zero (i % 8); bytes = λ k. omega arith };
}

-- On a string column that keeps `rows`, a push of a string succeeds and keeps the string behind
-- them, and a push of a null keeps a null: the characters, the ends of the rows and the bitmap
-- are as they must be.
pub push_string-Kept :
    (c : StringColumn) (rows : List (Option String))
    → Kept c rows
    → ((v : String) → Returns (push_string c v) λ c'. Kept c' (rows ++ some v ∷ []))
      × (Returns (push_null_string c) λ c'. Kept c' (rows ++ none ∷ []))
unfolding push_string push_null_string
push_string-Kept c rows k = (
  λ v. string_bitmap_push_back-Kept c rows (some v) k,
  (let (c', ran, k') = string_bitmap_push_back-Kept c rows none k in
      (c', rw (append-nil c.chars) at ran, k')),
)

-- The characters are those before a row, those of the row, and the rest.
text_split :
    (rows : List (Option String)) (i : ℕ)
    → i < length rows
    → (rest : String) × (text rows (length rows)
        ≡ text rows i ++ (value_or [] (get_or rows i none) ++ rest))
      × (length (text rows (i + 1))
          ≡ length (text rows i) + length (value_or [] (get_or rows i none)))
unfolding text
text_split [] i h = absurd (omega arith)
text_split (r ∷ rows) zero h = (
  text rows (length rows),
  refl,
  ap (λ (j : ℕ). length (text (r ∷ rows) j)) (let e : 0 + 1 ≡ 1 = omega arith in e)
      ∙ omega (arith, length-append (value_or [] r) []),
)
text_split (r ∷ rows) (suc i) h =
    let (rest, all, here) = text_split rows i (omega arith) in
    (
      rest,
      ap (λ xs. value_or [] r ++ xs) all
          ∙ sym (
              append_assoc (value_or [] r) (text rows i)
                (value_or [] (get_or rows i none) ++ rest)),
      ap (λ (j : ℕ). length (text (r ∷ rows) j))
            (let e : suc i + 1 ≡ suc (i + 1) = omega arith in e)
          ∙ omega (
            arith,
            length-append (value_or [] r) (text rows (i + 1)),
            length-append (value_or [] r) (text rows i),
            here,
          ),
    )

module _ (c : StringColumn) (rows : List (Option String)) (k : Kept c rows) where
  begin_of-text : (i : ℕ) → i < length rows → begin_of c.offsets i ≡ some (length (text rows i))
  unfolding begin_of
  begin_of-text zero l = unfold text in refl
  begin_of-text (suc i) l =
      load-get_or c.offsets i 0 (omega (arith, k.offsets_count))
      ∙ ap some (
          k.ends i (omega arith)
          ∙ ap (λ (j : ℕ). length (text rows j)) (let e : i + 1 ≡ suc i = omega arith in e))

  -- A row of a string column reads back the string that was pushed for it, and the empty string
  -- for a null.
  pub get_string-value :
      (i : ℕ) → i < length rows → get_string c i ≡ some (value_or [] (get_or rows i none))
  unfolding get_string view
  get_string-value i l =
      let (rest, all, size) = text_split rows i l in
      let before = text rows i in
      let v = value_or [] (get_or rows i none) in
      let whole : c.chars ≡ before ++ (v ++ rest) = k.all_chars ∙ all in
      let end : load c.offsets i ≡ some (length before + length v) =
        load-get_or c.offsets i 0 (omega (arith, k.offsets_count)) ∙ ap some (k.ends i l ∙ size) in
      let inside : leb (length before) (length before + length v)
            && leb (length before + length v) (length (before ++ (v ++ rest)))
          ≡ true =
        ground (arith, length-append before (v ++ rest), length-append v rest) in
      rw (begin_of-text i l, ◌>>=◌)
        (rw (end, ◌>>=◌)
          (rw (whole, inside)
            (ap some (
              ap₂ take
                (let e : length before + length v - length before ≡ length v = omega arith in e)
                (drop-append before (v ++ rest))
              ∙ take-append v rest))))
