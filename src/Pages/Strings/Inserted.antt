-- ===== src/Pages/Strings/Inserted.antt =====
-- The loop of `to_columnar` over a column of strings: its pages hold all rows in their order.
use mathlib.Core.List.{append_assoc, append-nil}
use optimized_hash_join_pipe.Base.{
  ℕ, ◌+◌, ◌-◌, ◌*◌, ◌/◌, ◌%◌, ◌^◌, ◌≤◌, ◌≡◌, refl, arith, ap, ap₂, ◌∙◌, sym, subst, ◌==◌, ltb,
  if◌then◌else◌, Bool, true, false, Bool-cases, inl, inr, Option, none, some, List, [], ◌∷◌, ◌++◌,
  length, length-append, eq_nil_of_length,
}
use optimized_hash_join_pipe.Base.Partial.{Returns, ◌>>=◌}
use optimized_hash_join_pipe.Column.{Page, page_size}
use optimized_hash_join_pipe.Filter.Values.Stored.{present}
use optimized_hash_join_pipe.Pages.Marking.{mark_row-Marked}
use optimized_hash_join_pipe.Pages.Writer.{
  StringWriter, mark_row, save_string_page, insert_text, insert_no_text, last_string_page,
}
use optimized_hash_join_pipe.Pages.Numbers.{values_of, join}
use optimized_hash_join_pipe.Pages.Strings.{Part, short_rows, long_text, parts_rows, PartsHold}
use optimized_hash_join_pipe.Pages.Strings.Scanned.{length-ends_of}
use optimized_hash_join_pipe.Pages.Strings.Saved.{
  Pending, save_string_page-HoldsStrings, save_long_string-LongPages,
}
use optimized_hash_join_pipe.Pages.Strings.Stages.{
  Rows, Stage, empty_page, parts-snoc, PartsHold-snoc, text_or, end_size, new_ends, join-row,
  ends-row, count-row,
}

module _ (fresh : ℕ → Page) (sized : (k : ℕ) → length (fresh k) ≡ page_size) where
  -- A saved page.
  saved :
      (w : StringWriter) (rows : List (Option (List ℕ)))
      → Stage w rows
      → Returns
          (save_string_page fresh w)
          λ v. Stage v rows × (v.num_rows ≡ 0) × (v.chars ≡ []) × (v.offsets ≡ [])
  saved w rows s =
      let (page, ran, holds) = save_string_page-HoldsStrings fresh sized w s.pending s.open_page in
      (
        record {
          num_rows = 0;
          chars = [];
          offsets = [];
          bitmap = [];
          pages = w.pages ++ page ∷ [];
        },
        ran,
        (
          record {
            parts = s.parts ++ short_rows s.pending ∷ [];
            pending = [];
            split =
                s.split
                ∙ sym (parts-snoc s.parts (short_rows s.pending))
                ∙ sym (append-nil (parts_rows (s.parts ++ short_rows s.pending ∷ [])));
            held =
                PartsHold-snoc s.parts (short_rows s.pending) w.pages (page ∷ []) s.held
                  (page, refl, holds);
            open_page = empty_page (w.pages ++ page ∷ []);
          },
          refl,
          refl,
          refl,
        ),
      )

  -- A page is saved where the next row does not fit.
  make_room :
      (w : StringWriter) (rows : Rows) (used more : ℕ)
      → Stage w rows
      → more ≤ page_size - 5
      → used ≡ 4 + length w.offsets * 2 + length w.chars + more + (w.num_rows / 8 + 1)
      → Returns (if ltb page_size used then save_string_page fresh w else some w) λ v.
        Stage v rows
        × (4 + length v.offsets * 2 + length v.chars + more + (v.num_rows / 8 + 1) ≤ page_size)
  make_room w rows used more s few same = elim (Bool-cases (ltb page_size used)) [
    | inl full ↦
        let (v, ran, (t, n, c, o)) = saved w rows s in
        (v, rw full ran, (t, omega (arith, n, ap length c, ap length o)))
    | inr fits ↦ (w, rw fits refl, (s, ground arith))
  ]

  add_row :
      (v : StringWriter) (rows : Rows) (r : Option (List ℕ)) (b : Bool)
      → Stage v rows
      → 4
          + length v.offsets * 2
          + length v.chars
          + (end_size r + length (text_or r))
          + (v.num_rows / 8 + 1)
        ≤ page_size
      → b ≡ present r
      → Returns (mark_row v.bitmap v.num_rows b) λ bitmap.
        Stage
          (record v {
            num_rows = (v.num_rows + 1) % 2 ^ 16;
            chars = v.chars ++ text_or r;
            offsets = v.offsets ++ new_ends (length v.chars) r;
            bitmap = bitmap;
          })
          (rows ++ r ∷ [])
  add_row v rows r b s fits e =
      let p = s.open_page in
      let (bitmap, ran, m) = mark_row-Marked [] v.bitmap s.pending r b p.marked e in
      let chars : length v.chars ≡ length (join (values_of s.pending)) = ap length p.chars in
      let ends : length v.offsets ≡ length (values_of s.pending) =
        ap length p.offsets ∙ length-ends_of 0 (values_of s.pending) in
      (
        bitmap,
        ap (λ (n : ℕ). mark_row v.bitmap n b) p.counted ∙ ran,
        record {
          parts = s.parts;
          pending = s.pending ++ r ∷ [];
          split =
              ap (λ t. t ++ r ∷ []) s.split ∙ append_assoc (parts_rows s.parts) s.pending (r ∷ []);
          held = s.held;
          open_page = record {
            counted = omega (arith, p.counted, length-append s.pending (r ∷ []));
            chars = ap (λ t. t ++ text_or r) p.chars ∙ sym (join-row s.pending r);
            offsets =
                ap₂ ◌++◌ p.offsets (ap (λ (n : ℕ). new_ends n r) chars)
                ∙ sym (ends-row s.pending r);
            marked = m;
            room = omega (
              arith,
              p.counted,
              chars,
              ends,
              count-row s.pending r,
              ap length (join-row s.pending r),
              length-append (join (values_of s.pending)) (text_or r),
              length-append s.pending (r ∷ []),
            );
          };
        },
      )

  pub insert_no_text-Stage :
      (w : StringWriter) (rows : List (Option (List ℕ)))
      → Stage w rows
      → Returns (insert_no_text fresh w) λ v. Stage v (rows ++ none ∷ [])
  unfolding insert_no_text
  insert_no_text-Stage w rows s =
      let (v, ran, (t, fits)) =
        make_room w rows (4 + length w.offsets * 2 + length w.chars + (w.num_rows / 8 + 1)) 0 s
          (omega arith) (omega arith) in
      let (bitmap, marks, u) = add_row v rows none false t (omega (arith, fits)) refl in
      (
        record v { num_rows = (v.num_rows + 1) % 2 ^ 16; bitmap = bitmap },
        rw (ran, ◌>>=◌) (rw (marks, ◌>>=◌) refl),
        subst
            (λ (x : List ℕ × List ℕ).
              Stage
                (record v {
                  num_rows = (v.num_rows + 1) % 2 ^ 16;
                  chars = x.0;
                  offsets = x.1;
                  bitmap = bitmap;
                })
                (rows ++ none ∷ []))
            (ap₂ (λ (x y : List ℕ). let q : List ℕ × List ℕ = (x, y) in q) (append-nil v.chars)
              (append-nil v.offsets))
            u,
      )

  short_text-Stage :
      (w : StringWriter) (rows : Rows) (value : List ℕ)
      → Stage w rows
      → ltb (page_size - 7) (length value) ≡ false
      → Returns (insert_text fresh w value) λ v. Stage v (rows ++ some value ∷ [])
  unfolding insert_text
  short_text-Stage w rows value s short =
      let (v, ran, (t, fits)) =
        make_room w rows
          (4 + (length w.offsets + 1) * 2 + (length w.chars + length value) + (w.num_rows / 8 + 1))
          (2 + length value) s (ground arith) (omega arith) in
      let (bitmap, marks, u) = add_row v rows (some value) true t (omega (arith, fits)) refl in
      let end : length (v.chars ++ value) % 2 ^ 16 ≡ length v.chars + length value =
        omega (arith, length-append v.chars value, fits) in
      (
        record v {
          num_rows = (v.num_rows + 1) % 2 ^ 16;
          chars = v.chars ++ value;
          offsets = v.offsets ++ (length v.chars + length value) ∷ [];
          bitmap = bitmap;
        },
        rw short (
            rw (ran, ◌>>=◌)
              (rw (marks, ◌>>=◌)
                (ap
                  (λ (n : ℕ). some (record v {
                    num_rows = (v.num_rows + 1) % 2 ^ 16;
                    chars = v.chars ++ value;
                    offsets = v.offsets ++ n ∷ [];
                    bitmap = bitmap;
                  }))
                  end))),
        u,
      )

  -- Before a long string the page that has been begun is saved.
  long_text-Stage :
      (w : StringWriter) (rows : Rows) (value : List ℕ)
      → Stage w rows
      → ltb (page_size - 7) (length value) ≡ true
      → Returns (insert_text fresh w value) λ v. Stage v (rows ++ some value ∷ [])
  unfolding insert_text
  long_text-Stage w rows value s long =
      let (v, ran, (t, nothing)) = flushed in
      let (more, saves, pages) =
        save_long_string-LongPages fresh sized (length value) value v.pages (omega arith)
          (ground arith) in
      (
        record v { pages = v.pages ++ more },
        rw long (rw (ran, ◌>>=◌) (rw (saves, ◌>>=◌) refl)),
        record {
          parts = t.parts ++ long_text value ∷ [];
          pending = [];
          split =
              ap (λ x. x ++ some value ∷ [])
                (t.split
                  ∙ ap (λ x. parts_rows t.parts ++ x) (none_pending v t nothing)
                  ∙ append-nil (parts_rows t.parts))
              ∙ sym (parts-snoc t.parts (long_text value))
              ∙ sym (append-nil (parts_rows (t.parts ++ long_text value ∷ [])));
          held = PartsHold-snoc t.parts (long_text value) v.pages more t.held pages;
          open_page = same_pending v t (none_pending v t nothing) (v.pages ++ more);
        },
      )
    where
      flushed :
          Returns
            (if ltb 0 w.num_rows then save_string_page fresh w else some w)
            λ v. Stage v rows × (v.num_rows ≡ 0)
      flushed = elim (Bool-cases (ltb 0 w.num_rows)) [
        | inl some_left ↦
            let (v, ran, (t, n, c, o)) = saved w rows s in (v, rw some_left ran, (t, n))
        | inr none_left ↦ (w, rw none_left refl, (s, ground arith))
      ]

      none_pending : (v : StringWriter) (t : Stage v rows) → v.num_rows ≡ 0 → t.pending ≡ []
      none_pending v t n = eq_nil_of_length t.pending (omega (arith, t.open_page.counted))

      same_pending :
          (v : StringWriter) (t : Stage v rows)
          → t.pending ≡ []
          → (pages : List Page) → Pending (record v { pages = pages }) []
      same_pending v t e pages = moved (subst (Pending v) e t.open_page)
        where
          moved : Pending v [] → Pending (record v { pages = pages }) []
          moved p = record {
            counted = p.counted;
            chars = p.chars;
            offsets = p.offsets;
            marked = p.marked;
            room = p.room;
          }

  pub insert_text-Stage :
      (w : StringWriter) (rows : List (Option (List ℕ))) (value : List ℕ)
      → Stage w rows
      → Returns (insert_text fresh w value) λ v. Stage v (rows ++ some value ∷ [])
  insert_text-Stage w rows value s = elim (Bool-cases (ltb (page_size - 7) (length value))) [
    | inl long ↦ long_text-Stage w rows value s long
    | inr short ↦ short_text-Stage w rows value s short
  ]

  pub last_string_page-PartsHold :
      (w : StringWriter) (rows : List (Option (List ℕ)))
      → Stage w rows
      → Returns
          (last_string_page fresh w)
          λ pages. (parts : List Part) × PartsHold pages parts × (parts_rows parts ≡ rows)
  unfolding last_string_page
  last_string_page-PartsHold w rows s = elim (Bool-cases (w.num_rows == 0)) [
    | inl none_left ↦
        let nothing : s.pending ≡ [] =
          eq_nil_of_length s.pending (ground (arith, s.open_page.counted)) in
        (
          w.pages,
          rw none_left refl,
          (
            s.parts,
            s.held,
            sym (
                s.split
                ∙ ap (λ t. parts_rows s.parts ++ t) nothing
                ∙ append-nil (parts_rows s.parts)),
          ),
        )
    | inr some_left ↦
        let (page, ran, holds) =
          save_string_page-HoldsStrings fresh sized w s.pending s.open_page in
        (
          w.pages ++ page ∷ [],
          rw (some_left, ran, ◌>>=◌) refl,
          (
            s.parts ++ short_rows s.pending ∷ [],
            PartsHold-snoc s.parts (short_rows s.pending) w.pages (page ∷ []) s.held
                (page, refl, holds),
            parts-snoc s.parts (short_rows s.pending) ∙ sym s.split,
          ),
        )
  ]
