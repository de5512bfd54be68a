-- ===== src/Pages/Numbers/Inserted.antt =====
-- The loop of `to_columnar` over a column of numbers: its pages hold all rows in their order.
use optimized_hash_join_pipe.Base.{
  ℕ, zero, suc, ◌+◌, ◌*◌, ◌/◌, ◌%◌, ◌^◌, ◌<◌, ◌≤◌, ◌≡◌, refl, arith, ap, ◌∙◌, sym, subst, ◌==◌, ltb,
  if◌then◌else◌, Bool, true, false, Bool-cases, inl, inr, Option, none, some, List, [], ◌∷◌, ◌++◌,
  length, length-append, get_or, get_or-snoc, eq_nil_of_length,
}
use optimized_hash_join_pipe.Base.Partial.{Returns, ◌>>=◌}
use native.Mathlib.Nat.{one-le-pow}
use mathlib.Core.List.{append_assoc, append-nil}
use optimized_hash_join_pipe.Column.{Page, page_size}
use optimized_hash_join_pipe.Filter.Values.Stored.{empty_column-Stored, present}
use optimized_hash_join_pipe.Pages.Arrays.{AllBelow}
use optimized_hash_join_pipe.Pages.Marking.{mark_row-Marked}
use optimized_hash_join_pipe.Pages.Writer.{
  NumberWriter, mark_row, save_number_page, insert_number, insert_no_number, last_number_page,
}
use optimized_hash_join_pipe.Pages.Numbers.{values_of, HoldsNumbers, AllHold, join}
use optimized_hash_join_pipe.Pages.Numbers.Saved.{Pending, save_number_page-HoldsNumbers}

pub values_of-append {ℓ} :
    {A : Type ℓ} (xs ys : List (Option A)) → values_of (xs ++ ys) ≡ values_of xs ++ values_of ys
values_of-append [] ys = refl
values_of-append (none ∷ xs) ys = values_of-append xs ys
values_of-append (some v ∷ xs) ys = ap (λ t. v ∷ t) (values_of-append xs ys)

pub join-snoc {ℓ} :
    {A : Type ℓ} (xss : List (List A)) (xs : List A) → join (xss ++ xs ∷ []) ≡ join xss ++ xs
join-snoc [] xs = append-nil xs
join-snoc (ys ∷ xss) xs = ap (λ t. ys ++ t) (join-snoc xss xs) ∙ sym (append_assoc ys (join xss) xs)

pub AllHold-snoc :
    (width : ℕ) (pages : List Page) (chunks : List (List (Option ℕ))) (page : Page)
    (rows : List (Option ℕ))
    → AllHold width pages chunks
    → HoldsNumbers width page rows
    → AllHold width (pages ++ page ∷ []) (chunks ++ rows ∷ [])
AllHold-snoc width [] [] page rows a h = (h, tt)
AllHold-snoc width [] (c ∷ chunks) page rows a h = absurd a
AllHold-snoc width (q ∷ pages) [] page rows a h = absurd a
AllHold-snoc width (q ∷ pages) (c ∷ chunks) page rows a h =
    (a.0, AllHold-snoc width pages chunks page rows a.1 h)

-- The rows so far: those of the pages, and those since the last page.
pub record Stage (width : ℕ) (w : NumberWriter) (rows : List (Option ℕ)) : Type 0 where
  pub chunks : List (List (Option ℕ))
  pub pending : List (Option ℕ)
  pub split : rows ≡ join chunks ++ pending
  pub held : AllHold width w.pages chunks
  pub open_page : Pending width w pending

module _ (width : ℕ) (from_four : 4 ≤ width) (to_eight : width ≤ 8) (fresh : ℕ → Page)
    (sized : (k : ℕ) → length (fresh k) ≡ page_size) where
  -- A page is saved where the next row does not fit.
  make_room :
      (w : NumberWriter) (rows : List (Option ℕ)) (used more : ℕ)
      → Stage width w rows
      → more ≤ 8
      → used ≡ width + width * length w.values + more + (w.num_rows / 8 + 1)
      → Returns (if ltb page_size used then save_number_page fresh width w else some w) λ v.
        Stage width v rows
        × (width + width * length v.values + more + (v.num_rows / 8 + 1) ≤ page_size)
  make_room w rows used more s few same = elim (Bool-cases (ltb page_size used)) [
    | inl full ↦
        let (page, ran, holds) =
          save_number_page-HoldsNumbers width from_four fresh sized w s.pending s.open_page in
        (
          record { num_rows = 0; values = []; bitmap = []; pages = w.pages ++ page ∷ [] },
          rw full ran,
          (
            record {
              chunks = s.chunks ++ s.pending ∷ [];
              pending = [];
              split =
                  s.split
                  ∙ sym (join-snoc s.chunks s.pending)
                  ∙ sym (append-nil (join (s.chunks ++ s.pending ∷ [])));
              held = AllHold-snoc width w.pages s.chunks page s.pending s.held holds;
              open_page = empty_page (w.pages ++ page ∷ []);
            },
            let none : width * 0 ≡ 0 = omega arith in omega (arith, none),
          ),
        )
    | inr fits ↦ (w, rw fits refl, (s, ground arith))
  ]
    where
      empty_page :
          (pages : List Page)
          → Pending width (record { num_rows = 0; values = []; bitmap = []; pages = pages }) []
      empty_page pages = record {
        counted = refl;
        values = refl;
        marked = (empty_column-Stored {T = ℕ} 0).marked;
        small = λ k. omega (arith, one-le-pow width 256 (omega arith));
        room = let none : width * 0 ≡ 0 = omega arith in omega (arith, none);
      }

  -- The row that is added, and its value, if it has one.
  abbrev bytes_of : Option ℕ → ℕ
  bytes_of none = 0
  bytes_of (some v) = width

  add_row :
      (v : NumberWriter) (rows : List (Option ℕ)) (r : Option ℕ) (b : Bool)
      → Stage width v rows
      → width + width * length v.values + bytes_of r + (v.num_rows / 8 + 1) ≤ page_size
      → AllBelow (256 ^ width) (values_of (r ∷ []))
      → b ≡ present r
      → Returns (mark_row v.bitmap v.num_rows b) λ bitmap.
        Stage width
          (record v {
            num_rows = (v.num_rows + 1) % 2 ^ 16;
            values = v.values ++ values_of (r ∷ []);
            bitmap = bitmap;
          })
          (rows ++ r ∷ [])
  add_row v rows r b s fits small e =
      let p = s.open_page in
      let (bitmap, ran, m) = mark_row-Marked 0 v.bitmap s.pending r b p.marked e in
      (
        bitmap,
        ap (λ (n : ℕ). mark_row v.bitmap n b) p.counted ∙ ran,
        record {
          chunks = s.chunks;
          pending = s.pending ++ r ∷ [];
          split = ap (λ t. t ++ r ∷ []) s.split ∙ append_assoc (join s.chunks) s.pending (r ∷ []);
          held = s.held;
          open_page = record {
            counted = omega (arith, p.counted, length-append s.pending (r ∷ []));
            values =
                ap (λ t. t ++ values_of (r ∷ [])) p.values
                ∙ sym (values_of-append s.pending (r ∷ []));
            marked = m;
            small = λ k.
                subst (λ (vs : List ℕ). get_or vs k 0 < 256 ^ width)
                  (sym (values_of-append s.pending (r ∷ [])))
                  (below (values_of s.pending) r p.small small k);
            room =
                subst
                  (λ (n : ℕ).
                    width + width * n + (length (s.pending ++ r ∷ []) + 7) / 8 ≤ page_size)
                  (sym (more_values s.pending r))
                  (grow r v.values v.num_rows (ap length p.values) p.counted fits);
          };
        },
      )
    where
      below :
          (vs : List ℕ) (r : Option ℕ)
          → AllBelow (256 ^ width) vs
          → AllBelow (256 ^ width) (values_of (r ∷ []))
          → AllBelow (256 ^ width) (vs ++ values_of (r ∷ []))
      below vs none a n k =
          subst (λ (us : List ℕ). get_or us k 0 < 256 ^ width) (sym (append-nil vs)) (a k)
      below vs (some x) a n k = ground (arith, get_or-snoc vs x 0 k, a k, n 0)

      count_of : Option ℕ → ℕ
      count_of none = 0
      count_of (some x) = 1

      more_values :
          (xs : List (Option ℕ)) (r : Option ℕ)
          → length (values_of (xs ++ r ∷ [])) ≡ length (values_of xs) + count_of r
      more_values xs none =
          ap length (values_of-append xs (none ∷ []))
          ∙ omega (arith, length-append (values_of xs) [])
      more_values xs (some x) =
          ap length (values_of-append xs (some x ∷ []))
          ∙ omega (arith, length-append (values_of xs) (x ∷ []))

      grow :
          (r : Option ℕ) (vs : List ℕ) (n : ℕ)
          → length vs ≡ length (values_of s.pending)
          → n ≡ length s.pending
          → width + width * length vs + bytes_of r + (n / 8 + 1) ≤ page_size
          → width
              + width * (length (values_of s.pending) + count_of r)
              + (length (s.pending ++ r ∷ []) + 7) / 8
            ≤ page_size
      grow none vs n e c l = rw (← e) (omega (arith, c, length-append s.pending (none ∷ [])))
      grow (some x) vs n e c l =
          let next : width * (length vs + 1) ≡ width * length vs + width = grind arith in
          rw (← e) (omega (arith, c, next, length-append s.pending (some x ∷ [])))

  pub insert_number-Stage :
      (w : NumberWriter) (rows : List (Option ℕ)) (x : ℕ)
      → Stage width w rows
      → x < 256 ^ width
      → Returns (insert_number fresh width w x) λ v. Stage width v (rows ++ some x ∷ [])
  unfolding insert_number
  insert_number-Stage w rows x s small =
      let (v, ran, (t, fits)) =
        make_room w rows (width + (length w.values + 1) * width + (w.num_rows / 8 + 1)) width s
          to_eight (grind arith) in
      let (bitmap, marks, u) = add_row v rows (some x) true t fits (λ k. below_one k) refl in
      (
        record v {
          num_rows = (v.num_rows + 1) % 2 ^ 16;
          values = v.values ++ x ∷ [];
          bitmap = bitmap;
        },
        rw (ran, ◌>>=◌) (rw (marks, ◌>>=◌) refl),
        u,
      )
    where
      below_one : (k : ℕ) → get_or (x ∷ []) k 0 < 256 ^ width
      below_one zero = small
      below_one (suc k) = omega (arith, one-le-pow width 256 (omega arith))

  pub insert_no_number-Stage :
      (w : NumberWriter) (rows : List (Option ℕ))
      → Stage width w rows
      → Returns (insert_no_number fresh width w) λ v. Stage width v (rows ++ none ∷ [])
  unfolding insert_no_number
  insert_no_number-Stage w rows s =
      let (v, ran, (t, fits)) =
        make_room w rows (width + length w.values * width + (w.num_rows / 8 + 1)) 0 s (omega arith)
          (grind arith) in
      let (bitmap, marks, u) =
        add_row v rows none false t fits (λ k. omega (arith, one-le-pow width 256 (omega arith)))
          refl in
      (
        record v { num_rows = (v.num_rows + 1) % 2 ^ 16; bitmap = bitmap },
        rw (ran, ◌>>=◌) (rw (marks, ◌>>=◌) refl),
        subst
            (λ (vs : List ℕ).
              Stage width
                (record v { num_rows = (v.num_rows + 1) % 2 ^ 16; values = vs; bitmap = bitmap })
                (rows ++ none ∷ []))
            (append-nil v.values) u,
      )

  -- The last page is saved if it has rows.
  pub last_number_page-AllHold :
      (w : NumberWriter) (rows : List (Option ℕ))
      → Stage width w rows
      → Returns (last_number_page fresh width w) λ pages.
        (chunks : List (List (Option ℕ))) × AllHold width pages chunks × (join chunks ≡ rows)
  unfolding last_number_page
  last_number_page-AllHold w rows s = elim (Bool-cases (w.num_rows == 0)) [
    | inl none_left ↦
        let nothing : s.pending ≡ [] =
          eq_nil_of_length s.pending (ground (arith, s.open_page.counted)) in
        (
          w.pages,
          rw none_left refl,
          (
            s.chunks,
            s.held,
            sym (s.split ∙ ap (λ t. join s.chunks ++ t) nothing ∙ append-nil (join s.chunks)),
          ),
        )
    | inr some_left ↦
        let (page, ran, holds) =
          save_number_page-HoldsNumbers width from_four fresh sized w s.pending s.open_page in
        (
          w.pages ++ page ∷ [],
          rw (some_left, ran, ◌>>=◌) refl,
          (
            s.chunks ++ s.pending ∷ [],
            AllHold-snoc width w.pages s.chunks page s.pending s.held holds,
            join-snoc s.chunks s.pending ∙ sym s.split,
          ),
        )
  ]
