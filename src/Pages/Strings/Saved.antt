-- ===== src/Pages/Strings/Saved.antt =====
-- `save_page` and `save_long_string` for a column of strings.
use optimized_hash_join_pipe.Base.{
  ℕ, zero, suc, ◌+◌, ◌-◌, ◌*◌, ◌/◌, ◌<◌, ◌≤◌, min, ◌≡◌, refl, arith, ap, ◌∙◌, sym, subst, inl, none,
  some, Option, List, [], ◌∷◌, ◌++◌, length, take, drop,
}
use mathlib.Core.List.{append_assoc, append-nil}
use optimized_hash_join_pipe.Base.Partial.{◌>>=◌}
use optimized_hash_join_pipe.Column.{Page, page_size}
use optimized_hash_join_pipe.Filter.Values.Stored.{Marked}
use optimized_hash_join_pipe.Pages.{le_bytes, le_values, write_bytes}
use optimized_hash_join_pipe.Pages.Layout.{At, write_bytes-Written, At-Written, length-le_values}
use optimized_hash_join_pipe.Pages.Scanner.{first_long_page, later_long_page}
use optimized_hash_join_pipe.Pages.Writer.{StringWriter, save_long_string, save_string_page}
use optimized_hash_join_pipe.Pages.Numbers.{values_of, join}
use optimized_hash_join_pipe.Pages.Strings.{ends_of, HoldsStrings, HoldsLong, LaterPages, LongPages}
use optimized_hash_join_pipe.Pages.Strings.Scanned.{length-ends_of}

-- What a writer holds of the rows since its last page of short strings.
pub record Pending (w : StringWriter) (rows : List (Option (List ℕ))) : Type 0 where
  pub counted : w.num_rows ≡ length rows
  pub chars : w.chars ≡ join (values_of rows)
  pub offsets : w.offsets ≡ ends_of 0 (values_of rows)
  pub marked : Marked [] w.bitmap rows
  pub room :
      4 + length (values_of rows) * 2 + length (join (values_of rows)) + (length rows + 7) / 8
      ≤ page_size

pub take-drop {ℓ} : {A : Type ℓ} (n : ℕ) (xs : List A) → take n xs ++ drop n xs ≡ xs
take-drop zero xs = refl
take-drop (suc n) [] = refl
take-drop (suc n) (x ∷ xs) = ap (λ t. x ∷ t) (take-drop n xs)

pub length-take {ℓ} : {A : Type ℓ} (n : ℕ) (xs : List A) → n ≤ length xs → length (take n xs) ≡ n
length-take zero xs h = refl
length-take (suc n) [] h = absurd (omega arith)
length-take (suc n) (x ∷ xs) h = ap suc (length-take n xs (omega arith))

length-drop {ℓ} : {A : Type ℓ} (n : ℕ) (xs : List A) → length (drop n xs) ≤ length xs - n
length-drop zero xs = omega arith
length-drop (suc n) [] = omega arith
length-drop (suc n) (x ∷ xs) = omega (arith, length-drop n xs)

-- Three steps, and what follows.
after :
    {A B : Type 0} (a : Option A) (f g : A → Option A) (c : A)
    → (a >>= λ x. f x >>= λ y. g y) ≡ some c
    → (k : A → Option B) → (a >>= λ x. f x >>= λ y. g y >>= λ z. k z) ≡ k c
after none f g c e k = cc
after (some x) f g c e k = last (f x) g c e k
  where
    last :
        {A B : Type 0} (b : Option A) (g : A → Option A) (c : A)
        → (b >>= λ y. g y) ≡ some c
        → (k : A → Option B) → (b >>= λ y. g y >>= λ z. k z) ≡ k c
    last none g c e k = cc
    last (some y) g c e k = rw (e, ◌>>=◌) refl

module _ (fresh : ℕ → Page) (sized : (k : ℕ) → length (fresh k) ≡ page_size) where
  pub save_string_page-HoldsStrings :
      (w : StringWriter) (rows : List (Option (List ℕ)))
      → Pending w rows
      → (page : Page) × (save_string_page fresh w
          ≡ some (record {
            num_rows = 0;
            chars = [];
            offsets = [];
            bitmap = [];
            pages = w.pages ++ page ∷ [];
          }))
        × HoldsStrings page rows
  unfolding save_string_page
  save_string_page-HoldsStrings w rows p =
      let vs = values_of rows in
      let start = fresh (length w.pages) in
      let whole = sized (length w.pages) in
      let size = length-le_values 2 w.offsets in
      let count : length w.offsets ≡ length vs = ap length p.offsets ∙ length-ends_of 0 vs in
      let chars : length w.chars ≡ length (join vs) = ap length p.chars in
      let marks : length w.bitmap ≡ (length rows + 7) / 8 = p.marked.width in
      let room = p.room in
      let (p1, r1, w1) = write_bytes-Written (le_bytes 2 w.num_rows) start 0 (omega arith) in
      let (p2, r2, w2) =
        write_bytes-Written (le_bytes 2 (length w.offsets)) p1 2 (omega (arith, w1.same)) in
      let (p3, r3, w3) =
        write_bytes-Written (le_values 2 w.offsets) p2 4 (omega (arith, w1.same, w2.same, size)) in
      let (p4, r4, w4) =
        write_bytes-Written w.chars p3 (4 + length w.offsets * 2)
          (omega (arith, w1.same, w2.same, w3.same)) in
      let (p5, r5, w5) =
        write_bytes-Written w.bitmap p4 (page_size - length w.bitmap)
          (omega (arith, w1.same, w2.same, w3.same, w4.same)) in
      -- What the last two writes leave.
      let keep : (q : ℕ) (cs : List ℕ)
          → At p3 q cs
          → q + length cs ≤ 4 + length w.offsets * 2
          → At p5 q cs =
        λ q cs a l.
          At-Written p4 p5 (page_size - length w.bitmap) q w.bitmap cs w5
            (At-Written p3 p4 (4 + length w.offsets * 2) q w.chars cs w4 a (inl l))
            (inl (omega arith)) in
      let rows_at : At p5 0 (le_bytes 2 w.num_rows) =
        keep 0 (le_bytes 2 w.num_rows)
          (At-Written p2 p3 4 0 (le_values 2 w.offsets) (le_bytes 2 w.num_rows) w3
            (At-Written p1 p2 2 0 (le_bytes 2 (length w.offsets)) (le_bytes 2 w.num_rows) w2 w1.at
              (inl (omega arith)))
            (inl (omega arith)))
          (omega arith) in
      let count_at : At p5 2 (le_bytes 2 (length w.offsets)) =
        keep 2 (le_bytes 2 (length w.offsets))
          (At-Written p2 p3 4 2 (le_values 2 w.offsets) (le_bytes 2 (length w.offsets)) w3 w2.at
            (inl (omega arith)))
          (omega arith) in
      let ends_at : At p5 4 (le_values 2 w.offsets) =
        keep 4 (le_values 2 w.offsets) w3.at (omega (arith, size)) in
      let chars_at : At p5 (4 + length w.offsets * 2) w.chars =
        At-Written p4 p5 (page_size - length w.bitmap) (4 + length w.offsets * 2) w.bitmap w.chars
          w5 w4.at (inl (omega arith)) in
      (
        p5,
        rw (r1, ◌>>=◌) (rw (r2, ◌>>=◌) (rw (r3, ◌>>=◌) (rw (r4, ◌>>=◌) (rw (r5, ◌>>=◌) refl)))),
        record {
          whole = omega (arith, w1.same, w2.same, w3.same, w4.same, w5.same);
          few = omega (arith, marks);
          rows_at = subst (λ (n : ℕ). At p5 0 (le_bytes 2 n)) p.counted rows_at;
          count_at = subst (λ (n : ℕ). At p5 2 (le_bytes 2 n)) count count_at;
          ends_at = subst (λ (os : List ℕ). At p5 4 (le_values 2 os)) p.offsets ends_at;
          chars_at =
              subst (λ (n : ℕ). At p5 (4 + n * 2) (join vs)) count
                (subst (λ (cs : List ℕ). At p5 (4 + length w.offsets * 2) cs) p.chars chars_at);
          bitmap = w.bitmap;
          marked = p.marked;
          bitmap_at = subst (λ (n : ℕ). At p5 (page_size - n) w.bitmap) marks w5.at;
        },
      )

  -- A page of a long string.
  long_page :
      (k mark : ℕ) (left : List ℕ)
      → (page : Page) × ((write_bytes (fresh k) 0 (le_bytes 2 mark) >>= λ marked.
            write_bytes marked 2 (le_bytes 2 (min (length left) (page_size - 4))) >>= λ sized.
            write_bytes sized 4 (take (min (length left) (page_size - 4)) left))
          ≡ some page)
        × HoldsLong mark page (take (min (length left) (page_size - 4)) left)
  long_page k mark left =
      let n = min (length left) (page_size - 4) in
      let chunk = take n left in
      let size : length chunk ≡ n = length-take n left (omega arith) in
      let whole = sized k in
      let (p1, r1, w1) = write_bytes-Written (le_bytes 2 mark) (fresh k) 0 (omega arith) in
      let (p2, r2, w2) = write_bytes-Written (le_bytes 2 n) p1 2 (omega (arith, w1.same)) in
      let (p3, r3, w3) = write_bytes-Written chunk p2 4 (omega (arith, w1.same, w2.same, size)) in
      (
        p3,
        rw (r1, ◌>>=◌) (rw (r2, ◌>>=◌) r3),
        record {
          whole = omega (arith, w1.same, w2.same, w3.same);
          mark_at =
              At-Written p2 p3 4 0 chunk (le_bytes 2 mark) w3
                (At-Written p1 p2 2 0 (le_bytes 2 n) (le_bytes 2 mark) w2 w1.at (inl (omega arith)))
                (inl (omega arith));
          size_at =
              subst (λ (m : ℕ). At p3 2 (le_bytes 2 m)) (sym size)
                (At-Written p2 p3 4 2 chunk (le_bytes 2 n) w3 w2.at (inl (omega arith)));
          chars_at = w3.at;
        },
      )

  -- The loop ends within as many rounds as the text has characters.
  save_long_string-LaterPages :
      (rounds : ℕ) (left : List ℕ) (pages : List Page)
      → length left ≤ rounds
      → (more : List Page) × (save_long_string fresh pages later_long_page left rounds
          ≡ some (pages ++ more))
        × LaterPages left more
  unfolding save_long_string
  save_long_string-LaterPages rounds [] pages h = ([], ap some (sym (append-nil pages)), refl)
  save_long_string-LaterPages zero (c ∷ cs) pages h = absurd (omega arith)
  save_long_string-LaterPages (suc rounds) (c ∷ cs) pages h =
      let n = min (length (c ∷ cs)) (page_size - 4) in
      let (page, ran, holds) = long_page (length pages) later_long_page (c ∷ cs) in
      let (more, rest, later) =
        save_long_string-LaterPages rounds (drop n (c ∷ cs)) (pages ++ page ∷ [])
          (omega (arith, length-drop n (c ∷ cs))) in
      (
        page ∷ more,
        after (write_bytes (fresh (length pages)) 0 (le_bytes 2 later_long_page))
              (λ x. write_bytes x 2 (le_bytes 2 n)) (λ x. write_bytes x 4 (take n (c ∷ cs))) page
              ran
              (λ x.
                save_long_string fresh (pages ++ x ∷ []) later_long_page (drop n (c ∷ cs)) rounds)
            ∙ rest
            ∙ ap some (append_assoc pages (page ∷ []) more),
        (take n (c ∷ cs), drop n (c ∷ cs), sym (take-drop n (c ∷ cs)), holds, later),
      )

  pub save_long_string-LongPages :
      (rounds : ℕ) (left : List ℕ) (pages : List Page)
      → length left ≤ rounds
      → 0 < length left
      → (more : List Page) × (save_long_string fresh pages first_long_page left rounds
          ≡ some (pages ++ more))
        × LongPages left more
  unfolding save_long_string
  save_long_string-LongPages rounds [] pages h pos = absurd (omega arith)
  save_long_string-LongPages zero (c ∷ cs) pages h pos = absurd (omega arith)
  save_long_string-LongPages (suc rounds) (c ∷ cs) pages h pos =
      let n = min (length (c ∷ cs)) (page_size - 4) in
      let (page, ran, holds) = long_page (length pages) first_long_page (c ∷ cs) in
      let (more, rest, later) =
        save_long_string-LaterPages rounds (drop n (c ∷ cs)) (pages ++ page ∷ [])
          (omega (arith, length-drop n (c ∷ cs))) in
      (
        page ∷ more,
        after (write_bytes (fresh (length pages)) 0 (le_bytes 2 first_long_page))
              (λ x. write_bytes x 2 (le_bytes 2 n)) (λ x. write_bytes x 4 (take n (c ∷ cs))) page
              ran
              (λ x.
                save_long_string fresh (pages ++ x ∷ []) later_long_page (drop n (c ∷ cs)) rounds)
            ∙ rest
            ∙ ap some (append_assoc pages (page ∷ []) more),
        (take n (c ∷ cs), drop n (c ∷ cs), sym (take-drop n (c ∷ cs)), holds, later),
      )
