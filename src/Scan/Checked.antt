-- ===== src/Scan/Checked.antt =====
-- The two loops over the headers of the pages of integers.
use optimized_hash_join_pipe.Base.{
  ℕ, ◌+◌, ◌<◌, ◌≤◌, ◌≡◌, ◌⊎◌, refl, arith, ap, ap₂, ◌∙◌, subst, ◌==◌, if◌then◌else◌, Bool-cases,
  ==_refl, inl, inr, true, false, some, none, Option, List, [], ◌∷◌, map, length, length-append,
}
use optimized_hash_join_pipe.Base.Partial.{Returns, ◌>>=◌}
use optimized_hash_join_pipe.Column.{Page, read_u16}
use optimized_hash_join_pipe.Column.Readable.{AllInts, starts_of, values_of-map-some}
use optimized_hash_join_pipe.Pages.Numbers.{values_of, HoldsNumbers, AllHold, join}
use optimized_hash_join_pipe.Pages.Numbers.Scanned.{read_u16-At}
use optimized_hash_join_pipe.Pages.Scans.{length-map}
use optimized_hash_join_pipe.Scan.{check_pages, count_rows}

-- Rows without a null.
length-values_of : {A : Type 0} (rows : List (Option A)) → length (values_of rows) ≤ length rows
length-values_of [] = omega arith
length-values_of (none ∷ rows) = omega (arith, length-values_of rows)
length-values_of (some v ∷ rows) = omega (arith, length-values_of rows)

all_some :
    {A : Type 0} (rows : List (Option A))
    → length (values_of rows) ≡ length rows
    → rows ≡ map some (values_of rows)
all_some [] e = refl
all_some (none ∷ rows) e = absurd (omega (arith, length-values_of rows))
all_some (some v ∷ rows) e = ap (λ t. some v ∷ t) (all_some rows (omega arith))

-- What the first loop finds out.
pub check_pages-cases :
    (pages : List Page) (chunks : List (List (Option ℕ))) (n : ℕ)
    → AllHold 4 pages chunks
    → Returns (check_pages pages n) (λ r. r.0 ≡ true)
      ⊎ ((ints : List (List ℕ)) × (chunks ≡ map (map some) ints) × AllInts pages ints)
unfolding check_pages
check_pages-cases [] [] n a = inr ([], refl, tt)
check_pages-cases [] (rows ∷ chunks) n a = absurd a
check_pages-cases (page ∷ pages) [] n a = absurd a
check_pages-cases (page ∷ pages) (rows ∷ chunks) n (h, a) =
    let rows_read = read_u16-At page 0 (length rows) h.few h.rows_at in
    let size = length-values_of rows in
    let values_read =
      read_u16-At page 2 (length (values_of rows)) (omega (arith, h.few)) h.count_at in
    let first = if n == 0 then length rows else n in
    elim (Bool-cases (length (values_of rows) == length rows)) [
      | inl full ↦
          let all = all_some rows (ground arith) in
          elim (check_pages-cases pages chunks first a) [
            | inl (r, run, nulls) ↦
                inl (r, rw (rows_read, ◌>>=◌) (rw (values_read, ◌>>=◌) (rw full run)), nulls)
            | inr (ints, e, held) ↦
                inr
                  (values_of rows ∷ ints, ap₂ ◌∷◌ all e, (subst (HoldsNumbers 4 page) all h, held))
          ]
      | inr nulls ↦
          inl ((true, first), rw (rows_read, ◌>>=◌) (rw (values_read, ◌>>=◌) (rw nulls refl)), refl)
    ]

pub header-ints :
    (page : Page) (vs : List ℕ)
    → HoldsNumbers 4 page (map some vs)
    → (read_u16 page 0 ≡ some (length vs)) × (read_u16 page 2 ≡ some (length vs))
header-ints page vs h =
    let size = length-map some vs in
    let same = ap length (values_of-map-some vs) in
    (
      read_u16-At page 0 (length (map some vs)) h.few h.rows_at ∙ ap some size,
      read_u16-At page 2 (length (values_of (map some vs))) (omega (arith, h.few)) h.count_at
          ∙ ap some same,
    )

no_pages : (pages : List Page) → AllInts pages [] → pages ≡ []
no_pages [] a = refl
no_pages (page ∷ pages) a = absurd a

pub check_pages-none :
    (pages : List Page) → AllInts pages [] → check_pages pages 0 ≡ some (false, 0)
unfolding check_pages
check_pages-none [] a = refl
check_pages-none (page ∷ pages) a = absurd a

check_pages-ints :
    (pages : List Page) (chunks : List (List ℕ)) (n : ℕ)
    → AllInts pages chunks
    → 0 < n
    → check_pages pages n ≡ some (false, n)
unfolding check_pages
check_pages-ints [] chunks n a pos = refl
check_pages-ints (page ∷ pages) [] n a pos = absurd a
check_pages-ints (page ∷ pages) (vs ∷ chunks) n (h, a) pos =
    let (rows_read, values_read) = header-ints page vs h in
    let known : (n == 0) ≡ false = ground arith in
    rw (rows_read, ◌>>=◌)
      (rw (values_read, ◌>>=◌)
        (rw (known, ==_refl (length vs)) (check_pages-ints pages chunks n a pos)))

pub check_pages-first :
    (pages : List Page) (vs : List ℕ) (ints : List (List ℕ))
    → AllInts pages (vs ∷ ints)
    → (ints ≡ []) ⊎ (0 < length vs)
    → check_pages pages 0 ≡ some (false, length vs)
unfolding check_pages
check_pages-first [] vs ints a some_rows = absurd a
check_pages-first (page ∷ pages) vs ints (h, a) some_rows =
    let (rows_read, values_read) = header-ints page vs h in
    rw (rows_read, ◌>>=◌)
      (rw (values_read, ◌>>=◌)
        (rw (==_refl (length vs)) (elim some_rows [
          | inl last ↦ rw (no_pages pages (subst (AllInts pages) last a)) refl
          | inr pos ↦ check_pages-ints pages ints (length vs) a pos
        ])))

pub count_rows-ints :
    (pages : List Page) (chunks : List (List ℕ)) (start : ℕ)
    → AllInts pages chunks
    → Returns
        (count_rows pages start)
        λ r. (start ∷ r.0 ≡ starts_of start chunks) × (r.1 ≡ start + length (join chunks))
unfolding count_rows
count_rows-ints [] [] start a = (([], start), refl, (refl, omega arith))
count_rows-ints [] (vs ∷ chunks) start a = absurd a
count_rows-ints (page ∷ pages) [] start a = absurd a
count_rows-ints (page ∷ pages) (vs ∷ chunks) start (h, a) =
    let ((rowids, total), run, (starts, sum)) =
      count_rows-ints pages chunks (start + length vs) a in
    (
      ((start + length vs) ∷ rowids, total),
      rw ((header-ints page vs h).0, ◌>>=◌) (rw (run, ◌>>=◌) refl),
      (ap (λ t. start ∷ t) starts, omega (arith, length-append vs (join chunks))),
    )
