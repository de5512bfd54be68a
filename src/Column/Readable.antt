-- ===== src/Column/Readable.antt =====
-- What it means that a column holds values: in its buffers, or in pages of integers without nulls.
use native.Mathlib.Nat.{div-eq_of_lt, mod-eq_of_lt, div-eq-sub-div, mod-eq-sub-mod}
use optimized_hash_join_pipe.Base.{
  ℕ, zero, suc, ◌+◌, ◌-◌, ◌*◌, ◌/◌, ◌%◌, ◌<◌, ◌≤◌, ◌≡◌, ◌⊎◌, refl, arith, ap, ◌∙◌, sym, ◌==◌,
  if◌then◌else◌, inl, inr, false, some, none, List, [], ◌∷◌, map, length, length-append, get_or,
  get_or-append_left, dec_lt,
}
use optimized_hash_join_pipe.Base.Partial.{◌>>=◌, load}
use optimized_hash_join_pipe.Column.{Value, Page, ColumnT, read_i32, page_value, get_value}
use optimized_hash_join_pipe.Column.Packed.{Packed, buffer_value-Packed, get_or-behind}
use optimized_hash_join_pipe.Pages.Arrays.{read_i32-read_le, read_le-le_values}
use optimized_hash_join_pipe.Pages.Numbers.{values_of, HoldsNumbers, join}
use optimized_hash_join_pipe.Pages.Scans.{length-map}

-- A value that is not null.
abbrev pub int_value : ℕ → Value
int_value v = record { val = v; status = 1 }

-- Pages of `n` integers each, but for the last, which has no more.
abbrev pub Even {ℓ} : {A : Type ℓ} → ℕ → List (List A) → Type 0
Even n [] = Unit {0}
Even n (vs ∷ []) = length vs ≤ n
Even n (vs ∷ (ws ∷ chunks)) = (length vs ≡ n) × Even n (ws ∷ chunks)

-- Each page holds its integers, and no null.
abbrev pub AllInts : List Page → List (List ℕ) → Type 0
AllInts [] [] = Unit {0}
AllInts [] (vs ∷ chunks) = ⊥
AllInts (page ∷ pages) [] = ⊥
AllInts (page ∷ pages) (vs ∷ chunks) = HoldsNumbers 4 page (map some vs) × AllInts pages chunks

-- `page_rowids`: where each page begins, and the end.
abbrev pub starts_of {ℓ} : {A : Type ℓ} → ℕ → List (List A) → List ℕ
starts_of start [] = start ∷ []
starts_of start (vs ∷ chunks) = start ∷ starts_of (start + length vs) chunks

pub record InPages (c : ColumnT) (vs : List Value) : Type 0 where
  pub pages : List Page
  pub chunks : List (List ℕ)
  pub original : c.original_col ≡ some pages
  pub held : AllInts pages chunks
  pub even : Even c.rows_per_page chunks
  pub some_rows : 0 < c.rows_per_page
  pub rowids : c.page_rowids ≡ starts_of 0 chunks
  pub values : vs ≡ map int_value (join chunks)

pub record InBuffers (c : ColumnT) (vs : List Value) : Type 0 where
  pub original : c.original_col ≡ none
  pub packed : Packed c.buffers vs

pub record Readable (c : ColumnT) (vs : List Value) : Type 0 where
  pub count : c.num_rows ≡ length vs
  pub place : InBuffers c vs ⊎ InPages c vs

pub values_of-map-some {ℓ} : {A : Type ℓ} (vs : List A) → values_of (map some vs) ≡ vs
values_of-map-some [] = refl
values_of-map-some (v ∷ vs) = ap (λ t. v ∷ t) (values_of-map-some vs)

-- An integer of a page.
pub read_i32-HoldsNumbers :
    (page : Page) (vs : List ℕ) (i : ℕ)
    → HoldsNumbers 4 page (map some vs)
    → i < length vs
    → read_i32 page (4 + 4 * i) ≡ some (get_or vs i 0)
read_i32-HoldsNumbers page vs i h l =
    let same = values_of-map-some vs in
    read_i32-read_le page (4 + 4 * i)
    ∙ read_le-le_values 4 (values_of (map some vs)) page 4 i h.small h.values_at
        (omega (arith, ap length same))
    ∙ ap (λ (x : List ℕ). some (get_or x i 0)) same

get_or-map_int :
    (vs : List ℕ) (i : ℕ) (d : Value)
    → i < length vs
    → get_or (map int_value vs) i d ≡ int_value (get_or vs i 0)
get_or-map_int [] i d l = absurd (omega arith)
get_or-map_int (v ∷ vs) zero d l = refl
get_or-map_int (v ∷ vs) (suc i) d l = get_or-map_int vs i d (omega arith)

page_value-AllInts :
    (n : ℕ)
    → 0 < n
    → (pages : List Page) (chunks : List (List ℕ)) (i : ℕ) → AllInts pages chunks
    → Even n chunks
    → i < length (join chunks)
    → page_value pages n i ≡ some (int_value (get_or (join chunks) i 0))
unfolding page_value load
page_value-AllInts n pos [] [] i a e l = absurd (omega arith)
page_value-AllInts n pos [] (vs ∷ chunks) i a e l = absurd a
page_value-AllInts n pos (page ∷ pages) [] i a e l = absurd a
page_value-AllInts n pos (page ∷ []) (vs ∷ []) i a e l =
    let size = length-append vs [] in
    let some_n : (n == 0) ≡ false = ground arith in
    let first : i / n ≡ 0 = div-eq_of_lt (omega arith) in
    let within : i % n ≡ i = mod-eq_of_lt (omega arith) in
    rw some_n (
      rw (first, within)
        (rw (read_i32-HoldsNumbers page vs i a.0 (omega arith), ◌>>=◌)
          (ap (λ (v : ℕ). some (int_value v)) (sym (get_or-append_left vs [] i 0 (omega arith))))))
page_value-AllInts n pos (page ∷ (q ∷ pages)) (vs ∷ []) i a e l = absurd a.1
page_value-AllInts n pos (page ∷ []) (vs ∷ (ws ∷ chunks)) i a e l = absurd a.1
page_value-AllInts n pos (page ∷ (q ∷ pages)) (vs ∷ (ws ∷ chunks)) i a e l = elim (dec_lt i n) [
  | yes here ↦
      let some_n : (n == 0) ≡ false = ground arith in
      let first : i / n ≡ 0 = div-eq_of_lt here in
      let within : i % n ≡ i = mod-eq_of_lt here in
      rw some_n (
        rw (first, within)
          (rw (read_i32-HoldsNumbers page vs i a.0 (omega (arith, e.0)), ◌>>=◌)
            (ap (λ (v : ℕ). some (int_value v))
              (sym (get_or-append_left vs (join (ws ∷ chunks)) i 0 (omega (arith, e.0)))))))
  | no later ↦
      let some_n : (n == 0) ≡ false = ground arith in
      let next : i / n ≡ suc ((i - n) / n) =
        omega (arith, div-eq-sub-div {m = n} {n = i} pos (omega (arith, later))) in
      let same : i % n ≡ (i - n) % n = mod-eq-sub-mod (omega (arith, later)) in
      let rest : (if n == 0
            then none
            else (load (q ∷ pages) ((i - n) / n) >>= λ p.
                read_i32 p (4 + 4 * ((i - n) % n)) >>= λ v. some (int_value v)))
          ≡ some (int_value (get_or (join (ws ∷ chunks)) (i - n) 0)) =
        page_value-AllInts n pos (q ∷ pages) (ws ∷ chunks) (i - n) a.1 e.1
          (omega (arith, later, e.0, length-append vs (join (ws ∷ chunks)))) in
      rw some_n (
        rw (next, same)
          ((rw some_n at rest)
            ∙ ap (λ (v : ℕ). some (int_value v))
                (ap (λ (k : ℕ). get_or (join (ws ∷ chunks)) (i - k) 0) (sym e.0)
                  ∙ sym (get_or-behind vs (join (ws ∷ chunks)) i 0 (omega (arith, later, e.0))))))
]

-- `get_value` finds every value.
pub get_value-Readable :
    (c : ColumnT) (vs : List Value) (d : Value) (i : ℕ)
    → Readable c vs
    → i < length vs
    → get_value c i ≡ some (get_or vs i d)
unfolding get_value
get_value-Readable c vs d i r l = elim r.place [
  | inl b ↦ rw b.original (buffer_value-Packed c.buffers vs d i b.packed l)
  | inr p ↦
      let size : length vs ≡ length (join p.chunks) =
        ap length p.values ∙ length-map int_value (join p.chunks) in
      rw p.original (
        page_value-AllInts c.rows_per_page p.some_rows p.pages p.chunks i p.held p.even
          (omega arith)
        ∙ ap some (
            sym (get_or-map_int (join p.chunks) i d (omega arith))
            ∙ ap (λ (x : List Value). get_or x i d) (sym p.values)))
]
