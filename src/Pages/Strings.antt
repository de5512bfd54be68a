-- ===== src/Pages/Strings.antt =====
-- Pages of strings, by the rows that they hold: a page of short strings and nulls, or the pages of
-- one long string.
pub mod Scanned
pub mod Long
pub mod Saved
pub mod Stages
pub mod Inserted
pub mod Columns
use optimized_hash_join_pipe.Base.{
  ℕ, zero, suc, ◌+◌, ◌-◌, ◌*◌, ◌/◌, ◌^◌, ◌<◌, ◌≤◌, ◌≡◌, refl, ap, ◌∙◌, sym, subst, Option, none,
  some, List, [], ◌∷◌, ◌++◌, length,
}
use mathlib.Core.List.{append_assoc}
use optimized_hash_join_pipe.Column.{Page, page_size}
use optimized_hash_join_pipe.Filter.Values.Stored.{Marked}
use optimized_hash_join_pipe.Pages.{le_bytes, le_values}
use optimized_hash_join_pipe.Pages.Layout.{At}
use optimized_hash_join_pipe.Pages.Scanner.{first_long_page, later_long_page}
use optimized_hash_join_pipe.Pages.Numbers.{values_of, join}

-- Where each text ends, if the first begins at `start`.
abbrev pub ends_of : ℕ → List (List ℕ) → List ℕ
ends_of start [] = []
ends_of start (v ∷ vs) = (start + length v) ∷ ends_of (start + length v) vs

pub record HoldsStrings (page : Page) (rows : List (Option (List ℕ))) : Type 0 where
  pub whole : length page ≡ page_size
  pub few : length rows < later_long_page
  pub rows_at : At page 0 (le_bytes 2 (length rows))
  pub count_at : At page 2 (le_bytes 2 (length (values_of rows)))
  pub ends_at : At page 4 (le_values 2 (ends_of 0 (values_of rows)))
  pub chars_at : At page (4 + length (values_of rows) * 2) (join (values_of rows))
  pub bitmap : List ℕ
  pub marked : Marked [] bitmap rows
  pub bitmap_at : At page (page_size - (length rows + 7) / 8) bitmap

-- A page with a part of a long string.
pub record HoldsLong (mark : ℕ) (page : Page) (chunk : List ℕ) : Type 0 where
  pub whole : length page ≡ page_size
  pub mark_at : At page 0 (le_bytes 2 mark)
  pub size_at : At page 2 (le_bytes 2 (length chunk))
  pub chars_at : At page 4 chunk

-- The pages with the rest of a long string.
abbrev pub LaterPages : List ℕ → List Page → Type 0
LaterPages left [] = left ≡ []
LaterPages left (page ∷ pages) =
    (chunk : List ℕ) × (rest : List ℕ) × (left ≡ chunk ++ rest)
    × HoldsLong later_long_page page chunk
    × LaterPages rest pages

abbrev pub LongPages : List ℕ → List Page → Type 0
LongPages value [] = ⊥
LongPages value (page ∷ pages) =
    (chunk : List ℕ) × (rest : List ℕ) × (value ≡ chunk ++ rest)
    × HoldsLong first_long_page page chunk
    × LaterPages rest pages

pub data Part : Type 0 where
  short_rows : List (Option (List ℕ)) → Part
  long_text : List ℕ → Part

abbrev pub part_rows : Part → List (Option (List ℕ))
part_rows (short_rows rows) = rows
part_rows (long_text value) = some value ∷ []

abbrev pub parts_rows : List Part → List (Option (List ℕ))
parts_rows [] = []
parts_rows (part ∷ parts) = part_rows part ++ parts_rows parts

abbrev pub PartHolds : List Page → Part → Type 0
PartHolds pages (short_rows rows) = (page : Page) × (pages ≡ page ∷ []) × HoldsStrings page rows
PartHolds pages (long_text value) = LongPages value pages

abbrev pub PartsHold : List Page → List Part → Type 0
PartsHold pages [] = pages ≡ []
PartsHold pages (part ∷ parts) =
    (first : List Page) × (rest : List Page) × (pages ≡ first ++ rest)
    × PartHolds first part
    × PartsHold rest parts

pub PartsHold-append :
    (parts more : List Part) (ps qs : List Page)
    → PartsHold ps parts
    → PartsHold qs more
    → PartsHold (ps ++ qs) (parts ++ more)
PartsHold-append [] more ps qs h k = subst (λ (x : List Page). PartsHold (x ++ qs) more) (sym h) k
PartsHold-append (part ∷ parts) more ps qs (first, rest, e, p, h) k = (
  first,
  rest ++ qs,
  ap (λ x. x ++ qs) e ∙ append_assoc first rest qs,
  p,
  PartsHold-append parts more rest qs h k,
)

pub parts_rows-append :
    (parts more : List Part) → parts_rows (parts ++ more) ≡ parts_rows parts ++ parts_rows more
parts_rows-append [] more = refl
parts_rows-append (part ∷ parts) more =
    ap (λ x. part_rows part ++ x) (parts_rows-append parts more)
    ∙ sym (append_assoc (part_rows part) (parts_rows parts) (parts_rows more))
