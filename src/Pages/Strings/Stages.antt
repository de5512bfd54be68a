-- ===== src/Pages/Strings/Stages.antt =====
-- The state of the loop of `to_columnar` over strings, between rows.
use mathlib.Core.List.{append_assoc, append-nil}
use optimized_hash_join_pipe.Base.{
  ℕ, ◌+◌, ◌*◌, ◌≡◌, refl, arith, ap, ◌∙◌, sym, Option, none, some, List, [], ◌∷◌, ◌++◌, length,
  length-append,
}
use optimized_hash_join_pipe.Column.{Page}
use optimized_hash_join_pipe.Filter.Values.Stored.{empty_column-Stored}
use optimized_hash_join_pipe.Pages.Writer.{StringWriter}
use optimized_hash_join_pipe.Pages.Numbers.{values_of, join}
use optimized_hash_join_pipe.Pages.Numbers.Inserted.{values_of-append}
use optimized_hash_join_pipe.Pages.Strings.{
  ends_of, Part, part_rows, parts_rows, PartHolds, PartsHold, PartsHold-append, parts_rows-append,
}
use optimized_hash_join_pipe.Pages.Strings.Saved.{Pending}

abbrev pub Rows : Type 0
Rows = List (Option (List ℕ))

-- The rows so far: those of the pages, and those since the last page.
pub record Stage (w : StringWriter) (rows : List (Option (List ℕ))) : Type 0 where
  pub parts : List Part
  pub pending : List (Option (List ℕ))
  pub split : rows ≡ parts_rows parts ++ pending
  pub held : PartsHold w.pages parts
  pub open_page : Pending w pending

pub ends_of-append :
    (start : ℕ) (vs : List (List ℕ)) (v : List ℕ)
    → ends_of start (vs ++ v ∷ []) ≡ ends_of start vs ++ (start + length (join vs) + length v) ∷ []
ends_of-append start [] v = ap (λ (n : ℕ). n ∷ []) (omega arith)
ends_of-append start (x ∷ vs) v =
    ap (λ t. (start + length x) ∷ t)
      (ends_of-append (start + length x) vs v
        ∙ ap (λ (n : ℕ). ends_of (start + length x) vs ++ n ∷ [])
            (omega (arith, length-append x (join vs))))

pub join-append {ℓ} :
    {A : Type ℓ} (xss yss : List (List A)) → join (xss ++ yss) ≡ join xss ++ join yss
join-append [] yss = refl
join-append (xs ∷ xss) yss =
    ap (λ t. xs ++ t) (join-append xss yss) ∙ sym (append_assoc xs (join xss) (join yss))

pub empty_page :
    (pages : List Page)
    → Pending (record { num_rows = 0; chars = []; offsets = []; bitmap = []; pages = pages }) []
empty_page pages = record {
  counted = refl;
  chars = refl;
  offsets = refl;
  marked = (empty_column-Stored {T = List ℕ} []).marked;
  room = omega arith;
}

-- A part behind the others.
pub parts-snoc :
    (parts : List Part) (part : Part)
    → parts_rows (parts ++ part ∷ []) ≡ parts_rows parts ++ part_rows part
parts-snoc parts part =
    parts_rows-append parts (part ∷ [])
    ∙ ap (λ t. parts_rows parts ++ t) (append-nil (part_rows part))

pub PartsHold-snoc :
    (parts : List Part) (part : Part) (ps qs : List Page)
    → PartsHold ps parts
    → PartHolds qs part
    → PartsHold (ps ++ qs) (parts ++ part ∷ [])
PartsHold-snoc parts part ps qs h k =
    PartsHold-append parts (part ∷ []) ps qs h (qs, [], sym (append-nil qs), k, refl)

-- The row that is added to a page, and its text, if it has one.
abbrev pub text_or : Option (List ℕ) → List ℕ
text_or none = []
text_or (some v) = v

abbrev pub end_size : Option (List ℕ) → ℕ
end_size none = 0
end_size (some v) = 2

abbrev pub new_ends : ℕ → Option (List ℕ) → List ℕ
new_ends chars none = []
new_ends chars (some v) = (chars + length v) ∷ []

pub join-row :
    (rows : Rows) (r : Option (List ℕ))
    → join (values_of (rows ++ r ∷ [])) ≡ join (values_of rows) ++ text_or r
join-row rows none = ap join (values_of-append rows (none ∷ [])) ∙ join-append (values_of rows) []
join-row rows (some v) =
    ap join (values_of-append rows (some v ∷ []))
    ∙ join-append (values_of rows) (v ∷ [])
    ∙ ap (λ t. join (values_of rows) ++ t) (append-nil v)

pub ends-row :
    (rows : Rows) (r : Option (List ℕ))
    → ends_of 0 (values_of (rows ++ r ∷ []))
      ≡ ends_of 0 (values_of rows) ++ new_ends (length (join (values_of rows))) r
ends-row rows none =
    ap (ends_of 0) (values_of-append rows (none ∷ []) ∙ append-nil (values_of rows))
    ∙ sym (append-nil (ends_of 0 (values_of rows)))
ends-row rows (some v) =
    ap (ends_of 0) (values_of-append rows (some v ∷ []))
    ∙ ends_of-append 0 (values_of rows) v
    ∙ ap (λ (n : ℕ). ends_of 0 (values_of rows) ++ n ∷ []) (omega arith)

pub count-row :
    (rows : Rows) (r : Option (List ℕ))
    → length (values_of (rows ++ r ∷ [])) * 2 ≡ length (values_of rows) * 2 + end_size r
count-row rows none =
    omega (arith, ap length (values_of-append rows (none ∷ [])), length-append (values_of rows) [])
count-row rows (some v) = omega (
  arith,
  ap length (values_of-append rows (some v ∷ [])),
  length-append (values_of rows) (v ∷ []),
)
