-- ===== src/Scan/Buffered.antt =====
-- Buffers that are filled value by value.
use mathlib.Core.List.{append_assoc, append-nil}
use optimized_hash_join_pipe.Base.{
  ℕ, ◌+◌, ◌-◌, ◌*◌, ◌<◌, ◌≤◌, ◌≡◌, refl, arith, ap, ◌∙◌, sym, subst, ◌==◌, ltb, if◌then◌else◌,
  Bool-cases, inl, inr, List, [], ◌∷◌, ◌++◌, length, length-append, eq_nil_of_length,
}
use optimized_hash_join_pipe.Column.{Value, Buffer, max_per_buffer, ColumnT}
use optimized_hash_join_pipe.Column.Packed.{Packed}
use optimized_hash_join_pipe.Pages.Numbers.{join}
use optimized_hash_join_pipe.Pages.Numbers.Inserted.{join-snoc}
use optimized_hash_join_pipe.Scan.{Filling, add_value, last_count, close_buffers}

-- All buffers are full.
abbrev pub AllFull : List Buffer → Type 0
AllFull [] = Unit {0}
AllFull (b ∷ bs) = (length b ≡ max_per_buffer) × AllFull bs

pub record Fills (f : Filling) (vs : List Value) : Type 0 where
  pub full : AllFull f.buffers
  pub some_room : length f.curbuf < max_per_buffer
  pub all : vs ≡ join f.buffers ++ f.curbuf

pub AllFull-snoc :
    (bs : List Buffer) (b : Buffer)
    → AllFull bs
    → length b ≡ max_per_buffer
    → AllFull (bs ++ b ∷ [])
AllFull-snoc [] b f e = (e, tt)
AllFull-snoc (c ∷ bs) b f e = (f.0, AllFull-snoc bs b f.1 e)

pub add_value-Fills :
    (f : Filling) (vs : List Value) (v : Value) → Fills f vs → Fills (add_value f v) (vs ++ v ∷ [])
unfolding add_value
add_value-Fills f vs v h =
    let size = length-append f.curbuf (v ∷ []) in
    let more : vs ++ v ∷ [] ≡ join f.buffers ++ (f.curbuf ++ v ∷ []) =
      ap (λ t. t ++ v ∷ []) h.all ∙ append_assoc (join f.buffers) f.curbuf (v ∷ []) in
    elim (Bool-cases (length (f.curbuf ++ v ∷ []) == max_per_buffer)) [
      | inl end ↦ rw end (record {
        full = AllFull-snoc f.buffers (f.curbuf ++ v ∷ []) h.full (ground arith);
        some_room = omega arith;
        all =
            more
            ∙ sym (join-snoc f.buffers (f.curbuf ++ v ∷ []))
            ∙ sym (append-nil (join (f.buffers ++ (f.curbuf ++ v ∷ []) ∷ [])));
      })
      | inr room ↦
          rw room
            (record { full = h.full; some_room = ground (arith, h.some_room, size); all = more })
    ]

full-Packed : (bs : List Buffer) → AllFull bs → Packed bs (join bs)
full-Packed [] f = refl
full-Packed (b ∷ []) f = (append-nil b, omega (arith, f.0), omega (arith, f.0))
full-Packed (b ∷ (c ∷ bs)) f = (f.0, join (c ∷ bs), refl, full-Packed (c ∷ bs) f.1)

snoc-Packed :
    (bs : List Buffer) (b : Buffer)
    → AllFull bs
    → 0 < length b
    → length b ≤ max_per_buffer
    → Packed (bs ++ b ∷ []) (join bs ++ b)
snoc-Packed [] b f pos fits = (refl, pos, fits)
snoc-Packed (c ∷ []) b f pos fits = (f.0, b, ap (λ t. t ++ b) (append-nil c), (refl, pos, fits))
snoc-Packed (c ∷ (d ∷ bs)) b f pos fits =
    (f.0, join (d ∷ bs) ++ b, append_assoc c (join (d ∷ bs)) b, snoc-Packed (d ∷ bs) b f.1 pos fits)

-- The buffers with the last one behind them, if there is one.
pub closed-Packed :
    (bs : List Buffer) (b : Buffer) (vs : List Value)
    → AllFull bs
    → length b ≤ max_per_buffer
    → vs ≡ join bs ++ b
    → Packed (if ltb 0 (length b) then bs ++ b ∷ [] else bs) vs
closed-Packed bs b vs f fits all = elim (Bool-cases (ltb 0 (length b))) [
  | inl some_left ↦
      rw some_left
        (subst (Packed (bs ++ b ∷ [])) (sym all) (snoc-Packed bs b f (ground arith) fits))
  | inr none_left ↦
      let nothing : b ≡ [] = eq_nil_of_length b (ground arith) in
      rw none_left (
        subst (Packed bs) (sym (all ∙ ap (λ t. join bs ++ t) nothing ∙ append-nil (join bs)))
          (full-Packed bs f))
]

-- The number of rows that is computed from the buffers.
abbrev rows_of_buffers : List Buffer → ℕ
rows_of_buffers bs = if length bs == 0 then 0 else (length bs - 1) * max_per_buffer + last_count bs

count-Packed : (bs : List Buffer) (vs : List Value) → Packed bs vs → rows_of_buffers bs ≡ length vs
count-Packed [] vs p = sym (ap length p)
count-Packed (b ∷ []) vs (e, pos, fits) = omega (arith, ap length e)
count-Packed (b ∷ (c ∷ [])) vs (full, rest, e, p) =
    let next = count-Packed (c ∷ []) rest p in
    omega (arith, ap length e, length-append b rest, next)
count-Packed (b ∷ (c ∷ (d ∷ bs))) vs (full, rest, e, p) =
    let next : rows_of_buffers (c ∷ (d ∷ bs)) ≡ length rest = count-Packed (c ∷ (d ∷ bs)) rest p in
    let step : rows_of_buffers (b ∷ (c ∷ (d ∷ bs)))
        ≡ max_per_buffer + rows_of_buffers (c ∷ (d ∷ bs)) =
      ground arith in
    omega (arith, ap length e, length-append b rest, next, step)

-- What the buffers of the new column hold.
pub close_buffers-Packed :
    (c : ColumnT) (f : Filling) (vs : List Value)
    → Fills f vs
    → Packed (close_buffers c f).buffers vs
      × ((close_buffers c f).num_rows ≡ length vs)
      × ((close_buffers c f).original_col ≡ c.original_col)
unfolding close_buffers
close_buffers-Packed c f vs h =
    let buffers = if ltb 0 (length f.curbuf) then f.buffers ++ f.curbuf ∷ [] else f.buffers in
    let p : Packed buffers vs =
      closed-Packed f.buffers f.curbuf vs h.full (omega (arith, h.some_room)) h.all in
    (p, count-Packed buffers vs p, refl)
