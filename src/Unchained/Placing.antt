-- ===== src/Unchained/Placing.antt =====
-- The last loop of `postProcessBuild`: every entry goes to its bucket, in order.
use optimized_hash_join_pipe.Base.{
  ℕ, zero, suc, ◌+◌, ◌*◌, ◌/◌, ◌%◌, ◌^◌, ◌<◌, ◌≤◌, ◌≡◌, ◌≢◌, refl, arith, ap, ◌∙◌, sym, List, [],
  ◌∷◌, length, get_or, set, length-set, get_or-set_self, get_or-set_ne, some, ℕ_discrete, subst,
  ◌==◌, to_nat, ==_refl,
}
use optimized_hash_join_pipe.Base.Partial.{Returns, ◌>>=◌, load-get_or, store-set}
use optimized_hash_join_pipe.Unchained.{
  Entry, no_entry, entry_size, slot_of, advance, place_entry, place_entries,
}
use optimized_hash_join_pipe.Unchained.Words.{
  word, pointer, tag_bits, advance_parts, update_word-set, index_of_entry,
}
use optimized_hash_join_pipe.Unchained.Counting.{
  bucket, size, AllSlots, size-cons, bucket-cons_ne, bucket-cons_self,
}

module _ (crc32si : ℕ → ℕ → ℕ) (shift base : ℕ) where
  abbrev home : Entry → ℕ
  home e = slot_of crc32si shift e.key

  abbrev count : List Entry → ℕ → ℕ
  count es s = size crc32si shift es s

  -- The bucket of slot `s` is to stand in `tuples` from index `start s` on.
  pub record Layout (directory : List ℕ) (tuples : List Entry) (es : List Entry) (start : ℕ → ℕ)
      : Type 0 where
    pub anchored :
        (s : ℕ) → 0 < size crc32si shift es s → pointer directory s ≡ base + entry_size * start s
    pub inside :
        (s : ℕ) → 0 < size crc32si shift es s → start s + size crc32si shift es s ≤ length tuples
    pub room :
        (s : ℕ)
        → 0 < size crc32si shift es s
        → base + entry_size * (start s + size crc32si shift es s) < 2 ^ 48
    pub disjoint :
        (s s' j j' : ℕ)
        → s ≢ s'
        → j < size crc32si shift es s
        → j' < size crc32si shift es s'
        → start s + j ≢ start s' + j'

  pub record Placed (directory : List ℕ) (tuples : List Entry) (es : List Entry) (start : ℕ → ℕ)
      (after : List ℕ × List Entry) : Type 0 where
    pub words_length : length after.0 ≡ length directory
    pub tuples_length : length after.1 ≡ length tuples
    pub ends :
        (s : ℕ) → pointer after.0 s ≡ pointer directory s + entry_size * size crc32si shift es s
    pub same_tags : (s : ℕ) → tag_bits after.0 s ≡ tag_bits directory s
    pub untouched : (s : ℕ) → size crc32si shift es s ≡ 0 → word after.0 s ≡ word directory s
    pub minus_one : get_or after.0 0 0 ≡ get_or directory 0 0
    pub contents :
        (s j : ℕ)
        → j < size crc32si shift es s
        → get_or after.1 (start s + j) no_entry ≡ get_or (bucket crc32si shift s es) j no_entry
    pub outside :
        (i : ℕ)
        → ((s j : ℕ) → j < size crc32si shift es s → start s + j ≢ i)
        → get_or after.1 i no_entry ≡ get_or tuples i no_entry

  -- After one entry the rest of its bucket starts one place further.
  abbrev next_start : (ℕ → ℕ) → ℕ → ℕ → ℕ
  next_start start s0 s = start s + to_nat (s0 == s)

  module _ (directory : List ℕ) (tuples : List Entry) (e : Entry) (es : List Entry) (start : ℕ → ℕ)
      (lay : Layout directory tuples (e ∷ es) start) (words : home e + 1 < length directory) where
    sizes : (s : ℕ) → count (e ∷ es) s ≡ to_nat (home e == s) + count es s
    sizes s = size-cons crc32si shift e es s

    filled : 0 < count (e ∷ es) (home e)
    filled = omega (arith, sizes (home e), ap to_nat (==_refl (home e)))

    abbrev directory' : List ℕ
    directory' = set directory (home e + 1) (advance (word directory (home e)))

    abbrev tuples' : List Entry
    tuples' = set tuples (start (home e)) e

    here_pointer : pointer directory (home e) ≡ base + entry_size * start (home e)
    here_pointer = lay.anchored (home e) filled

    here_inside : start (home e) < length tuples
    here_inside = omega (arith, lay.inside (home e) filled, filled)

    here_advanced :
        (advance (word directory (home e)) / 2 ^ 16 ≡ pointer directory (home e) + entry_size)
        × (advance (word directory (home e)) % 2 ^ 16 ≡ tag_bits directory (home e))
    here_advanced = advance_parts _ (omega (arith, here_pointer, lay.room (home e) filled, filled))

    place_entry-set :
        place_entry crc32si base shift (directory, tuples) e ≡ some (directory', tuples')
    unfolding place_entry
    place_entry-set =
        rw (load-get_or directory (home e + 1) 0 words, ◌>>=◌)
          (rw (here_pointer, index_of_entry base (start (home e)), ◌>>=◌)
            (rw (store-set tuples (start (home e)) e here_inside, ◌>>=◌)
              (rw (update_word-set directory (home e) advance words))))

    elsewhere : (s : ℕ) → home e ≢ s → word directory' s ≡ word directory s
    elsewhere s ne = get_or-set_ne directory (home e + 1) (s + 1) _ 0 (λ eq. ne (omega arith))

    here : word directory' (home e) ≡ advance (word directory (home e))
    here = get_or-set_self directory (home e + 1) _ 0 words

    next_pointer :
        (s : ℕ) → pointer directory' s ≡ pointer directory s + entry_size * to_nat (home e == s)
    next_pointer s = elim (ℕ_discrete (home e) s) [
      | no ne ↦ rw (elsewhere s ne) (ground arith)
      | yes eq ↦
          subst
            (λ s'.
              pointer directory' s' ≡ pointer directory s' + entry_size * to_nat (home e == s'))
            eq (rw (here, ==_refl) (omega (arith, here_advanced)))
    ]

    next_tags : (s : ℕ) → tag_bits directory' s ≡ tag_bits directory s
    next_tags s = elim (ℕ_discrete (home e) s) [
      | no ne ↦ rw (elsewhere s ne)
      | yes eq ↦
          subst (λ s'. tag_bits directory' s' ≡ tag_bits directory s') eq (rw here here_advanced.1)
    ]

    Layout-next : Layout directory' tuples' es (next_start start (home e))
    Layout-next = record {
      anchored = λ s h. omega (arith, next_pointer s, lay.anchored s (omega (arith, sizes s)));
      inside = λ s h. rw length-set (omega (arith, sizes s, lay.inside s (omega (arith, sizes s))));
      room = λ s h. omega (arith, sizes s, lay.room s (omega (arith, sizes s)));
      disjoint = λ s s' j j' ne l l' eq.
          lay.disjoint s s' (to_nat (home e == s) + j) (to_nat (home e == s') + j') ne
            (omega (arith, sizes s)) (omega (arith, sizes s')) (omega arith);
    }

    -- The place just written is in no bucket that is still to come.
    written_apart : (s j : ℕ) → j < count es s → next_start start (home e) s + j ≢ start (home e)
    written_apart s j l eq = elim (ℕ_discrete (home e) s) [
      | yes same ↦ absurd (
          omega (
            arith,
            eq,
            ap start same,
            ap (λ (x : ℕ). to_nat (home e == x)) (sym same),
            ap to_nat (==_refl (home e)),
          ))
      | no ne ↦
          lay.disjoint (home e) s 0 (to_nat (home e == s) + j) ne filled (omega (arith, sizes s))
            (omega arith)
    ]

    module _ {after : List ℕ × List Entry}
        (p : Placed directory' tuples' es (next_start start (home e)) after) where
      first_content : get_or after.1 (start (home e)) no_entry ≡ e
      first_content =
          p.outside (start (home e)) written_apart ∙ get_or-set_self tuples _ e no_entry here_inside

      first_bucket :
          (j : ℕ)
          → j < count (e ∷ es) (home e)
          → get_or after.1 (start (home e) + j) no_entry
            ≡ get_or (bucket crc32si shift (home e) (e ∷ es)) j no_entry
      first_bucket zero l = rw bucket-cons_self (
          ap (λ (i : ℕ). get_or after.1 i no_entry)
            (let eq : start (home e) + 0 ≡ start (home e) = omega arith in eq)
          ∙ first_content)
      first_bucket (suc j) l = rw bucket-cons_self (
          ap (λ (i : ℕ). get_or after.1 i no_entry)
            (let eq : start (home e) + suc j ≡ next_start start (home e) (home e) + j =
                omega (arith, ap to_nat (==_refl (home e))) in
              eq)
          ∙ p.contents (home e) j (omega (arith, sizes (home e), ap to_nat (==_refl (home e)))))

      next_contents :
          (s j : ℕ)
          → j < count (e ∷ es) s
          → get_or after.1 (start s + j) no_entry
            ≡ get_or (bucket crc32si shift s (e ∷ es)) j no_entry
      next_contents s j l = elim (ℕ_discrete (home e) s) [
        | no ne ↦ rw (bucket-cons_ne crc32si shift e es s ne) (later ne)
        | yes eq ↦ subst (λ s'. j < count (e ∷ es) s' → Content s') eq (first_bucket j) l
      ]
        where
          Content : ℕ → Type 0
          Content s' =
              get_or after.1 (start s' + j) no_entry
              ≡ get_or (bucket crc32si shift s' (e ∷ es)) j no_entry

          later :
              home e ≢ s
              → get_or after.1 (start s + j) no_entry
                ≡ get_or (bucket crc32si shift s es) j no_entry
          later ne =
              ap (λ (i : ℕ). get_or after.1 i no_entry)
                (let eq : start s + j ≡ next_start start (home e) s + j = ground arith in eq)
              ∙ p.contents s j (omega (arith, ap length (bucket-cons_ne crc32si shift e es s ne)))

      Placed-next : Placed directory tuples (e ∷ es) start after
      Placed-next = record {
        words_length = p.words_length ∙ length-set directory _ _;
        tuples_length = p.tuples_length ∙ length-set tuples _ _;
        ends = λ s. omega (arith, p.ends s, next_pointer s, sizes s);
        same_tags = λ s. p.same_tags s ∙ next_tags s;
        untouched =
            λ s h. p.untouched s (omega (arith, sizes s)) ∙ elsewhere s (ground (arith, sizes s));
        minus_one = p.minus_one ∙ get_or-set_ne directory (home e + 1) 0 _ 0 (omega arith);
        contents = next_contents;
        outside = λ i h.
            p.outside i
              (λ s j l eq. h s (to_nat (home e == s) + j) (omega (arith, sizes s)) (omega arith))
            ∙ get_or-set_ne tuples _ i e no_entry (λ eq. h (home e) 0 filled (omega arith));
      }

  -- The loop: it never leaves the arrays, each bucket holds its entries in their order, and no
  -- other place changes.
  pub place_entries-Placed :
      (es : List Entry) (directory : List ℕ) (tuples : List Entry) (start : ℕ → ℕ) (slots : ℕ)
      → slots < length directory
      → AllSlots crc32si shift slots es
      → Layout directory tuples es start
      → Returns
          (place_entries crc32si base shift (directory, tuples) es)
          (Placed directory tuples es start)
  unfolding place_entries
  place_entries-Placed [] directory tuples start slots wide inside lay = (
    (directory, tuples),
    refl,
    record {
      words_length = refl;
      tuples_length = refl;
      ends = λ s. omega arith;
      same_tags = λ s. refl;
      untouched = λ s h. refl;
      minus_one = refl;
      contents = λ s j l. absurd (omega arith);
      outside = λ i h. refl;
    },
  )
  place_entries-Placed (e ∷ es) directory tuples start slots wide (first, inside) lay =
      let words : home e + 1 < length directory = omega arith in
      let (after, run, p) =
        place_entries-Placed es _ _ (next_start start (home e)) slots (rw length-set wide) inside
          (Layout-next directory tuples e es start lay words) in
      (
        after,
        rw (place_entry-set directory tuples e es start lay words, ◌>>=◌) run,
        Placed-next directory tuples e es start lay words p,
      )
