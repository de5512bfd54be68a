-- ===== src/Unchained/Counting.antt =====
-- The first loop of `postProcessBuild`: the sizes of the slots, and their tags.
use optimized_hash_join_pipe.Base.{
  ℕ, ◌+◌, ◌*◌, ◌/◌, ◌%◌, ◌^◌, ◌<◌, ◌≡◌, ◌≢◌, refl, arith, ap, ◌∙◌, List, [], ◌∷◌, length, select,
  get_or, set, length-set, get_or-set_self, get_or-set_ne, ◌==◌, Bool, false, to_nat, ==_refl,
  subst, misses, misses_mono, misses-bit_or, bit_or, ℕ_discrete,
}
use optimized_hash_join_pipe.Base.Partial.{Returns, ◌>>=◌}
use optimized_hash_join_pipe.Hash.{crc_hash}
use optimized_hash_join_pipe.Hash.TagLaws.{tag_of, tag_at-tag_of, tag_of-lt}
use optimized_hash_join_pipe.Unchained.{
  Entry, entry_size, slot_of, count_entry, count_entries, advance,
}
use optimized_hash_join_pipe.Unchained.Words.{
  word, pointer, tag_bits, advance_parts, bit_or_parts, update_word-set,
}

module _ (crc32si : ℕ → ℕ → ℕ) (shift : ℕ) where
  abbrev pub in_slot : ℕ → Entry → Bool
  in_slot s e = slot_of crc32si shift e.key == s

  -- The entries of a slot, and their number.
  abbrev pub bucket : ℕ → List Entry → List Entry
  bucket s es = select (in_slot s) es

  abbrev pub size : List Entry → ℕ → ℕ
  size es s = length (bucket s es)

  -- The word of the key's slot contains the key's tag.
  abbrev pub HasTag : List ℕ → ℕ → Type 0
  HasTag directory key =
      misses 16 (tag_of (crc_hash crc32si key)) (tag_bits directory (slot_of crc32si shift key)) ≡ 0

  abbrev pub AllSlots : ℕ → List Entry → Type 0
  AllSlots slots [] = Unit
  AllSlots slots (e ∷ es) = (slot_of crc32si shift e.key < slots) × AllSlots slots es

  abbrev pub AllTagged : List ℕ → List Entry → Type 0
  AllTagged directory [] = Unit
  AllTagged directory (e ∷ es) = HasTag directory e.key × AllTagged directory es

  pub record Counted (before : List ℕ) (es : List Entry) (after : List ℕ) : Type 0 where
    pub same_length : length after ≡ length before
    pub sizes : (s : ℕ) → pointer after s ≡ pointer before s + entry_size * size es s
    pub keeps_tags :
        (s t : ℕ) → misses 16 t (tag_bits before s) ≡ 0 → misses 16 t (tag_bits after s) ≡ 0
    pub tagged : AllTagged after es
    pub untouched : (s : ℕ) → size es s ≡ 0 → word after s ≡ word before s
    pub minus_one : get_or after 0 0 ≡ get_or before 0 0

  -- One entry: its slot gets an entry more and the tag, and no other word changes.
  record Bumped (before : List ℕ) (key : ℕ) (after : List ℕ) : Type 0 where
    same_length : length after ≡ length before
    here :
        pointer after (slot_of crc32si shift key)
        ≡ pointer before (slot_of crc32si shift key) + entry_size
    joined :
        tag_bits after (slot_of crc32si shift key)
        ≡ bit_or (tag_bits before (slot_of crc32si shift key)) (tag_of (crc_hash crc32si key))
    elsewhere : (s : ℕ) → slot_of crc32si shift key ≢ s → word after s ≡ word before s
    minus_one : get_or after 0 0 ≡ get_or before 0 0

  count_entry-Bumped :
      (before : List ℕ) (e : Entry)
      → slot_of crc32si shift e.key + 1 < length before
      → pointer before (slot_of crc32si shift e.key) + entry_size < 2 ^ 48
      → Returns (count_entry crc32si shift before e) (Bumped before e.key)
  unfolding count_entry
  count_entry-Bumped before e inside room =
      let i = slot_of crc32si shift e.key in
      let tag = tag_of (crc_hash crc32si e.key) in
      let first = set before (i + 1) (advance (word before i)) in
      let at_first = get_or-set_self before (i + 1) (advance (word before i)) 0 inside in
      let inside' : i + 1 < length first = rw length-set inside in
      let last = set first (i + 1) (bit_or (word first i) tag) in
      let at_last : word last i ≡ bit_or (word first i) tag =
        get_or-set_self first (i + 1) _ 0 inside' in
      let moved = advance_parts (word before i) room in
      let joined = bit_or_parts (word first i) tag (tag_of-lt _) in
      (
        last,
        rw (update_word-set before i advance inside, ◌>>=◌)
            (rw (tag_at-tag_of (crc_hash crc32si e.key), ◌>>=◌)
              (update_word-set first i _ inside')),
        record {
          same_length = length-set first _ _ ∙ length-set before _ _;
          here =
              ap (λ (w : ℕ). w / 2 ^ 16) at_last
              ∙ joined.0
              ∙ ap (λ (w : ℕ). w / 2 ^ 16) at_first
              ∙ moved.0;
          joined =
              ap (λ (w : ℕ). w % 2 ^ 16) at_last
              ∙ joined.1
              ∙ ap (λ (w : ℕ). bit_or (w % 2 ^ 16) tag) at_first
              ∙ ap (λ (x : ℕ). bit_or x tag) moved.1;
          elsewhere = λ s ne.
              get_or-set_ne first (i + 1) (s + 1) _ 0 (λ eq. ne (omega arith))
              ∙ get_or-set_ne before (i + 1) (s + 1) _ 0 (λ eq. ne (omega arith));
          minus_one =
              get_or-set_ne first (i + 1) 0 _ 0 (omega arith)
              ∙ get_or-set_ne before (i + 1) 0 _ 0 (omega arith);
        },
      )

  module _ {before : List ℕ} {key : ℕ} {after : List ℕ} (b : Bumped before key after) where
    Bumped-keeps_tags :
        (s t : ℕ) → misses 16 t (tag_bits before s) ≡ 0 → misses 16 t (tag_bits after s) ≡ 0
    Bumped-keeps_tags s t h = elim (ℕ_discrete (slot_of crc32si shift key) s) [
      | no ne ↦ rw (b.elsewhere s ne) h
      | yes e ↦
          subst (λ s'. misses 16 t (tag_bits before s') ≡ 0 → misses 16 t (tag_bits after s') ≡ 0) e
            (λ h'. rw b.joined (misses_mono 16 _ t _ (omega arith) (tag_of-lt _) h')) h
    ]

    Bumped-HasTag : HasTag after key
    Bumped-HasTag = rw b.joined (misses-bit_or 16 _ _ (omega arith) (tag_of-lt _))

    Bumped-pointer :
        (s : ℕ)
        → pointer after s ≡ pointer before s + entry_size * to_nat (slot_of crc32si shift key == s)
    Bumped-pointer s = elim (ℕ_discrete (slot_of crc32si shift key) s) [
      | no ne ↦ rw (b.elsewhere s ne) (ground arith)
      | yes e ↦
          subst
            (λ s'.
              pointer after s'
              ≡ pointer before s' + entry_size * to_nat (slot_of crc32si shift key == s'))
            e (rw ==_refl b.here)
    ]

  pub bucket-cons_ne :
      (e : Entry) (es : List Entry) (s : ℕ)
      → slot_of crc32si shift e.key ≢ s
      → bucket s (e ∷ es) ≡ bucket s es
  bucket-cons_ne e es s ne = let test : in_slot s e ≡ false = ground arith in rw test

  pub bucket-cons_self :
      (e : Entry) (es : List Entry)
      → bucket (slot_of crc32si shift e.key) (e ∷ es) ≡ e ∷ bucket (slot_of crc32si shift e.key) es
  bucket-cons_self e es = rw ==_refl

  pub size-cons :
      (e : Entry) (es : List Entry) (s : ℕ)
      → size (e ∷ es) s ≡ to_nat (slot_of crc32si shift e.key == s) + size es s
  size-cons e es s = ground arith

  Counted-cons :
      {before mid after : List ℕ} {e : Entry} {es : List Entry}
      → Bumped before e.key mid
      → Counted mid es after
      → Counted before (e ∷ es) after
  Counted-cons {e} {es} b c = record {
    same_length = c.same_length ∙ b.same_length;
    sizes = λ s. omega (arith, c.sizes s, Bumped-pointer b s, size-cons e es s);
    keeps_tags = λ s t h. c.keeps_tags s t (Bumped-keeps_tags b s t h);
    tagged = (c.keeps_tags _ _ (Bumped-HasTag b), c.tagged);
    untouched = λ s absent.
        c.untouched s (omega (arith, size-cons e es s))
        ∙ b.elsewhere s (ground (arith, size-cons e es s));
    minus_one = c.minus_one ∙ b.minus_one;
  }

  -- The loop: every slot's pointer grows by the size of its bucket, every key's tag is there, and
  -- a slot without entries is as it was.
  pub count_entries-Counted :
      (es : List Entry) (before : List ℕ) (slots : ℕ)
      → slots < length before
      → AllSlots slots es
      → ((s : ℕ) → 0 < size es s → pointer before s + entry_size * size es s < 2 ^ 48)
      → Returns (count_entries crc32si shift before es) (Counted before es)
  unfolding count_entries
  count_entries-Counted [] before slots wide inside room = (
    before,
    refl,
    record {
      same_length = refl;
      sizes = λ s. omega arith;
      keeps_tags = λ s t h. h;
      tagged = tt;
      untouched = λ s absent. refl;
      minus_one = refl;
    },
  )
  count_entries-Counted (e ∷ es) before slots wide (first, inside) room =
      let s = slot_of crc32si shift e.key in
      let (mid, run, b) = count_entry-Bumped before e (omega arith) (
        omega (
          arith,
          room s (omega (arith, size-cons e es s, ap to_nat (==_refl s))),
          size-cons e es s,
          ap to_nat (==_refl s),
        )) in
      let (after, rest, c) =
        count_entries-Counted es mid slots (omega (arith, b.same_length)) inside (λ r h. omega (
          arith,
          room r (omega (arith, size-cons e es r)),
          size-cons e es r,
          Bumped-pointer b r,
        )) in
      (after, rw (run, ◌>>=◌) rest, Counted-cons b c)
