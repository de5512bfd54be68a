-- ===== src/Unchained/Words.antt =====
-- A directory word as a pointer and a tag.
use Prim.Native.Nat.{bit_or-bitwise}
use optimized_hash_join_pipe.Base.{
  ℕ, ◌+◌, ◌*◌, ◌/◌, ◌%◌, ◌^◌, ◌<◌, ◌≡◌, arith, ap, some, List, length, get_or, set, bit_or,
  bit_or_high, bit_or-lt, ◌∙◌,
}
use optimized_hash_join_pipe.Base.Partial.{load-get_or, store-set}
use optimized_hash_join_pipe.Unchained.{entry_size, update_word, advance, index_of}

-- The word of slot `i`, its pointer and its tag.
abbrev pub word : List ℕ → ℕ → ℕ
word directory i = get_or directory (i + 1) 0

abbrev pub pointer : List ℕ → ℕ → ℕ
pointer directory i = word directory i / 2 ^ 16

abbrev pub tag_bits : List ℕ → ℕ → ℕ
tag_bits directory i = word directory i % 2 ^ 16

pub advance_parts :
    (w : ℕ)
    → w / 2 ^ 16 + entry_size < 2 ^ 48
    → (advance w / 2 ^ 16 ≡ w / 2 ^ 16 + entry_size) × (advance w % 2 ^ 16 ≡ w % 2 ^ 16)
unfolding advance
advance_parts w h = omega arith

-- `|= tag`
pub bit_or_parts :
    (w t : ℕ)
    → t < 2 ^ 16
    → (bit_or w t / 2 ^ 16 ≡ w / 2 ^ 16) × (bit_or w t % 2 ^ 16 ≡ bit_or (w % 2 ^ 16) t)
bit_or_parts w t h =
    let split : bit_or w t ≡ w / 2 ^ 16 * 2 ^ 16 + bit_or (w % 2 ^ 16) t =
      ap (λ (x : ℕ). bit_or x t) (let e : w ≡ w / 2 ^ 16 * 2 ^ 16 + w % 2 ^ 16 = omega arith in e)
      ∙ bit_or_high 16 (w / 2 ^ 16) (w % 2 ^ 16) t (omega arith) h in
    omega (arith, split, bit_or-lt 16 (w % 2 ^ 16) t (omega arith) h)

-- `(cur << 16) | (uint16_t)w`
pub start_parts :
    (cur w : ℕ)
    → cur < 2 ^ 48
    → (bit_or (cur * 2 ^ 16 % 2 ^ 64) (w % 2 ^ 16) / 2 ^ 16 ≡ cur)
      × (bit_or (cur * 2 ^ 16 % 2 ^ 64) (w % 2 ^ 16) % 2 ^ 16 ≡ w % 2 ^ 16)
start_parts cur w h =
    let p = bit_or_parts (cur * 2 ^ 16 % 2 ^ 64) (w % 2 ^ 16) (omega arith) in
    let low : bit_or (cur * 2 ^ 16 % 2 ^ 64 % 2 ^ 16) (w % 2 ^ 16) ≡ w % 2 ^ 16 =
      ap (λ (x : ℕ). bit_or x (w % 2 ^ 16))
        (let e : cur * 2 ^ 16 % 2 ^ 64 % 2 ^ 16 ≡ 0 = omega arith in e)
      ∙ bit_or-bitwise 0 (w % 2 ^ 16) in
    omega (arith, p, low)

pub update_word-set :
    (directory : List ℕ) (i : ℕ) (f : ℕ → ℕ)
    → i + 1 < length directory
    → update_word directory i f ≡ some (set directory (i + 1) (f (word directory i)))
unfolding update_word
update_word-set directory i f h = rw (load-get_or directory (i + 1) 0 h) (store-set directory _ _ h)

-- A pointer to an entry by its index.
pub index_of_entry : (base i : ℕ) → index_of base (base + entry_size * i) ≡ some i
unfolding index_of
index_of_entry base i = ground arith
