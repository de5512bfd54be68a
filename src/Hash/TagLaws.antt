-- ===== src/Hash/TagLaws.antt =====
-- What the table of tags in include/unchained_ht.h holds.
use optimized_hash_join_pipe.Base.{
  ℕ, zero, suc, ◌+◌, ◌/◌, ◌%◌, ◌^◌, ◌<◌, ◌≡◌, refl, arith, Bool, true, ◌&&◌, ltb, ◌==◌, some, List,
  [], ◌∷◌, length,
}
use optimized_hash_join_pipe.Base.Partial.{load, Returns}
use optimized_hash_join_pipe.Hash.Tags.{tags}
use optimized_hash_join_pipe.Hash.{tag_index, tag_at}

-- The number of ones among the lowest `width` digits.
pub ones : ℕ → ℕ → ℕ
ones zero n = 0
ones (suc width) n = n % 2 + ones width (n / 2)

-- Sixteen bits, four of them set.
pub record IsTag (t : ℕ) : Type 0 where
  pub small : t < 2 ^ 16
  pub four : ones 16 t ≡ 4

all_tags : List ℕ → Bool
all_tags [] = true
all_tags (t ∷ ts) = ltb t (2 ^ 16) && (ones 16 t == 4) && all_tags ts

all_tags_sound :
    (ts : List ℕ) (i : ℕ) → all_tags ts ≡ true → i < length ts → Returns (load ts i) IsTag
unfolding all_tags load
all_tags_sound [] i h l = absurd (omega arith)
all_tags_sound (t ∷ ts) zero h l = (t, refl, record { small = ground arith; four = ground arith })
all_tags_sound (t ∷ ts) (suc i) h l = all_tags_sound ts i (ground arith) (omega arith)

tags_checked : all_tags tags ≡ true
unfolding all_tags ones tags
tags_checked = refl

length-tags : length tags ≡ 2048
unfolding tags
length-tags = refl

-- For every hash the lookup in the table of tags stays inside the table and finds a word of 16
-- bits with exactly four bits set.
pub tag_at-IsTag : (hash : ℕ) → Returns (tag_at hash) IsTag
unfolding tag_at tag_index
tag_at-IsTag hash = all_tags_sound tags _ tags_checked (omega (arith, length-tags))

-- The tag of a hash, as a total function.
pub tag_of : ℕ → ℕ
tag_of hash = (tag_at-IsTag hash).0

pub tag_at-tag_of : (hash : ℕ) → tag_at hash ≡ some (tag_of hash)
unfolding tag_of
tag_at-tag_of hash = (tag_at-IsTag hash).1

pub tag_of-lt : (hash : ℕ) → tag_of hash < 2 ^ 16
unfolding tag_of
tag_of-lt hash = (tag_at-IsTag hash).2.small
