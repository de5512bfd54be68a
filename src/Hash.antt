-- ===== src/Hash.antt =====
-- Hashing of int32 keys: `crc32`, `crc_hash` of include/utils.h, and the Bloom filter tag that
-- include/unchained_ht.h takes from a hash. The processor's CRC instruction is a parameter.
mod Tags
pub mod TagLaws
unfoldable pub use Tags.{tags}
use optimized_hash_join_pipe.Base.{
  ℕ, ◌+◌, ◌*◌, ◌/◌, ◌%◌, ◌^◌, ◌-◌, ◌==◌, Bool, Option, some, List, bit_and,
}
use optimized_hash_join_pipe.Base.Partial.{◌>>=◌, load}

module _ (crc32si : ℕ → ℕ → ℕ) where
  -- `crc32`: the instruction on the key's 32-bit pattern, with 0 for the data.
  unfoldable pub crc32 : ℕ → ℕ
  crc32 key = crc32si key 0 % 2 ^ 32

  -- `crc_hash<int32_t>`, a product modulo 2^64.
  unfoldable pub crc_hash : ℕ → ℕ
  crc_hash key = crc32 key * (0x8648DBD * 2 ^ 32 + 1) % 2 ^ 64

-- `((uint32_t)hash) >> (32 - 11)`
unfoldable pub tag_index : ℕ → ℕ
tag_index hash = hash % 2 ^ 32 / 2 ^ (32 - 11)

-- `tags[((uint32_t)hash) >> (32 - 11)]`
unfoldable pub tag_at : ℕ → Option ℕ
tag_at hash = load tags (tag_index hash)

-- `couldContain`: no bit of the tag lies outside the 16-bit word `entry`.
unfoldable pub could_contain : ℕ → ℕ → Option Bool
could_contain entry hash = tag_at hash >>= λ tag. some (bit_and tag (2 ^ 16 - 1 - entry) == 0)
