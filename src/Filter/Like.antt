-- ===== src/Filter/Like.antt =====
-- `Comparison::like_match` of include/statement.h: a LIKE pattern as a regular expression, and the
-- cache of compiled expressions. The regular expressions of RE2 are parameters.
use optimized_hash_join_pipe.Base.{
  ℕ, ◌≡◌, refl, ap₂, ◌∙◌, subst, ◌==◌, ==_iff, ◌||◌, if◌then◌else◌, Bool, true, false, Option, some,
  none, List, [], ◌∷◌, ◌++◌, Bool-cases, Option-cases, inl, inr, arith,
}
use optimized_hash_join_pipe.Filter.Strings.{String}
use optimized_hash_join_pipe.Filter.Statement.{string_eq}

-- The characters that the loop escapes: \ . ^ $ | ? * + ( ) [ ] { }
abbrev special : String
special = 92 ∷ 46 ∷ 94 ∷ 36 ∷ 124 ∷ 63 ∷ 42 ∷ 43 ∷ 40 ∷ 41 ∷ 91 ∷ 93 ∷ 123 ∷ 125 ∷ []

abbrev pub occurs : ℕ → String → Bool
occurs c [] = false
occurs c (x ∷ xs) = (c == x) || occurs c xs

-- One character: `%` is `.*`, `_` is `.`, and a special one gets a backslash.
abbrev pub char_regex : ℕ → String
char_regex c =
    if c == 37
    then 46 ∷ 42 ∷ []
    else (if c == 95 then 46 ∷ [] else (if occurs c special then 92 ∷ c ∷ [] else c ∷ []))

-- `regex_str`
abbrev pub like_regex : String → String
like_regex [] = []
like_regex (c ∷ pattern) = char_regex c ++ like_regex pattern

module _ {Regex : Type 0} (compile : String → Option Regex)
    (full_match : String → Regex → Bool) where
  abbrev pub Cache : Type 0
  Cache = List (String × Regex)

  -- `regex_cache.find`
  unfoldable pub cached : Cache → String → Option Regex
  cached [] pattern = none
  cached ((key, re) ∷ cache) pattern =
      if string_eq key pattern then some re else cached cache pattern

  -- A call, with the cache it leaves.
  unfoldable pub like_match : Cache → String → String → Bool × Cache
  like_match cache text pattern = elim (cached cache pattern) [
    | some re ↦ (full_match text re, cache)
    | none ↦ elim (compile (like_regex pattern)) [
      | none ↦ (false, cache)
      | some re ↦ (full_match text re, (pattern, re) ∷ cache)
    ]
  ]

  -- The same without a cache.
  pub matches : String → String → Bool
  matches text pattern = elim (compile (like_regex pattern)) [
    | none ↦ false
    | some re ↦ full_match text re
  ]

  -- The cache holds what the compilation of its keys gives.
  abbrev pub Compiled : Cache → Type 0
  Compiled [] = Unit
  Compiled ((key, re) ∷ cache) = (compile (like_regex key) ≡ some re) × Compiled cache

  string_eq_sound : (a b : String) → string_eq a b ≡ true → a ≡ b
  string_eq_sound [] [] h = refl
  string_eq_sound [] (y ∷ ys) h = absurd (ground (arith, h))
  string_eq_sound (x ∷ xs) [] h = absurd (ground (arith, h))
  string_eq_sound (x ∷ xs) (y ∷ ys) h = elim (Bool-cases (x == y)) [
    | inl e ↦ ap₂ ◌∷◌ ((==_iff x y).0 e) (string_eq_sound xs ys (rw e at h))
    | inr e ↦ let h' : false ≡ true = rw e at h in absurd (ground (arith, h'))
  ]

  none-ne-some : {re : Regex} → ¬ (none ≡ some re)
  none-ne-some e = subst (λ o. elim o [ none ↦ Unit {0} | some re ↦ ⊥ ]) e tt

  cached-Compiled :
      (cache : Cache) (pattern : String) (re : Regex)
      → Compiled cache
      → cached cache pattern ≡ some re
      → compile (like_regex pattern) ≡ some re
  unfolding cached
  cached-Compiled [] pattern re ok h = absurd (none-ne-some h)
  cached-Compiled ((key, found) ∷ cache) pattern re (here, ok) h =
      elim (Bool-cases (string_eq key pattern)) [
        | inl e ↦ rw (← string_eq_sound key pattern e) (here ∙ (rw e at h))
        | inr e ↦ cached-Compiled cache pattern re ok (rw e at h)
      ]

  -- With a cache in which every pattern has its compiled expression, a call returns what it would
  -- return without a cache, and leaves such a cache.
  pub like_match-matches :
      (cache : Cache) (text pattern : String)
      → Compiled cache
      → ((like_match cache text pattern).0 ≡ matches text pattern)
        × Compiled (like_match cache text pattern).1
  unfolding like_match matches
  like_match-matches cache text pattern ok = elim (Option-cases (cached cache pattern)) [
    | inr (re, hit) ↦ (
      rw (like_match, matches, hit, cached-Compiled cache pattern re ok hit),
      rw (like_match, hit) ok,
    )
    | inl miss ↦ elim (Option-cases (compile (like_regex pattern))) [
      | inl invalid ↦ (rw (like_match, matches, miss, invalid), rw (like_match, miss, invalid) ok)
      | inr (re, valid) ↦
          (rw (like_match, matches, miss, valid), rw (like_match, miss, valid) (valid, ok))
    ]
  ]
