-- ===== src/Csv/Resumed.antt =====
-- After a round, or behind an escape that was left open, the parser is settled again.
use optimized_hash_join_pipe.Base.{
  ℕ, ◌==◌, ◌≡◌, ◌≢◌, refl, ◌∙◌, sym, subst, ◌||◌, if◌then◌else◌, true, false, Bool-cases, ◌⊎◌, inl,
  inr, some, List, [], ◌∷◌, ◌++◌,
}
use optimized_hash_join_pipe.Csv.{
  ok, inconsistent_columns, CsvParser, Outcome, stop, next, skip, quote, line_feed, push_char,
  flags, step, resume_escape,
}
use optimized_hash_join_pipe.Csv.Settled.{Settled, ended, mismatch}
use optimized_hash_join_pipe.Csv.Kinds.{
  goes_on, fails, returns, escapes, step-Kind, ended-Settled, inconsistent-ne-ok,
}

module _ (p : CsvParser) (c : ℕ) (s : Settled p) where
  -- What a character behind an open escape leads to.
  pub resumed_escape_cases :
      (d : ℕ)
      → p.quoted ≡ true
      → ((q : CsvParser) × (resume_escape (record p { escaping = true }) d ≡ next q) × Settled q)
        ⊎ ((q : CsvParser) × (resume_escape (record p { escaping = true }) d ≡ skip q) × Settled q)
  unfolding resume_escape
  resumed_escape_cases d inside = elim (Bool-cases (p.escape == quote)) [
    | inl esc ↦ elim (Bool-cases (d == quote)) [
      | inl doubled ↦ inr (
        record (push_char p d) { escaping = false },
        rw (esc, doubled),
        kept (p.current_field ++ d ∷ []),
      )
      | inr single ↦ inl (
        record p { quoted = false; escaping = false },
        rw (esc, single),
        record {
          no_escape = refl;
          no_newline = s.no_newline;
          no_trailing = s.no_trailing;
          no_field = λ h. s.no_field inside;
          no_record = λ h. s.no_record inside;
        },
      )
    ]
    | inr esc ↦ elim (Bool-cases (d == quote || d == p.escape)) [
      | inl special ↦ inr (
        record (push_char p d) { escaping = false },
        rw (esc, special),
        kept (p.current_field ++ d ∷ []),
      )
      | inr other ↦ inl (
        record (push_char p p.escape) { escaping = false },
        rw (esc, other),
        kept (p.current_field ++ p.escape ∷ []),
      )
    ]
  ]
    where
      kept : (text : List ℕ) → Settled (record p { current_field = text; escaping = false })
      kept text = record {
        no_escape = refl;
        no_newline = s.no_newline;
        no_trailing = s.no_trailing;
        no_field = s.no_field;
        no_record = s.no_record;
      }

-- After a round the loop is settled again, unless the call ends.
abbrev pub SettledOutcome : Outcome → Type 0
SettledOutcome (stop e q) = e ≢ ok
SettledOutcome (next q) = Settled q
SettledOutcome (skip q) = Settled q

module _ (p : CsvParser) (c : ℕ) (s : Settled p) where
  ended-SettledOutcome :
      (d : ℕ)
      → p.quoted ≡ false
      → SettledOutcome (
          if mismatch p
          then stop inconsistent_columns p
          else (if d == line_feed
              then skip (flags false true (ended p))
              else next (flags false true (ended p))))
  ended-SettledOutcome d outside = elim (Bool-cases (mismatch p)) [
    | inl wrong ↦ rw wrong inconsistent-ne-ok
    | inr right ↦ elim (Bool-cases (d == line_feed)) [
      | inl lf ↦ rw (right, lf) (ended-Settled p c s outside true)
      | inr no_lf ↦ rw (right, no_lf) (ended-Settled p c s outside true)
    ]
  ]

  pub step-SettledOutcome : (d : ℕ) → SettledOutcome (step p c (some d))
  step-SettledOutcome d = elim (step-Kind p c s) [
    | goes_on q e t ↦ subst SettledOutcome (sym (e (some d))) t
    | fails e q f ne ↦ subst SettledOutcome (sym (f (some d))) ne
    | returns outside f g ↦ subst SettledOutcome (sym (g d)) (ended-SettledOutcome d outside)
    | escapes inside f g ↦ elim (resumed_escape_cases p c s d inside) [
      | inl (q, e, t) ↦ subst SettledOutcome (sym (g d ∙ e)) t
      | inr (q, e, t) ↦ subst SettledOutcome (sym (g d ∙ e)) t
    ]
  ]
