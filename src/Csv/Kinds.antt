-- ===== src/Csv/Kinds.antt =====
-- The rounds of the loop by what they do with the character behind them.
use optimized_hash_join_pipe.Base.{
  ℕ, ◌+◌, ◌==◌, ◌≡◌, ◌≢◌, refl, arith, ◌∙◌, subst, not, ◌&&◌, ◌||◌, if◌then◌else◌, Bool, true,
  false, Bool-cases, inl, inr, Option, some, none,
}
use optimized_hash_join_pipe.Csv.{
  Error, ok, inconsistent_columns, CsvParser, stop, next, skip, quote, line_feed, carriage_return,
  push_char, emit, flags, end_record, step, resume_escape,
}
use optimized_hash_join_pipe.Csv.Settled.{Settled, ended, mismatch, end_record-plain}

-- What a round does: it goes on, it fails, or it looks at the character behind, and leaves the call
-- to be resumed if there is none.
pub data Kind (p : CsvParser) (c : ℕ) : Type 0 where
  goes_on : (q : CsvParser) → ((ahead : Option ℕ) → step p c ahead ≡ next q) → Settled q → Kind p c
  fails :
      (e : Error) (q : CsvParser)
      → ((ahead : Option ℕ) → step p c ahead ≡ stop e q)
      → e ≢ ok
      → Kind p c
  returns :
      p.quoted ≡ false
      → step p c none ≡ stop ok (record p { newlining = true })
      → ((d : ℕ)
          → step p c (some d) ≡ (
              if mismatch p
              then stop inconsistent_columns p
              else (if d == line_feed
                  then skip (flags false true (ended p))
                  else next (flags false true (ended p)))))
      → Kind p c
  escapes :
      p.quoted ≡ true
      → step p c none ≡ stop ok (record p { escaping = true })
      → ((d : ℕ) → step p c (some d) ≡ resume_escape (record p { escaping = true }) d)
      → Kind p c

pub inconsistent-ne-ok : inconsistent_columns ≢ ok
inconsistent-ne-ok e = subst (λ x. elim x [ ok ↦ ⊥ | _ ↦ Unit {0} ]) e tt

module _ (p : CsvParser) (c : ℕ) (s : Settled p) where
  pushed-Settled : (x : ℕ) → Settled (flags false false (push_char p x))
  pushed-Settled x = record {
    no_escape = s.no_escape;
    no_newline = s.no_newline;
    no_trailing = s.no_trailing;
    no_field = λ h. refl;
    no_record = λ h. refl;
  }

  quoted-Settled : (b : Bool) → Settled (flags false false (record p { quoted = b }))
  quoted-Settled b = record {
    no_escape = s.no_escape;
    no_newline = s.no_newline;
    no_trailing = s.no_trailing;
    no_field = λ h. refl;
    no_record = λ h. refl;
  }

  abbrev special_char : Bool
  special_char =
      not (c == p.comma)
      && (not (c == line_feed)
          && (not (c == carriage_return) && (not (c == quote) && not (c == p.escape))))

  pub ended-Settled : p.quoted ≡ false → (flag : Bool) → Settled (flags false flag (ended p))
  ended-Settled outside flag = record {
    no_escape = s.no_escape;
    no_newline = s.no_newline;
    no_trailing = s.no_trailing;
    no_field = λ h. refl;
    no_record = λ h. ground (arith, outside, h);
  }

  -- A line feed or a carriage return.
  line-Kind :
      special_char ≡ false
      → (c == p.comma) ≡ false
      → (c == line_feed || c == carriage_return) ≡ true
      → Kind p c
  unfolding step
  line-Kind special comma line = elim (Bool-cases p.quoted) [
    | inl inside ↦
        goes_on (flags false false (push_char p c)) (λ a. rw (special, comma, line, inside))
          (pushed-Settled c)
    | inr outside ↦ elim (Bool-cases (c == carriage_return)) [
      | inl cr ↦ returns outside (rw (special, comma, line, outside, cr)) (λ d.
          let goes : step p c (some d)
              ≡ end_record p (λ q.
                if d == line_feed then skip (flags false true q) else next (flags false true q)) =
            rw (special, comma, line, outside, cr) in
          (goes
            ∙ end_record-plain p
                (λ q.
                  if d == line_feed then skip (flags false true q) else next (flags false true q))
                s.no_trailing))
      | inr lf ↦ elim (Bool-cases (mismatch p)) [
        | inl wrong ↦
            fails inconsistent_columns p
              (λ a.
                let goes : step p c a ≡ end_record p (λ q. next (flags false true q)) =
                  rw (special, comma, line, outside, lf) in
                (goes
                  ∙ end_record-plain p (λ q. next (flags false true q)) s.no_trailing
                  ∙ rw wrong))
              inconsistent-ne-ok
        | inr right ↦
            goes_on (flags false true (ended p))
              (λ a.
                let goes : step p c a ≡ end_record p (λ q. next (flags false true q)) =
                  rw (special, comma, line, outside, lf) in
                (goes
                  ∙ end_record-plain p (λ q. next (flags false true q)) s.no_trailing
                  ∙ rw right))
              (ended-Settled outside true)
      ]
    ]
  ]

  abbrev waiting : CsvParser
  waiting = record p { escaping = true }

  -- A doubled quote, or a quote that ends the quotes.
  resumed_quote :
      (d : ℕ)
      → (p.escape == quote) ≡ true
      → (c == quote) ≡ true
      → p.quoted ≡ true
      → (if d == quote
          then skip (flags false false (push_char p c))
          else next (flags false false (record p { quoted = false })))
        ≡ resume_escape waiting d
  unfolding resume_escape
  resumed_quote d esc q inside = elim (Bool-cases (d == quote)) [
    | inl doubled ↦
        let same : c ≡ d = ground (arith, q, doubled) in
        rw (esc, doubled, same, s.no_field inside, s.no_record inside, s.no_escape)
    | inr single ↦ rw (esc, single, s.no_field inside, s.no_record inside, s.no_escape)
  ]

  quote-Kind :
      special_char ≡ false
      → (c == p.comma) ≡ false
      → (c == line_feed || c == carriage_return) ≡ false
      → (c == quote) ≡ true
      → Kind p c
  unfolding step
  quote-Kind special comma line q = elim (Bool-cases (p.escape == quote)) [
    | inl esc ↦ elim (Bool-cases p.quoted) [
      | inl inside ↦ escapes inside (rw (special, comma, line, q, esc, inside)) (λ d.
          let goes : step p c (some d) ≡ (
              if d == quote
              then skip (flags false false (push_char p c))
              else next (flags false false (record p { quoted = false }))) =
            rw (special, comma, line, q, esc, inside) in
          goes ∙ resumed_quote d esc q inside)
      | inr outside ↦
          goes_on (flags false false (record p { quoted = true }))
            (λ a. rw (special, comma, line, q, esc, outside)) (quoted-Settled true)
    ]
    | inr other ↦
        goes_on (flags false false (record p { quoted = not p.quoted }))
          (λ a. rw (special, comma, line, q, other)) (quoted-Settled (not p.quoted))
  ]

  -- A character behind the escape character inside quotes.
  resumed_escape :
      (d : ℕ)
      → (p.escape == quote) ≡ false
      → p.quoted ≡ true
      → (if d == quote || d == p.escape
          then skip (flags false false (push_char p d))
          else next (flags false false (push_char p p.escape)))
        ≡ resume_escape waiting d
  unfolding resume_escape
  resumed_escape d esc inside = elim (Bool-cases (d == quote || d == p.escape)) [
    | inl special ↦ rw (esc, special, s.no_field inside, s.no_record inside, s.no_escape)
    | inr other ↦ rw (esc, other, s.no_field inside, s.no_record inside, s.no_escape)
  ]

  escape-Kind :
      special_char ≡ false
      → (c == p.comma) ≡ false
      → (c == line_feed || c == carriage_return) ≡ false
      → (c == quote) ≡ false
      → Kind p c
  unfolding step
  escape-Kind special comma line q = elim (Bool-cases p.quoted) [
    | inl inside ↦
        let esc : (p.escape == quote) ≡ false = ground (arith, special, comma, line, q) in
        escapes inside (rw (special, comma, line, q, inside)) (λ d.
          let goes : step p c (some d) ≡ (
              if d == quote || d == p.escape
              then skip (flags false false (push_char p d))
              else next (flags false false (push_char p p.escape))) =
            rw (special, comma, line, q, inside) in
          goes ∙ resumed_escape d esc inside)
    | inr outside ↦
        goes_on (flags false false (push_char p c)) (λ a. rw (special, comma, line, q, outside))
          (pushed-Settled c)
  ]

  pub step-Kind : Kind p c
  unfolding step
  step-Kind = elim (Bool-cases special_char) [
    | inl plain ↦ goes_on (flags false false (push_char p c)) (λ a. rw plain) (pushed-Settled c)
    | inr special ↦ elim (Bool-cases (c == p.comma)) [
      | inl comma ↦ elim (Bool-cases p.quoted) [
        | inl inside ↦
            goes_on (flags false false (push_char p c)) (λ a. rw (special, comma, inside))
              (pushed-Settled c)
        | inr outside ↦
            goes_on (flags true false (record (emit p) { col_idx = p.col_idx + 1 }))
              (λ a. rw (special, comma, outside))
              (record {
                no_escape = s.no_escape;
                no_newline = s.no_newline;
                no_trailing = s.no_trailing;
                no_field = λ h. ground (arith, outside, h);
                no_record = λ h. refl;
              })
      ]
      | inr comma ↦ elim (Bool-cases (c == line_feed || c == carriage_return)) [
        | inl line ↦ line-Kind special comma line
        | inr line ↦ elim (Bool-cases (c == quote)) [
          | inl q ↦ quote-Kind special comma line q
          | inr q ↦ escape-Kind special comma line q
        ]
      ]
    ]
  ]
