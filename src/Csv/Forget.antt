-- ===== src/Csv/Forget.antt =====
-- Where records have no trailing comma, `after_field_sep_` has no effect.
use optimized_hash_join_pipe.Base.{
  ℕ, ◌==◌, ◌≡◌, refl, arith, ap, ◌∙◌, sym, subst, not, ◌&&◌, ◌||◌, if◌then◌else◌, Bool, true, false,
  Bool-cases, inl, inr, Option, some, none, Option-cases, List, [], ◌∷◌,
}
use optimized_hash_join_pipe.Csv.{
  Error, ok, CsvParser, Outcome, stop, next, skip, quote, line_feed, carriage_return, flags,
  end_record, step, loop,
}
use optimized_hash_join_pipe.Csv.Settled.{Settled, ended, mismatch, end_record-plain}
use optimized_hash_join_pipe.Csv.Resumed.{SettledOutcome, step-SettledOutcome}

abbrev pub forget : CsvParser → CsvParser
forget p = record p { after_field_sep = false }

-- The same end and the same calls of `on_field`; and the same state, if there is no error.
abbrev pub Agrees : Error × CsvParser → Error × CsvParser → Type 0
Agrees (e, p) (f, q) = (e ≡ f) × (p.fields ≡ q.fields) × (e ≡ ok → forget p ≡ forget q)

pub same-Agrees : (r s : Error × CsvParser) → r ≡ s → Agrees r s
same-Agrees r s e = (
  ap (λ (x : Error × CsvParser). x.0) e,
  ap (λ (x : Error × CsvParser). x.1.fields) e,
  λ h. ap (λ (x : Error × CsvParser). forget x.1) e,
)

abbrev erase : Outcome → Outcome
erase (stop e q) = stop e (forget q)
erase (next q) = next (forget q)
erase (skip q) = skip (forget q)

-- A line end outside of quotes.
abbrev at_line : CsvParser → ℕ → Option ℕ → Outcome
at_line p c ahead =
    if c == carriage_return
    then (elim ahead [
      | none ↦ stop ok (record p { newlining = true })
      | some d ↦
          end_record p
            (λ q. if d == line_feed then skip (flags false true q) else next (flags false true q))
    ])
    else end_record p (λ q. next (flags false true q))

module _ (p : CsvParser) (b : Bool) (plain : p.has_trailing_comma ≡ false) where
  abbrev other : CsvParser
  other = record p { after_field_sep = b }

  erase-end_record :
      (continue : CsvParser → Outcome)
      → erase (continue (ended other)) ≡ erase (continue (ended p))
      → erase (end_record other continue) ≡ erase (end_record p continue)
  erase-end_record continue same =
      ap erase (end_record-plain other continue plain)
      ∙ (elim (Bool-cases (mismatch p)) [ inl wrong ↦ rw wrong | inr right ↦ rw right same ])
      ∙ ap erase (sym (end_record-plain p continue plain))

  erase-line :
      (c : ℕ) (ahead : Option ℕ) → erase (at_line other c ahead) ≡ erase (at_line p c ahead)
  erase-line c none = elim (Bool-cases (c == carriage_return)) [
    | inl cr ↦ rw cr
    | inr lf ↦ rw lf (erase-end_record (λ q. next (flags false true q)) refl)
  ]
  erase-line c (some d) = elim (Bool-cases (c == carriage_return)) [
    | inl cr ↦ rw cr (
        erase-end_record
          (λ q. if d == line_feed then skip (flags false true q) else next (flags false true q))
          refl)
    | inr lf ↦ rw lf (erase-end_record (λ q. next (flags false true q)) refl)
  ]

  erase-step : (c : ℕ) (ahead : Option ℕ) → erase (step other c ahead) ≡ erase (step p c ahead)
  unfolding step
  erase-step c ahead =
      elim (Bool-cases (
        not (c == p.comma)
        && (not (c == line_feed)
            && (not (c == carriage_return) && (not (c == quote) && not (c == p.escape)))))) [
              | inl ordinary ↦ rw ordinary
              | inr special ↦ elim (Bool-cases (c == p.comma)) [
                | inl comma ↦ elim (Bool-cases p.quoted) [
                  | inl inside ↦ rw (special, comma, inside)
                  | inr outside ↦ rw (special, comma, outside)
                ]
                | inr comma ↦ elim (Bool-cases (c == line_feed || c == carriage_return)) [
                  | inl line ↦ elim (Bool-cases p.quoted) [
                    | inl inside ↦ rw (special, comma, line, inside)
                    | inr outside ↦
                        let from : step other c ahead ≡ at_line other c ahead =
                          rw (special, comma, line, outside) in
                        let to : step p c ahead ≡ at_line p c ahead =
                          rw (special, comma, line, outside) in
                        ap erase from ∙ erase-line c ahead ∙ ap erase (sym to)
                  ]
                  | inr line ↦ elim (Bool-cases (c == quote)) [
                    | inl q ↦ erase-quote c ahead special comma line q
                    | inr q ↦ erase-escape c ahead special comma line q
                  ]
                ]
              ]
            ]
    where
      erase-quote :
          (c : ℕ) (ahead : Option ℕ)
          → (not (c == p.comma)
              && (not (c == line_feed)
                  && (not (c == carriage_return) && (not (c == quote) && not (c == p.escape)))))
            ≡ false
          → (c == p.comma) ≡ false
          → (c == line_feed || c == carriage_return) ≡ false
          → (c == quote) ≡ true
          → erase (step other c ahead) ≡ erase (step p c ahead)
      erase-quote c ahead special comma line q = elim (Bool-cases (p.escape == quote)) [
        | inl esc ↦ elim (Bool-cases p.quoted) [
          | inl inside ↦ elim (Option-cases ahead) [
            | inl end ↦ rw (special, comma, line, q, esc, inside, end)
            | inr (d, more) ↦ elim (Bool-cases (d == quote)) [
              | inl doubled ↦ rw (special, comma, line, q, esc, inside, more, doubled)
              | inr single ↦ rw (special, comma, line, q, esc, inside, more, single)
            ]
          ]
          | inr outside ↦ rw (special, comma, line, q, esc, outside)
        ]
        | inr esc ↦ rw (special, comma, line, q, esc)
      ]

      erase-escape :
          (c : ℕ) (ahead : Option ℕ)
          → (not (c == p.comma)
              && (not (c == line_feed)
                  && (not (c == carriage_return) && (not (c == quote) && not (c == p.escape)))))
            ≡ false
          → (c == p.comma) ≡ false
          → (c == line_feed || c == carriage_return) ≡ false
          → (c == quote) ≡ false
          → erase (step other c ahead) ≡ erase (step p c ahead)
      erase-escape c ahead special comma line q = elim (Bool-cases p.quoted) [
        | inr outside ↦ rw (special, comma, line, q, outside)
        | inl inside ↦ elim (Option-cases ahead) [
          | inl end ↦ rw (special, comma, line, q, inside, end)
          | inr (d, more) ↦ elim (Bool-cases (d == quote || d == p.escape)) [
            | inl doubled ↦ rw (special, comma, line, q, inside, more, doubled)
            | inr single ↦ rw (special, comma, line, q, inside, more, single)
          ]
        ]
      ]

tag : Outcome → ℕ
tag (stop e q) = 0
tag (next q) = 1
tag (skip q) = 2

state_of : Outcome → CsvParser
state_of (stop e q) = q
state_of (next q) = q
state_of (skip q) = q

error_of : Outcome → Error
error_of (stop e q) = e
error_of _ = ok

-- Two outcomes that are the same but for the flag, and what is done with them.
follow :
    (o o' : Outcome) (k kn : CsvParser → Error × CsvParser)
    → erase o ≡ erase o'
    → ((q q' : CsvParser) → o' ≡ next q' → forget q ≡ forget q' → Agrees (k q) (k q'))
    → ((q q' : CsvParser) → o' ≡ skip q' → forget q ≡ forget q' → Agrees (kn q) (kn q'))
    → Agrees
        (elim o [ stop e q ↦ (e, q) | next q ↦ k q | skip q ↦ kn q ])
        (elim o' [ stop e q ↦ (e, q) | next q ↦ k q | skip q ↦ kn q ])
unfolding tag state_of error_of
follow (stop e q) (stop f q') k kn same hk hn =
    (ap error_of same, ap (λ (x : Outcome). (state_of x).fields) same, λ h. ap state_of same)
follow (next q) (next q') k kn same hk hn = hk q q' refl (ap state_of same)
follow (skip q) (skip q') k kn same hk hn = hn q q' refl (ap state_of same)
follow (stop e q) (next q') k kn same hk hn =
    absurd (let t : 0 ≡ 1 = ap tag same in omega (arith, t))
follow (stop e q) (skip q') k kn same hk hn =
    absurd (let t : 0 ≡ 2 = ap tag same in omega (arith, t))
follow (next q) (stop e q') k kn same hk hn =
    absurd (let t : 1 ≡ 0 = ap tag same in omega (arith, t))
follow (next q) (skip q') k kn same hk hn = absurd (let t : 1 ≡ 2 = ap tag same in omega (arith, t))
follow (skip q) (stop e q') k kn same hk hn =
    absurd (let t : 2 ≡ 0 = ap tag same in omega (arith, t))
follow (skip q) (next q') k kn same hk hn = absurd (let t : 2 ≡ 1 = ap tag same in omega (arith, t))

-- The flag of one state put into another that is the same but for it.
reflag :
    (q q' : CsvParser)
    → forget q ≡ forget q'
    → record q' { after_field_sep = q.after_field_sep } ≡ q
reflag q q' same =
    ap (λ (x : CsvParser). record x { after_field_sep = q.after_field_sep }) (sym same)

-- The flag of the state at the start changes nothing.
pub loop-forget :
    (buffer : List ℕ) (p : CsvParser) (b : Bool)
    → Settled p
    → Agrees (loop (record p { after_field_sep = b }) buffer) (loop p buffer)
unfolding loop
loop-forget [] p b s = (refl, refl, λ h. refl)
loop-forget (c ∷ []) p b s =
    follow (step (record p { after_field_sep = b }) c none) (step p c none) (λ q. (ok, q))
      (λ q. (ok, q)) (erase-step p b s.no_trailing c none)
      (λ q q' e same. (refl, ap (λ (x : CsvParser). x.fields) same, λ h. same))
      (λ q q' e same. (refl, ap (λ (x : CsvParser). x.fields) same, λ h. same))
loop-forget (c ∷ (d ∷ rest)) p b s =
    follow (step (record p { after_field_sep = b }) c (some d)) (step p c (some d))
      (λ q. loop q (d ∷ rest)) (λ q. loop q rest) (erase-step p b s.no_trailing c (some d))
      (λ q q' e same.
        subst (λ x. Agrees (loop x (d ∷ rest)) (loop q' (d ∷ rest))) (reflag q q' same)
          (loop-forget (d ∷ rest) q' q.after_field_sep
            (subst SettledOutcome e (step-SettledOutcome p c s d))))
      (λ q q' e same.
        subst (λ x. Agrees (loop x rest) (loop q' rest)) (reflag q q' same)
          (loop-forget rest q' q.after_field_sep
            (subst SettledOutcome e (step-SettledOutcome p c s d))))
