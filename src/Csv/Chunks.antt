-- ===== src/Csv/Chunks.antt =====
-- A buffer given in two calls of `execute` is parsed as in one.
use optimized_hash_join_pipe.Base.{
  ℕ, ◌==◌, ◌≡◌, ◌≢◌, refl, ap, ◌∙◌, sym, subst, if◌then◌else◌, Bool, true, false, Bool-cases, inl,
  inr, some, none, List, [], ◌∷◌, ◌++◌,
}
use optimized_hash_join_pipe.Csv.{
  Error, ok, quote_not_closed, inconsistent_columns, no_trailing_comma, CsvParser, Outcome, stop,
  next, skip, line_feed, flags, step, loop, resume_escape, resume_newline, resume_after, loop_after,
  execute, new_parser,
}
use optimized_hash_join_pipe.Csv.Settled.{Settled, ended, mismatch, end_record-plain}
use optimized_hash_join_pipe.Csv.Resumed.{resumed_escape_cases, SettledOutcome, step-SettledOutcome}
use optimized_hash_join_pipe.Csv.Kinds.{goes_on, fails, returns, escapes, step-Kind, ended-Settled}
use optimized_hash_join_pipe.Csv.Forget.{Agrees, same-Agrees, loop-forget}
use optimized_hash_join_pipe.Csv.Calls.{
  resume-loop, resume_escape-next, execute-loop, loop-loop_after, last_of, loop-last,
}

-- A second call, unless the first one failed.
abbrev pub then_execute : Error × CsvParser → List ℕ → Error × CsvParser
then_execute (ok, q) more = execute q more
then_execute (quote_not_closed, q) more = (quote_not_closed, q)
then_execute (inconsistent_columns, q) more = (inconsistent_columns, q)
then_execute (no_trailing_comma, q) more = (no_trailing_comma, q)

failed : (e : Error) (q : CsvParser) (more : List ℕ) → e ≢ ok → then_execute (e, q) more ≡ (e, q)
failed ok q more ne = absurd (ne refl)
failed quote_not_closed q more ne = refl
failed inconsistent_columns q more ne = refl
failed no_trailing_comma q more ne = refl

-- A line end, and what the next character says of it.
abbrev line_outcome : CsvParser → ℕ → Outcome
line_outcome p d =
    if mismatch p
    then stop inconsistent_columns p
    else (if d == line_feed
        then skip (flags false true (ended p))
        else next (flags false true (ended p)))

module _ (p : CsvParser) (c : ℕ) (s : Settled p) (d : ℕ) (rest : List ℕ) where
  abbrev left_open : CsvParser
  left_open = record p { newlining = true }

  abbrev resumed_end : CsvParser
  resumed_end = record (ended left_open) { after_record_sep = true; newlining = false }

  resume_newline-cases : resume_newline left_open (some d) ≡ (
      if mismatch p
      then stop inconsistent_columns left_open
      else (if d == line_feed then skip resumed_end else next resumed_end))
  unfolding resume_newline
  resume_newline-cases =
      end_record-plain left_open
        (λ q.
          let r = record q { after_record_sep = true; newlining = false } in
          if d == line_feed then skip r else next r)
        s.no_trailing

  resumed_end-flags :
      resumed_end ≡ record (flags false true (ended p)) { after_field_sep = p.after_field_sep }
  resumed_end-flags =
      ap
        (λ (x : Bool). record (flags false true (ended p)) {
          after_field_sep = p.after_field_sep;
          newlining = x;
        })
        (sym s.no_newline)

  same_end :
      (left : List ℕ)
      → p.quoted ≡ false
      → Agrees (loop resumed_end left) (loop (flags false true (ended p)) left)
  same_end left outside =
      subst (λ x. Agrees (loop x left) (loop (flags false true (ended p)) left))
        (sym resumed_end-flags)
        (loop-forget left (flags false true (ended p)) p.after_field_sep
          (ended-Settled p c s outside true))

  -- After a carriage return at the end of a call.
  resumed_line :
      p.quoted ≡ false
      → Agrees (execute left_open (d ∷ rest)) (loop_after (line_outcome p d) (d ∷ rest))
  unfolding execute
  resumed_line outside =
      subst (λ r. Agrees r (loop_after (line_outcome p d) (d ∷ rest)))
        (sym (
          ap (λ o. resume_after o (d ∷ rest)) (resume_escape-next left_open d s.no_escape)
          ∙ ap (λ o. loop_after o (d ∷ rest)) resume_newline-cases))
        (elim (Bool-cases (mismatch p)) [
          | inl wrong ↦ rw wrong (refl, refl, λ h. absurd (bad h))
          | inr right ↦ elim (Bool-cases (d == line_feed)) [
            | inl lf ↦ rw (right, lf) (same_end rest outside)
            | inr no_lf ↦ rw (right, no_lf) (same_end (d ∷ rest) outside)
          ]
        ])
    where
      bad : inconsistent_columns ≢ ok
      bad e = subst (λ x. elim x [ ok ↦ ⊥ | _ ↦ Unit {0} ]) e tt

  resumed_char :
      p.quoted ≡ true
      → execute (record p { escaping = true }) (d ∷ rest)
        ≡ loop_after (resume_escape (record p { escaping = true }) d) (d ∷ rest)
  unfolding execute
  resumed_char inside = elim (resumed_escape_cases p c s d inside) [
    | inl (q, e, t) ↦
        ap (λ o. resume_after o (d ∷ rest)) e
        ∙ resume-loop q (some d) (d ∷ rest) t.no_newline
        ∙ sym (ap (λ o. loop_after o (d ∷ rest)) e)
    | inr (q, e, t) ↦
        ap (λ o. resume_after o (d ∷ rest)) e
        ∙ resume-loop q (some d) rest t.no_newline
        ∙ sym (ap (λ o. loop_after o (d ∷ rest)) e)
  ]

-- One round in the middle of a buffer, for a result that goes on in the same way.
after_round :
    (o : Outcome) (d : ℕ) (left : List ℕ) (d' : ℕ) (more : List ℕ)
    → SettledOutcome o
    → ((q : CsvParser)
        → Settled q
        → Agrees (then_execute (loop q (d ∷ left)) (d' ∷ more)) (loop q ((d ∷ left) ++ d' ∷ more)))
    → ((q : CsvParser)
        → Settled q
        → Agrees (then_execute (loop q left) (d' ∷ more)) (loop q (left ++ d' ∷ more)))
    → Agrees
        (then_execute (loop_after o (d ∷ left)) (d' ∷ more))
        (loop_after o ((d ∷ left) ++ d' ∷ more))
after_round (stop e q) d left d' more ne hn hs = same-Agrees _ _ (failed e q (d' ∷ more) ne)
after_round (next q) d left d' more t hn hs = hn q t
after_round (skip q) d left d' more t hn hs = hs q t

-- Two outcomes of the last character, without and with the one behind it.
join :
    (o o' t t' : Outcome) (d : ℕ) (more : List ℕ)
    → o ≡ t
    → o' ≡ t'
    → Agrees (then_execute (last_of t) (d ∷ more)) (loop_after t' (d ∷ more))
    → Agrees (then_execute (last_of o) (d ∷ more)) (loop_after o' (d ∷ more))
join o o' t t' d more e e' h =
    subst (λ x. Agrees (then_execute (last_of x) (d ∷ more)) (loop_after o' (d ∷ more))) (sym e)
      (subst (λ x. Agrees (then_execute (last_of t) (d ∷ more)) (loop_after x (d ∷ more))) (sym e')
        h)

last-then_execute :
    (p : CsvParser) (c d : ℕ) (more : List ℕ)
    → Settled p
    → Agrees
        (then_execute (last_of (step p c none)) (d ∷ more))
        (loop_after (step p c (some d)) (d ∷ more))
last-then_execute p c d more s = elim (step-Kind p c s) [
  | goes_on q e t ↦
      join (step p c none) (step p c (some d)) (next q) (next q) d more (e none) (e (some d))
        (same-Agrees (execute q (d ∷ more)) (loop q (d ∷ more)) (execute-loop q (d ∷ more) t))
  | fails e q f ne ↦
      join (step p c none) (step p c (some d)) (stop e q) (stop e q) d more (f none) (f (some d))
        (same-Agrees (then_execute (e, q) (d ∷ more)) (e, q) (failed e q (d ∷ more) ne))
  | returns outside f g ↦
      join (step p c none) (step p c (some d)) (stop ok (record p { newlining = true }))
        (line_outcome p d) d more f (g d) (resumed_line p c s d more outside)
  | escapes inside f g ↦
      join (step p c none) (step p c (some d)) (stop ok (record p { escaping = true }))
        (resume_escape (record p { escaping = true }) d) d more f (g d)
        (same-Agrees (execute (record p { escaping = true }) (d ∷ more))
          (loop_after (resume_escape (record p { escaping = true }) d) (d ∷ more))
          (resumed_char p c s d more inside))
]

loop-then_execute :
    (buffer : List ℕ) (d : ℕ) (more : List ℕ) (p : CsvParser)
    → Settled p
    → Agrees (then_execute (loop p buffer) (d ∷ more)) (loop p (buffer ++ d ∷ more))
unfolding loop
loop-then_execute [] d more p s = same-Agrees _ _ (execute-loop p (d ∷ more) s)
loop-then_execute (c ∷ []) d more p s =
    subst (λ r. Agrees (then_execute r (d ∷ more)) (loop p (c ∷ (d ∷ more)))) (sym (loop-last p c))
      (subst (Agrees (then_execute (last_of (step p c none)) (d ∷ more)))
        (sym (loop-loop_after p c d more)) (last-then_execute p c d more s))
loop-then_execute (c ∷ (b ∷ left)) d more p s =
    subst (λ r. Agrees (then_execute r (d ∷ more)) (loop p (c ∷ (b ∷ (left ++ d ∷ more)))))
      (sym (loop-loop_after p c b left))
      (subst (Agrees (then_execute (loop_after (step p c (some b)) (b ∷ left)) (d ∷ more)))
        (sym (loop-loop_after p c b (left ++ d ∷ more)))
        (after_round (step p c (some b)) b left d more (step-SettledOutcome p c s b)
          (λ q t. loop-then_execute (b ∷ left) d more q t)
          (λ q t. loop-then_execute left d more q t)))

-- Where records have no trailing comma, and at the start no carriage return or escape is left open
-- and no separator flag is set inside quotes, a buffer given in two calls, the second of them not
-- empty, is parsed as in one: with the same end, the same calls of `on_field`, and, if there is no
-- error, the same state but for `after_field_sep_`. The first call may end anywhere, also between a
-- carriage return and its line feed, or behind an escape character or a quote.
pub execute-then_execute :
    (p : CsvParser) (buffer : List ℕ) (d : ℕ) (more : List ℕ)
    → Settled p
    → Agrees (then_execute (execute p buffer) (d ∷ more)) (execute p (buffer ++ d ∷ more))
execute-then_execute p buffer d more s =
    subst (λ r. Agrees (then_execute r (d ∷ more)) (execute p (buffer ++ d ∷ more)))
      (sym (execute-loop p buffer s))
      (subst (Agrees (then_execute (loop p buffer) (d ∷ more)))
        (sym (execute-loop p (buffer ++ d ∷ more) s)) (loop-then_execute buffer d more p s))

pub new_parser-Settled : (escape sep : ℕ) → Settled (new_parser escape sep false)
new_parser-Settled escape sep = record {
  no_escape = refl;
  no_newline = refl;
  no_trailing = refl;
  no_field = λ h. refl;
  no_record = λ h. refl;
}
