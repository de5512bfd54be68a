-- ===== src/Csv/Finish.antt =====
-- The end of the text.
use optimized_hash_join_pipe.Base.{
  ◌==◌, ◌≡◌, refl, ap, ◌∙◌, if◌then◌else◌, Bool, true, false, Bool-cases, inl, inr, none, [], ◌∷◌,
}
use optimized_hash_join_pipe.Csv.{
  ok, inconsistent_columns, CsvParser, stop, next, line_feed, flags, end_record, step, loop,
  resume_newline, resume_after, loop_after, execute, finish,
}
use optimized_hash_join_pipe.Csv.Settled.{Settled, ended, mismatch, end_record-plain}
use optimized_hash_join_pipe.Csv.Calls.{resume_escape-next, execute-loop, last_of, loop-last}

module _ (p : CsvParser) (s : Settled p) where
  step-line_feed :
      (line_feed == p.comma) ≡ false
      → p.quoted ≡ false
      → step p line_feed none
        ≡ (if mismatch p then stop inconsistent_columns p else next (flags false true (ended p)))
  unfolding step
  step-line_feed comma outside =
      let goes : step p line_feed none ≡ end_record p (λ q. next (flags false true q)) =
        rw (comma, outside) in
      goes ∙ end_record-plain p (λ q. next (flags false true q)) s.no_trailing

  last_of-if :
      (b : Bool) (q r : CsvParser)
      → last_of (if b then stop inconsistent_columns q else next r)
        ≡ (if b then (inconsistent_columns, q) else (ok, r))
  last_of-if true q r = refl
  last_of-if false q r = refl

  finish-line_feed :
      (line_feed == p.comma) ≡ false
      → p.quoted ≡ false
      → p.after_record_sep ≡ false
      → finish p
        ≡ (if mismatch p then (inconsistent_columns, p) else (ok, flags false true (ended p)))
  unfolding finish
  finish-line_feed comma outside unended =
      let goes : finish p ≡ execute p (line_feed ∷ []) = rw (outside, s.no_newline, unended) in
      goes
      ∙ execute-loop p (line_feed ∷ []) s
      ∙ loop-last p line_feed
      ∙ ap last_of (step-line_feed comma outside)
      ∙ last_of-if (mismatch p) p (flags false true (ended p))

  abbrev after_return : CsvParser
  after_return = record p { newlining = true }

  abbrev closed : CsvParser
  closed = record (ended after_return) { after_record_sep = true; newlining = false }

  resume_newline-none :
      resume_newline after_return none
      ≡ (if mismatch p then stop inconsistent_columns after_return else next closed)
  unfolding resume_newline
  resume_newline-none =
      end_record-plain after_return
        (λ q. next (record q { after_record_sep = true; newlining = false })) s.no_trailing

  loop_after-if :
      (b : Bool) (q r : CsvParser)
      → loop_after (if b then stop inconsistent_columns q else next r) []
        ≡ (if b then (inconsistent_columns, q) else (ok, r))
  unfolding loop
  loop_after-if true q r = refl
  loop_after-if false q r = refl

  finish-carriage_return :
      p.quoted ≡ false
      → finish after_return
        ≡ (if mismatch p then (inconsistent_columns, after_return) else (ok, closed))
  unfolding finish execute
  finish-carriage_return outside =
      let goes : finish after_return ≡ execute after_return [] = rw outside in
      goes
      ∙ ap (λ o. resume_after o []) (resume_escape-next after_return 0 s.no_escape)
      ∙ ap (λ o. loop_after o []) resume_newline-none
      ∙ loop_after-if (mismatch p) after_return closed

-- Outside quotes, where records have no trailing comma and the separator is not the line feed, with
-- no escape or carriage return left open: `finish` does nothing behind a line end; else it reports
-- the last field and ends its record, or fails if the record has not as many columns as the first;
-- and it does the same behind a carriage return that is left open.
pub finish-ended :
    (p : CsvParser)
    → Settled p
    → (line_feed == p.comma) ≡ false
    → p.quoted ≡ false
    → (finish p ≡ (
        if p.after_record_sep
        then (ok, p)
        else (if mismatch p then (inconsistent_columns, p) else (ok, flags false true (ended p)))))
      × (finish (record p { newlining = true }) ≡ (
          if mismatch p
          then (inconsistent_columns, record p { newlining = true })
          else (ok, record (ended p) { after_record_sep = true; newlining = false })))
unfolding finish
finish-ended p s comma outside = (
  elim (Bool-cases p.after_record_sep) [
    | inl at_end ↦ rw (outside, s.no_newline, at_end)
    | inr unended ↦ finish-line_feed p s comma outside unended ∙ rw unended
  ],
  finish-carriage_return p s outside,
)
