-- ===== src/Tests/Csv.antt =====
-- The CSV parser on short texts: `,` is 44, `"` is 34, carriage return and line feed are 13 and 10.
use optimized_hash_join_pipe.Base.{◌≡◌, refl, List, [], ◌∷◌, ◌++◌, true, false}
use optimized_hash_join_pipe.Csv.{
  Error, ok, quote_not_closed, CsvParser, Field, new_parser, step, execute, finish,
}
use optimized_hash_join_pipe.Csv.Forget.{Agrees}
use optimized_hash_join_pipe.Csv.Settled.{Settled, ended}
use optimized_hash_join_pipe.Csv.Finish.{finish-ended}
use optimized_hash_join_pipe.Csv.Chunks.{then_execute, execute-then_execute, new_parser-Settled}

-- A comma-separated text whose escape character is the quote.
abbrev quotes_doubled : CsvParser
quotes_doubled = new_parser 34 44 false

-- A call that ends between a carriage return and its line feed.
execute-then_execute_example :
    Agrees
      (then_execute (execute quotes_doubled (97 ∷ (13 ∷ []))) (10 ∷ (98 ∷ [])))
      (execute quotes_doubled ((97 ∷ (13 ∷ [])) ++ 10 ∷ (98 ∷ [])))
execute-then_execute_example =
    execute-then_execute quotes_doubled (97 ∷ (13 ∷ [])) 10 (98 ∷ []) (new_parser-Settled 34 44)

abbrev fields_of : Error × CsvParser → List Field
fields_of (e, p) = p.fields

-- `a,"b""c"` and a line feed: the fields `a` and `b"c`.
doubled_quote :
    fields_of
      (execute quotes_doubled (97 ∷ (44 ∷ (34 ∷ (98 ∷ (34 ∷ (34 ∷ (99 ∷ (34 ∷ (10 ∷ []))))))))))
    ≡ record { col_idx = 1; row_idx = 0; text = 98 ∷ (34 ∷ (99 ∷ [])) }
      ∷ (record { col_idx = 0; row_idx = 0; text = 97 ∷ [] } ∷ [])
unfolding execute step
doubled_quote = refl

abbrev error_of : Error × CsvParser → Error
error_of (e, p) = e

abbrev state_of : Error × CsvParser → CsvParser
state_of (e, p) = p

-- A text that ends behind its closing quote is refused.
ends_in_quote :
    error_of (finish (state_of (execute quotes_doubled (34 ∷ (97 ∷ (34 ∷ [])))))) ≡ quote_not_closed
unfolding execute finish step
ends_in_quote = refl

-- The text `a` without a line end.
abbrev one_char : CsvParser
one_char = record quotes_doubled { current_field = 97 ∷ [] }

one_char-Settled : Settled one_char
one_char-Settled = record {
  no_escape = refl;
  no_newline = refl;
  no_trailing = refl;
  no_field = λ h. refl;
  no_record = λ h. refl;
}

finish-ended_example :
    (finish one_char ≡ (ok, record (ended one_char) { after_record_sep = true }))
    × (finish (record one_char { newlining = true })
        ≡ (ok, record (ended one_char) { after_record_sep = true; newlining = false }))
finish-ended_example = finish-ended one_char one_char-Settled refl refl

-- The parser comes to that state.
one_char-execute : execute quotes_doubled (97 ∷ []) ≡ (ok, one_char)
unfolding execute step
one_char-execute = refl
