-- ===== src/Csv.antt =====
-- `CSVParser` of include/csv_parser.h and src/csv_parser.cpp. A character is its code. The calls of
-- `on_field` are collected, the newest first.
pub mod Settled
pub mod Kinds
pub mod Resumed
pub mod Forget
pub mod Calls
pub mod Chunks
pub mod Finish
use optimized_hash_join_pipe.Base.{
  ℕ, zero, suc, ◌+◌, ◌==◌, not, ◌&&◌, ◌||◌, if◌then◌else◌, Bool, true, false, List, [], ◌∷◌, ◌++◌,
  Option, some, none, get_or,
}

-- `CSVParser::Error`
pub data Error : Type 0 where
  ok quote_not_closed inconsistent_columns no_trailing_comma : Error

-- A call of `on_field`.
pub record Field : Type 0 where
  pub col_idx : ℕ
  pub row_idx : ℕ
  pub text : List ℕ

pub record CsvParser : Type 0 where
  pub escape : ℕ
  pub comma : ℕ
  pub has_trailing_comma : Bool
  pub current_field : List ℕ
  pub col_idx : ℕ
  pub row_idx : ℕ
  pub num_cols : ℕ
  pub after_first_row : Bool
  pub quoted : Bool
  pub after_field_sep : Bool
  pub after_record_sep : Bool
  pub escaping : Bool
  pub newlining : Bool
  pub fields : List Field

-- The constructor.
abbrev pub new_parser : ℕ → ℕ → Bool → CsvParser
new_parser escape sep has_trailing_comma = record {
  escape = escape;
  comma = sep;
  has_trailing_comma = has_trailing_comma;
  current_field = [];
  col_idx = 0;
  row_idx = 0;
  num_cols = 0;
  after_first_row = false;
  quoted = false;
  after_field_sep = false;
  after_record_sep = false;
  escaping = false;
  newlining = false;
  fields = [];
}

-- The characters `"`, line feed and carriage return.
abbrev pub quote : ℕ
quote = 34

abbrev pub line_feed : ℕ
line_feed = 10

abbrev pub carriage_return : ℕ
carriage_return = 13

-- `current_field_.push_back(c)`
abbrev pub push_char : CsvParser → ℕ → CsvParser
push_char p c = record p { current_field = p.current_field ++ c ∷ [] }

-- `on_field` and `current_field_.clear()`
abbrev pub emit : CsvParser → CsvParser
emit p = record p {
  current_field = [];
  fields = record { col_idx = p.col_idx; row_idx = p.row_idx; text = p.current_field } ∷ p.fields;
}

-- What a character leads to: the end of the call, or the next character, or the one after it.
pub data Outcome : Type 0 where
  stop : Error → CsvParser → Outcome
  next skip : CsvParser → Outcome

-- The number of columns of a record that ends.
abbrev pub columns : CsvParser → ℕ
columns p = if p.has_trailing_comma then p.col_idx else p.col_idx + 1

-- The end of a record, and what to do then.
unfoldable pub end_record : CsvParser → (CsvParser → Outcome) → Outcome
end_record p continue =
    if p.has_trailing_comma && not p.after_field_sep
    then stop no_trailing_comma p
    else (if p.after_first_row && not (columns p == p.num_cols)
        then stop inconsistent_columns p
        else (let q = record p { after_first_row = true; num_cols = columns p } in
            let r = if p.has_trailing_comma then q else emit q in
            continue (record r { col_idx = 0; row_idx = r.row_idx + 1 })))

-- The two flags at the end of a round.
abbrev pub flags : Bool → Bool → CsvParser → CsvParser
flags field record_sep p = record p { after_field_sep = field; after_record_sep = record_sep }

-- One round of the loop on `c`; `ahead` is the character behind it, if the buffer has one.
unfoldable pub step : CsvParser → ℕ → Option ℕ → Outcome
unfolding end_record
step p c ahead =
    if not (c == p.comma)
      && (not (c == line_feed)
          && (not (c == carriage_return) && (not (c == quote) && not (c == p.escape))))
    then next (flags false false (push_char p c))
    else (if c == p.comma
        then (if p.quoted
            then next (flags false false (push_char p c))
            else (let q = emit p in next (flags true false (record q { col_idx = q.col_idx + 1 }))))
        else (if c == line_feed || c == carriage_return
            then (if p.quoted
                then next (flags false false (push_char p c))
                else (if c == carriage_return
                    then (elim ahead [
                      | none ↦ stop ok (record p { newlining = true })
                      | some d ↦ end_record p (λ q.
                          if d == line_feed
                          then skip (flags false true q)
                          else next (flags false true q))
                    ])
                    else end_record p (λ q. next (flags false true q))))
            else (if c == quote
                then (if p.escape == quote
                    then (if p.quoted
                        then (elim ahead [
                          | none ↦ stop ok (record p { escaping = true })
                          | some d ↦
                              if d == quote
                              then skip (flags false false (push_char p c))
                              else next (flags false false (record p { quoted = false }))
                        ])
                        else next (flags false false (record p { quoted = true })))
                    else next (flags false false (record p { quoted = not p.quoted })))
                else (if p.quoted
                    then (elim ahead [
                      | none ↦ stop ok (record p { escaping = true })
                      | some d ↦
                          if d == quote || d == p.escape
                          then skip (flags false false (push_char p d))
                          else next (flags false false (push_char p p.escape))
                    ])
                    else next (flags false false (push_char p c))))))

-- The loop.
unfoldable pub loop : CsvParser → List ℕ → Error × CsvParser
loop p [] = (ok, p)
loop p (c ∷ []) = elim (step p c none) [ stop e q ↦ (e, q) | next q ↦ (ok, q) | skip q ↦ (ok, q) ]
loop p (c ∷ (d ∷ rest)) = elim (step p c (some d)) [
  | stop e q ↦ (e, q)
  | next q ↦ loop q (d ∷ rest)
  | skip q ↦ loop q rest
]

-- What the last call left open after `escaping_`, with the first character of this one. `execute`
-- of no character reads behind its buffer here: that is 0, the end of the empty literal.
unfoldable pub resume_escape : CsvParser → ℕ → Outcome
resume_escape p d =
    if p.escaping
    then (if p.escape == quote
        then (if d == quote
            then skip (record (push_char p d) { escaping = false })
            else next (record p { quoted = false; escaping = false }))
        else (if d == quote || d == p.escape
            then skip (record (push_char p d) { escaping = false })
            else next (record (push_char p p.escape) { escaping = false })))
    else next p

-- The same after `newlining_`; nothing is read of an empty buffer.
unfoldable pub resume_newline : CsvParser → Option ℕ → Outcome
unfolding end_record
resume_newline p first =
    if p.newlining
    then end_record p (λ q.
      let r = record q { after_record_sep = true; newlining = false } in
      elim first [ none ↦ next r | some d ↦ if d == line_feed then skip r else next r ])
    else next p

abbrev pub first_char : List ℕ → Option ℕ
first_char [] = none
first_char (d ∷ rest) = some d

abbrev pub later_chars : List ℕ → List ℕ
later_chars [] = []
later_chars (d ∷ rest) = rest

-- The loop from the character that an outcome says; `left` is the buffer from `i` on.
abbrev pub loop_after : Outcome → List ℕ → Error × CsvParser
loop_after (stop e q) left = (e, q)
loop_after (next q) left = loop q left
loop_after (skip q) left = loop q (later_chars left)

-- The rest of `execute` after `escaping_` has been dealt with: `first` is `buffer[0]`.
abbrev pub resume : CsvParser → Option ℕ → List ℕ → Error × CsvParser
resume p first left = loop_after (resume_newline p first) left

abbrev pub resume_after : Outcome → List ℕ → Error × CsvParser
resume_after (stop e q) buffer = (e, q)
resume_after (next q) buffer = resume q (first_char buffer) buffer
resume_after (skip q) buffer = resume q (first_char buffer) (later_chars buffer)

unfoldable pub execute : CsvParser → List ℕ → Error × CsvParser
unfolding resume_escape resume_newline loop
execute p buffer = resume_after (resume_escape p (get_or buffer 0 0)) buffer

unfoldable pub finish : CsvParser → Error × CsvParser
unfolding execute
finish p =
    if p.quoted
    then (quote_not_closed, p)
    else (if p.newlining
        then execute p []
        else (if not p.after_record_sep then execute p (line_feed ∷ []) else (ok, p)))
