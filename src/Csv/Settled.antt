-- ===== src/Csv/Settled.antt =====
-- The parser between two characters.
use optimized_hash_join_pipe.Base.{◌+◌, ◌==◌, ◌≡◌, not, ◌&&◌, if◌then◌else◌, Bool, true, false}
use optimized_hash_join_pipe.Csv.{inconsistent_columns, CsvParser, Outcome, stop, emit, end_record}

-- Between two characters: nothing is left open, and no flag is set inside quotes.
pub record Settled (p : CsvParser) : Type 0 where
  pub no_escape : p.escaping ≡ false
  pub no_newline : p.newlining ≡ false
  pub no_trailing : p.has_trailing_comma ≡ false
  pub no_field : p.quoted ≡ true → p.after_field_sep ≡ false
  pub no_record : p.quoted ≡ true → p.after_record_sep ≡ false

-- The ends of a record, where the records have no trailing comma.
abbrev pub ended : CsvParser → CsvParser
ended p = record (emit (record p { after_first_row = true; num_cols = p.col_idx + 1 })) {
  col_idx = 0;
  row_idx = p.row_idx + 1;
}

abbrev pub mismatch : CsvParser → Bool
mismatch p = p.after_first_row && not (p.col_idx + 1 == p.num_cols)

pub end_record-plain :
    (p : CsvParser) (continue : CsvParser → Outcome)
    → p.has_trailing_comma ≡ false
    → end_record p continue
      ≡ (if mismatch p then stop inconsistent_columns p else continue (ended p))
unfolding end_record
end_record-plain p continue plain = rw plain
