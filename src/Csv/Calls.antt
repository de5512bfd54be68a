-- ===== src/Csv/Calls.antt =====
-- A call of `execute` as the loop, and the loop by rounds.
use optimized_hash_join_pipe.Base.{
  ℕ, ◌≡◌, refl, ap, ◌∙◌, false, Option, some, none, List, [], ◌∷◌, get_or,
}
use optimized_hash_join_pipe.Csv.{
  Error, ok, CsvParser, Outcome, stop, next, skip, step, loop, resume_escape, resume_newline,
  resume, resume_after, loop_after, execute, first_char,
}
use optimized_hash_join_pipe.Csv.Settled.{Settled}

-- With nothing left open, a call is the loop.
pub resume_newline-next :
    (q : CsvParser) (first : Option ℕ) → q.newlining ≡ false → resume_newline q first ≡ next q
unfolding resume_newline
resume_newline-next q first closed = rw closed

pub resume-loop :
    (q : CsvParser) (first : Option ℕ) (left : List ℕ)
    → q.newlining ≡ false
    → resume q first left ≡ loop q left
resume-loop q first left closed = ap (λ o. loop_after o left) (resume_newline-next q first closed)

pub resume_escape-next : (q : CsvParser) (d : ℕ) → q.escaping ≡ false → resume_escape q d ≡ next q
unfolding resume_escape
resume_escape-next q d closed = rw closed

pub execute-loop : (q : CsvParser) (buffer : List ℕ) → Settled q → execute q buffer ≡ loop q buffer
unfolding execute
execute-loop q buffer s =
    ap (λ o. resume_after o buffer) (resume_escape-next q (get_or buffer 0 0) s.no_escape)
    ∙ resume-loop q (first_char buffer) buffer s.no_newline

pub loop-loop_after :
    (p : CsvParser) (c d : ℕ) (rest : List ℕ)
    → loop p (c ∷ (d ∷ rest)) ≡ loop_after (step p c (some d)) (d ∷ rest)
unfolding loop
loop-loop_after p c d rest = cases (step p c (some d))
  where
    cases :
        (o : Outcome)
        → (elim o [ stop e q ↦ (e, q) | next q ↦ loop q (d ∷ rest) | skip q ↦ loop q rest ])
          ≡ loop_after o (d ∷ rest)
    cases (stop e q) = refl
    cases (next q) = refl
    cases (skip q) = refl

-- The last character of a call.
abbrev pub last_of : Outcome → Error × CsvParser
last_of (stop e q) = (e, q)
last_of (next q) = (ok, q)
last_of (skip q) = (ok, q)

pub loop-last : (p : CsvParser) (c : ℕ) → loop p (c ∷ []) ≡ last_of (step p c none)
unfolding loop
loop-last p c = cases (step p c none)
  where
    cases :
        (o : Outcome)
        → (elim o [ stop e q ↦ (e, q) | next q ↦ (ok, q) | skip q ↦ (ok, q) ]) ≡ last_of o
    cases (stop e q) = refl
    cases (next q) = refl
    cases (skip q) = refl
