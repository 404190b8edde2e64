-- ===== src/TestGenerator/Repeats.antt =====
-- What test_executor.py makes of the files of `repeat` and `repeat_all` of test_generator.py.
use krafters.Prelude.{ℕ, suc, ◌≡◌, refl, ap, ◌∙◌, List, [], ◌∷◌, ◌++◌, some, get_elem?}
use krafters.Prelude.Int.{pos}
use krafters.Text.{Text, codes, rstrip}
use krafters.TestExecutor.Errors.{syntax_error, test_exception, set_line, test, raise, ok, Raised}
use krafters.TestExecutor.Line.{Line, unknown, open_do, read_line}
use krafters.TestExecutor.Parser.{
  State, init, parse, loop, round, round_end, line_effect, do_line, with_reset,
}
use krafters.TestGenerator.{Test, repeat, repeat_all, indented, times_line}
use krafters.TestGenerator.Lines.{read_line-do, read_line-tab}

-- The parser's outcome: a syntax error of the second line.
abbrev pub Rejected : ℕ → List Text → Type 0
Rejected fuel file =
    (message : Text) × (parse fuel file
      ≡ some (raise (test (set_line (test_exception syntax_error message) (pos 2)))))

-- A round of the parser at a line that is read as something.
round_reads :
    (s : State) (raw : Text) (l : Line)
    → read_line raw ≡ l
    → round s raw ≡ round_end (rstrip raw) s.index l (line_effect s l)
unfolding round
round_reads s raw l e = ap (λ l. round_end (rstrip raw) s.index l (line_effect s l)) e

loop_goes :
    (fuel : ℕ) (file : List Text) (s t : State) (raw : Text)
    → get_elem? file s.index ≡ some raw
    → round s raw ≡ ok t
    → loop (suc fuel) file s ≡ loop fuel file t
unfolding loop
loop_goes fuel file s t raw e q = rw (e, q, loop) refl

loop_raises :
    (fuel : ℕ) (file : List Text) (s : State) (e : Raised) (raw : Text)
    → get_elem? file s.index ≡ some raw
    → round s raw ≡ raise e
    → loop (suc fuel) file s ≡ some (raise e)
unfolding loop
loop_raises fuel file s e raw at_ q = rw (at_, q, loop) refl

-- Behind a line `do` at the beginning.
abbrev opened : State
opened = record {
  index = 1;
  do_open = pos 0;
  pointers = (record { start = 0; repetition = 1 }) ∷ [];
  commands_list = [];
}

round_do : round init (codes "do") ≡ ok opened
unfolding round_end line_effect do_line
round_do = round_reads init (codes "do") open_do read_line-do

round_tab :
    (l : Text) (c : ℕ) (t : Text)
    → rstrip l ≡ c ∷ t
    → (message : Text) × (round opened (9 ∷ l)
        ≡ raise (test (set_line (test_exception syntax_error message) (pos 2))))
unfolding round_end line_effect
round_tab l c t e = (
  codes "Command '" ++ (rstrip (9 ∷ l) ++ codes "' is unknown"),
  round_reads opened (9 ∷ l) unknown (read_line-tab l c t e),
)

rejects :
    (fuel : ℕ) (l : Text) (rest : List Text) (c : ℕ) (t : Text)
    → rstrip l ≡ c ∷ t
    → Rejected (suc (suc fuel)) (codes "do" ∷ (9 ∷ l) ∷ rest)
unfolding parse
rejects fuel l rest c t e =
    let file = with_reset (codes "do" ∷ (9 ∷ l) ∷ rest) in
    let (message, raised) = round_tab l c t e in
    (
      message,
      loop_goes (suc fuel) file init opened (codes "do") refl round_do
          ∙ loop_raises fuel file opened _ (9 ∷ l) refl raised,
    )

-- What `repeat` and `repeat_all` write is rejected. For every test whose first line is not blank, every
-- number of times and at least two rounds of fuel, the executor's parser ends with a syntax error at the
-- second line, on the file of a new test that repeats the test and on the file of the test after
-- repeat_all: the tab before the line is in none of its patterns.
pub parse-repeat :
    (fuel times : ℕ) (l : Text) (lines : Test) (c : ℕ) (t : Text)
    → rstrip l ≡ c ∷ t
    → Rejected (suc (suc fuel)) (repeat (l ∷ lines) times [])
      × Rejected (suc (suc fuel)) (repeat_all times (l ∷ lines))
unfolding repeat repeat_all
parse-repeat fuel times l lines c t e =
    let rest = indented lines ++ times_line times ∷ [] in
    (rejects fuel l rest c t e, rejects fuel l rest c t e)
