-- ===== src/TestExecutor/Parser.antt =====
-- Parser.parse of test_executor.py: the loop over the lines of a test file, with `do` and `n times`.
pub mod Steps
pub mod Total
pub mod Script
pub mod Rounds
pub mod Unroll
use krafters.Prelude.{
  ℕ, suc, ◌+◌, Bool, true, false, List, [], ◌∷◌, ◌++◌, Option, none, some, ltb, if◌then◌else◌,
  length, get_elem?, set,
}
use krafters.Prelude.Int.{ℤ, pos, negsuc, incr, decr, py_index}
use krafters.Text.{Text, codes, rstrip}
use krafters.TestExecutor.Errors.{
  TestException, syntax_error, test_exception, set_line, Raised, test, Outcome, ok, raise,
}
use krafters.TestExecutor.Line.{
  Command, Line, blank, command, open_do, times, unknown, fails, read_line,
}

-- {"start": index, "repetition": n}
pub record Pointer : Type 0 where
  pub start : ℕ
  pub repetition : ℕ

-- partial(attach_line, partial(function, *arguments), index + 1)
pub record Entry : Type 0 where
  pub call : Command
  pub line : ℕ

-- The variables of the loop. (`unknown_command`, `function` and `arguments` live for one round.)
pub record State : Type 0 where
  pub index : ℕ
  pub do_open : ℤ
  pub pointers : List Pointer
  pub commands_list : List Entry

abbrev pub init : State
init = record { index = 0; do_open = negsuc 0; pointers = []; commands_list = [] }

-- pointers[k]; `none` is the IndexError.
unfoldable pub pointer_at : ℤ → List Pointer → Option Pointer
pointer_at k ps = elim (py_index k (length ps)) [ none ↦ none | some i ↦ get_elem? ps i ]

-- pointers[k] = p, for the two assignments to its fields
unfoldable pub put_pointer : ℤ → Pointer → List Pointer → Option (List Pointer)
put_pointer k p ps = elim (py_index k (length ps)) [ none ↦ none | some i ↦ some (set ps i p) ]

-- len(pointers) < do_open + 1
unfoldable pub needs_pointer : ℤ → List Pointer → Bool
needs_pointer (pos k) ps = ltb (length ps) (suc k)
needs_pointer (negsuc k) ps = false

-- The `do` branch, after `do_open += 1`.
unfoldable pub open_pointer : ℤ → ℕ → List Pointer → Option (List Pointer)
unfolding needs_pointer put_pointer
open_pointer k index ps =
    let fresh : Pointer = record { start = index; repetition = 1 } in
    if needs_pointer k ps then some (ps ++ fresh ∷ []) else put_pointer k fresh ps

-- The end of a round, `index += 1`.
abbrev pub next_line : State → State
next_line s = record s { index = suc s.index }

-- The `do` branch; `none` is an exception.
unfoldable pub do_line : State → Option State
unfolding open_pointer
do_line s = elim (open_pointer (incr s.do_open) s.index s.pointers) [
  | none ↦ none
  | some ps ↦ some (record s { do_open = incr s.do_open; pointers = ps })
]

-- pointers[do_open] and its repetitions against the number of the line
close_loop : State → ℕ → Pointer → Option State
unfolding put_pointer
close_loop s n p =
    if ltb p.repetition n
    then elim (put_pointer s.do_open (record p { repetition = suc p.repetition }) s.pointers) [
      | none ↦ none
      | some ps ↦ some (record s { index = p.start; pointers = ps })
    ]
    else some (record s { do_open = decr s.do_open })

-- The `n times` branch; `none` is an exception.
unfoldable pub times_line : State → ℕ → Option State
unfolding pointer_at close_loop
times_line s n = elim (pointer_at s.do_open s.pointers) [ none ↦ none | some p ↦ close_loop s n p ]

-- The body of the try block with the tests after it. `none` is an exception in the try block.
unfoldable pub line_effect : State → Line → Option State
unfolding do_line times_line
line_effect s blank = some s
line_effect s (command c) =
    some (record s {
      commands_list = s.commands_list ++ (record { call = c; line = suc s.index }) ∷ [];
    })
line_effect s open_do = do_line s
line_effect s (times n) = times_line s n
line_effect s unknown = some s
line_effect s fails = none

-- TestException(SYNTAX_ERROR, message, index + 1)
syntax_failure : Text → ℕ → Raised
unfolding set_line
syntax_failure message index =
    test (set_line (test_exception syntax_error message) (pos (suc index)))

syntax_message : Text → Text
syntax_message line = codes "Syntax error in command '" ++ (line ++ codes "'")

unknown_message : Text → Text
unknown_message line = codes "Command '" ++ (line ++ codes "' is unknown")

abbrev pub Round : Type 0
Round = Outcome State

-- One round of the while loop, at a line of the file.
unfoldable pub round_end : Text → ℕ → Line → Option State → Round
unfolding syntax_failure syntax_message unknown_message
round_end line index l none = raise (syntax_failure (syntax_message line) index)
round_end line index unknown (some s) = raise (syntax_failure (unknown_message line) index)
round_end line index l (some s) = ok (next_line s)

unfoldable pub round : State → Text → Round
unfolding line_effect round_end read_line rstrip
round s raw = round_end (rstrip raw) s.index (read_line raw) (line_effect s (read_line raw))

-- while index < len(test_file): ...; `none` means that the fuel ran out.
unfoldable pub loop : ℕ → List Text → State → Option (Outcome (List Entry))
unfolding round
loop ℕ.zero file s = none
loop (suc fuel) file s = elim (get_elem? file s.index) [
  | none ↦ some (ok s.commands_list)
  | some raw ↦ elim (round s raw) [ ok s' ↦ loop fuel file s' | raise e ↦ some (raise e) ]
]

-- test_file.append("reset"), which comes before the loop
abbrev pub with_reset : List Text → List Text
with_reset test_file = test_file ++ codes "reset" ∷ []

unfoldable pub parse : ℕ → List Text → Option (Outcome (List Entry))
unfolding loop
parse fuel test_file = loop fuel (with_reset test_file) init
