-- ===== src/TestExecutor/Parser/Rounds.antt =====
-- Single rounds of the loop of `parse`: at a plain line, at a `do`, and at an `n times`.
use krafters.Prelude.{
  ℕ, zero, suc, ◌≤◌, ◌<◌, ◌≡◌, refl, List, [], ◌∷◌, ◌++◌, some, arith, length, get_elem?, set,
  length-append, length-set, get_elem?-set_self, get_elem?-set_ne, get_elem?-append_left,
  get_elem?-append_last,
}
use native.Mathlib.Decide.{dec_lt}
use mathlib.Core.List.{append-nil}
use krafters.Prelude.Int.{ℤ, pos, negsuc, incr, decr}
use krafters.Text.{Text, rstrip}
use krafters.TestExecutor.Errors.{ok}
use krafters.TestExecutor.Line.{Line, blank, command, open_do, times, unknown, fails, read_line}
use krafters.TestExecutor.Parser.{
  Pointer, Entry, State, open_pointer, do_line, line_effect, round_end, round,
}
use krafters.TestExecutor.Parser.Script.{IsPlain, calls}

-- `do_open` with `d` loops open.
abbrev pub depth : ℕ → ℤ
depth zero = negsuc 0
depth (suc d) = pos d

abbrev pub state : ℕ → ℕ → List Pointer → List Entry → State
state i d ps cs = record { index = i; do_open = depth d; pointers = ps; commands_list = cs }

abbrev pub Agree : ℕ → List Pointer → List Pointer → Type 0
Agree d ps qs = (k : ℕ) → k < d → get_elem? qs k ≡ get_elem? ps k

-- A round at a line whose reading is known.
pub round_lem :
    (s : State) (raw : Text) (l : Line)
    → read_line raw ≡ l
    → round s raw ≡ round_end (rstrip raw) s.index l (line_effect s l)
unfolding round
round_lem s raw l q = rw q

module _ (i d : ℕ) (ps : List Pointer) (cs : List Entry) (raw : Text) where
  pub plain_end :
      (l : Line)
      → IsPlain l
      → round_end raw i l (line_effect (state i d ps cs) l)
        ≡ ok (state (suc i) d ps (cs ++ calls l i))
  unfolding round_end line_effect
  plain_end blank h = rw append-nil
  plain_end (command c) h = refl
  plain_end open_do h = absurd h
  plain_end (times n) h = absurd h
  plain_end unknown h = absurd h
  plain_end fails h = absurd h

abbrev pub fresh : ℕ → Pointer
fresh i = record { start = i; repetition = 1 }

-- The pointers behind a `do` at line `i` that opens loop `d`.
pub record Opened (d : ℕ) (p : Pointer) (ps qs : List Pointer) : Type 0 where
  pub long : suc d ≤ length qs
  pub top : get_elem? qs d ≡ some p
  pub agree : Agree d ps qs

append-Opened :
    (d : ℕ) (p : Pointer) (ps : List Pointer) → d ≡ length ps → Opened d p ps (ps ++ p ∷ [])
append-Opened d p ps e = record {
  long = omega (arith, length-append ps (p ∷ []));
  top = rw e (get_elem?-append_last ps p);
  agree = λ k h. get_elem?-append_left ps (p ∷ []) k (omega arith);
}

set-Opened : (d : ℕ) (p : Pointer) (ps : List Pointer) → d < length ps → Opened d p ps (set ps d p)
set-Opened d p ps h = record {
  long = omega (arith, length-set ps d p);
  top = get_elem?-set_self ps d p h;
  agree = λ k lt. get_elem?-set_ne ps d k p (omega arith);
}

pub open_pointer-Opened :
    (d i : ℕ) (ps : List Pointer)
    → d ≤ length ps
    → (qs : List Pointer) × (open_pointer (pos d) i ps ≡ some qs) × Opened d (fresh i) ps qs
unfolding open_pointer
open_pointer-Opened d i ps h = elim (dec_lt d (length ps)) [
  | yes lt ↦ (set ps d (fresh i), ground arith, set-Opened d (fresh i) ps lt)
  | no ge ↦ (ps ++ fresh i ∷ [], ground arith, append-Opened d (fresh i) ps (omega arith))
]

incr-depth : (d : ℕ) → incr (depth d) ≡ pos d
incr-depth zero = refl
incr-depth (suc d) = refl

decr-pos : (d : ℕ) → decr (pos d) ≡ depth d
decr-pos zero = refl
decr-pos (suc d) = refl

pub open_end :
    (i d : ℕ) (ps qs : List Pointer) (cs : List Entry) (raw : Text)
    → open_pointer (pos d) i ps ≡ some qs
    → round_end raw i open_do (line_effect (state i d ps cs) open_do)
      ≡ ok (state (suc i) (suc d) qs cs)
unfolding round_end line_effect
open_end i d ps qs cs raw h = rw (do_line, incr-depth, h) (rw incr-depth)

-- The end of the body of loop `d`, whose pointer is `p`.
module _ (i d n : ℕ) (ps : List Pointer) (cs : List Entry) (raw : Text) (p : Pointer)
    (long : d < length ps) (top : get_elem? ps d ≡ some p) where
  pub again :
      p.repetition < n
      → round_end raw i (times n) (line_effect (state i (suc d) ps cs) (times n))
        ≡ ok
            (state (suc p.start) (suc d) (set ps d (record p { repetition = suc p.repetition })) cs)
  unfolding round_end line_effect
  again h = ground arith

  pub leave :
      n ≤ p.repetition
      → round_end raw i (times n) (line_effect (state i (suc d) ps cs) (times n))
        ≡ ok (state (suc i) d ps cs)
  unfolding round_end line_effect
  leave h = ground (arith, decr-pos d)
