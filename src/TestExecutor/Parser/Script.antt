-- ===== src/TestExecutor/Parser/Script.antt =====
-- Test files with their loops nested, and the calls that they stand for.
use krafters.Prelude.{ℕ, zero, suc, ◌+◌, ◌≡◌, List, [], ◌∷◌, ◌++◌, length}
use Prim.Native.Nat.{max}
use krafters.Text.{Text}
use krafters.TestExecutor.Line.{Line, blank, command, open_do, times, read_line}
use krafters.TestExecutor.Parser.{Entry}

-- A test file with its loops nested.
pub data Script : Type 0 where
  done : Script
  line : Text → Script → Script
  repeat : (opening : Text) → (body : Script) → (closing : Text) → (rest : Script) → Script

abbrev pub lines : Script → List Text
lines done = []
lines (line t rest) = t ∷ lines rest
lines (repeat opening body closing rest) = opening ∷ (lines body ++ closing ∷ lines rest)

abbrev pub IsPlain : Line → Type 0
IsPlain blank = Unit {0}
IsPlain (command c) = Unit {0}
IsPlain _ = ⊥

abbrev pub IsTimes : Line → Type 0
IsTimes (times n) = Unit {0}
IsTimes _ = ⊥

-- The lines are read as what they stand for.
abbrev pub IsScript : Script → Type 0
IsScript done = Unit {0}
IsScript (line t rest) = IsPlain (read_line t) × IsScript rest
IsScript (repeat opening body closing rest) =
    (read_line opening ≡ open_do) × IsTimes (read_line closing) × IsScript body × IsScript rest

abbrev pub calls : Line → ℕ → List Entry
calls (command c) i = record { call = c; line = suc i } ∷ []
calls _ i = []

-- A body runs at least once: its count is compared after the pass.
abbrev pub rounds : Line → ℕ
rounds (times n) = max 1 n
rounds _ = 0

abbrev pub copies {ℓ} : {A : Type ℓ} → ℕ → List A → List A
copies zero xs = []
copies (suc n) xs = xs ++ copies n xs

-- The calls of a script whose first line has index `i`.
abbrev pub unroll : ℕ → Script → List Entry
unroll i done = []
unroll i (line t rest) = calls (read_line t) i ++ unroll (suc i) rest
unroll i (repeat opening body closing rest) =
    copies (rounds (read_line closing)) (unroll (suc i) body)
    ++ unroll (suc (suc i + length (lines body))) rest
