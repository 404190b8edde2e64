-- ===== src/TestExecutor/Queue/TwoPhases.antt =====
-- The queue runs a test file in two passes: every command is checked, in order, before the first is
-- executed.
use krafters.Prelude.{
  ℕ, zero, suc, ◌+◌, ◌*◌, ◌<◌, ◌≡◌, refl, sym, ap, ◌∙◌, inl, inr, List, [], ◌∷◌, ◌++◌, map, Option,
  none, some, arith, length, length-append, Option-cases,
}
use mathlib.Core.List.{append_assoc, append-nil}
use krafters.TestExecutor.Errors.{Outcome, ok, raise, Outcome-cases}
use krafters.TestExecutor.Parser.{Entry}
use krafters.TestExecutor.Unwrapper.{Action, check}
use krafters.TestExecutor.Netem.{Remote, World, execute}
use krafters.TestExecutor.Queue.{
  attach, Task, checking, running, finished, Setup, Machine, next_task, call, main_loop, run_file,
}

moved {ℓ} :
    {A : Type ℓ} (f : A → Task) (xs : List Task) (ys : List A) (y : A)
    → (xs ++ map f ys) ++ f y ∷ [] ≡ xs ++ map f (ys ++ y ∷ [])
moved f [] [] y = refl
moved f [] (x ∷ ys) y = ap (λ ts. f x ∷ ts) (moved f [] ys y)
moved f (x ∷ xs) ys y = ap (λ ts. x ∷ ts) (moved f xs ys y)

module _ (r : Remote) (c : Setup) where
  abbrev Checked : Type 0
  Checked = Option (Outcome (List (Action × ℕ)) × ℕ)

  -- A command that passed goes in front of those behind it.
  keep : Action × ℕ → Checked → Checked
  keep a none = none
  keep a (some (raise e, k)) = some (raise e, k)
  keep a (some (ok as_, k)) = some (ok (a ∷ as_), k)

  abbrev kept_or : Outcome (Option Action) → ℕ → ℕ → Checked → Checked
  kept_or (ok none) line k rest = rest
  kept_or (ok (some a)) line k rest = keep (a, line) rest
  kept_or (raise e) line k rest = some (raise e, k)

  -- The first pass: the actions of the commands that pass their check, each with its line.
  pub check_all : List Entry → ℕ → Checked
  unfolding keep
  check_all [] k = some (ok [], k)
  check_all (e ∷ es) k = elim (check c.draws c.rng k c.unwrapper e.call) [
    | none ↦ none
    | some (out, k') ↦ kept_or (attach e.line out) e.line k' (check_all es k')
  ]

  abbrev stop_or :
      Outcome (Option (Unit {0}))
      → World r
      → Outcome (Unit {0}) × World r
      → Outcome (Unit {0}) × World r
  stop_or (raise e) w rest = (raise e, w)
  stop_or (ok o) w rest = rest

  -- The second pass: the actions in order, up to a TestException.
  pub execute_all : List (Action × ℕ) → World r → Outcome (Unit {0}) × World r
  execute_all [] w = (ok tt, w)
  execute_all ((a, line) ∷ rest) w =
      let (out, w') = execute r c.algorithm a w in
      stop_or (attach line out) w' (execute_all rest w')

  ended : Outcome (Unit {0}) × World r → ℕ → Option (Outcome (Unit {0}) × Machine r c)
  ended (out, w) k = some (out, record { world = w; drawn = k })

  finish : List (Action × ℕ) → World r → Checked → Option (Outcome (Unit {0}) × Machine r c)
  unfolding ended
  finish done w none = none
  finish done w (some (raise e, k)) = some (raise e, record { world = w; drawn = k })
  finish done w (some (ok more, k)) = ended (execute_all (done ++ more) w) k

  pub two_phases : List Entry → Machine r c → Option (Outcome (Unit {0}) × Machine r c)
  unfolding check_all finish
  two_phases es m = finish [] m.world (check_all es m.drawn)

  drain :
      (fuel : ℕ) (ls : List ℕ) (m : Machine r c)
      → length ls < fuel
      → main_loop r c fuel (map finished ls) m ≡ some (ok tt, m)
  unfolding main_loop
  drain zero ls m h = absurd (omega arith)
  drain (suc fuel) [] m h = refl
  drain (suc fuel) (l ∷ ls) m h = drain fuel ls m (omega arith)

  second_pass :
      (fuel : ℕ) (todo : List (Action × ℕ)) (ls : List ℕ) (m : Machine r c)
      → 2 * length todo + length ls < fuel
      → main_loop r c fuel (map running todo ++ map finished ls) m
        ≡ ended (execute_all todo m.world) m.drawn
  unfolding main_loop execute_all ended
  second_pass fuel [] ls m h = drain fuel ls m (omega arith)
  second_pass zero (t ∷ todo) ls m h = absurd (omega arith)
  second_pass (suc fuel) ((a, line) ∷ todo) ls m h =
      elim (Outcome-cases (attach line (execute r c.algorithm a m.world).0)) [
        | inr (e, q) ↦ rw (q, main_loop, call, next_task) refl
        | inl (none, q) ↦
            rw (q, main_loop, call, next_task)
              (second_pass fuel todo ls (record m { world = (execute r c.algorithm a m.world).1 })
                (omega arith))
        | inl (some u, q) ↦
            rw (q, main_loop, call, next_task, moved finished (map running todo) ls line)
              (second_pass fuel todo (ls ++ line ∷ [])
                (record m { world = (execute r c.algorithm a m.world).1 })
                (omega (arith, length-append ls (line ∷ []))))
      ]

  finish-keep :
      (done : List (Action × ℕ)) (w : World r) (a : Action × ℕ) (rest : Checked)
      → finish (done ++ a ∷ []) w rest ≡ finish done w (keep a rest)
  unfolding finish keep
  finish-keep done w a none = refl
  finish-keep done w a (some (raise e, k)) = refl
  finish-keep done w a (some (ok more, k)) = rw append_assoc

  first_pass :
      (fuel : ℕ) (es : List Entry) (done : List (Action × ℕ)) (m : Machine r c)
      → 3 * length es + 2 * length done < fuel
      → main_loop r c fuel (map checking es ++ map running done) m
        ≡ finish done m.world (check_all es m.drawn)
  unfolding main_loop check_all finish
  first_pass fuel [] done m h = rw append-nil (
      ap (λ ts. main_loop r c fuel ts m) (sym (append-nil _))
      ∙ second_pass fuel done [] m (omega arith))
  first_pass zero (e ∷ es) done m h = absurd (omega arith)
  first_pass (suc fuel) (e ∷ es) done m h =
      elim (Option-cases (check c.draws c.rng m.drawn c.unwrapper e.call)) [
        | inl q ↦ rw (q, main_loop, call, check_all)
        | inr ((out, k), q) ↦ elim (Outcome-cases (attach e.line out)) [
          | inr (x, g) ↦ rw (q, g, main_loop, call, next_task, check_all)
          | inl (none, g) ↦
              rw (q, g, main_loop, call, next_task, check_all)
                (first_pass fuel es done (record m { drawn = k }) (omega arith))
          | inl (some a, g) ↦
              rw
                (
                  q,
                  g,
                  main_loop,
                  call,
                  next_task,
                  check_all,
                  moved running (map checking es) done (a, e.line),
                )
                (first_pass fuel es (done ++ (a, e.line) ∷ []) (record m { drawn = k })
                    (omega (arith, length-append done ((a, e.line) ∷ [])))
                  ∙ finish-keep done m.world (a, e.line) (check_all es k))
        ]
      ]

  -- Checks before executions. With a round of fuel for each of the three calls that a command goes
  -- through, the queue first checks all commands in order, and stops there, with the world as it was,
  -- at the first TestException; then it executes the actions of those that passed, in order, up to
  -- the first TestException. A command whose check raises another error is dropped.
  pub run_file-two_phases :
      (fuel : ℕ) (es : List Entry) (m : Machine r c)
      → 3 * length es < fuel
      → run_file r c fuel es m ≡ two_phases es m
  unfolding run_file two_phases
  run_file-two_phases fuel es m h =
      ap (λ ts. main_loop r c fuel ts m) (sym (append-nil _))
      ∙ first_pass fuel es [] m (omega arith)
