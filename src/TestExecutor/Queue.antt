-- ===== src/TestExecutor/Queue.antt =====
-- attach_line and the loop of `main` in test_executor.py: the list of calls is a queue, and what a
-- call returns goes to its end as the next call.
pub mod TwoPhases
use krafters.Prelude.{
  ℕ, zero, suc, Bool, true, false, List, [], ◌∷◌, ◌++◌, map, Option, none, some, if◌then◌else◌,
}
use krafters.Prelude.Int.{pos}
use krafters.Text.{Text}
use krafters.TestExecutor.Errors.{
  TestException, set_line, is_line_defined, Raised, test, other, Outcome, ok, raise,
}
use krafters.TestExecutor.Parser.{Entry}
use krafters.TestExecutor.Unwrapper.{Rng, Unwrapper, Action, check}
use krafters.TestExecutor.Netem.{Remote, World, execute}

-- attach_line(fun, line) behind the call of `fun`: `some` is the call to come, `none` is None. A
-- TestException that has no line gets this one and goes on; any other exception ends here.
pub attach {ℓ} : {A : Type ℓ} → ℕ → Outcome A → Outcome (Option A)
unfolding set_line is_line_defined
attach line (ok f) = ok (some f)
attach line (raise (test e)) =
    if is_line_defined e then ok none else raise (test (set_line e (pos line)))
attach line (raise other) = ok none

-- partial(attach_line, f, line), by what `f` is: a call that checks a command, one that executes
-- it, or the None that an execution returns.
pub data Task : Type 0 where
  checking : Entry → Task
  running : Action × ℕ → Task
  finished : ℕ → Task

-- What the run works with: the fuel for the draws of one command, the draws, the CommandUnwrapper's
-- fields and the Executor's `algorithm`.
pub record Setup : Type 0 where
  pub draws : ℕ
  pub rng : Rng
  pub unwrapper : Unwrapper
  pub algorithm : Text

module _ (r : Remote) (c : Setup) where
  -- The world and the place in the stream of draws.
  pub record Machine : Type 0 where
    pub world : World r
    pub drawn : ℕ

  next_task {ℓ} : {A : Type ℓ} → (A → Task) → Outcome (Option A) → Outcome (Option Task)
  next_task f (ok none) = ok none
  next_task f (ok (some a)) = ok (some (f a))
  next_task f (raise e) = raise e

  -- command_list.pop(0)(); `none` while the draws of a command have not ended.
  pub call : Task → Machine → Option (Outcome (Option Task) × Machine)
  unfolding next_task
  call (checking e) m = elim (check c.draws c.rng m.drawn c.unwrapper e.call) [
    | none ↦ none
    | some (out, k) ↦
        some (next_task (λ a. running (a, e.line)) (attach e.line out), record m { drawn = k })
  ]
  call (running (a, line)) m =
      let (out, w) = execute r c.algorithm a m.world in
      some (next_task (λ _. finished line) (attach line out), record m { world = w })
  call (finished line) m = some (ok none, m)

  -- while command_list: ...; `none` also means that the fuel ran out.
  pub main_loop : ℕ → List Task → Machine → Option (Outcome (Unit {0}) × Machine)
  unfolding call
  main_loop zero tasks m = none
  main_loop (suc fuel) [] m = some (ok tt, m)
  main_loop (suc fuel) (t ∷ tasks) m = elim (call t m) [
    | none ↦ none
    | some (raise e, m') ↦ some (raise e, m')
    | some (ok none, m') ↦ main_loop fuel tasks m'
    | some (ok (some t'), m') ↦ main_loop fuel (tasks ++ t' ∷ []) m'
  ]

  -- The loop on the list that `parse` returns.
  pub run_file : ℕ → List Entry → Machine → Option (Outcome (Unit {0}) × Machine)
  unfolding main_loop
  run_file fuel command_list m = main_loop fuel (map checking command_list) m
