-- ===== src/TestDaemon/Tests.antt =====
-- The test daemon on concrete inputs.
use krafters.Prelude.{
  ℕ, ◌+◌, ◌%◌, ◌≡◌, refl, Bool, true, false, List, [], ◌∷◌, Option, none, some, length, arith,
  if◌then◌else◌, ◌==◌,
}
use krafters.Prelude.Int.{ℤ, negsuc}
use krafters.Text.{codes, text_eq}
use krafters.TestDaemon.{
  Services, run, rethinkdb_append_entry, append_function, cluster, missing, react, queries,
}
use krafters.TestDaemon.Runs.{results_of, successes, run-successes, rethinkdb_append_entry_ends}
use krafters.TestDaemon.Acks.{ready, early, react-shifted_times}
use krafters.TestDaemon.Iterations.{append_many, added, append_many-added}

-- A clock that ticks, and a database that refuses its first insert.
abbrev services : Services (ℕ × Bool)
services = record {
  default_timer = λ e. (e.0, (e.0 + 3, e.1));
  insert = λ iteration e. (e.1, (e.0, true));
  read = λ e. (true, e);
  post = λ e. (none, e);
}

local_host : append_function (codes "''") (codes "pso") ≡ cluster (codes "127.0.0.1")
unfolding append_function text_eq
local_host = refl

no_such_algorithm : append_function (codes "h") (codes "raft") ≡ missing
unfolding append_function text_eq
no_such_algorithm = refl

-- An append that raises at every second call.
abbrev flaky : ℕ → Option ℕ × ℕ
flaky n = (if n % 2 == 0 then none else some n, n + 1)

run-successes_example : results_of (run flaky 5 2 [] 0) ≡ some (1 ∷ 3 ∷ [])
unfolding successes
run-successes_example = run-successes flaky 5 2 0

rethinkdb_append_entry_ends_example :
    (results : List ℤ) × (results_of (run (rethinkdb_append_entry services) 2 2 [] (99, (0, false)))
      ≡ some results)
    × (length results ≡ 2)
rethinkdb_append_entry_ends_example = rethinkdb_append_entry_ends services 2 (99, (0, false))

append_many-added_example : (append_many services 3 (99, (0, false))).0 ≡ 1
unfolding added queries rethinkdb_append_entry
append_many-added_example = append_many-added services 3 (99, (0, false)) (omega arith)

react-shifted_times_example :
    react 2 (early ((10, 14) ∷ (20, 25) ∷ [])) (ready (some 9) [])
    ≡ ready (some 25) (negsuc 0 ∷ negsuc 5 ∷ [])
react-shifted_times_example = react-shifted_times 2 9 ((10, 14) ∷ (20, 25) ∷ []) [] (omega arith)
