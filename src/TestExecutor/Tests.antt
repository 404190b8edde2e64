-- ===== src/TestExecutor/Tests.antt =====
-- Concrete runs of test_executor.py: a small test file, a cluster of three nodes and a network that
-- keeps the requests that it gets.
use krafters.Prelude.{
  ℕ, zero, suc, ◌+◌, ◌-◌, ◌*◌, ◌/◌, ◌%◌, ◌≤◌, ◌≡◌, ◌≢◌, ◌↔◌, refl, ◌⊎◌, Bool, true, false, List, [],
  ◌∷◌, ◌++◌, some, arith, length,
}
use krafters.Text.{Text, codes}
use krafters.TestExecutor.Errors.{Outcome, ok, raise, other}
use krafters.TestExecutor.Line.{
  modify_link_from_to, modify_random_link, reset, run_command, read_line,
}
use krafters.TestExecutor.Parser.{Entry, parse}
use krafters.TestExecutor.Parser.Script.{Script, done, line, repeat, IsScript, lines, unroll}
use krafters.TestExecutor.Parser.Unroll.{parse-unroll}
use krafters.TestExecutor.Parser.Total.{parse_ends}
use krafters.Sets.{contains}
use krafters.TestExecutor.Unwrapper.{
  Name, word, kind_of, Unwrapper, Rng, resolve_ids, check, modify,
}
use krafters.TestExecutor.Unwrapper.Draws.{IsFair, DrawsEnd, draw_values_ends}
use krafters.TestExecutor.Unwrapper.RandomLinks.{PairsComeUp}
use krafters.TestExecutor.Unwrapper.Resolved.{Mentions, HasAll}
use krafters.TestExecutor.Unwrapper.Ids.{All, resolve_ids_range, resolve_ids_disjoint}
use krafters.TestExecutor.Unwrapper.Failures.{
  check-modify_random_link, check-local_bidirectional, check-reset,
}
use krafters.TestExecutor.Netem.{Remote, World, modify_connections}
use krafters.TestExecutor.Netem.Requests.{send_all, requests_for, modify_connections-send}
use krafters.TestExecutor.Queue.{Setup, Machine, run_file}
use krafters.TestExecutor.Queue.TwoPhases.{two_phases, run_file-two_phases}

-- do, run 5, 2 times, on a cluster of three.
abbrev two_runs : Script
two_runs = repeat (codes "do") (line (codes "run 5 fast") done) (codes "2 times") done

two_runs-IsScript : IsScript two_runs
unfolding read_line
two_runs-IsScript = (refl, tt, (tt, tt), tt)

parse-unroll_example :
    (enough : ℕ) × ((fuel : ℕ)
      → enough ≤ fuel
      → parse fuel (lines two_runs)
        ≡ some (
            ok (
              unroll 0 two_runs
              ++ record { call = reset; line = suc (length (lines two_runs)) } ∷ [])))
parse-unroll_example = parse-unroll two_runs two_runs-IsScript

-- Two `do` for one `times`, and a line that is no command.
abbrev unbalanced : List Text
unbalanced = codes "do" ∷ codes "do" ∷ codes "3 times" ∷ codes "fly" ∷ []

parse_ends_example :
    (enough : ℕ) × (r : Outcome (List Entry)) × ((fuel : ℕ)
      → enough ≤ fuel
      → parse fuel unbalanced ≡ some r)
parse_ends_example = parse_ends unbalanced

-- 0, 1, 2, ...
abbrev counting : Rng
counting k = k

abbrev one_rand : List Name
one_rand = word (codes "1") ∷ word (codes "rand") ∷ []

abbrev just_rand : List Name
just_rand = word (codes "rand") ∷ []

abbrev two : List Name
two = word (codes "2") ∷ []

one_rand_resolved :
    resolve_ids 9 counting 0 4 one_rand just_rand ≡ some (ok (1 ∷ 2 ∷ [], 3 ∷ []), 3)
unfolding resolve_ids
one_rand_resolved = refl

resolve_ids_range_example :
    All (λ v. (v ≤ 4) × ((1 ≤ v) ⊎ Mentions v one_rand)) (1 ∷ 2 ∷ [])
    × All (λ v. (v ≤ 4) × ((1 ≤ v) ⊎ Mentions v just_rand)) (3 ∷ [])
resolve_ids_range_example =
    resolve_ids_range 9 counting 0 3 4 one_rand just_rand (1 ∷ 2 ∷ []) (3 ∷ []) (omega arith)
      one_rand_resolved

no_all_one_rand : ¬ HasAll one_rand
unfolding kind_of
no_all_one_rand h = ground arith

no_all_just_rand : ¬ HasAll just_rand
unfolding kind_of
no_all_just_rand h = ground arith

no_mention_just_rand : ¬ (Mentions 2 one_rand × Mentions 2 just_rand)
unfolding kind_of
no_mention_just_rand h = ground arith

resolve_ids_disjoint_example : ¬ ((contains 2 (1 ∷ 2 ∷ []) ≡ true) × (contains 2 (3 ∷ []) ≡ true))
resolve_ids_disjoint_example =
    resolve_ids_disjoint 9 counting 0 3 4 one_rand just_rand (1 ∷ 2 ∷ []) (3 ∷ []) 2 (omega arith)
      no_all_one_rand no_all_just_rand no_mention_just_rand one_rand_resolved

-- Four nodes.
abbrev cluster : Bool → Unwrapper
cluster is_local = record { nodes_number = 4; local_execution = is_local }

-- 0, 0, 1, 1, and so on; two nodes.
abbrev twice_each : Rng
twice_each k = k / 2

twice_each-PairsComeUp : PairsComeUp twice_each 2
twice_each-PairsComeUp s t hs ht apart k =
    let d : ℕ = (4 + 2 * s - k % 4) % 4 in
    let other : s + t ≡ 1 = ground arith in (d, omega arith, omega arith, omega arith)

check-modify_random_link_example :
    (enough : ℕ) × (k' : ℕ) × ((fuel : ℕ)
      → enough ≤ fuel
      → check fuel twice_each 1
          (record { nodes_number = 2; local_execution = false })
          (modify_random_link 1 (codes " delay 1s") false)
        ≡ some (raise other, k'))
check-modify_random_link_example =
    check-modify_random_link twice_each 1 (record { nodes_number = 2; local_execution = false }) 1
      (codes " delay 1s") false (omega arith) (omega arith) twice_each-PairsComeUp

check-local_bidirectional_example :
    check 9 counting 0
      (cluster true)
      (modify_link_from_to (codes "all" ∷ []) (codes "2" ∷ []) (codes " delay 1s") true)
    ≢ some (ok (modify (1 ∷ 2 ∷ 3 ∷ 4 ∷ []) (2 ∷ []) (codes " delay 1s") true), 0)
check-local_bidirectional_example =
    check-local_bidirectional 9 counting 0 (cluster true) (codes "all" ∷ []) (codes "2" ∷ [])
      (codes " delay 1s") (modify (1 ∷ 2 ∷ 3 ∷ 4 ∷ []) (2 ∷ []) (codes " delay 1s") true) 0 refl

check-reset_example :
    (nodes : List ℕ) × (check 9 counting 0 (cluster true) reset
      ≡ some (ok (modify nodes nodes (codes "delay 0ms") false), 0))
    × ((v : ℕ) → (contains v nodes ≡ true) ↔ ((1 ≤ v) × (v ≤ 4)))
check-reset_example = check-reset 9 counting 0 (cluster true) (omega arith)

-- A cluster that grants every request but those about node 3, and keeps them.
abbrev keeping : Remote
keeping = record {
  Net = List (ℕ × ℕ);
  Time = ℕ;
  clean_all_qdisc = λ node net. (ok true, net);
  create_root_qdisc = λ node net. (ok true, net);
  init_qdisc = λ node net. (ok true, net);
  modify_outgoing_connection = λ node target rule net.
      (ok (elim target [ suc (suc (suc zero)) ↦ false | _ ↦ true ]), net ++ (node, target) ∷ []);
  run_test = λ n_op net. (ok (n_op ∷ []), net);
}

abbrev started : World keeping
started = record { net = []; nodes_rpc = 1 ∷ 2 ∷ 3 ∷ 4 ∷ []; rows = [] }

modify_connections-send_example :
    modify_connections keeping (1 ∷ 2 ∷ []) (2 ∷ 3 ∷ []) (codes "delay 1s") true started
    ≡ send_all keeping (codes "delay 1s") (requests_for (1 ∷ 2 ∷ []) (2 ∷ 3 ∷ []) true) started
modify_connections-send_example =
    modify_connections-send keeping (codes "delay 1s") (1 ∷ 2 ∷ []) (2 ∷ 3 ∷ []) true started

abbrev setup : Setup
setup = record { draws = 9; rng = counting; unwrapper = cluster false; algorithm = codes "paxos" }

abbrev machine : Machine keeping setup
machine = record { world = started; drawn = 0 }

-- A link from a node that is out of range behind a run.
abbrev commands : List Entry
commands =
    record { call = run_command 5 (codes "fast"); line = 1 }
    ∷ record {
      call = modify_link_from_to (codes "9" ∷ []) (codes "all" ∷ []) (codes " delay 1s") false;
      line = 2;
    }
    ∷ []

run_file-two_phases_example :
    run_file keeping setup 7 commands machine ≡ two_phases keeping setup commands machine
run_file-two_phases_example = run_file-two_phases keeping setup 7 commands machine (omega arith)

counting-IsFair : IsFair counting 3
counting-IsFair v h k = ((v + 2 * k), omega arith)

draw_values_ends_example : DrawsEnd counting 3 0 (1 ∷ 2 ∷ []) 1 []
draw_values_ends_example =
    draw_values_ends counting 3 counting-IsFair 1 (1 ∷ 2 ∷ []) [] 0 (omega arith)
