-- ===== src/TestExecutor/Unwrapper.antt =====
-- CommandUnwrapper of test_executor.py: checks the ids of a command and resolves "all" and "rand".
pub mod Draws
pub mod Resolved
pub mod Ids
pub mod RandomLinks
pub mod Failures
use krafters.Prelude.{
  ℕ, zero, suc, ◌+◌, ◌-◌, ◌%◌, Bool, true, false, ◌&&◌, ◌||◌, List, [], ◌∷◌, ◌++◌, map, Option,
  none, some, ltb, ◌==◌, if◌then◌else◌, length,
}
use krafters.Sets.{contains, add}
use krafters.Text.{Text, codes, isdigit, parse_int, text_eq, str}
use krafters.TestExecutor.Errors.{
  ErrorType, id_error, local_execution_error, test_exception, Raised, test, other, Outcome, ok,
  raise, ◌>>=◌,
}
use krafters.TestExecutor.Line.{
  Command, modify_link_from_to, modify_random_link, reset, run_command,
}

-- An element of `sources` or `targets`: parsed lines hold strings, modify_random_link passes ints.
pub data Name : Type 0 where
  word : Text → Name
  int : ℕ → Name

-- What the tests on a string make of it: `value.isdigit()`, `value == "rand"`, `value == "all"`.
pub data Kind : Type 0 where
  digits : ℕ → Kind
  rand all invalid : Kind

unfoldable pub kind_of : Text → Kind
unfolding isdigit parse_int text_eq
kind_of value = elim (parse_int value) [
  | some n ↦ digits n
  | none ↦
      if text_eq value (codes "rand")
      then rand
      else if text_eq value (codes "all")
      then all
      else invalid
]

-- The CommandUnwrapper's fields, `executor` aside.
pub record Unwrapper : Type 0 where
  pub nodes_number : ℕ
  pub local_execution : Bool

-- `random`: the draws to come. `rng k` is the k-th raw value, and `randrange(n)` reads it modulo n.
abbrev pub Rng : Type 0
Rng = ℕ → ℕ

abbrev pub randrange : Rng → ℕ → ℕ → ℕ
randrange rng k n = rng k % n

-- A first pass over the ids: `referred_ids` and the number of "rand". An int has no `isdigit`.
unfoldable pub referred : List Name → List ℕ → ℕ → Outcome (List ℕ × ℕ)
unfolding kind_of add
referred [] ids count = ok (ids, count)
referred (int i ∷ names) ids count = raise other
referred (word value ∷ names) ids count = elim (kind_of value) [
  | digits n ↦ referred names (add n ids) count
  | rand ↦ referred names ids (suc count)
  | _ ↦ referred names ids count
]

-- while random_values_count > 0: ...; `none` means that the fuel ran out.
unfoldable pub draw_values : ℕ → Rng → ℕ → ℕ → List ℕ → ℕ → List ℕ → Option (List ℕ × ℕ)
unfolding contains
draw_values fuel rng n k ids zero values = some (values, k)
draw_values zero rng n k ids (suc count) values = none
draw_values (suc fuel) rng n k ids (suc count) values =
    let ran = randrange rng k n + 1 in
    elim (contains ran ids) [
      | true ↦ draw_values fuel rng n (suc k) ids (suc count) values
      | false ↦ draw_values fuel rng n (suc k) (ids ++ ran ∷ []) count (values ++ ran ∷ [])
    ]

-- for i in range(1, nodes_number + 1): result.add(i)
unfoldable pub add_all : ℕ → List ℕ → List ℕ
unfolding add
add_all zero result = result
add_all (suc n) result = add (suc n) (add_all n result)

-- TestException(ID_ERROR, ...)
id_failure : Text → Text → Raised
id_failure value end = test (test_exception id_error (codes "Id " ++ (value ++ end)))

-- resolve(ids, random_values), with what is left of the list it pops from
unfoldable pub resolve : ℕ → List Name → List ℕ → List ℕ → Outcome (List ℕ × List ℕ)
unfolding kind_of add add_all id_failure
resolve n [] values result = ok (result, values)
resolve n (int i ∷ names) values result = raise other
resolve n (word value ∷ names) values result = elim (kind_of value) [
  | digits i ↦
      let rest = resolve n names values (add i result) in
      if ltb n i then raise (id_failure value (codes " out of range ")) else rest
  | rand ↦ elim values [ [] ↦ raise other | v ∷ vs ↦ resolve n names vs (add v result) ]
  | all ↦ resolve n names values (add_all n result)
  | invalid ↦ raise (id_failure value (codes " is not valid"))
]

-- The two calls of `resolve` that end resolve_ids.
unfoldable pub resolve_both : ℕ → List Name → List Name → List ℕ → Outcome (List ℕ × List ℕ)
unfolding resolve
resolve_both n sources targets values = do
  from_sources ← resolve n sources values []
  from_targets ← resolve n targets from_sources.1 []
  ok (from_sources.0, from_targets.0)

too_many : Raised
too_many = test (test_exception id_error (codes "'Rand' keyword has been used too many times!"))

-- The sets of ids with the place in the stream of draws; `none` while the draws have not ended.
abbrev pub Drawn : Type 0 → Type 0
Drawn A = Option (Outcome A × ℕ)

unfoldable pub resolve_ids : ℕ → Rng → ℕ → ℕ → List Name → List Name → Drawn (List ℕ × List ℕ)
unfolding referred draw_values resolve_both too_many
resolve_ids fuel rng k n sources targets = elim (referred (sources ++ targets) [] 0) [
  | raise e ↦ some (raise e, k)
  | ok (ids, count) ↦
      if ltb n (length ids + count)
      then some (raise too_many, k)
      else elim (draw_values fuel rng n k ids count []) [
        | none ↦ none
        | some (values, k') ↦ some (resolve_both n sources targets values, k')
      ]
]

-- partial(self.executor.run_command, ...) and partial(self.executor.modify_link_from_to, ...)
pub data Action : Type 0 where
  run : ℕ → Text → Action
  modify : (sources targets : List ℕ) → Text → Bool → Action

-- The guard of a local execution. `targets < nodes_number - 1` compares a set with an int, which is
-- a TypeError; `or` and `and` reach it only behind the other tests.
unfoldable pub local_guard : Unwrapper → List ℕ → Bool → Outcome (Unit {0})
local_guard u sources bidirectional =
    if u.local_execution
    then (if ltb (length sources) (u.nodes_number - 1)
        then raise (
            test (
              test_exception local_execution_error
                (codes "impossible to specify single sources in local commands")))
        else if bidirectional
        then raise other
        else ok tt)
    else ok tt

finish_link : Unwrapper → Text → Bool → Outcome (List ℕ × List ℕ) → Outcome Action
unfolding local_guard
finish_link u netem_command bidirectional resolved = do
  ids ← resolved
  _ ← local_guard u ids.0 bidirectional
  ok (modify ids.0 ids.1 netem_command bidirectional)

unfoldable pub modify_links :
    ℕ → Rng → ℕ → Unwrapper → List Name → List Name → Text → Bool → Drawn Action
unfolding resolve_ids finish_link
modify_links fuel rng k u sources targets netem_command bidirectional =
    elim (resolve_ids fuel rng k u.nodes_number sources targets) [
      | none ↦ none
      | some (resolved, k') ↦ some (finish_link u netem_command bidirectional resolved, k')
    ]

-- The sets that modify_random_link fills. A key "s-t" of `selected` is the pair of its numbers.
pub record Links : Type 0 where
  pub n_selected : ℕ
  pub sources : List ℕ
  pub targets : List ℕ
  pub selected : List (ℕ × ℕ)

selected_has : ℕ × ℕ → List (ℕ × ℕ) → Bool
selected_has p [] = false
selected_has p (q ∷ qs) = q.0 == p.0 && q.1 == p.1 || selected_has p qs

-- The body of its outer loop behind the draws.
select : ℕ → ℕ → Bool → Links → Links
unfolding selected_has add
select source target bidirectional l =
    if selected_has (source, target) l.selected then l else record {
      n_selected = suc l.n_selected;
      sources = add source l.sources;
      targets = add target l.targets;
      selected =
          (source, target) ∷ (if bidirectional then (target, source) ∷ l.selected else l.selected);
    }

-- Its two loops, with one draw to a unit of fuel: `from` holds the source while a target is drawn.
unfoldable pub select_links : ℕ → Rng → ℕ → ℕ → ℕ → Bool → Option ℕ → Links → Option (Links × ℕ)
unfolding select
select_links zero rng k n wanted bidirectional from l = elim from [
  | none ↦ if ltb l.n_selected wanted then none else some (l, k)
  | some s ↦ none
]
select_links (suc fuel) rng k n wanted bidirectional none l = elim (ltb l.n_selected wanted) [
  | false ↦ some (l, k)
  | true ↦ select_links fuel rng (suc k) n wanted bidirectional (some (randrange rng k n + 1)) l
]
select_links (suc fuel) rng k n wanted bidirectional (some source) l =
    let target = randrange rng k n + 1 in
    elim (target == source) [
      | true ↦ select_links fuel rng (suc k) n wanted bidirectional (some source) l
      | false ↦
          select_links fuel rng (suc k) n wanted bidirectional none
            (select source target bidirectional l)
    ]

abbrev no_links : Links
no_links = record { n_selected = 0; sources = []; targets = []; selected = [] }

-- A draw from no nodes is a ValueError, which the loop meets if a link is wanted.
unfoldable pub modify_random_links : ℕ → Rng → ℕ → Unwrapper → ℕ → Text → Bool → Drawn Action
unfolding select_links modify_links
modify_random_links fuel rng k u connection_number netem_command bidirectional =
    if u.nodes_number == 0 && ltb 0 connection_number
    then some (raise other, k)
    else elim (select_links fuel rng k u.nodes_number connection_number bidirectional none
        no_links) [
          | none ↦ none
          | some (l, k') ↦
              modify_links fuel rng k' u (map int l.sources) (map int l.targets) netem_command
                bidirectional
        ]

-- The call that `parse` wraps: the CommandUnwrapper's method with the line's arguments.
unfoldable pub check : ℕ → Rng → ℕ → Unwrapper → Command → Drawn Action
unfolding modify_links modify_random_links
check fuel rng k u (run_command n_op label) = some (ok (run n_op label), k)
check fuel rng k u (modify_link_from_to sources targets netem_command bidirectional) =
    modify_links fuel rng k u (map word sources) (map word targets) netem_command bidirectional
check fuel rng k u (modify_random_link connection_number netem_command bidirectional) =
    modify_random_links fuel rng k u connection_number netem_command bidirectional
check fuel rng k u reset =
    modify_links fuel rng k u (word (codes "all") ∷ []) (word (codes "all") ∷ [])
      (codes "delay 0ms") false
