-- ===== src/TestDaemon.antt =====
-- test_daemon.py: the appends that a test measures. The clock, the databases and the cluster are
-- parameters; times are whole numbers of the clock.
pub mod Runs
pub mod Acks
pub mod Iterations
mod Tests
use krafters.Prelude.{
  ℕ, zero, suc, ◌+◌, ◌-◌, ◌%◌, Bool, true, false, ◌||◌, List, [], ◌∷◌, ◌++◌, Option, none, some,
  ltb, if◌then◌else◌, length,
}
use krafters.Prelude.Int.{ℤ, pos, negsuc}
use krafters.Text.{Text, codes, text_eq}

-- a - b
abbrev pub minus : ℕ → ℕ → ℤ
minus a b = if ltb a b then negsuc (b - a - 1) else pos (a - b)

-- What the program calls, over a state of its own: timeit.default_timer; the two queries of RethinkDB,
-- where `false` is an exception; the request to the datastore with the number in its answer.
pub record Services (E : Type 0) : Type 0 where
  pub default_timer : E → ℕ × E
  pub insert : ℕ → E → Bool × E
  pub read : E → Bool × E
  pub post : E → Option ℤ × E

-- The module's variable ITERATION, with what it calls.
abbrev pub Daemon : Type 0 → Type 0
Daemon E = ℕ × E

module _ {E : Type 0} (services : Services E) where
  -- The two queries: the second is only made if the first does not raise.
  unfoldable pub queries : ℕ → E → Bool × E
  queries iteration e =
      let (inserted, e1) = services.insert iteration e in
      if inserted then services.read e1 else (false, e1)

  -- `finally: return` swallows an exception: the time is returned in any case.
  unfoldable pub rethinkdb_append_entry : Daemon E → Option ℤ × Daemon E
  unfolding queries
  rethinkdb_append_entry (iteration, e) =
      let (t, e1) = services.default_timer e in
      let (added, e2) = queries iteration e1 in
      let (end, e3) = services.default_timer e2 in
      (some (minus end t), ((if added then (iteration + 1) % 100 else iteration), e3))

  unfoldable pub datastore_append_entry : Daemon E → Option ℤ × Daemon E
  datastore_append_entry (iteration, e) =
      let (answer, e1) = services.post e in (answer, (iteration, e1))

-- TestManager.run: `while len(results) < times`, where an exception of the append function is logged.
-- `none` says that so many calls are too few.
unfoldable pub run : {S A : Type 0} → (S → Option A × S) → ℕ → ℕ → List A → S → Option (List A × S)
run append zero times results s = if ltb (length results) times then none else some (results, s)
run append (suc calls) times results s =
    let (o, s') = append s in
    let rest = run append calls times (elim o [ none ↦ results | some t ↦ results ++ t ∷ [] ]) s' in
    if ltb (length results) times then rest else some (results, s)

-- What TestManager.__init__ chooses by the name of the algorithm; for another name the attribute is
-- missing, and run logs an AttributeError for each call.
pub data AppendFunction : Type 0 where
  rethinkdb : AppendFunction
  cluster : Text → AppendFunction
  datastore : AppendFunction
  missing : AppendFunction

unfoldable pub append_function : Text → Text → AppendFunction
unfolding text_eq
append_function algorithm_host algorithm =
    if text_eq algorithm (codes "rethinkdb")
    then rethinkdb
    else if text_eq algorithm (codes "paxos") || text_eq algorithm (codes "pso")
    then cluster (
        if text_eq algorithm_host (codes "''") || text_eq algorithm_host []
        then codes "127.0.0.1"
        else algorithm_host)
    else if text_eq algorithm (codes "datastore")
    then datastore
    else missing

-- TestManager.run with cluster_append_entry: CLUSTER_ACK, the time that append_entry has returned while
-- the loop waits for CLUSTER_ACK, and the results.
pub record Cluster : Type 0 where
  pub cluster_ack : Option ℕ
  pub res : Option ℕ
  pub results : List ℤ

-- The call of append_entry returns a time, or raises; another thread calls cluster_append_complete; the
-- loop finds that CLUSTER_ACK is set.
pub data Event : Type 0 where
  append_entry : Option ℕ → Event
  cluster_append_complete : ℕ → Event
  acknowledged : Event

unfoldable pub begin_append : ℕ → Option ℕ → Option ℕ → Cluster → Cluster
begin_append times answer none self =
    if ltb (length self.results) times then record self { res = answer } else self
begin_append times answer (some res) self = self

unfoldable pub end_append : Option ℕ → Option ℕ → Cluster → Cluster
end_append (some ack) (some res) self = record {
  cluster_ack = none;
  res = none;
  results = self.results ++ minus ack res ∷ [];
}
end_append _ _ self = self

unfoldable pub step : ℕ → Event → Cluster → Cluster
unfolding begin_append end_append
step times (append_entry answer) self = begin_append times answer self.res self
step times (cluster_append_complete time) self = record self { cluster_ack = some time }
step times acknowledged self = end_append self.cluster_ack self.res self

unfoldable pub react : ℕ → List Event → Cluster → Cluster
unfolding step
react times [] self = self
react times (e ∷ events) self = react times events (step times e self)
