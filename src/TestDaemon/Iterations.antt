-- ===== src/TestDaemon/Iterations.antt =====
-- rethinkdb_append_entry, called again and again.
use krafters.Prelude.{
  ℕ, zero, suc, ◌+◌, ◌%◌, ◌<◌, ◌≡◌, ◌∙◌, Bool, true, false, arith, if◌then◌else◌,
}
use krafters.TestDaemon.{Services, Daemon, rethinkdb_append_entry, queries}

module _ {E : Type 0} (services : Services E) where
  abbrev one_more : Bool → ℕ → ℕ
  one_more added n = if added then suc n else n

  -- The calls whose two queries did not raise, among the first so many.
  unfoldable pub added : ℕ → Daemon E → ℕ
  added zero d = 0
  added (suc calls) (iteration, e) =
      one_more (queries services iteration (services.default_timer e).1).0
        (added calls (rethinkdb_append_entry services (iteration, e)).1)

  unfoldable pub append_many : ℕ → Daemon E → Daemon E
  append_many zero d = d
  append_many (suc calls) d = append_many calls (rethinkdb_append_entry services d).1

  counts :
      (ok : Bool) (iteration more last : ℕ)
      → iteration < 100
      → last ≡ ((if ok then (iteration + 1) % 100 else iteration) + more) % 100
      → last ≡ (iteration + one_more ok more) % 100
  counts true iteration more last small h = h ∙ omega arith
  counts false iteration more last small h = h

  small_step :
      (ok : Bool) (iteration : ℕ)
      → iteration < 100
      → (if ok then (iteration + 1) % 100 else iteration) < 100
  small_step true iteration small = omega arith
  small_step false iteration small = small

  -- ITERATION counts the appends that succeed, and starts again at 100: from a value below 100 it is,
  -- after any number of calls, the old value and the number of calls whose queries did not raise, modulo
  -- 100.
  pub append_many-added :
      (calls : ℕ) (d : Daemon E) → d.0 < 100 → (append_many calls d).0 ≡ (d.0 + added calls d) % 100
  unfolding append_many added rethinkdb_append_entry
  append_many-added zero (iteration, e) small = omega arith
  append_many-added (suc calls) (iteration, e) small =
      let ok = (queries services iteration (services.default_timer e).1).0 in
      let next = (rethinkdb_append_entry services (iteration, e)).1 in
      counts ok iteration (added calls next) (append_many calls next).0 small
        (append_many-added calls next (small_step ok iteration small))
