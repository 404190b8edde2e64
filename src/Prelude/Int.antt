-- ===== src/Prelude/Int.antt =====
-- Python's unbounded integers where the program goes below zero: counters and list indices.
use Prim.Native.Nat.{ℕ, zero, suc, ◌-◌}
use mathlib.Core.Option.{Option, none, some}
use krafters.Prelude.Tests.{ltb, if◌then◌else◌}

-- `negsuc n` is -(n + 1).
pub data ℤ : Type 0 where
  pos : ℕ → ℤ
  negsuc : ℕ → ℤ

-- k + 1
abbrev pub incr : ℤ → ℤ
incr (pos n) = pos (suc n)
incr (negsuc zero) = pos 0
incr (negsuc (suc n)) = negsuc n

-- k - 1
abbrev pub decr : ℤ → ℤ
decr (pos zero) = negsuc 0
decr (pos (suc n)) = pos n
decr (negsuc n) = negsuc (suc n)

-- The position that `xs[k]` reads in a list of length `len`: a negative index counts from the end,
-- and `none` is an IndexError.
abbrev pub py_index : ℤ → ℕ → Option ℕ
py_index (pos i) len = if ltb i len then some i else none
py_index (negsuc i) len = if ltb i len then some (len - suc i) else none
