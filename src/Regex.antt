-- ===== src/Regex.antt =====
-- What test_executor.py uses of Python's `re`: patterns built from character classes, sequence,
-- alternation and repetition, and `pattern.match(line)`, which asks for a match of some prefix.
pub mod Sound
use krafters.Prelude.{ℕ, Bool, true, false, ◌&&◌, ◌||◌, List, [], ◌∷◌, ◌==◌, if◌then◌else◌}
use krafters.Text.{Text}

pub data Regex : Type 0 where
  never : Regex
  empty : Regex
  class : (ℕ → Bool) → Regex
  seq alt : Regex → Regex → Regex
  star : Regex → Regex

-- Sequence and alternation that drop the parts which can no longer matter.
pub seq_of : Regex → Regex → Regex
seq_of never s = never
seq_of empty s = s
seq_of r s = seq r s

pub alt_of : Regex → Regex → Regex
alt_of never s = s
alt_of r never = r
alt_of r s = alt r s

unfoldable pub nullable : Regex → Bool
nullable never = false
nullable empty = true
nullable (class p) = false
nullable (seq r s) = nullable r && nullable s
nullable (alt r s) = nullable r || nullable s
nullable (star r) = true

-- What is left to match after the character `c`.
unfoldable pub deriv : ℕ → Regex → Regex
unfolding seq_of alt_of nullable
deriv c never = never
deriv c empty = never
deriv c (class p) = if p c then empty else never
deriv c (seq r s) =
    if nullable r then alt_of (seq_of (deriv c r) s) (deriv c s) else seq_of (deriv c r) s
deriv c (alt r s) = alt_of (deriv c r) (deriv c s)
deriv c (star r) = seq_of (deriv c r) (star r)

-- pattern.match(line) is not None
unfoldable pub matches : Regex → Text → Bool
unfolding nullable deriv
matches r [] = nullable r
matches r (c ∷ s) = nullable r || matches (deriv c r) s

-- The notation of the patterns.
abbrev pub char : ℕ → Regex
char c = class (λ d. d == c)

abbrev pub word : Text → Regex
word [] = empty
word (c ∷ []) = char c
word (c ∷ d ∷ s) = seq (char c) (word (d ∷ s))

-- r+
abbrev pub plus : Regex → Regex
plus r = seq r (star r)

-- r?
abbrev pub optional : Regex → Regex
optional r = alt r empty
