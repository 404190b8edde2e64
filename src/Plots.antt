-- ===== src/Plots.antt =====
-- generate_plots.py: the series that its plots draw, and the name of the file. A number is what `float`
-- reads, with its order `leb`.
pub mod Mass
mod Tests
use krafters.Prelude.{
  ℕ, suc, zero, Bool, true, false, List, [], ◌∷◌, ◌++◌, Option, none, some, ltb, if◌then◌else◌,
  length,
}
use krafters.Text.{Text, codes}

-- range(n), from `i` on
unfoldable pub range : ℕ → ℕ → List ℕ
range i zero = []
range i (suc n) = i ∷ range (suc i) n

-- [i / n for i in range(n + 1)], as fractions, from `i` on
unfoldable pub fractions : ℕ → ℕ → ℕ → List (ℕ × ℕ)
fractions n i zero = []
fractions n i (suc more) = (i, n) ∷ fractions n (suc i) more

module _ {V : Type 0} (float : Text → Option V) where
  -- [float(i) for i in raw], where a text that is no number is a ValueError.
  unfoldable pub floats : List Text → Option (List V)
  floats [] = some []
  floats (t ∷ ts) = elim (float t) [
    | none ↦ none
    | some v ↦ elim (floats ts) [ none ↦ none | some vs ↦ some (v ∷ vs) ]
  ]

  -- A row of the file, whose first element is the label; an empty row is an IndexError.
  unfoldable pub raw_series : List Text → Option (Text × List ℕ × List V)
  unfolding range floats
  raw_series [] = none
  raw_series (label ∷ row) = elim (floats row) [
    | none ↦ none
    | some vs ↦ some (label, range 0 (length row), vs)
  ]

module _ {V : Type 0} (leb : V → V → Bool) where
  -- sorted(...)
  unfoldable pub insert : V → List V → List V
  insert v [] = v ∷ []
  insert v (w ∷ ws) = if leb v w then v ∷ w ∷ ws else w ∷ insert v ws

  unfoldable pub sorted : List V → List V
  unfolding insert
  sorted [] = []
  sorted (v ∷ vs) = insert v (sorted vs)

module _ {V : Type 0} (float : Text → Option V) (leb : V → V → Bool) (zero_time : V) where
  -- A row without times is a ZeroDivisionError.
  unfoldable pub mass_series : List Text → Option (Text × List V × List (ℕ × ℕ))
  unfolding floats sorted fractions
  mass_series [] = none
  mass_series (label ∷ []) = none
  mass_series (label ∷ t ∷ row) = elim (floats float (t ∷ row)) [
    | none ↦ none
    | some vs ↦
        some (
          label,
          zero_time ∷ sorted leb vs,
          fractions (suc (length row)) 0 (suc (suc (length row))),
        )
  ]

-- The first file's name, where it is the only one.
unfoldable pub default_file : List Text → Option Text
default_file [] = none
default_file (file ∷ []) = some (file ++ codes ".png")
default_file (file ∷ other ∷ files) = none

-- An output path that is missing or empty is that of the file; `none` is exit(1) or an IndexError.
unfoldable pub output_file : List Text → Option Text → Option Text
unfolding default_file
output_file files (some (c ∷ path)) = some (c ∷ path)
output_file files _ = default_file files
