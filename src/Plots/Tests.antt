-- ===== src/Plots/Tests.antt =====
-- A row of two times, which are numbers in decimal digits.
use krafters.Prelude.{
  ℕ, ◌≤◌, ◌≡◌, refl, Bool, List, [], ◌∷◌, some, none, not, ltb, arith, get_elem?, length,
}
use krafters.Text.{codes, parse_int}
use krafters.Plots.{floats, mass_series, output_file}
use krafters.Plots.Mass.{count_if, at_most as mass_at_most, below, mass_series-count}

-- At most.
abbrev at_most : ℕ → ℕ → Bool
at_most a b = not (ltb b a)

two_read : floats parse_int (codes "7" ∷ codes "5" ∷ []) ≡ some (7 ∷ 5 ∷ [])
unfolding floats parse_int
two_read = refl

two_drawn :
    mass_series parse_int at_most 0 (codes "run" ∷ codes "7" ∷ codes "5" ∷ [])
    ≡ some (codes "run", 0 ∷ 5 ∷ 7 ∷ [], (0, 2) ∷ (1, 2) ∷ (2, 2) ∷ [])
unfolding mass_series parse_int
two_drawn = refl

abbrev heights : List (ℕ × ℕ)
heights = (0, 2) ∷ (1, 2) ∷ (2, 2) ∷ []

abbrev times : List ℕ
times = 0 ∷ 5 ∷ 7 ∷ []

mass_series-count_example :
    (v : ℕ) × (length times ≡ 3)
    × (length heights ≡ 3)
    × (get_elem? times 0 ≡ some 0)
    × (get_elem? heights 0 ≡ some (0, 2))
    × (get_elem? times 2 ≡ some v)
    × (get_elem? heights 2 ≡ some (2, 2))
    × (2 ≤ count_if (mass_at_most at_most v) (7 ∷ 5 ∷ []))
    × (count_if (below at_most v) (7 ∷ 5 ∷ []) ≤ 1)
mass_series-count_example =
    mass_series-count parse_int at_most 0 (λ a b e. ground arith) (λ a b c e g. ground arith)
      (codes "run") (codes "7") (codes "5" ∷ []) (7 ∷ 5 ∷ []) times heights two_read two_drawn 1
      (omega arith)

no_output : output_file (codes "a.csv" ∷ []) none ≡ some (codes "a.csv.png")
unfolding output_file
no_output = refl
