-- ===== src/TestExecutor/Parser/Total.antt =====
-- The loop of `parse` ends on every file, balanced or not: a jump back costs one of the repetitions
-- of a `do` line above, and only a pass over that line gives them back.
use krafters.Prelude.{
  ℕ, zero, suc, ◌+◌, ◌-◌, ◌≤◌, ◌<◌, ◌≡◌, inl, inr, List, [], ◌∷◌, some, arith, length, get_elem?,
  get_elem?_of_le, Option-cases,
}
use Prim.Native.Nat.{max}
use native.Mathlib.Decide.{dec_lt}
use krafters.Text.{Text}
use krafters.TestExecutor.Errors.{Outcome, ok, raise, Outcome-cases}
use krafters.TestExecutor.Line.{Line, times, read_line}
use krafters.TestExecutor.Parser.{Entry, State, init, round, loop, with_reset, parse}
use krafters.TestExecutor.Parser.Steps.{weight, Moves, forward, back, CountLe, round-Moves}

-- The largest count of an `n times` line.
abbrev count_of : Line → ℕ
count_of (times n) = n
count_of _ = 0

abbrev most_times : List Text → ℕ
most_times [] = 0
most_times (t ∷ file) = max (count_of (read_line t)) (most_times file)

CountLe-of_le : (l : Line) (m : ℕ) → count_of l ≤ m → CountLe m l
CountLe-of_le (times n) m h = h
CountLe-of_le _ m h = tt

count_of-le :
    (file : List Text) (i : ℕ) (raw : Text)
    → get_elem? file i ≡ some raw
    → count_of (read_line raw) ≤ most_times file
count_of-le [] i raw e = absurd (cc)
count_of-le (t ∷ file) zero raw e = let same : t ≡ raw = cc in rw same (omega arith)
count_of-le (t ∷ file) (suc i) raw e = omega (arith, count_of-le file i raw e)

most_times-CountLe :
    (file : List Text) (i : ℕ) (raw : Text)
    → get_elem? file i ≡ some raw
    → CountLe (most_times file) (read_line raw)
most_times-CountLe file i raw e = CountLe-of_le (read_line raw) _ (count_of-le file i raw e)

-- The loop ends from `s`, with a list of calls or with an exception.
abbrev Ends : List Text → State → Type 0
Ends file s = (fuel : ℕ) × (r : Outcome (List Entry)) × (loop fuel file s ≡ some r)

module _ (file : List Text) where
  abbrev room_at : ℕ → State → ℕ
  room_at k s = weight (most_times file) k s.pointers

  -- The loop ends, or it jumps above line `l`: behind a `do` line which then has lost room, while no
  -- line above `l` has gained any.
  data Leaves (l : ℕ) (s : State) : Type 0 where
    ends : Ends file s → Leaves l s
    jumps :
        (s' : State) (j : ℕ)
        → (Ends file s' → Ends file s)
        → s'.index ≡ suc j
        → suc j < l
        → room_at j s' < room_at j s
        → ((k : ℕ) → k < l → room_at k s' ≤ room_at k s)
        → Leaves l s

  Ends-round :
      (s s' : State) (raw : Text)
      → get_elem? file s.index ≡ some raw
      → round s raw ≡ ok s'
      → Ends file s'
      → Ends file s
  unfolding loop
  Ends-round s s' raw e q (fuel, r, h) = (suc fuel, r, rw (e, q, loop) h)

  -- A state that `s` leads to by rounds at line `l` or below hands its fate on.
  Leaves-before :
      (l : ℕ) (s s' : State)
      → (Ends file s' → Ends file s)
      → ((k : ℕ) → k < l → room_at k s' ≤ room_at k s)
      → Leaves l s'
      → Leaves l s
  Leaves-before l s s' f keep (ends h) = ends (f h)
  Leaves-before l s s' f keep (jumps t j g at_j above lost kept) =
      jumps t j (λ h. f (g h)) at_j above (omega (arith, keep j (omega arith)))
        (λ k h. omega (arith, keep k h, kept k h))

  -- Line `l`, given the lines below it: by induction on the room at the `do` just above.
  module _ (l : ℕ) (below : (s : State) → suc l ≤ s.index → Leaves (suc l) s) where
    Leaves-from_below :
        (s : State)
        → ((t : State) → 0 < l → t.index ≡ l → room_at (l - 1) t < room_at (l - 1) s → Leaves l t)
        → Leaves (suc l) s
        → Leaves l s
    Leaves-from_below s rec (ends h) = ends h
    Leaves-from_below s rec (jumps t j g at_j above lost kept) = elim (dec_lt (suc j) l) [
      | yes h ↦ jumps t j g at_j h lost (λ k h. kept k (omega arith))
      | no h ↦
          let e : l - 1 ≡ j = omega arith in
          Leaves-before l s t g (λ k h. kept k (omega arith))
            (rec t (omega arith) (omega arith) (rw e lost))
    ]

    -- After a round at line `l` itself.
    Leaves-moved :
        (b : ℕ) (s s' : State)
        → ((t : State) → room_at (l - 1) t < b → l ≤ t.index → Leaves l t)
        → room_at (l - 1) s < suc b
        → s.index ≡ l
        → (Ends file s' → Ends file s)
        → Moves (most_times file) s s'
        → Leaves l s
    Leaves-moved b s s' rec small here f (forward e keep) =
        Leaves-before l s s' f (λ k h. keep k (omega arith))
          (Leaves-from_below s'
            (λ t pos at_l lt. rec t (omega (arith, keep (l - 1) (omega arith))) (omega arith))
            (below s' (omega arith)))
    Leaves-moved b s s' rec small here f (back j e lost kept) = elim (dec_lt (suc j) l) [
      | yes h ↦ jumps s' j f e h lost (λ k h. kept k)
      | no h ↦ elim (dec_lt l (suc j)) [
        | yes g ↦
            Leaves-before l s s' f (λ k h. kept k)
              (Leaves-from_below s'
                (λ t pos at_l lt. rec t (omega (arith, kept (l - 1))) (omega arith))
                (below s' (omega arith)))
        | no g ↦
            let q : l - 1 ≡ j = omega arith in
            let lost' : room_at (l - 1) s' < room_at (l - 1) s = rw q lost in
            Leaves-before l s s' f (λ k h. kept k) (rec s' (omega arith) (omega arith))
      ]
    ]

    Leaves-at :
        (b : ℕ) (s : State)
        → ((t : State) → room_at (l - 1) t < b → l ≤ t.index → Leaves l t)
        → room_at (l - 1) s < suc b
        → s.index ≡ l
        → Leaves l s
    unfolding loop
    Leaves-at b s rec small here = elim (Option-cases (get_elem? file s.index)) [
      | inl e ↦ ends (1, ok s.commands_list, rw (e, loop))
      | inr (raw, e) ↦ elim (Outcome-cases (round s raw)) [
        | inr (x, q) ↦ ends (1, raise x, rw (e, q, loop))
        | inl (s', q) ↦
            Leaves-moved b s s' rec small here (Ends-round s s' raw e q)
              (round-Moves _ raw s s' (most_times-CountLe file s.index raw e) q)
      ]
    ]

    Leaves-level : (b : ℕ) (s : State) → room_at (l - 1) s < b → l ≤ s.index → Leaves l s
    Leaves-level zero s small h = absurd (omega arith)
    Leaves-level (suc b) s small h = elim (dec_lt l s.index) [
      | yes past ↦
          Leaves-from_below s (λ t pos at_l lt. Leaves-level b t (omega arith) (omega arith))
            (below s past)
      | no at_l ↦ Leaves-at b s (Leaves-level b) small (omega arith)
    ]

  past_end : (s : State) → length file ≤ s.index → Ends file s
  unfolding loop
  past_end s h = (1, ok s.commands_list, rw (get_elem?_of_le file s.index h, loop))

  -- Every line, from the last one up.
  Leaves-all : (d l : ℕ) → length file ≤ l + d → (s : State) → l ≤ s.index → Leaves l s
  Leaves-all zero l h s at_l = ends (past_end s (omega arith))
  Leaves-all (suc d) l h s at_l =
      Leaves-level l (Leaves-all d (suc l) (omega arith)) (suc (room_at (l - 1) s)) s (omega arith)
        at_l

  Ends-of_Leaves : (s : State) → Leaves 0 s → Ends file s
  Ends-of_Leaves s (ends h) = h
  Ends-of_Leaves s (jumps t j g e above lost kept) = absurd (omega arith)

  loop-Ends : (s : State) → Ends file s
  loop-Ends s = Ends-of_Leaves s (Leaves-all (length file) 0 (omega arith) s (omega arith))

-- More fuel changes nothing.
pub loop_stable :
    (file : List Text) (fuel fuel' : ℕ) (s : State) (r : Outcome (List Entry))
    → fuel ≤ fuel'
    → loop fuel file s ≡ some r
    → loop fuel' file s ≡ some r
unfolding loop
loop_stable file zero fuel' s r h e = absurd (cc)
loop_stable file (suc fuel) zero s r h e = absurd (omega arith)
loop_stable file (suc fuel) (suc fuel') s r h e = elim (Option-cases (get_elem? file s.index)) [
  | inl q ↦ rw (q, loop) (rw (q, loop) at e)
  | inr (raw, q) ↦ elim (Outcome-cases (round s raw)) [
    | inr (x, g) ↦ rw (q, g, loop) (rw (q, g, loop) at e)
    | inl (t, g) ↦
        rw (q, g, loop) (loop_stable file fuel fuel' t r (omega arith) (rw (q, g, loop) at e))
  ]
]

-- Whatever the file holds, with `do` and `n times` lines balanced or not, `parse` comes to an end:
-- from some number of rounds on, the loop returns its list of calls, or raises, and does so alike.
pub parse_ends :
    (test_file : List Text)
    → (enough : ℕ) × (r : Outcome (List Entry)) × ((fuel : ℕ)
        → enough ≤ fuel
        → parse fuel test_file ≡ some r)
unfolding parse
parse_ends test_file =
    let (enough, r, e) = loop-Ends (with_reset test_file) init in
    (enough, r, λ fuel h. loop_stable (with_reset test_file) enough fuel init r h e)
