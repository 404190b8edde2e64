-- ===== src/TestDaemon/Runs.antt =====
-- The results of a run, against the list of all outcomes.
use krafters.Prelude.{
  ℕ, zero, suc, ◌+◌, ◌≤◌, ◌≡◌, refl, ap, ◌∙◌, true, false, List, [], ◌∷◌, ◌++◌, Option, none, some,
  ltb, leb, if◌then◌else◌, length, length-append, arith,
}
use mathlib.Core.List.{append-nil, append_assoc}
use krafters.Prelude.Int.{ℤ}
use krafters.TestDaemon.{Services, Daemon, run, rethinkdb_append_entry}

abbrev pub with_outcome : {A : Type 0} → Option A → List A → List A
with_outcome none rest = rest
with_outcome (some t) rest = t ∷ rest

abbrev pub take : {A : Type 0} → ℕ → List A → List A
take zero xs = []
take (suc n) [] = []
take (suc n) (x ∷ xs) = x ∷ take n xs

abbrev pub results_of : {S A : Type 0} → Option (List A × S) → Option (List A)
results_of none = none
results_of (some (xs, s)) = some xs

module _ {S A : Type 0} (append : S → Option A × S) where
  -- The times of the calls that do not raise, among the first so many.
  unfoldable pub successes : ℕ → S → List A
  successes zero s = []
  successes (suc calls) s = let (o, s') = append s in with_outcome o (successes calls s')

  -- What the loop returns, where it has `got` so far and lacks `left`.
  abbrev wanted : ℕ → List A → List A → Option (List A)
  wanted left got more = if leb left (length more) then some (got ++ take left more) else none

  more_wanted :
      (left : ℕ) (got more : List A) (t : A)
      → wanted left (got ++ t ∷ []) more ≡ wanted (suc left) got (t ∷ more)
  more_wanted left got more t =
      let same : leb (suc left) (suc (length more)) ≡ leb left (length more) = ground arith in
      rw (same, append_assoc got (t ∷ []) (take left more)) refl

  after_call :
      (calls left : ℕ) (got : List A) (o : Option A) (s : S)
      → ((left' : ℕ) (got' : List A)
          → results_of (run append calls (length got' + left') got' s)
            ≡ wanted left' got' (successes calls s))
      → results_of (
          run append calls
            (length got + suc left)
            (elim o [ none ↦ got | some t ↦ got ++ t ∷ [] ])
            s)
        ≡ wanted (suc left) got (with_outcome o (successes calls s))
  after_call calls left got none s ih = ih (suc left) got
  after_call calls left got (some t) s ih =
      let size : length got + suc left ≡ length (got ++ t ∷ []) + left =
        omega (arith, length-append {0} got (t ∷ [])) in
      ap (λ k. results_of (run append calls k (got ++ t ∷ []) s)) size
      ∙ ih left (got ++ t ∷ [])
      ∙ more_wanted left got (successes calls s) t

  run-wanted :
      (calls left : ℕ) (got : List A) (s : S)
      → results_of (run append calls (length got + left) got s)
        ≡ wanted left got (successes calls s)
  unfolding run successes
  run-wanted zero zero got s =
      let full : ltb (length got) (length got + 0) ≡ false = ground arith in
      rw (full, append-nil) refl
  run-wanted (suc calls) zero got s =
      let full : ltb (length got) (length got + 0) ≡ false = ground arith in
      let none_left : leb 0 (length (successes (suc calls) s)) ≡ true = ground arith in
      rw (full, none_left, append-nil) refl
  run-wanted zero (suc left) got s =
      let short : ltb (length got) (length got + suc left) ≡ true = ground arith in
      let fewer : leb (suc left) 0 ≡ false = ground arith in rw (short, fewer) refl
  run-wanted (suc calls) (suc left) got s =
      let short : ltb (length got) (length got + suc left) ≡ true = ground arith in
      rw short (
        after_call calls left got (append s).0 (append s).1
          (λ left' got'. run-wanted calls left' got' (append s).1))

  -- What TestManager.run returns. With at most so many calls of the append function, it returns the
  -- times of the first `times` calls that do not raise, in order, if there are so many among them, and
  -- otherwise it does not come to its end.
  pub run-successes :
      (calls times : ℕ) (s : S)
      → results_of (run append calls times [] s) ≡ (
          if leb times (length (successes calls s))
          then some (take times (successes calls s))
          else none)
  run-successes calls times s =
      ap (λ k. results_of (run append calls k [] s)) (omega arith) ∙ run-wanted calls times [] s

all_successes :
    {E : Type 0} (services : Services E) (calls : ℕ) (d : Daemon E)
    → length (successes (rethinkdb_append_entry services) calls d) ≡ calls
unfolding successes rethinkdb_append_entry
all_successes services zero d = refl
all_successes services (suc calls) (iteration, e) =
    ap suc (all_successes services calls (rethinkdb_append_entry services (iteration, e)).1)

length-take : {A : Type 0} (n : ℕ) (xs : List A) → n ≤ length xs → length (take n xs) ≡ n
length-take zero xs h = refl
length-take (suc n) [] h = absurd (omega arith)
length-take (suc n) (x ∷ xs) h = ap suc (length-take n xs (omega arith))

-- A run over RethinkDB ends. Whatever the database and the clock do, `times` calls of
-- rethinkdb_append_entry are enough for a run of `times` appends, which returns `times` results, also
-- where the database refuses every insert.
pub rethinkdb_append_entry_ends :
    {E : Type 0} (services : Services E) (times : ℕ) (d : Daemon E)
    → (results : List ℤ) × (results_of (run (rethinkdb_append_entry services) times times [] d)
        ≡ some results)
      × (length results ≡ times)
rethinkdb_append_entry_ends services times d =
    let all = all_successes services times d in
    let ts = successes (rethinkdb_append_entry services) times d in
    let enough : leb times (length ts) ≡ true = ground arith in
    (
      take times ts,
      run-successes (rethinkdb_append_entry services) times times d ∙ rw enough refl,
      length-take times ts (omega arith),
    )
