-- ===== src/TestExecutor/Parser/Unroll.antt =====
-- On a balanced test file `parse` returns the calls of the unrolled file: the body of each
-- `do` ... `n times` repeated, every call with the number of its line, and `reset` at the end.
use krafters.Prelude.{
  ℕ, zero, suc, ◌+◌, ◌-◌, ◌≤◌, ◌≡◌, refl, ◌∙◌, List, [], ◌∷◌, ◌++◌, some, arith, length, get_elem?,
  set, length-append, length-set, get_elem?-set_self, get_elem?-set_ne, get_elem?_of_le,
}
use Prim.Native.Nat.{max}
use mathlib.Core.Path.{subst}
use mathlib.Core.List.{append_assoc, append-nil}
use krafters.Text.{Text, codes, rstrip}
use krafters.TestExecutor.Errors.{Outcome, ok}
use krafters.TestExecutor.Line.{Line, reset, open_do, times, read_line}
use krafters.TestExecutor.Parser.{Pointer, Entry, State, init, round, loop, with_reset, parse}
use krafters.TestExecutor.Parser.Total.{loop_stable}
use krafters.TestExecutor.Parser.Script.{
  Script, done, line, repeat, lines, IsPlain, IsTimes, IsScript, calls, rounds, copies, unroll,
}
use krafters.TestExecutor.Parser.Rounds.{
  state, Agree, round_lem, plain_end, open_pointer-Opened, open_end, again, leave,
}

module _ (file : List Text) where
  abbrev At : ℕ → List Text → Type 0
  At i [] = Unit {0}
  At i (x ∷ xs) = (get_elem? file i ≡ some x) × At (suc i) xs

  abbrev Leads : State → State → Type 0
  Leads s t =
      (r : Outcome (List Entry))
      → (fuel : ℕ) × (loop fuel file t ≡ some r)
      → (fuel : ℕ) × (loop fuel file s ≡ some r)

  At-append : (i : ℕ) (xs ys : List Text) → At i (xs ++ ys) → At i xs × At (i + length xs) ys
  At-append i [] ys h = (tt, subst (λ j. At j ys) (omega arith) h)
  At-append i (x ∷ xs) ys (e, h) =
      let (a, b) = At-append (suc i) xs ys h in ((e, a), subst (λ j. At j ys) (omega arith) b)

  Leads-round :
      (s t : State) (raw : Text)
      → get_elem? file s.index ≡ some raw
      → round s raw ≡ ok t
      → Leads s t
  unfolding loop
  Leads-round s t raw e q r (fuel, g) = (suc fuel, rw (e, q, loop) g)

  -- What running a piece of the file from `state i d ps cs` comes to: `more` calls, and the
  -- pointers of the loops that are open as they were.
  record Runs (i j d : ℕ) (ps : List Pointer) (cs more : List Entry) : Type 0 where
    after : List Pointer
    leads : Leads (state i d ps cs) (state j d after (cs ++ more))
    long : d ≤ length after
    agree : Agree d ps after

  abbrev Body : ℕ → ℕ → ℕ → List Entry → Type 0
  Body i j d more = (ps : List Pointer) (cs : List Entry) → d ≤ length ps → Runs i j d ps cs more

  -- The passes that are left of loop `d`, which opened at line `i` and closes at line `j`.
  passes :
      (i j d n : ℕ) (closing : Text) (body : List Entry)
      → get_elem? file j ≡ some closing
      → read_line closing ≡ times n
      → Body (suc i) j (suc d) body
      → (left : ℕ) (r : ℕ) → n - r ≡ left
      → (ps : List Pointer) (cs : List Entry) → suc d ≤ length ps
      → get_elem? ps d ≡ some (record { start = i; repetition = r })
      → (qs : List Pointer) × Leads
          (state (suc i) (suc d) ps cs)
          (state (suc j) d qs (cs ++ copies (suc left) body))
        × (d ≤ length qs)
        × Agree d ps qs
  passes i j d n closing body e q run zero r h ps cs long top =
      let b = run ps cs long in
      let top' = b.agree d (omega arith) ∙ top in
      let step =
        round_lem (state j (suc d) b.after (cs ++ body)) closing (times n) q
        ∙ leave j d n b.after (cs ++ body) (rstrip closing) (record { start = i; repetition = r })
            b.long top' (omega arith) in
      (
        b.after,
        rw append-nil (λ out end. b.leads out (Leads-round _ _ closing e step out end)),
        omega (arith, b.long),
        λ k lt. b.agree k (omega arith),
      )
  passes i j d n closing body e q run (suc left) r h ps cs long top =
      let b = run ps cs long in
      let p : Pointer = record { start = i; repetition = r } in
      let p' : Pointer = record { start = i; repetition = suc r } in
      let step =
        round_lem (state j (suc d) b.after (cs ++ body)) closing (times n) q
        ∙ again j d n b.after (cs ++ body) (rstrip closing) p b.long (b.agree d (omega arith) ∙ top)
            (omega arith) in
      let (qs, leads, long', agree) =
        passes i j d n closing body e q run left (suc r) (omega arith) (set b.after d p')
          (cs ++ body) (omega (arith, length-set b.after d p', b.long))
          (get_elem?-set_self b.after d p' b.long) in
      (
        qs,
        subst (λ es. Leads (state (suc i) (suc d) ps cs) (state (suc j) d qs es))
            (append_assoc cs body (copies (suc left) body))
            (λ out end. b.leads out (Leads-round _ _ closing e step out (leads out end))),
        long',
        λ k lt.
            agree k lt ∙ get_elem?-set_ne b.after d k p' (omega arith) ∙ b.agree k (omega arith),
      )

  -- Joining two pieces.
  Runs-then :
      {i j l d : ℕ} {ps : List Pointer} {cs a b : List Entry}
      → Runs i j d ps cs a
      → Body j l d b
      → Runs i l d ps cs (a ++ b)
  Runs-then {i} {j} {l} {d} {ps} {cs} {a} {b} f next =
      let g = next f.after (cs ++ a) f.long in
      record {
        after = g.after;
        leads =
            subst (λ es. Leads (state i d ps cs) (state l d g.after es)) (append_assoc cs a b)
              (λ out end. f.leads out (g.leads out end));
        long = g.long;
        agree = λ k lt. g.agree k lt ∙ f.agree k lt;
      }

  plain-Runs :
      (i d : ℕ) (t : Text)
      → get_elem? file i ≡ some t
      → IsPlain (read_line t)
      → Body i (suc i) d (calls (read_line t) i)
  plain-Runs i d t e plain ps cs long = record {
    after = ps;
    leads = Leads-round _ _ t e (
        round_lem (state i d ps cs) t (read_line t) refl
        ∙ plain_end i d ps cs (rstrip t) (read_line t) plain);
    long = long;
    agree = λ k lt. refl;
  }

  loop-Runs :
      (i j d : ℕ) (opening closing : Text) (l : Line) (body : List Entry)
      → get_elem? file i ≡ some opening
      → get_elem? file j ≡ some closing
      → read_line opening ≡ open_do
      → read_line closing ≡ l
      → IsTimes l
      → Body (suc i) j (suc d) body
      → Body i (suc j) d (copies (rounds l) body)
  loop-Runs i j d opening closing (times n) body e e' q q' h run ps cs long =
      let (qs, opens, o) = open_pointer-Opened d i ps long in
      let (rs, leads, long', agree) =
        passes i j d n closing body e' q' run (n - 1) 1 refl qs cs o.long o.top in
      let count : suc (n - 1) ≡ max 1 n = omega arith in
      let step =
        round_lem (state i d ps cs) opening open_do q
        ∙ open_end i d ps qs cs (rstrip opening) opens in
      record {
        after = rs;
        leads =
            subst (λ k. Leads (state i d ps cs) (state (suc j) d rs (cs ++ copies k body))) count
              (λ out end. Leads-round _ _ opening e step out (leads out end));
        long = long';
        agree = λ k lt. agree k lt ∙ o.agree k lt;
      }
  loop-Runs i j d opening closing _ body e e' q q' h run ps cs long = absurd h

  script-Runs :
      (sc : Script) (i d : ℕ)
      → At i (lines sc)
      → IsScript sc
      → Body i (i + length (lines sc)) d (unroll i sc)
  script-Runs done i d at good ps cs long =
      let here : i ≡ i + 0 = omega arith in
      subst (λ j. Runs i j d ps cs []) here
        (record {
          after = ps;
          leads = rw append-nil (λ out end. end);
          long = long;
          agree = λ k lt. refl;
        })
  script-Runs (line t rest) i d (e, at) (plain, good) ps cs long =
      let last : suc i + length (lines rest) ≡ i + length (lines (line t rest)) = omega arith in
      subst (λ j. Runs i j d ps cs (unroll i (line t rest))) last
        (Runs-then (plain-Runs i d t e plain ps cs long) (script-Runs rest (suc i) d at good))
  script-Runs (repeat opening body closing rest) i d (e, at) (opens, closes, good, good') ps cs
        long =
      let (at_body, (e', at_rest)) = At-append (suc i) (lines body) (closing ∷ lines rest) at in
      let j = suc i + length (lines body) in
      let last : suc j + length (lines rest)
          ≡ i + length (lines (repeat opening body closing rest)) =
        omega (arith, length-append (lines body) (closing ∷ lines rest)) in
      subst (λ k. Runs i k d ps cs (unroll i (repeat opening body closing rest))) last
        (Runs-then
          (loop-Runs i j d opening closing (read_line closing) (unroll (suc i) body) e e' opens refl
            closes (script-Runs body (suc i) (suc d) at_body good) ps cs long)
          (script-Runs rest (suc j) d at_rest good'))

get_elem?-middle {ℓ} :
    {A : Type ℓ} (xs : List A) (y : A) (ys : List A) → get_elem? (xs ++ y ∷ ys) (length xs) ≡ some y
get_elem?-middle [] y ys = refl
get_elem?-middle (x ∷ xs) y ys = get_elem?-middle xs y ys

At-self : (front xs ys : List Text) → At (front ++ (xs ++ ys)) (length front) xs
At-self front [] ys = tt
At-self front (x ∷ xs) ys = (
  get_elem?-middle front x (xs ++ ys),
  subst (λ f. At f (suc (length front)) xs) (append_assoc front (x ∷ []) (xs ++ ys))
      (subst (λ n. At ((front ++ x ∷ []) ++ (xs ++ ys)) n xs) count
        (At-self (front ++ x ∷ []) xs ys)),
)
  where
    count : length (front ++ x ∷ []) ≡ suc (length front)
    count = omega (arith, length-append front (x ∷ []))

module _ (sc : Script) (good : IsScript sc) where
  abbrev file : List Text
  file = with_reset (lines sc)

  abbrev last_call : List Entry
  last_call = record { call = reset; line = suc (length (lines sc)) } ∷ []

  whole-Runs : Runs file 0 (suc (length (lines sc))) 0 [] [] (unroll 0 sc ++ last_call)
  unfolding read_line
  whole-Runs =
      let n : ℕ = length (lines sc) in
      let start : 0 + n ≡ n = omega arith in
      let at_reset = get_elem?-middle (lines sc) (codes "reset") [] in
      Runs-then file
        (subst (λ j. Runs file 0 j 0 [] [] (unroll 0 sc)) start
          (script-Runs file sc 0 0 (At-self [] (lines sc) (codes "reset" ∷ [])) good [] []
            (omega arith)))
        (plain-Runs file n 0 (codes "reset") at_reset tt)

-- Balanced test files are unrolled. For every test file whose lines are blank lines, commands and
-- properly nested `do` ... `n times` loops, from some number of rounds on `parse` returns the
-- commands in order, each with its line number, the body of a loop max(1, n) times, and then the
-- `reset` that `parse` appends.
pub parse-unroll :
    (sc : Script)
    → IsScript sc
    → (enough : ℕ) × ((fuel : ℕ)
        → enough ≤ fuel
        → parse fuel (lines sc)
          ≡ some (ok (unroll 0 sc ++ record { call = reset; line = suc (length (lines sc)) } ∷ [])))
unfolding parse loop
parse-unroll sc good =
    let f = whole-Runs sc good in
    let size = length-append (lines sc) (codes "reset" ∷ []) in
    let (enough, e) = f.leads _ (
      1,
      rw (get_elem?_of_le (file sc good) (suc (length (lines sc))) (omega (arith, size)), loop),
    ) in
    (enough, λ fuel h. loop_stable (file sc good) enough fuel init _ h e)
