-- ===== src/Plots/Mass.antt =====
-- The mass plot as a distribution of the times.
use krafters.Prelude.{
  ◌⊎◌, ℕ, suc, zero, ◌≤◌, ◌<◌, ◌+◌, ◌≡◌, refl, ap, ◌∙◌, inl, inr, Bool, true, false, List, [], ◌∷◌,
  Option, some, not, Bool-cases, Option-cases, arith, length, get_elem?, get_elem?_of_lt,
  if◌then◌else◌,
}
use mathlib.Core.Path.{subst}
use mathlib.Core.Option.{some-injective}
use krafters.Text.{Text}
use krafters.Paxos.Messages.{Among}
use krafters.Plots.{fractions, floats, insert, sorted, mass_series}

module _ {V : Type 0} where
  -- How many times pass a test.
  abbrev pub count_if : (V → Bool) → List V → ℕ
  count_if test [] = 0
  count_if test (w ∷ ws) = if test w then suc (count_if test ws) else count_if test ws

module _ {V : Type 0} (leb : V → V → Bool) where
  -- The tests for the times at most `v`, and for those below it.
  abbrev pub at_most : V → V → Bool
  at_most v w = leb w v

  abbrev pub below : V → V → Bool
  below v w = not (leb v w)

  abbrev Sorted : List V → Type 0
  Sorted [] = Unit {0}
  Sorted (v ∷ vs) = ((w : V) → Among w vs → leb v w ≡ true) × Sorted vs

  module _ (total : (a b : V) → leb a b ≡ false → leb b a ≡ true)
      (transitive : (a b c : V) → leb a b ≡ true → leb b c ≡ true → leb a c ≡ true) where
    leb_refl : (a : V) → leb a a ≡ true
    leb_refl a = elim (Bool-cases (leb a a)) [ inl e ↦ e | inr e ↦ total a a e ]

    insert-Among : (v w : V) (ws : List V) → Among w (insert leb v ws) → (v ≡ w) ⊎ Among w ws
    unfolding insert
    insert-Among v w [] (inl e) = inl e
    insert-Among v w [] (inr later) = elim later [ ]
    insert-Among v w (x ∷ xs) here = elim (Bool-cases (leb v x)) [
      | inl e ↦ rw e at here
      | inr e ↦ elim (rw e at here) [
        | inl same ↦ inr (inl same)
        | inr later ↦ elim (insert-Among v w xs later) [
          | inl same ↦ inl same
          | inr old ↦ inr (inr old)
        ]
      ]
    ]

    insert-Sorted : (v : V) (ws : List V) → Sorted ws → Sorted (insert leb v ws)
    unfolding insert
    insert-Sorted v [] h = ((λ w here. absurd here), tt)
    insert-Sorted v (x ∷ xs) (low, h) = elim (Bool-cases (leb v x)) [
      | inl e ↦
          rw (e, insert)
            (
              (λ w here. elim here [
                | inl same ↦ subst (λ w. leb v w ≡ true) same e
                | inr later ↦ transitive v x w e (low w later)
              ]),
              (low, h),
            )
      | inr e ↦
          rw (e, insert)
            (
              (λ w here. elim (insert-Among v w xs here) [
                | inl same ↦ subst (λ w. leb x w ≡ true) same (total v x e)
                | inr old ↦ low w old
              ]),
              insert-Sorted v xs h,
            )
    ]

    sorted-Sorted : (vs : List V) → Sorted (sorted leb vs)
    unfolding sorted
    sorted-Sorted [] = tt
    sorted-Sorted (v ∷ vs) = insert-Sorted v (sorted leb vs) (sorted-Sorted vs)

    count_if-insert :
        (test : V → Bool) (v : V) (ws : List V)
        → count_if test (insert leb v ws) ≡ count_if test (v ∷ ws)
    unfolding insert
    count_if-insert test v [] = refl
    count_if-insert test v (x ∷ xs) = ground (arith, count_if-insert test v xs)

    count_if-sorted :
        (test : V → Bool) (vs : List V) → count_if test (sorted leb vs) ≡ count_if test vs
    unfolding sorted
    count_if-sorted test [] = refl
    count_if-sorted test (v ∷ vs) =
        count_if-insert test v (sorted leb vs) ∙ ground (arith, count_if-sorted test vs)

    get_elem?-Among : (k : ℕ) (vs : List V) (v : V) → get_elem? vs k ≡ some v → Among v vs
    get_elem?-Among k [] v e = absurd (cc e)
    get_elem?-Among zero (w ∷ vs) v e = inl (some-injective w v e)
    get_elem?-Among (suc k) (w ∷ vs) v e = inr (get_elem?-Among k vs v e)

    at_most-Sorted :
        (vs : List V) (k : ℕ) (v : V)
        → Sorted vs
        → get_elem? vs k ≡ some v
        → suc k ≤ count_if (at_most v) vs
    at_most-Sorted [] k v h e = absurd (cc e)
    at_most-Sorted (w ∷ vs) zero v (low, h) e =
        let same : leb w v ≡ true =
          subst (λ x. leb w x ≡ true) (some-injective w v e) (leb_refl w) in
        rw same (omega arith)
    at_most-Sorted (w ∷ vs) (suc k) v (low, h) e =
        let lower : leb w v ≡ true = low v (get_elem?-Among k vs v e) in
        let rest = at_most-Sorted vs k v h e in rw lower (omega arith)

    none_below :
        (v : V) (vs : List V) → ((w : V) → Among w vs → leb v w ≡ true) → count_if (below v) vs ≡ 0
    none_below v [] low = refl
    none_below v (w ∷ vs) low =
        ground (arith, low w (inl refl), none_below v vs (λ x m. low x (inr m)))

    below-Sorted :
        (vs : List V) (k : ℕ) (v : V)
        → Sorted vs
        → get_elem? vs k ≡ some v
        → count_if (below v) vs ≤ k
    below-Sorted [] k v h e = absurd (cc e)
    below-Sorted (w ∷ vs) zero v (low, h) e =
        let least = none_below w (w ∷ vs) (λ x m. elim m [
          | inl same ↦ subst (λ x. leb w x ≡ true) same (leb_refl w)
          | inr later ↦ low x later
        ]) in
        let here : count_if (below v) (w ∷ vs) ≡ 0 =
          subst (λ x. count_if (below x) (w ∷ vs) ≡ 0) (some-injective w v e) least in
        omega (arith, here)
    below-Sorted (w ∷ vs) (suc k) v (low, h) e = ground (arith, below-Sorted vs k v h e)

get_elem?-fractions :
    (n i more k : ℕ) → k < more → get_elem? (fractions n i more) k ≡ some (i + k, n)
unfolding fractions
get_elem?-fractions n i zero k lt = absurd (omega arith)
get_elem?-fractions n i (suc more) zero lt = let same : i + 0 ≡ i = omega arith in rw same
get_elem?-fractions n i (suc more) (suc k) lt =
    let same : i + suc k ≡ suc i + k = omega arith in
    rw (same, get_elem?-fractions n (suc i) more k (omega arith))

length-fractions : (n i more : ℕ) → length (fractions n i more) ≡ more
unfolding fractions
length-fractions n i zero = refl
length-fractions n i (suc more) = ap suc (length-fractions n (suc i) more)

module _ {V : Type 0} (leb : V → V → Bool) where
  length-insert : (v : V) (ws : List V) → length (insert leb v ws) ≡ suc (length ws)
  unfolding insert
  length-insert v [] = refl
  length-insert v (w ∷ ws) = ground (arith, length-insert v ws)

  length-sorted : (vs : List V) → length (sorted leb vs) ≡ length vs
  unfolding sorted
  length-sorted [] = refl
  length-sorted (v ∷ vs) = length-insert v (sorted leb vs) ∙ ap suc (length-sorted vs)

length-floats :
    {V : Type 0} (float : Text → Option V) (ts : List Text) (vs : List V)
    → floats float ts ≡ some vs
    → length vs ≡ length ts
unfolding floats
length-floats float [] vs e = ground arith
length-floats float (t ∷ ts) vs e = elim (Option-cases (float t)) [
  | inl q ↦ absurd (cc (rw (q, floats) at e))
  | inr (v, q) ↦ elim (Option-cases (floats float ts)) [
    | inl g ↦ absurd (cc (rw (q, g, floats) at e))
    | inr (ws, g) ↦
        let read : some (v ∷ ws) ≡ some vs = rw (q, g, floats) at e in
        let rest = length-floats float ts ws g in
        subst (λ vs. length vs ≡ suc (length ts)) (some-injective (v ∷ ws) vs read) (ap suc rest)
  ]
]

-- The mass plot is the distribution of the times. For a row with a label and n times, the curve has
-- n + 1 points, as many abscissas as heights, and starts at time zero with height 0 / n. For every k
-- below n, the point behind the first `k + 1` times in order has the height (k + 1) / n; at least k + 1
-- of the times are at most as large as its abscissa, and at most k are below it.
pub mass_series-count :
    {V : Type 0} (float : Text → Option V) (leb : V → V → Bool) (zero_time : V)
    → ((a b : V) → leb a b ≡ false → leb b a ≡ true)
    → ((a b c : V) → leb a b ≡ true → leb b c ≡ true → leb a c ≡ true)
    → (label t : Text) (row : List Text) (vs xs : List V) (ys : List (ℕ × ℕ))
    → floats float (t ∷ row) ≡ some vs
    → mass_series float leb zero_time (label ∷ t ∷ row) ≡ some (label, xs, ys)
    → (k : ℕ) → k < length (t ∷ row)
    → (v : V) × (length xs ≡ suc (length (t ∷ row)))
      × (length ys ≡ suc (length (t ∷ row)))
      × (get_elem? xs 0 ≡ some zero_time)
      × (get_elem? ys 0 ≡ some (0, length (t ∷ row)))
      × (get_elem? xs (suc k) ≡ some v)
      × (get_elem? ys (suc k) ≡ some (suc k, length (t ∷ row)))
      × (suc k ≤ count_if (at_most leb v) vs)
      × (count_if (below leb v) vs ≤ k)
unfolding mass_series
mass_series-count {V} float leb zero_time total transitive label t row vs xs ys read e k lt =
    let n = length (t ∷ row) in
    let drawn = fractions n 0 (suc n) in
    let same =
      some-injective (label, zero_time ∷ sorted leb vs, drawn) (label, xs, ys)
        (rw (read, mass_series) at e) in
    let xs_eq : zero_time ∷ sorted leb vs ≡ xs = ap (λ r. r.1) same in
    let ys_eq : drawn ≡ ys = ap (λ r. r.2) same in
    let size = length-sorted leb vs ∙ length-floats float (t ∷ row) vs read in
    let (v, point) = get_elem?_of_lt (sorted leb vs) k (omega arith) in
    let ordered = sorted-Sorted leb total transitive vs in
    let from_zero : 0 + suc k ≡ suc k = omega arith in
    let height : get_elem? drawn (suc k) ≡ some (suc k, n) =
      rw from_zero at (get_elem?-fractions n 0 (suc n) (suc k) (omega arith)) in
    (
      v,
      subst (λ xs. length xs ≡ suc n) xs_eq (ap suc size),
      subst (λ ys. length ys ≡ suc n) ys_eq (length-fractions n 0 (suc n)),
      subst (λ xs. get_elem? xs 0 ≡ some zero_time) xs_eq refl,
      subst (λ ys. get_elem? ys 0 ≡ some (0, n)) ys_eq
          (get_elem?-fractions n 0 (suc n) 0 (omega arith)),
      subst (λ xs. get_elem? xs (suc k) ≡ some v) xs_eq point,
      subst (λ ys. get_elem? ys (suc k) ≡ some (suc k, n)) ys_eq height,
      subst (λ c. suc k ≤ c) (count_if-sorted leb total transitive (at_most leb v) vs)
          (at_most-Sorted leb total transitive (sorted leb vs) k v ordered point),
      subst (λ c. c ≤ k) (count_if-sorted leb total transitive (below leb v) vs)
          (below-Sorted leb total transitive (sorted leb vs) k v ordered point),
    )
