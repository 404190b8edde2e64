-- ===== src/TestExecutor/Unwrapper/RandomLinks.antt =====
-- The two loops of modify_random_link, which draw a source and a target until enough links are selected.
use krafters.Prelude.{
  ℕ, zero, suc, ◌+◌, ◌-◌, ◌≤◌, ◌<◌, ◌≡◌, ◌≢◌, refl, Bool, true, false, List, [], ◌∷◌, Option, none,
  some, ltb, ◌==◌, arith, length, Bool-cases, inl, inr, if◌then◌else◌,
}
use krafters.Sets.{contains}
use krafters.TestExecutor.Unwrapper.{
  Rng, randrange, Links, no_links, selected_has, select, select_links,
}
use krafters.TestExecutor.Unwrapper.Draws.{free_id}

-- Every two different residues come up again and again, the first one twice and then the second one.
-- Whatever the loops wait for when such draws begin, they select this link.
abbrev pub PairsComeUp : Rng → ℕ → Type 0
PairsComeUp rng n =
    (s t : ℕ)
    → s < n
    → t < n
    → s ≢ t
    → (k : ℕ)
    → (d : ℕ) × (randrange rng (k + d) n ≡ s)
      × (randrange rng (suc (k + d)) n ≡ s)
      × (randrange rng (suc (suc (k + d))) n ≡ t)

-- The targets of the links that are selected from the node 1.
targets_of_first : List (ℕ × ℕ) → List ℕ
targets_of_first [] = []
targets_of_first ((s, t) ∷ links) =
    let rest = targets_of_first links in if s == 1 then t ∷ rest else rest

contains-targets_of_first :
    (t : ℕ) (links : List (ℕ × ℕ))
    → selected_has (1, t) links ≡ true
    → contains t (targets_of_first links) ≡ true
unfolding targets_of_first selected_has contains
contains-targets_of_first t [] h = h
contains-targets_of_first t ((a, b) ∷ links) h = ground (arith, contains-targets_of_first t links)

select-has : (s t : ℕ) (b : Bool) (l : Links) → selected_has (s, t) (select s t b l).selected ≡ true
unfolding select selected_has
select-has s t b l = ground arith

select-keeps :
    (s t : ℕ) (b : Bool) (l : Links) (p : ℕ × ℕ)
    → selected_has p l.selected ≡ true
    → selected_has p (select s t b l).selected ≡ true
unfolding select selected_has
select-keeps s t b l p h = ground arith

-- A link that is selected leads from the node 1 in one direction at most.
select-targets :
    (s t : ℕ) (b : Bool) (l : Links)
    → (t == s) ≡ false
    → length (targets_of_first l.selected) ≤ l.n_selected
    → length (targets_of_first (select s t b l).selected) ≤ (select s t b l).n_selected
unfolding select targets_of_first
select-targets s t b l h g = ground arith

-- The links from the node 1 to the nodes above `m + 1` are selected, and no more of them than counted.
record FromFirst (n m : ℕ) (l : Links) : Type 0 where
  counted : length (targets_of_first l.selected) ≤ l.n_selected
  reached : (j : ℕ) → m < j → j < n → selected_has (1, j + 1) l.selected ≡ true

select-FromFirst :
    (n m s t : ℕ) (b : Bool) (l : Links)
    → (t == s) ≡ false
    → FromFirst n m l
    → FromFirst n m (select s t b l)
select-FromFirst n m s t b l h f = record {
  counted = select-targets s t b l h f.counted;
  reached = λ j above lt. select-keeps s t b l (1, j + 1) (f.reached j above lt);
}

no_free :
    (n v : ℕ) (l : Links)
    → FromFirst n 0 l
    → v < n
    → contains (suc v) (1 ∷ targets_of_first l.selected) ≡ true
unfolding contains
no_free n zero l f lt = refl
no_free n (suc v) l f lt =
    let one : suc v + 1 ≡ suc (suc v) = omega arith in
    let there =
      contains-targets_of_first (suc v + 1) l.selected (f.reached (suc v) (omega arith) lt) in
    ground (arith, rw one at there)

-- The links from the node 1 are one for each other node.
FromFirst-le : (n : ℕ) (l : Links) → FromFirst n 0 l → n ≤ suc l.n_selected
FromFirst-le n l f = elim (Bool-cases (ltb (suc l.n_selected) n)) [
  | inr e ↦ ground arith
  | inl e ↦
      let counted = f.counted in
      let (v, lt, free) = free_id n (1 ∷ targets_of_first l.selected) (ground arith) in
      absurd (cc (no_free n v l f lt, free))
]

module _ (rng : Rng) (n wanted : ℕ) (b : Bool) where
  -- The loops end, where they stand.
  abbrev pub LoopsEnd : Option ℕ → Links → ℕ → Type 0
  LoopsEnd from l k =
      (fuel : ℕ) × (out : Links × ℕ) × (select_links fuel rng k n wanted b from l ≡ some out)

  draw_source :
      (l : Links) (k : ℕ) → LoopsEnd (some (randrange rng k n + 1)) l (suc k) → LoopsEnd none l k
  unfolding select_links
  draw_source l k (fuel, out, e) = elim (Bool-cases (ltb l.n_selected wanted)) [
    | inl more ↦ (suc fuel, out, rw (more, select_links) e)
    | inr enough ↦ (0, (l, k), rw (enough, select_links))
  ]

  draw_again :
      (x : ℕ) (l : Links) (k : ℕ)
      → ((randrange rng k n + 1) == x) ≡ true
      → LoopsEnd (some x) l (suc k)
      → LoopsEnd (some x) l k
  unfolding select_links
  draw_again x l k same (fuel, out, e) = (suc fuel, out, rw (same, select_links) e)

  draw_target :
      (x : ℕ) (l : Links) (k : ℕ)
      → ((randrange rng k n + 1) == x) ≡ false
      → LoopsEnd none (select x (randrange rng k n + 1) b l) (suc k)
      → LoopsEnd (some x) l k
  unfolding select_links
  draw_target x l k other (fuel, out, e) = (suc fuel, out, rw (other, select_links) e)

  -- A predicate that every selection keeps, and two different ids that are drawn, `d` places on.
  module _ (P : Links → Type 0)
      (keep : (s t : ℕ) (l : Links) → (t == s) ≡ false → P l → P (select s t b l)) (s t : ℕ)
      (apart : s ≢ t)
      (next : (l : Links) (k : ℕ)
        → P l
        → selected_has (s + 1, t + 1) l.selected ≡ true
        → LoopsEnd none l k) where
    -- The target, behind the source.
    draw_last : (l : Links) (k : ℕ) → P l → randrange rng k n ≡ t → LoopsEnd (some (s + 1)) l k
    draw_last l k p e =
        let other : ((t + 1) == (s + 1)) ≡ false = ground arith in
        draw_target (s + 1) l k (rw e other) (
          rw e (
            next (select (s + 1) (t + 1) b l) (suc k) (keep (s + 1) (t + 1) l other p)
              (select-has (s + 1) (t + 1) b l)))

    -- The source a second time, and the target.
    draw_pair :
        (from : Option ℕ) (l : Links) (k : ℕ)
        → P l
        → randrange rng k n ≡ s
        → randrange rng (suc k) n ≡ s
        → randrange rng (suc (suc k)) n ≡ t
        → LoopsEnd from l k
    draw_pair none l k p e f g =
        let same : ((s + 1) == (s + 1)) ≡ true = ground arith in
        draw_source l k
          (rw e (draw_again (s + 1) l (suc k) (rw f same) (draw_last l (suc (suc k)) p g)))
    draw_pair (some x) l k p e f g = elim (Bool-cases ((randrange rng k n + 1) == x)) [
      | inl same ↦
          let here : x ≡ s + 1 = ground arith in
          let again : ((s + 1) == (s + 1)) ≡ true = ground arith in
          draw_again x l k same
            (rw here (draw_again (s + 1) l (suc k) (rw f again) (draw_last l (suc (suc k)) p g)))
      | inr other ↦
          let l' = select x (randrange rng k n + 1) b l in
          draw_target x l k other (
            draw_source l' (suc k)
              (rw f (draw_last l' (suc (suc k)) (keep x (randrange rng k n + 1) l other p) g)))
    ]

    draw_until :
        (d : ℕ) (from : Option ℕ) (l : Links) (k at : ℕ)
        → k + d ≡ at
        → P l
        → randrange rng at n ≡ s
        → randrange rng (suc at) n ≡ s
        → randrange rng (suc (suc at)) n ≡ t
        → LoopsEnd from l k
    draw_until zero from l k at h p e f g =
        let here : at ≡ k = omega arith in
        draw_pair from l k p (rw here at e) (rw here at f) (rw here at g)
    draw_until (suc d) none l k at h p e f g =
        draw_source l k
          (draw_until d (some (randrange rng k n + 1)) l (suc k) at (omega arith) p e f g)
    draw_until (suc d) (some x) l k at h p e f g =
        elim (Bool-cases ((randrange rng k n + 1) == x)) [
          | inl same ↦
              draw_again x l k same (draw_until d (some x) l (suc k) at (omega arith) p e f g)
          | inr other ↦ draw_target x l k other (
              draw_until d none (select x (randrange rng k n + 1) b l) (suc k) at (omega arith)
                (keep x (randrange rng k n + 1) l other p) e f g)
        ]

  module _ (pairs : PairsComeUp rng n) (few : wanted < n) where
    -- With the links from the node 1 to the nodes above `m + 1`, it takes the next one.
    FromFirst-LoopsEnd : (m : ℕ) (l : Links) (k : ℕ) → m < n → FromFirst n m l → LoopsEnd none l k
    unfolding select_links
    FromFirst-LoopsEnd zero l k lt f =
        let enough : ltb l.n_selected wanted ≡ false = ground (arith, FromFirst-le n l f) in
        (0, (l, k), rw (enough, select_links))
    FromFirst-LoopsEnd (suc m) l k lt f =
        let (d, e, e', g) = pairs 0 (suc m) (omega arith) lt (λ q. omega arith) k in
        draw_until (FromFirst n (suc m)) (λ s t l. select-FromFirst n (suc m) s t b l) 0 (suc m)
          (λ q. omega arith)
          (λ l' k' f' has. FromFirst-LoopsEnd m l' k' (omega arith) (record {
            counted = f'.counted;
            reached = λ j above below. elim (Bool-cases (j == suc m)) [
              | inl same ↦ let here : j ≡ suc m = ground arith in rw here has
              | inr other ↦ f'.reached j (ground arith) below
            ];
          }))
          d none l k (k + d) refl f e e' g

    -- From the start: for fewer links than nodes, the loops end.
    pub select_links_ends : (k : ℕ) → LoopsEnd none no_links k
    unfolding targets_of_first
    select_links_ends k =
        let top : ℕ = n - 1 in
        FromFirst-LoopsEnd top no_links k (omega arith)
          (record { counted = omega arith; reached = λ j above below. absurd (omega arith) })

-- More fuel does not change what the loops return.
pub select_links-le :
    (fuel fuel' : ℕ) (rng : Rng) (k n wanted : ℕ) (b : Bool) (from : Option ℕ) (l : Links)
    (out : Links × ℕ)
    → fuel ≤ fuel'
    → select_links fuel rng k n wanted b from l ≡ some out
    → select_links fuel' rng k n wanted b from l ≡ some out
unfolding select_links
select_links-le zero zero rng k n wanted b from l out le e = e
select_links-le zero (suc fuel') rng k n wanted b none l out le e = ground arith
select_links-le zero (suc fuel') rng k n wanted b (some s) l out le e = absurd (cc)
select_links-le (suc fuel) zero rng k n wanted b from l out le e = absurd (omega arith)
select_links-le (suc fuel) (suc fuel') rng k n wanted b none l out le e =
    elim (Bool-cases (ltb l.n_selected wanted)) [
      | inr enough ↦ rw (enough, select_links) (rw (enough, select_links) at e)
      | inl more ↦
          rw (more, select_links)
            (select_links-le fuel fuel' rng (suc k) n wanted b (some (randrange rng k n + 1)) l out
              (omega arith) (rw (more, select_links) at e))
    ]
select_links-le (suc fuel) (suc fuel') rng k n wanted b (some s) l out le e =
    elim (Bool-cases ((randrange rng k n + 1) == s)) [
      | inl same ↦
          rw (same, select_links)
            (select_links-le fuel fuel' rng (suc k) n wanted b (some s) l out (omega arith)
              (rw (same, select_links) at e))
      | inr other ↦
          rw (other, select_links)
            (select_links-le fuel fuel' rng (suc k) n wanted b none
              (select s (randrange rng k n + 1) b l) out (omega arith)
              (rw (other, select_links) at e))
    ]
