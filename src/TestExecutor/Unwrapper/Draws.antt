-- ===== src/TestExecutor/Unwrapper/Draws.antt =====
-- The draws for "rand": what the loop of resolve_ids returns, and that it ends when enough ids are
-- free and the stream of draws leaves none out for ever.
use krafters.Prelude.{
  ℕ, zero, suc, ◌+◌, ◌≤◌, ◌<◌, ◌≡◌, refl, ◌∙◌, inl, inr, true, false, ◌||◌, List, [], ◌∷◌, ◌++◌,
  some, ◌==◌, arith, length, length-append, Bool-cases, if◌then◌else◌,
}
use mathlib.Core.List.{append_assoc, append-nil}
use krafters.Sets.{contains}
use krafters.TestExecutor.Unwrapper.{Rng, randrange, draw_values}

pub contains-append :
    (a : ℕ) (xs ys : List ℕ) → contains a (xs ++ ys) ≡ (contains a xs || contains a ys)
unfolding contains
contains-append a [] ys = refl
contains-append a (x ∷ xs) ys = ground (arith, contains-append a xs ys)

-- Ids in 1 .. n, none of them among `ids` and none twice.
abbrev pub IsFresh : ℕ → List ℕ → List ℕ → Type 0
IsFresh n ids [] = Unit {0}
IsFresh n ids (v ∷ vs) = (1 ≤ v) × (v ≤ n) × (contains v ids ≡ false) × IsFresh n (ids ++ v ∷ []) vs

pub IsFresh-not_in :
    (n v : ℕ) (ids vs : List ℕ) → IsFresh n ids vs → contains v ids ≡ true → contains v vs ≡ false
unfolding contains
IsFresh-not_in n v ids [] f h = refl
IsFresh-not_in n v ids (w ∷ vs) f h =
    ground (arith, IsFresh-not_in n v (ids ++ w ∷ []) vs f.3, contains-append v ids (w ∷ []))

pub IsFresh-range :
    (n v : ℕ) (ids vs : List ℕ)
    → IsFresh n ids vs
    → contains v vs ≡ true
    → (1 ≤ v) × (v ≤ n) × (contains v ids ≡ false)
unfolding contains
IsFresh-range n v ids [] f h = absurd (cc)
IsFresh-range n v ids (w ∷ vs) f h =
    ground (arith, IsFresh-range n v (ids ++ w ∷ []) vs f.3, contains-append v ids (w ∷ []))

-- Two parts of the values drawn have no id in common.
pub IsFresh-append :
    (n v : ℕ) (ids xs ys : List ℕ)
    → IsFresh n ids (xs ++ ys)
    → contains v xs ≡ true
    → contains v ys ≡ false
unfolding contains
IsFresh-append n v ids [] ys f h = absurd (cc)
IsFresh-append n v ids (a ∷ xs) ys f h = ground (
  arith,
  IsFresh-append n v (ids ++ a ∷ []) xs ys f.3,
  IsFresh-not_in n v (ids ++ a ∷ []) (xs ++ ys) f.3,
  contains-append v ids (a ∷ []),
  contains-append v xs ys,
)

-- What the loop returns: as many fresh ids as were asked for, behind those it had.
pub draw_values-IsFresh :
    (fuel : ℕ) (rng : Rng) (n k : ℕ) (ids : List ℕ) (count : ℕ) (values out : List ℕ) (k' : ℕ)
    → 0 < n
    → draw_values fuel rng n k ids count values ≡ some (out, k')
    → (drawn : List ℕ) × (out ≡ values ++ drawn) × (length drawn ≡ count) × IsFresh n ids drawn
unfolding draw_values
draw_values-IsFresh fuel rng n k ids zero values out k' pos e = ([], rw append-nil (cc), refl, tt)
draw_values-IsFresh zero rng n k ids (suc count) values out k' pos e = absurd (cc)
draw_values-IsFresh (suc fuel) rng n k ids (suc count) values out k' pos e =
    let ran = randrange rng k n + 1 in
    elim (Bool-cases (contains ran ids)) [
      | inl known ↦
          draw_values-IsFresh fuel rng n (suc k) ids (suc count) values out k' pos
            (rw (known, draw_values) at e)
      | inr free ↦
          let (drawn, q, size, fresh) =
            draw_values-IsFresh fuel rng n (suc k) (ids ++ ran ∷ []) count (values ++ ran ∷ []) out
              k' pos (rw (free, draw_values) at e) in
          (
            ran ∷ drawn,
            q ∙ append_assoc values (ran ∷ []) drawn,
            omega arith,
            (omega arith, omega arith, free, fresh),
          )
    ]

remove : ℕ → List ℕ → List ℕ
remove a [] = []
remove a (x ∷ xs) = let rest = remove a xs in if x == a then rest else x ∷ rest

contains-remove :
    (a b : ℕ) (xs : List ℕ) → contains b (remove a xs) ≡ (if a == b then false else contains b xs)
unfolding contains remove
contains-remove a b [] = ground arith
contains-remove a b (x ∷ xs) = ground (arith, contains-remove a b xs)

length-remove-le : (a : ℕ) (xs : List ℕ) → length (remove a xs) ≤ length xs
unfolding remove
length-remove-le a [] = omega arith
length-remove-le a (x ∷ xs) = ground (arith, length-remove-le a xs)

length-remove-lt : (a : ℕ) (xs : List ℕ) → contains a xs ≡ true → length (remove a xs) < length xs
unfolding contains remove
length-remove-lt a [] h = absurd (cc)
length-remove-lt a (x ∷ xs) h = ground (arith, length-remove-le a xs, length-remove-lt a xs)

-- Fewer than `n` ids leave one of 1 .. n free.
pub free_id :
    (n : ℕ) (ids : List ℕ) → length ids < n → (v : ℕ) × (v < n) × (contains (suc v) ids ≡ false)
free_id zero ids h = absurd (omega arith)
free_id (suc n) ids h = elim (Bool-cases (contains (suc n) ids)) [
  | inr free ↦ (n, omega arith, free)
  | inl taken ↦
      let (v, lt, free) =
        free_id n (remove (suc n) ids) (omega (arith, length-remove-lt (suc n) ids taken)) in
      (v, omega arith, ground (arith, contains-remove (suc n) (suc v) ids))
]

-- Every residue comes up again and again.
abbrev pub IsFair : Rng → ℕ → Type 0
IsFair rng n = (v : ℕ) → v < n → (k : ℕ) → (d : ℕ) × (randrange rng (k + d) n ≡ v)

abbrev pub DrawsEnd : Rng → ℕ → ℕ → List ℕ → ℕ → List ℕ → Type 0
DrawsEnd rng n k ids count values =
    (fuel : ℕ) × (out : List ℕ × ℕ) × (draw_values fuel rng n k ids count values ≡ some out)

module _ (rng : Rng) (n count : ℕ) (ids values : List ℕ) where
  -- The draws up to one that is free, `d` places on.
  draws_until :
      ((k v : ℕ) → DrawsEnd rng n k (ids ++ v ∷ []) count (values ++ v ∷ []))
      → (d k at : ℕ) → k + d ≡ at
      → contains (randrange rng at n + 1) ids ≡ false
      → DrawsEnd rng n k ids (suc count) values
  unfolding draw_values
  draws_until next zero k at h free =
      let here : at ≡ k = omega arith in
      let now : contains (randrange rng k n + 1) ids ≡ false = rw here at free in
      let (fuel, out, e) = next (suc k) (randrange rng k n + 1) in
      (suc fuel, out, rw (now, draw_values) e)
  draws_until next (suc d) k at h free = elim (Bool-cases (contains (randrange rng k n + 1) ids)) [
    | inr now ↦
        let (fuel, out, e) = next (suc k) (randrange rng k n + 1) in
        (suc fuel, out, rw (now, draw_values) e)
    | inl known ↦
        let (fuel, out, e) = draws_until next d (suc k) at (omega arith) free in
        (suc fuel, out, rw (known, draw_values) e)
  ]

-- The loop for "rand" ends: if no more ids are referred to than there are nodes, and the stream of
-- draws is fair, some number of draws suffices.
pub draw_values_ends :
    (rng : Rng) (n : ℕ)
    → IsFair rng n
    → (count : ℕ) (ids values : List ℕ) (k : ℕ) → length ids + count ≤ n
    → DrawsEnd rng n k ids count values
unfolding draw_values
draw_values_ends rng n fair zero ids values k h = (0, (values, k), refl)
draw_values_ends rng n fair (suc count) ids values k h =
    let (v, lt, free) = free_id n ids (omega arith) in
    let (d, hit) = fair v lt k in
    let one : suc v ≡ v + 1 = omega arith in
    draws_until rng n count ids values
      (λ k' w.
        draw_values_ends rng n fair count (ids ++ w ∷ []) (values ++ w ∷ []) k'
          (omega (arith, length-append ids (w ∷ []))))
      d k (k + d) refl (rw (hit, ← one) free)
