-- ===== src/TestExecutor/Unwrapper/Ids.antt =====
-- The ids that resolve_ids hands to the network managers: their range, and no loopback by "rand".
use krafters.Prelude.{
  ℕ, ◌+◌, ◌≤◌, ◌<◌, ◌≡◌, ◌⊎◌, inl, inr, true, false, List, ◌++◌, [], ◌∷◌, some, ltb, arith, length,
  Bool-cases, Option-cases, ap, sym, ◌∙◌,
}
use mathlib.Core.Path.{subst}
use krafters.TestExecutor.Errors.{ok, Outcome-cases}
use krafters.Sets.{contains}
use krafters.TestExecutor.Unwrapper.{
  Name, word, int, Rng, referred, draw_values, resolve, resolve_both, resolve_ids,
}
use krafters.TestExecutor.Unwrapper.Draws.{
  contains-append, IsFresh, IsFresh-range, IsFresh-append, draw_values-IsFresh,
}
use krafters.TestExecutor.Unwrapper.Resolved.{
  Mentions, HasAll, Source, resolve-Explains, referred-Refers,
}

Mentions-append_left : (v : ℕ) (xs ys : List Name) → Mentions v xs → Mentions v (xs ++ ys)
Mentions-append_left v [] ys m = absurd m
Mentions-append_left v (int i ∷ xs) ys m = Mentions-append_left v xs ys m
Mentions-append_left v (word t ∷ xs) ys (inl e) = inl e
Mentions-append_left v (word t ∷ xs) ys (inr m) = inr (Mentions-append_left v xs ys m)

Mentions-append_right : (v : ℕ) (xs ys : List Name) → Mentions v ys → Mentions v (xs ++ ys)
Mentions-append_right v [] ys m = m
Mentions-append_right v (int i ∷ xs) ys m = Mentions-append_right v xs ys m
Mentions-append_right v (word t ∷ xs) ys m = inr (Mentions-append_right v xs ys m)

-- Where two resolved sets come from.
record Resolution (n : ℕ) (sources targets : List Name) (out_s out_t : List ℕ) : Type 0 where
  ids : List ℕ
  for_s : List ℕ
  for_t : List ℕ
  left : List ℕ
  fresh : IsFresh n ids (for_s ++ (for_t ++ left))
  refers : (v : ℕ) → Mentions v (sources ++ targets) → contains v ids ≡ true
  why_s : (v : ℕ) → contains v out_s ≡ true → Source n sources for_s v
  why_t : (v : ℕ) → contains v out_t ≡ true → Source n targets for_t v

no_result : (v : ℕ) {P : Type 0} → (contains v [] ≡ true) ⊎ P → P
unfolding contains
no_result v (inl h) = absurd (cc)
no_result v (inr p) = p

module _ (n : ℕ) (sources targets : List Name) (out_s out_t : List ℕ) where
  resolve_both-Resolution :
      (ids values : List ℕ)
      → IsFresh n ids values
      → ((v : ℕ) → Mentions v (sources ++ targets) → contains v ids ≡ true)
      → resolve_both n sources targets values ≡ ok (out_s, out_t)
      → Resolution n sources targets out_s out_t
  unfolding resolve_both
  resolve_both-Resolution ids values fresh refers h =
      elim (Outcome-cases (resolve n sources values [])) [
        | inr (e, q) ↦ absurd (cc (rw (q, resolve_both) at h))
        | inl (s, q) ↦ elim (Outcome-cases (resolve n targets s.1 [])) [
          | inr (e, g) ↦ absurd (cc (rw (q, g, resolve_both) at h))
          | inl (t, g) ↦
              let (a, qa, wa) = resolve-Explains n sources values [] s.0 s.1 q in
              let (b, qb, wb) = resolve-Explains n targets s.1 [] t.0 t.1 g in
              let pair : ok (s.0, t.0) ≡ ok (out_s, out_t) = rw (q, g, resolve_both) at h in
              let same_s : out_s ≡ s.0 = cc in
              let same_t : out_t ≡ t.0 = cc in
              record {
                ids = ids;
                for_s = a;
                for_t = b;
                left = t.1;
                fresh = subst (IsFresh n ids) (qa ∙ ap (λ vs. a ++ vs) qb) fresh;
                refers = refers;
                why_s = λ v m. no_result v (wa v (subst (λ o. contains v o ≡ true) same_s m));
                why_t = λ v m. no_result v (wb v (subst (λ o. contains v o ≡ true) same_t m));
              }
        ]
      ]

  resolve_ids-Resolution :
      (fuel : ℕ) (rng : Rng) (k k' : ℕ)
      → 0 < n
      → resolve_ids fuel rng k n sources targets ≡ some (ok (out_s, out_t), k')
      → Resolution n sources targets out_s out_t
  unfolding resolve_ids
  resolve_ids-Resolution fuel rng k k' pos h =
      elim (Outcome-cases (referred (sources ++ targets) [] 0)) [
        | inr (e, q) ↦ absurd (cc (rw (q, resolve_ids) at h))
        | inl ((ids, count), q) ↦ elim (Bool-cases (ltb n (length ids + count))) [
          | inl many ↦ absurd (cc (rw (q, many, resolve_ids) at h))
          | inr few ↦ elim (Option-cases (draw_values fuel rng n k ids count [])) [
            | inl stuck ↦ absurd (cc (rw (q, few, stuck, resolve_ids) at h))
            | inr ((values, k''), drawn) ↦
                let (vs, e, size, fresh) =
                  draw_values-IsFresh fuel rng n k ids count [] values k'' pos drawn in
                resolve_both-Resolution ids values (subst (IsFresh n ids) (sym e) fresh)
                  (λ v m. referred-Refers (sources ++ targets) [] ids 0 count q v (inr m))
                  (cc (rw (q, few, drawn, resolve_ids) at h))
          ]
        ]
      ]

module _ {n : ℕ} {sources targets : List Name} {out_s out_t : List ℕ}
    (r : Resolution n sources targets out_s out_t) where
  open r use {ids, for_s, for_t, left, fresh, refers, why_s, why_t}

  drawn_s : (v : ℕ) → contains v for_s ≡ true → (1 ≤ v) × (v ≤ n) × (contains v ids ≡ false)
  drawn_s v h =
      IsFresh-range n v ids (for_s ++ (for_t ++ left)) fresh
        (ground (arith, contains-append v for_s (for_t ++ left)))

  drawn_t : (v : ℕ) → contains v for_t ≡ true → (1 ≤ v) × (v ≤ n) × (contains v ids ≡ false)
  drawn_t v h =
      IsFresh-range n v ids (for_s ++ (for_t ++ left)) fresh
        (ground (arith, contains-append v for_s (for_t ++ left), contains-append v for_t left))

  apart : (v : ℕ) → contains v for_s ≡ true → contains v for_t ≡ true → ⊥
  apart v h g =
      ground
        (arith, IsFresh-append n v ids for_s (for_t ++ left) fresh h, contains-append v for_t left)

  range_s : (v : ℕ) → contains v out_s ≡ true → (v ≤ n) × ((1 ≤ v) ⊎ Mentions v sources)
  range_s v h = ground (arith, why_s v h, drawn_s v)

  range_t : (v : ℕ) → contains v out_t ≡ true → (v ≤ n) × ((1 ≤ v) ⊎ Mentions v targets)
  range_t v h = ground (arith, why_t v h, drawn_t v)

  no_common :
      ¬ HasAll sources
      → ¬ HasAll targets
      → (v : ℕ) → (Mentions v sources → Mentions v targets → ⊥)
      → contains v out_s ≡ true
      → contains v out_t ≡ true
      → ⊥
  no_common na nb v alone h g = ground (
    arith,
    why_s v h,
    why_t v g,
    drawn_s v,
    drawn_t v,
    apart v,
    refers v,
    Mentions-append_left v sources targets,
    Mentions-append_right v sources targets,
  )

-- Every id of a set.
abbrev pub All : (ℕ → Type 0) → List ℕ → Type 0
All P [] = Unit {0}
All P (v ∷ vs) = P v × All P vs

All-contains : (P : ℕ → Type 0) (vs : List ℕ) → ((v : ℕ) → contains v vs ≡ true → P v) → All P vs
unfolding contains
All-contains P [] h = tt
All-contains P (v ∷ vs) h = (h v (ground arith), All-contains P vs (λ w m. h w (ground arith)))

-- Ids in range. On a cluster of `n` nodes, where resolve_ids returns, every id of either set is at most
-- `n`, and at least 1 unless the command spells it out as a number on the same side.
pub resolve_ids_range :
    (fuel : ℕ) (rng : Rng) (k k' n : ℕ) (sources targets : List Name) (out_s out_t : List ℕ)
    → 0 < n
    → resolve_ids fuel rng k n sources targets ≡ some (ok (out_s, out_t), k')
    → All (λ v. (v ≤ n) × ((1 ≤ v) ⊎ Mentions v sources)) out_s
      × All (λ v. (v ≤ n) × ((1 ≤ v) ⊎ Mentions v targets)) out_t
resolve_ids_range fuel rng k k' n sources targets out_s out_t pos h =
    let r = resolve_ids-Resolution n sources targets out_s out_t fuel rng k k' pos h in
    (
      All-contains (λ v. (v ≤ n) × ((1 ≤ v) ⊎ Mentions v sources)) out_s (range_s r),
      All-contains (λ v. (v ≤ n) × ((1 ≤ v) ⊎ Mentions v targets)) out_t (range_t r),
    )

-- No loopback. Where neither side of a link command has "all", and `v` is not spelled out on both
-- sides, no resolution of the "rand" words puts `v` in both sets.
pub resolve_ids_disjoint :
    (fuel : ℕ) (rng : Rng) (k k' n : ℕ) (sources targets : List Name) (out_s out_t : List ℕ) (v : ℕ)
    → 0 < n
    → ¬ HasAll sources
    → ¬ HasAll targets
    → ¬ (Mentions v sources × Mentions v targets)
    → resolve_ids fuel rng k n sources targets ≡ some (ok (out_s, out_t), k')
    → ¬ ((contains v out_s ≡ true) × (contains v out_t ≡ true))
resolve_ids_disjoint fuel rng k k' n sources targets out_s out_t v pos na nb alone h both =
    let r = resolve_ids-Resolution n sources targets out_s out_t fuel rng k k' pos h in
    no_common r na nb v (λ a b. alone (a, b)) both.0 both.1
