-- ===== src/Paxos/Network/Members.antt =====
-- Sets of nodes, as lists without repetitions.
use krafters.Prelude.{
  ◌≤◌, ◌<◌, ◌+◌, ◌⊎◌, ℕ, ◌≡◌, refl, sym, inl, inr, true, false, List, [], ◌∷◌, ◌++◌, Bool-cases,
  ◌==◌, arith, length,
}
use mathlib.Core.Path.{subst}
use krafters.Sets.{contains, add, discard}
use krafters.Paxos.Learner.Tallies.{Distinct}

pub contains-append :
    (x w : ℕ) (us : List ℕ) → contains x (us ++ w ∷ []) ≡ true → (contains x us ≡ true) ⊎ (w ≡ x)
unfolding contains
contains-append x w [] h = inr (ground arith)
contains-append x w (u ∷ us) h = elim (Bool-cases (u == x)) [
  | inl e ↦ inl (rw e)
  | inr e ↦ elim (contains-append x w us (rw e at h)) [
    | inl old ↦ inl (rw (e, old))
    | inr new ↦ inr new
  ]
]

pub contains-add :
    (x w : ℕ) (us : List ℕ) → contains x (add w us) ≡ true → (contains x us ≡ true) ⊎ (w ≡ x)
unfolding add
contains-add x w us h = elim (Bool-cases (contains w us)) [
  | inl e ↦ inl (rw e at h)
  | inr e ↦ contains-append x w us (rw e at h)
]

Distinct-append :
    (w : ℕ) (us : List ℕ) → contains w us ≡ false → Distinct us → Distinct (us ++ w ∷ [])
unfolding contains
Distinct-append w [] new h = (refl, tt)
Distinct-append w (u ∷ us) new (alone, h) =
    let apart : (u == w) ≡ false = ground arith in
    let rest : contains w us ≡ false = ground arith in
    (
      (elim (Bool-cases (contains u (us ++ w ∷ []))) [
        | inr e ↦ e
        | inl e ↦ elim (contains-append u w us e) [
          | inl old ↦ absurd (cc (old, alone))
          | inr eq ↦ (let no = apart in absurd (ground arith))
        ]
      ]),
      Distinct-append w us rest h,
    )

pub Distinct-add : (w : ℕ) (us : List ℕ) → contains w us ≡ false → Distinct us → Distinct (add w us)
unfolding add
Distinct-add w us new h = rw new (Distinct-append w us new h)

discard-length_le : (u : ℕ) (ms : List ℕ) → length (discard u ms) ≤ length ms
unfolding discard
discard-length_le u [] = omega arith
discard-length_le u (m ∷ ms) = elim (Bool-cases (m == u)) [
  | inl e ↦ rw e (let le = discard-length_le u ms in omega arith)
  | inr e ↦ rw e (let le = discard-length_le u ms in omega arith)
]

discard-length : (u : ℕ) (ms : List ℕ) → contains u ms ≡ true → length (discard u ms) < length ms
unfolding discard contains
discard-length u [] here = absurd (cc here)
discard-length u (m ∷ ms) here = elim (Bool-cases (m == u)) [
  | inl e ↦ rw e (let le = discard-length_le u ms in omega arith)
  | inr e ↦ rw e (let lt = discard-length u ms (rw e at here) in omega arith)
]

contains-discard :
    (u w : ℕ) (ms : List ℕ)
    → contains w ms ≡ true
    → (u == w) ≡ false
    → contains w (discard u ms) ≡ true
unfolding discard contains
contains-discard u w [] here apart = here
contains-discard u w (m ∷ ms) here apart = elim (Bool-cases (m == u)) [
  | inl e ↦
      let other : (m == w) ≡ false = ground arith in
      rw e (contains-discard u w ms (rw other at here) apart)
  | inr e ↦ elim (Bool-cases (m == w)) [
    | inl g ↦ rw (e, g)
    | inr g ↦ rw (e, g) (contains-discard u w ms (rw g at here) apart)
  ]
]

apart_from :
    (u w : ℕ) (us : List ℕ) → contains u us ≡ false → contains w us ≡ true → (u == w) ≡ false
apart_from u w us out here = elim (Bool-cases (u == w)) [
  | inr e ↦ e
  | inl e ↦
      let eq : u ≡ w = ground arith in
      absurd (cc (subst (λ w. contains w us ≡ true) (sym eq) here, out))
]

-- Every element of the first is one of the second.
abbrev pub Within : List ℕ → List ℕ → Type 0
Within us ms = (u : ℕ) → contains u us ≡ true → contains u ms ≡ true

head_in : (u : ℕ) (us : List ℕ) → contains u (u ∷ us) ≡ true
unfolding contains
head_in u us = let same : (u == u) ≡ true = ground arith in rw same

tail_in : (u w : ℕ) (us : List ℕ) → contains w us ≡ true → contains w (u ∷ us) ≡ true
unfolding contains
tail_in u w us here = ground (arith, here)

Within-discard :
    (u : ℕ) (us ms : List ℕ) → contains u us ≡ false → Within us ms → Within us (discard u ms)
Within-discard u us ms out in_ w here =
    contains-discard u w ms (in_ w here) (apart_from u w us out here)

pub Distinct-length : (us ms : List ℕ) → Distinct us → Within us ms → length us ≤ length ms
Distinct-length [] ms d in_ = omega arith
Distinct-length (u ∷ us) ms (out, d) in_ =
    let rest =
      Distinct-length us (discard u ms) d
        (Within-discard u us ms out (λ w here. in_ w (tail_in u w us here))) in
    let lt = discard-length u ms (in_ u (head_in u us)) in omega arith

meet :
    (us vs ms : List ℕ)
    → Distinct us
    → Distinct vs
    → Within us ms
    → Within vs ms
    → length ms < length us + length vs
    → (u : ℕ) × (contains u us ≡ true) × (contains u vs ≡ true)
meet [] vs ms d d' in_ in_' lt = let le = Distinct-length vs ms d' in_' in absurd (omega arith)
meet (u ∷ us) vs ms (out, d) d' in_ in_' lt = elim (Bool-cases (contains u vs)) [
  | inl e ↦ (u, head_in u us, e)
  | inr e ↦
      let fewer = discard-length u ms (in_ u (head_in u us)) in
      let (w, here, there) =
        meet us vs (discard u ms) d d'
          (Within-discard u us ms out (λ w here. in_ w (tail_in u w us here)))
          (Within-discard u vs ms e in_') (omega arith) in
      (w, tail_in u w us here, there)
]

-- Two quorums of the members meet.
pub quorums_meet :
    (members us vs : List ℕ) (q : ℕ)
    → length members < q + q
    → Distinct us
    → Distinct vs
    → length us ≡ q
    → length vs ≡ q
    → ((u : ℕ) → contains u us ≡ true → contains u members ≡ true)
    → ((u : ℕ) → contains u vs ≡ true → contains u members ≡ true)
    → (u : ℕ) × (contains u us ≡ true) × (contains u vs ≡ true)
quorums_meet members us vs q minority d d' size size' in_ in_' =
    meet us vs members d d' in_ in_' (omega arith)
