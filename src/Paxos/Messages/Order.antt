-- ===== src/Paxos/Messages/Order.antt =====
-- The order of proposal ids.
use krafters.Prelude.{
  ℕ, zero, suc, ◌≤◌, ◌<◌, ◌≡◌, ◌⊎◌, inl, inr, refl, true, false, Option, none, some, ltb,
  Bool-cases, arith,
}
use krafters.Paxos.Messages.{ProposalId, before, same_id, before_opt}

pub before_irrefl : (a : ProposalId) → before a a ≡ false
unfolding before
before_irrefl a = ground arith

pub before_trans : (a b c : ProposalId) → before a b ≡ true → before b c ≡ true → before a c ≡ true
unfolding before
before_trans a b c h g = ground arith

pub before_asymm : (a b : ProposalId) → before a b ≡ true → before b a ≡ false
unfolding before
before_asymm a b h = ground arith

-- Not below is a transitive relation: it is the order's `>=`.
pub at_least_trans :
    (a b c : ProposalId) → before a b ≡ false → before b c ≡ false → before a c ≡ false
unfolding before
at_least_trans a b c h g = ground arith

pub same_id_refl : (a : ProposalId) → same_id a a ≡ true
unfolding same_id
same_id_refl a = ground arith

pub same_id-≡ : (a b : ProposalId) → same_id a b ≡ true → a ≡ b
unfolding same_id
same_id-≡ a b h =
    let n : a.number ≡ b.number = ground arith in let u : a.uid ≡ b.uid = ground arith in cc

pub same_id_join :
    (a b c : ProposalId) → same_id a b ≡ true → same_id a c ≡ true → same_id b c ≡ true
unfolding same_id
same_id_join a b c h g = ground arith

pub before_opt_trans :
    (a b c : Option ProposalId)
    → before_opt a b ≡ false
    → before_opt b c ≡ false
    → before_opt a c ≡ false
unfolding before_opt
before_opt_trans a b none h g = refl
before_opt_trans a none (some c) h g = absurd (cc)
before_opt_trans none (some b) (some c) h g = absurd (cc)
before_opt_trans (some a) (some b) (some c) h g = at_least_trans a b c h g

pub before_opt_irrefl : (a : Option ProposalId) → before_opt a a ≡ false
unfolding before_opt
before_opt_irrefl none = refl
before_opt_irrefl (some a) = before_irrefl a

pub before_opt_flip : (a b : Option ProposalId) → before_opt a b ≡ true → before_opt b a ≡ false
unfolding before_opt
before_opt_flip a none h = absurd (cc)
before_opt_flip none (some b) h = refl
before_opt_flip (some a) (some b) h = before_asymm a b h

-- The order is well-founded: induction over the ids below.
module _ {ℓ} (P : ProposalId → Type ℓ)
    (step : (c : ProposalId) → ((h : ProposalId) → before h c ≡ true → P h) → P c) where
  by_uid :
      (n m : ℕ)
      → ((h : ProposalId) → h.number < n → P h)
      → (c : ProposalId) → c.number ≤ n
      → c.uid < m
      → P c
  unfolding before
  by_uid n zero low c le lt = absurd (omega arith)
  by_uid n (suc m) low c le lt = step c (λ h below. elim (Bool-cases (ltb h.number n)) [
    | inl e ↦ low h (ground arith)
    | inr e ↦
        let uid_lt : h.uid < m = ground arith in
        let number_le : h.number ≤ n = ground arith in by_uid n m low h number_le uid_lt
  ])

  by_number : (n : ℕ) (c : ProposalId) → c.number < n → P c
  by_number zero c lt = absurd (omega arith)
  by_number (suc n) c lt = by_uid n (suc c.uid) (by_number n) c (omega arith) (omega arith)

  pub before_induction : (c : ProposalId) → P c
  before_induction c = by_number (suc c.number) c (omega arith)

pub same_or_below : (b c : ProposalId) → before c b ≡ false → (b ≡ c) ⊎ (before b c ≡ true)
unfolding before same_id
same_or_below b c h = elim (Bool-cases (before b c)) [
  | inl e ↦ inr e
  | inr e ↦ inl (same_id-≡ b c (ground arith))
]
