-- ===== src/Paxos/Proposer/Answers.antt =====
-- What a proposer answers to a Promise, and that its proposal stays.
use krafters.Prelude.{
  ℕ, ◌≡◌, refl, sym, ap, ◌∙◌, inl, inr, Bool, true, false, not, ◌&&◌, List, Option, none, some,
  Bool-cases, Option-cases, ◌==◌, if◌then◌else◌, length,
}
use krafters.Sets.{contains, add}
use krafters.Paxos.Messages.{
  ProposalId, before, before_opt, same_id, Promise, Accept, accept, Reply, returns, nothing,
}
use krafters.Paxos.Proposer.{
  Proposer, observe_proposal, receive_promise, count_promise, adopt, try_lead,
}

pub observe_proposal-same :
    (o : Option ProposalId) (p : Proposer) → (observe_proposal o p).proposal_id ≡ p.proposal_id
unfolding observe_proposal before_opt
observe_proposal-same none p = refl
observe_proposal-same (some id) p = elim (Bool-cases (before p.highest_proposal_id id)) [
  | inl e ↦ rw (e, observe_proposal)
  | inr e ↦ rw (e, observe_proposal)
]

-- An Accept message is for the proposal of the proposer, which stays.
abbrev pub Answers : Proposer → Reply × Proposer → Type 0
Answers p r =
    (r.1.proposal_id ≡ p.proposal_id)
    × ((m : Accept) → r.0 ≡ returns (accept m) → m.proposal_id ≡ p.proposal_id)

accept_id : ProposalId → Reply → ProposalId
accept_id d (returns (accept m)) = m.proposal_id
accept_id d _ = d

try_lead-Answers : (n : ℕ) (p : Proposer) → Answers p (try_lead n p)
unfolding try_lead accept_id
try_lead-Answers n p = elim (Bool-cases (n == p.quorum_size)) [
  | inr e ↦ rw (e, try_lead) (refl, λ m same. absurd (cc same))
  | inl e ↦ elim (Option-cases p.proposed_value) [
    | inl g ↦ rw (e, g, try_lead) (refl, λ m same. absurd (cc same))
    | inr (v, g) ↦ rw (e, g, try_lead) (refl, λ m same. sym (ap (accept_id p.proposal_id) same))
  ]
]

adopt-same : (msg : Promise) (p : Proposer) → (adopt msg p).proposal_id ≡ p.proposal_id
unfolding adopt
adopt-same msg p = elim (Bool-cases (before_opt p.highest_accepted_id msg.last_accepted_id)) [
  | inl e ↦ rw (e, adopt)
  | inr e ↦ rw (e, adopt)
]

either :
    (p : Proposer) (b : Bool) (x y : Reply × Proposer)
    → Answers p x
    → Answers p y
    → Answers p (if b then x else y)
either p true x y h g = h
either p false x y h g = g

count_promise-Answers :
    (msg : Promise) (o : Option (List ℕ)) (p : Proposer) → Answers p (count_promise msg o p)
unfolding count_promise
count_promise-Answers msg none p = (refl, λ m same. absurd (cc same))
count_promise-Answers msg (some uids) p =
    let promises = add msg.from_uid uids in
    let p1 = record p { promises_received = some promises } in
    let (kept, answer) = try_lead-Answers (length promises) (adopt msg p1) in
    let same = adopt-same msg p1 in
    either p (contains msg.from_uid uids) (nothing, p) (try_lead (length promises) (adopt msg p1))
      (refl, λ m e. absurd (cc e)) (kept ∙ same, λ m e. answer m e ∙ same)

pub receive_promise-Answers : (msg : Promise) (p : Proposer) → Answers p (receive_promise msg p)
unfolding receive_promise
receive_promise-Answers msg p =
    let seen = observe_proposal (some msg.proposal_id) p in
    let same = observe_proposal-same (some msg.proposal_id) p in
    let (kept, answer) = count_promise-Answers msg seen.promises_received seen in
    either p (not seen.leader && same_id msg.proposal_id seen.proposal_id)
      (count_promise msg seen.promises_received seen) (nothing, seen)
      (kept ∙ same, λ m e. answer m e ∙ same) (same, λ m e. absurd (cc e))
