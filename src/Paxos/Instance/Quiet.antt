-- ===== src/Paxos/Instance/Quiet.antt =====
-- Only a handled Accept message is answered with an Accepted message.
use krafters.Prelude.{
  ℕ, suc, inl, inr, Bool, true, false, List, Option, none, some, Bool-cases, Option-cases, ◌==◌,
  not, ◌&&◌, if◌then◌else◌, length,
}
use krafters.Text.{Text, text_eq}
use krafters.Dict.{find, put}
use krafters.Sets.{contains, add}
use krafters.Paxos.Messages.{
  ProposalId, before_opt, same_id, Promise, Nack, Accepted, prepare, nack, promise, accept,
  accepted, resolution, Reply, returns, nothing, raises,
}
use krafters.Paxos.Proposer.{
  Proposer, receive_nack, receive_promise, count_nack, count_promise, observe_proposal, try_lead,
  adopt, prepare_next, propose_value,
}
use krafters.Paxos.Learner.{
  tally, Learner, ProposalStatus, Proposals, leave_last, status_of, receive_accepted, receive_by,
  receive_open, receive_closed, count_new, count_accepted,
}

-- Replies other than Promise and Accepted.
abbrev pub Quiet : Reply → Type 0
Quiet (returns (accepted m)) = ⊥
Quiet (returns (promise m)) = ⊥
Quiet _ = Unit {0}

-- Replies other than Accepted.
abbrev pub Unaccepting : Reply → Type 0
Unaccepting (returns (accepted m)) = ⊥
Unaccepting _ = Unit {0}

pub Unaccepting-of_Quiet : (r : Reply) → Quiet r → Unaccepting r
Unaccepting-of_Quiet (returns (resolution m)) h = tt
Unaccepting-of_Quiet (returns (prepare m)) h = tt
Unaccepting-of_Quiet (returns (nack m)) h = tt
Unaccepting-of_Quiet (returns (promise m)) h = absurd h
Unaccepting-of_Quiet (returns (accept m)) h = tt
Unaccepting-of_Quiet (returns (accepted m)) h = absurd h
Unaccepting-of_Quiet nothing h = tt
Unaccepting-of_Quiet raises h = tt

-- Replies of a learner.
abbrev pub Silent : Reply → Type 0
Silent (returns (resolution m)) = Unit {0}
Silent (returns m) = ⊥
Silent _ = Unit {0}

Quiet-of_Silent : (r : Reply) → Silent r → Quiet r
Quiet-of_Silent (returns (resolution m)) h = tt
Quiet-of_Silent (returns (prepare m)) h = tt
Quiet-of_Silent (returns (nack m)) h = tt
Quiet-of_Silent (returns (promise m)) h = absurd h
Quiet-of_Silent (returns (accept m)) h = tt
Quiet-of_Silent (returns (accepted m)) h = absurd h
Quiet-of_Silent nothing h = tt
Quiet-of_Silent raises h = tt

count_nack-Quiet : (msg : Nack) (p : Proposer) → Quiet (count_nack msg p).0
unfolding count_nack prepare_next
count_nack-Quiet msg p = elim (Option-cases p.nacks_received) [
  | inl e ↦ rw e tt
  | inr (nacks, e) ↦ elim (Bool-cases (same_id msg.proposal_id p.proposal_id)) [
    | inr g ↦ rw (e, g, count_nack) tt
    | inl g ↦ elim (Bool-cases (length (add msg.from_uid nacks) == p.quorum_size)) [
      | inl h ↦ rw (e, g, h, count_nack) tt
      | inr h ↦ rw (e, g, h, count_nack) tt
    ]
  ]
]

pub receive_nack-Quiet : (msg : Nack) (p : Proposer) → Quiet (receive_nack msg p).0
unfolding receive_nack
receive_nack-Quiet msg p = count_nack-Quiet msg (observe_proposal msg.promised_proposal_id p)

try_lead-Quiet : (n : ℕ) (p : Proposer) → Quiet (try_lead n p).0
unfolding try_lead
try_lead-Quiet n p = elim (Option-cases p.proposed_value) [
  | inl e ↦ elim (Bool-cases (n == p.quorum_size)) [
    | inl g ↦ rw (e, g, try_lead) tt
    | inr g ↦ rw (e, g, try_lead) tt
  ]
  | inr (v, e) ↦ elim (Bool-cases (n == p.quorum_size)) [
    | inl g ↦ rw (e, g, try_lead) tt
    | inr g ↦ rw (e, g, try_lead) tt
  ]
]

if-Quiet :
    (b : Bool) (x y : Reply × Proposer) → Quiet x.0 → Quiet y.0 → Quiet (if b then x else y).0
if-Quiet true x y h g = h
if-Quiet false x y h g = g

count_promise-Quiet :
    (msg : Promise) (o : Option (List ℕ)) (p : Proposer) → Quiet (count_promise msg o p).0
unfolding count_promise
count_promise-Quiet msg none p = tt
count_promise-Quiet msg (some uids) p =
    let promises = add msg.from_uid uids in
    let p' = adopt msg (record p { promises_received = some promises }) in
    if-Quiet (contains msg.from_uid uids) (nothing, p) (try_lead (length promises) p') tt
      (try_lead-Quiet (length promises) p')

pub receive_promise-Quiet : (msg : Promise) (p : Proposer) → Quiet (receive_promise msg p).0
unfolding receive_promise
receive_promise-Quiet msg p =
    let seen = observe_proposal (some msg.proposal_id) p in
    elim (Bool-cases (not seen.leader && same_id msg.proposal_id seen.proposal_id)) [
      | inl e ↦ rw (e, receive_promise) (count_promise-Quiet msg seen.promises_received seen)
      | inr e ↦ rw (e, receive_promise) tt
    ]

pub propose_value-Quiet : (v : Text) (p : Proposer) → Quiet (propose_value v p).0
unfolding propose_value
propose_value-Quiet v p = elim (Option-cases p.proposed_value) [
  | inr (w, e) ↦ rw (e, propose_value) tt
  | inl e ↦ elim (Bool-cases p.leader) [
    | inl g ↦ rw (e, g, propose_value) tt
    | inr g ↦ rw (e, g, propose_value) tt
  ]
]

count_accepted-Silent :
    (msg : Accepted) (ps : ProposalStatus) (xs : Proposals) (l : Learner)
    → Silent (count_accepted msg ps xs l).0
unfolding count_accepted
count_accepted-Silent msg ps xs l = elim (Bool-cases (text_eq msg.proposal_value ps.value)) [
  | inr e ↦ rw (e, count_accepted) tt
  | inl e ↦ elim (Bool-cases (suc ps.accept_count == l.quorum_size)) [
    | inl g ↦ rw (e, g, count_accepted) tt
    | inr g ↦ rw (e, g, count_accepted) tt
  ]
]

count_new-Silent :
    (msg : Accepted) (last : Option ProposalId) (xs : Proposals) (l : Learner)
    → Silent (count_new msg last xs l).0
unfolding count_new
count_new-Silent msg last xs l =
    let (left, ys) = leave_last msg.from_uid last xs in
    elim (Bool-cases left) [
      | inl e ↦ rw (e, count_new) (count_accepted-Silent msg (status_of msg ys) ys l)
      | inr e ↦ rw (e, count_new) tt
    ]

tally-Silent :
    (o : Option (List (ℕ × ProposalId))) (p : Option Proposals) (msg : Accepted) (l : Learner)
    → Silent (tally o p msg l).0
unfolding tally
tally-Silent none p msg l = tt
tally-Silent (some uids) none msg l = tt
tally-Silent (some uids) (some xs) msg l =
    let last = find ◌==◌ msg.from_uid uids in
    let l' = record l { acceptors = some (put ◌==◌ msg.from_uid msg.proposal_id uids) } in
    elim (Bool-cases (before_opt last (some msg.proposal_id))) [
      | inl e ↦ rw (e, tally) (count_new-Silent msg last xs l')
      | inr e ↦ rw (e, tally) tt
    ]

receive_open-Silent : (msg : Accepted) (l : Learner) → Silent (receive_open msg l).0
unfolding receive_open
receive_open-Silent msg l = tally-Silent l.acceptors l.proposals msg l

receive_closed-Silent :
    (msg : Accepted) (v : Text) (l : Learner) → Silent (receive_closed msg v l).0
unfolding receive_closed
receive_closed-Silent msg v l =
    elim (Bool-cases (
      not (before_opt (some msg.proposal_id) l.final_proposal_id)
      && text_eq msg.proposal_value v)) [
        | inr g ↦ rw (g, receive_closed) tt
        | inl g ↦ elim (Option-cases l.final_acceptors) [
          | inl e ↦ rw (e, g, receive_closed) tt
          | inr (uids, e) ↦ rw (e, g, receive_closed) tt
        ]
      ]

receive_by-Silent : (o : Option Text) (msg : Accepted) (l : Learner) → Silent (receive_by o msg l).0
unfolding receive_by
receive_by-Silent none msg l = receive_open-Silent msg l
receive_by-Silent (some v) msg l = receive_closed-Silent msg v l

pub receive_accepted-Silent : (msg : Accepted) (l : Learner) → Silent (receive_accepted msg l).0
unfolding receive_accepted
receive_accepted-Silent msg l = receive_by-Silent l.final_value msg l

pub receive_accepted-Quiet : (msg : Accepted) (l : Learner) → Quiet (receive_accepted msg l).0
receive_accepted-Quiet msg l =
    Quiet-of_Silent (receive_accepted msg l).0 (receive_accepted-Silent msg l)
