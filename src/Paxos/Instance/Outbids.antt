-- ===== src/Paxos/Instance/Outbids.antt =====
-- A proposer's next id is above every id that its instance has seen.
use krafters.Prelude.{
  ℕ, ◌≡◌, refl, ◌∙◌, inl, inr, Bool, true, false, not, ◌&&◌, List, [], ◌∷◌, Option, none, some,
  Bool-cases, Option-cases, if◌then◌else◌, ◌==◌, arith, length,
}
use krafters.Sets.{contains, add}
use krafters.Paxos.Messages.{
  ProposalId, before, before_opt, same_id, Prepare, Promise, Nack, Message, prepare, nack, promise,
  accept, accepted, resolution, Reply, nothing,
}
use krafters.Paxos.Messages.Order.{before_irrefl, at_least_trans, before_asymm}
use krafters.Paxos.Proposer.{
  Proposer, next_id, prepare_next, observe_proposal, receive_nack, receive_promise, count_nack,
  count_promise, adopt, try_lead,
}
use krafters.Paxos.Instance.{Instance, receive, receive_prepare, receive_accept, run}

pub next_id-before : (p : Proposer) → before p.highest_proposal_id (next_id p) ≡ true
unfolding before
next_id-before p = ground arith

-- The highest id of `p` is not below `id`.
abbrev Seen : ProposalId → Proposer → Type 0
Seen id p = before p.highest_proposal_id id ≡ false

observe_proposal-Seen :
    (o : Option ProposalId) (id : ProposalId) (p : Proposer)
    → Seen id p
    → Seen id (observe_proposal o p)
unfolding observe_proposal before_opt
observe_proposal-Seen none id p h = h
observe_proposal-Seen (some new) id p h = elim (Bool-cases (before p.highest_proposal_id new)) [
  | inl e ↦
      rw (e, observe_proposal)
        (at_least_trans new p.highest_proposal_id id (before_asymm p.highest_proposal_id new e) h)
  | inr e ↦ rw (e, observe_proposal) h
]

observe_proposal_self : (id : ProposalId) (p : Proposer) → Seen id (observe_proposal (some id) p)
unfolding observe_proposal before_opt
observe_proposal_self id p = elim (Bool-cases (before p.highest_proposal_id id)) [
  | inl e ↦ rw (e, observe_proposal) (before_irrefl id)
  | inr e ↦ rw (e, observe_proposal) e
]

prepare_next-Seen : (id : ProposalId) (p : Proposer) → Seen id p → Seen id (prepare_next p).1
unfolding prepare_next
prepare_next-Seen id p h =
    at_least_trans (next_id p) p.highest_proposal_id id
      (before_asymm p.highest_proposal_id (next_id p) (next_id-before p)) h

count_nack-Seen :
    (msg : Nack) (id : ProposalId) (p : Proposer) → Seen id p → Seen id (count_nack msg p).1
unfolding count_nack
count_nack-Seen msg id p h = elim (Option-cases p.nacks_received) [
  | inl e ↦ rw (e, count_nack) h
  | inr (nacks, e) ↦ elim (Bool-cases (same_id msg.proposal_id p.proposal_id)) [
    | inr g ↦ rw (e, g, count_nack) h
    | inl g ↦ elim (Bool-cases (length (add msg.from_uid nacks) == p.quorum_size)) [
      | inl full ↦
          rw (e, g, full, count_nack)
            (prepare_next-Seen id (record p { nacks_received = some (add msg.from_uid nacks) }) h)
      | inr fewer ↦ rw (e, g, fewer, count_nack) h
    ]
  ]
]

try_lead-same :
    (n : ℕ) (p : Proposer) → (try_lead n p).1.highest_proposal_id ≡ p.highest_proposal_id
unfolding try_lead
try_lead-same n p = elim (Bool-cases (n == p.quorum_size)) [
  | inl e ↦ rw (e, try_lead)
  | inr e ↦ rw (e, try_lead)
]

adopt-same :
    (msg : Promise) (p : Proposer) → (adopt msg p).highest_proposal_id ≡ p.highest_proposal_id
unfolding adopt
adopt-same msg p = elim (Bool-cases (before_opt p.highest_accepted_id msg.last_accepted_id)) [
  | inl e ↦ rw (e, adopt)
  | inr e ↦ rw (e, adopt)
]

if-same :
    (b : Bool) (x y : Reply × Proposer) (id : ProposalId)
    → x.1.highest_proposal_id ≡ id
    → y.1.highest_proposal_id ≡ id
    → (if b then x else y).1.highest_proposal_id ≡ id
if-same true x y id h g = h
if-same false x y id h g = g

count_promise-same :
    (msg : Promise) (o : Option (List ℕ)) (p : Proposer)
    → (count_promise msg o p).1.highest_proposal_id ≡ p.highest_proposal_id
unfolding count_promise
count_promise-same msg none p = refl
count_promise-same msg (some uids) p =
    let promises = add msg.from_uid uids in
    let p' = record p { promises_received = some promises } in
    if-same (contains msg.from_uid uids) (nothing, p) (try_lead (length promises) (adopt msg p'))
      p.highest_proposal_id refl
      (try_lead-same (length promises) (adopt msg p') ∙ adopt-same msg p')

receive_promise-Seen :
    (msg : Promise) (id : ProposalId) (p : Proposer) → Seen id p → Seen id (receive_promise msg p).1
unfolding receive_promise
receive_promise-Seen msg id p h =
    let seen = observe_proposal (some msg.proposal_id) p in
    let high : Seen id seen = observe_proposal-Seen (some msg.proposal_id) id p h in
    elim (Bool-cases (not seen.leader && same_id msg.proposal_id seen.proposal_id)) [
      | inr e ↦ rw (e, receive_promise) high
      | inl e ↦ rw (e, receive_promise, count_promise-same msg seen.promises_received seen) high
    ]

receive-Seen :
    (msg : Message) (id : ProposalId) (i : Instance)
    → Seen id i.proposer
    → Seen id (receive msg i).1.proposer
unfolding receive receive_prepare receive_accept receive_nack
receive-Seen (prepare msg) id i h = observe_proposal-Seen (some msg.proposal_id) id i.proposer h
receive-Seen (accept msg) id i h = observe_proposal-Seen (some msg.proposal_id) id i.proposer h
receive-Seen (nack msg) id i h =
    count_nack-Seen msg id (observe_proposal msg.promised_proposal_id i.proposer)
      (observe_proposal-Seen msg.promised_proposal_id id i.proposer h)
receive-Seen (promise msg) id i h = receive_promise-Seen msg id i.proposer h
receive-Seen (accepted msg) id i h = h
receive-Seen (resolution msg) id i h = h

run-Seen :
    (msgs : List Message) (id : ProposalId) (i : Instance)
    → Seen id i.proposer
    → Seen id (run msgs i).1.proposer
unfolding run
run-Seen [] id i h = h
run-Seen (msg ∷ msgs) id i h = run-Seen msgs id (receive msg i).1 (receive-Seen msg id i h)

pub below_next : (a b c : ProposalId) → before b a ≡ false → before b c ≡ true → before a c ≡ true
unfolding before
below_next a b c h g = ground arith

-- A proposer outbids what it has seen. After a Prepare message for a proposal, and any messages of
-- any kind behind it, the id that `prepare` takes next is above the id of that proposal.
pub run-next_id :
    (i : Instance) (msg : Prepare) (msgs : List Message)
    → before msg.proposal_id (next_id (run (prepare msg ∷ msgs) i).1.proposer) ≡ true
unfolding run receive receive_prepare
run-next_id i msg msgs =
    let end = (run msgs (receive (prepare msg) i).1).1.proposer in
    below_next msg.proposal_id end.highest_proposal_id (next_id end)
      (run-Seen msgs msg.proposal_id (receive (prepare msg) i).1
        (observe_proposal_self msg.proposal_id i.proposer))
      (next_id-before end)
