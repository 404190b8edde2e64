-- ===== src/Paxos/Proposer.antt =====
-- Proposer of paxos/composable_paxos.py.
pub mod Answers
pub mod Leads
use krafters.Prelude.{
  ℕ, suc, Bool, true, false, not, ◌&&◌, List, [], Option, none, some, ◌==◌, if◌then◌else◌, length,
}
use krafters.Text.{Text}
use krafters.Sets.{contains, add}
use krafters.Paxos.Messages.{
  ProposalId, before_opt, same_id, Nack, Promise, Message, prepare, accept, Reply, returns, nothing,
  raises,
}

-- The sets are None until the first call of `prepare`. (current_prepare_msg and current_accept_msg
-- hold the last message that is returned, and nothing reads them.)
pub record Proposer : Type 0 where
  pub network_uid : ℕ
  pub quorum_size : ℕ
  pub leader : Bool
  pub proposed_value : Option Text
  pub proposal_id : ProposalId
  pub highest_proposal_id : ProposalId
  pub highest_accepted_id : Option ProposalId
  pub promises_received : Option (List ℕ)
  pub nacks_received : Option (List ℕ)

-- Proposer.__init__ with the class attributes
unfoldable pub new_proposer : ℕ → ℕ → Proposer
new_proposer network_uid quorum_size = record {
  network_uid = network_uid;
  quorum_size = quorum_size;
  leader = false;
  proposed_value = none;
  proposal_id = record { number = 0; uid = network_uid };
  highest_proposal_id = record { number = 0; uid = network_uid };
  highest_accepted_id = none;
  promises_received = none;
  nacks_received = none;
}

-- Accept(self.network_uid, self.proposal_id, value)
abbrev pub accept_msg : Proposer → Text → Message
accept_msg self value =
    accept (record {
      from_uid = self.network_uid;
      proposal_id = self.proposal_id;
      proposal_value = value;
    })

unfoldable pub propose_value : Text → Proposer → Reply × Proposer
propose_value value self = elim self.proposed_value [
  | some v ↦ (nothing, self)
  | none ↦ (
    if self.leader then returns (accept_msg self value) else nothing,
    record self { proposed_value = some value },
  )
]

-- The id that `prepare` takes.
abbrev pub next_id : Proposer → ProposalId
next_id self = record { number = suc self.highest_proposal_id.number; uid = self.network_uid }

unfoldable pub prepare_next : Proposer → Reply × Proposer
prepare_next self = (
  returns (prepare (record { from_uid = self.network_uid; proposal_id = next_id self })),
  record self {
    leader = false;
    promises_received = some [];
    nacks_received = some [];
    proposal_id = next_id self;
    highest_proposal_id = next_id self;
  },
)

-- observe_proposal; the argument may be None.
unfoldable pub observe_proposal : Option ProposalId → Proposer → Proposer
unfolding before_opt
observe_proposal none self = self
observe_proposal (some id) self =
    if before_opt (some self.highest_proposal_id) (some id)
    then record self { highest_proposal_id = id }
    else self

-- receive_nack behind observe_proposal
unfoldable pub count_nack : Nack → Proposer → Reply × Proposer
unfolding same_id add prepare_next
count_nack msg self = elim self.nacks_received [
  | none ↦ (nothing, self)
  | some nacks ↦
      if same_id msg.proposal_id self.proposal_id
      then (let self' = record self { nacks_received = some (add msg.from_uid nacks) } in
          if length (add msg.from_uid nacks) == self.quorum_size
          then prepare_next self'
          else (nothing, self'))
      else (nothing, self)
]

unfoldable pub receive_nack : Nack → Proposer → Reply × Proposer
unfolding observe_proposal count_nack
receive_nack msg self = count_nack msg (observe_proposal msg.promised_proposal_id self)

-- The value that a promise carries becomes the proposal's if its id is the highest so far.
unfoldable pub adopt : Promise → Proposer → Proposer
unfolding before_opt
adopt msg self =
    if before_opt self.highest_accepted_id msg.last_accepted_id
    then record self {
      highest_accepted_id = msg.last_accepted_id;
      proposed_value = elim msg.last_accepted_value [
        | none ↦ self.proposed_value
        | some v ↦ some v
      ];
    }
    else self

-- len(self.promises_received) == self.quorum_size, with the new number of promises
unfoldable pub try_lead : ℕ → Proposer → Reply × Proposer
try_lead promises self =
    if promises == self.quorum_size
    then (
      elim self.proposed_value [ none ↦ nothing | some v ↦ returns (accept_msg self v) ],
      record self { leader = true },
    )
    else (nothing, self)

-- The branch of a promise that may count; `from_uid not in None` is a TypeError.
unfoldable pub count_promise : Promise → Option (List ℕ) → Proposer → Reply × Proposer
unfolding contains add adopt try_lead
count_promise msg none self = (raises, self)
count_promise msg (some promises) self =
    if contains msg.from_uid promises
    then (nothing, self)
    else (let promises' = add msg.from_uid promises in
        try_lead (length promises')
          (adopt msg (record self { promises_received = some promises' })))

unfoldable pub receive_promise : Promise → Proposer → Reply × Proposer
unfolding observe_proposal same_id count_promise
receive_promise msg self =
    let seen = observe_proposal (some msg.proposal_id) self in
    if not seen.leader && same_id msg.proposal_id seen.proposal_id
    then count_promise msg seen.promises_received seen
    else (nothing, seen)
