-- ===== src/Paxos/Learner.antt =====
-- Learner of paxos/composable_paxos.py.
pub mod Tallies
pub mod Quorum
pub mod Complete
use krafters.Prelude.{
  ℕ, suc, Bool, true, false, not, ◌&&◌, List, [], ◌∷◌, Option, none, some, ◌==◌, if◌then◌else◌,
}
use krafters.Prelude.Int.{ℤ, pos, negsuc, incr, decr}
use krafters.Text.{Text, text_eq}
use krafters.Sets.{contains, add, discard}
use krafters.Dict.{find, put, delete}
use krafters.Paxos.Messages.{
  ProposalId, before_opt, same_id, Accepted, Message, resolution, Reply, returns, nothing, raises,
}

pub record ProposalStatus : Type 0 where
  pub accept_count : ℕ
  pub retain_count : ℤ
  pub acceptors : List ℕ
  pub value : Text

-- ProposalStatus(value)
abbrev pub new_status : Text → ProposalStatus
new_status value = record { accept_count = 0; retain_count = pos 0; acceptors = []; value = value }

abbrev pub Proposals : Type 0
Proposals = List (ProposalId × ProposalStatus)

-- The two dictionaries are None once the final value is known.
pub record Learner : Type 0 where
  pub network_uid : ℕ
  pub quorum_size : ℕ
  pub proposals : Option Proposals
  pub acceptors : Option (List (ℕ × ProposalId))
  pub final_value : Option Text
  pub final_acceptors : Option (List ℕ)
  pub final_proposal_id : Option ProposalId

unfoldable pub new_learner : ℕ → ℕ → Learner
new_learner network_uid quorum_size = record {
  network_uid = network_uid;
  quorum_size = quorum_size;
  proposals = some [];
  acceptors = some [];
  final_value = none;
  final_acceptors = none;
  final_proposal_id = none;
}

-- Resolution(self.network_uid, self.final_value)
abbrev pub resolved : Learner → Text → Reply
resolved self v = returns (resolution (record { from_uid = self.network_uid; value = v }))

unfoldable pub is_zero : ℤ → Bool
is_zero (pos n) = n == 0
is_zero (negsuc n) = false

-- The status without one acceptor that has gone on to another proposal; `false` is the KeyError of
-- set.remove, behind the assignment to `retain_count`.
unfoldable pub retire : ℕ → ProposalId → ProposalStatus → Proposals → Bool × Proposals
unfolding contains discard is_zero
retire uid last ps proposals =
    let fewer = record ps { retain_count = decr ps.retain_count } in
    if contains uid ps.acceptors
    then (
      true,
      if is_zero (decr ps.retain_count)
          then delete same_id last proposals
          else put same_id last (record fewer { acceptors = discard uid ps.acceptors }) proposals,
    )
    else (false, put same_id last fewer proposals)

-- if last_pn is not None: ...; `false` is a KeyError
unfoldable pub leave_last : ℕ → Option ProposalId → Proposals → Bool × Proposals
unfolding retire
leave_last uid none proposals = (true, proposals)
leave_last uid (some last) proposals = elim (find same_id last proposals) [
  | none ↦ (false, proposals)
  | some ps ↦ retire uid last ps proposals
]

-- The status of the message's proposal, new if there is none.
unfoldable pub status_of : Accepted → Proposals → ProposalStatus
status_of msg proposals = elim (find same_id msg.proposal_id proposals) [
  | none ↦ new_status msg.proposal_value
  | some ps ↦ ps
]

-- ... with one more acceptor
unfoldable pub counted : ℕ → ProposalStatus → ProposalStatus
unfolding add
counted uid ps = record ps {
  accept_count = suc ps.accept_count;
  retain_count = incr ps.retain_count;
  acceptors = add uid ps.acceptors;
}

-- The end of receive_accepted, on the status that the message counts for.
unfoldable pub count_accepted : Accepted → ProposalStatus → Proposals → Learner → Reply × Learner
unfolding counted text_eq
count_accepted msg ps proposals self =
    if text_eq msg.proposal_value ps.value
    then (let ps' = counted msg.from_uid ps in
        if ps'.accept_count == self.quorum_size
        then (
          resolved self msg.proposal_value,
          record self {
            final_proposal_id = some msg.proposal_id;
            final_value = some msg.proposal_value;
            final_acceptors = some ps'.acceptors;
            proposals = none;
            acceptors = none;
          },
        )
        else (
          nothing,
          record self { proposals = some (put same_id msg.proposal_id ps' proposals) },
        ))
    else (raises, record self { proposals = some (put same_id msg.proposal_id ps proposals) })

-- The middle, once the acceptor's last proposal is set to the message's.
unfoldable pub count_new : Accepted → Option ProposalId → Proposals → Learner → Reply × Learner
unfolding leave_last status_of count_accepted
count_new msg last proposals self =
    let (left, ps) = leave_last msg.from_uid last proposals in
    if left
    then count_accepted msg (status_of msg ps) ps self
    else (raises, record self { proposals = some ps })

-- Before the final value is known, on the two dictionaries; None has no `get`.
unfoldable pub tally :
    Option (List (ℕ × ProposalId)) → Option Proposals → Accepted → Learner → Reply × Learner
unfolding before_opt count_new
tally (some acceptors) (some proposals) msg self =
    let last = find ◌==◌ msg.from_uid acceptors in
    if before_opt last (some msg.proposal_id)
    then count_new msg last proposals
        (record self { acceptors = some (put ◌==◌ msg.from_uid msg.proposal_id acceptors) })
    else (nothing, self)
tally _ _ msg self = (raises, self)

unfoldable pub receive_open : Accepted → Learner → Reply × Learner
unfolding tally
receive_open msg self = tally self.acceptors self.proposals msg self

-- Afterwards: acceptors of the final value, and the Resolution again.
unfoldable pub receive_closed : Accepted → Text → Learner → Reply × Learner
unfolding before_opt text_eq add
receive_closed msg v self =
    if not (before_opt (some msg.proposal_id) self.final_proposal_id)
      && text_eq msg.proposal_value v
    then (elim self.final_acceptors [
      | none ↦ (raises, self)
      | some uids ↦
          (resolved self v, record self { final_acceptors = some (add msg.from_uid uids) })
    ])
    else (resolved self v, self)

-- if self.final_value is not None: ...
unfoldable pub receive_by : Option Text → Accepted → Learner → Reply × Learner
unfolding receive_open receive_closed
receive_by none msg self = receive_open msg self
receive_by (some v) msg self = receive_closed msg v self

unfoldable pub receive_accepted : Accepted → Learner → Reply × Learner
unfolding receive_by
receive_accepted msg self = receive_by self.final_value msg self

-- The learner behind a run of messages.
unfoldable pub hear : List Accepted → Learner → Learner
unfolding receive_accepted
hear [] self = self
hear (msg ∷ msgs) self = hear msgs (receive_accepted msg self).1
