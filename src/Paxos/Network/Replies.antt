-- ===== src/Paxos/Network/Replies.antt =====
-- What the replies of the three classes add to what a node has sent.
use krafters.Prelude.{◌≡◌, refl, inl, inr, List, ◌∷◌, ◌++◌, some, Bool-cases}
use krafters.Paxos.Messages.{
  before_opt, Prepare, Accept, Message, prepare, nack, promise, accept, accepted, resolution, Reply,
  returns, nothing, raises,
}
use krafters.Paxos.Acceptor
use krafters.Paxos.Acceptor.{Acceptor}
use krafters.Paxos.Instance.Quiet.{Quiet, Silent}
use krafters.Paxos.Network.{sent_of, promises, accepts, accepteds}

-- A reply of a proposer or of a learner is no vote.
pub Quiet-votes :
    (r : Reply) (log : List Message)
    → Quiet r
    → (promises (sent_of r ++ log) ≡ promises log) × (accepteds (sent_of r ++ log) ≡ accepteds log)
unfolding promises accepteds sent_of
Quiet-votes (returns (prepare m)) log h = (refl, refl)
Quiet-votes (returns (nack m)) log h = (refl, refl)
Quiet-votes (returns (promise m)) log h = absurd h
Quiet-votes (returns (accept m)) log h = (refl, refl)
Quiet-votes (returns (accepted m)) log h = absurd h
Quiet-votes (returns (resolution m)) log h = (refl, refl)
Quiet-votes nothing log h = (refl, refl)
Quiet-votes raises log h = (refl, refl)

pub Silent-sends :
    (r : Reply) (log : List Message)
    → Silent r
    → (promises (sent_of r ++ log) ≡ promises log)
      × (accepteds (sent_of r ++ log) ≡ accepteds log)
      × (accepts (sent_of r ++ log) ≡ accepts log)
unfolding promises accepteds accepts sent_of
Silent-sends (returns (prepare m)) log h = absurd h
Silent-sends (returns (nack m)) log h = absurd h
Silent-sends (returns (promise m)) log h = absurd h
Silent-sends (returns (accept m)) log h = absurd h
Silent-sends (returns (accepted m)) log h = absurd h
Silent-sends (returns (resolution m)) log h = (refl, refl, refl)
Silent-sends nothing log h = (refl, refl, refl)
Silent-sends raises log h = (refl, refl, refl)

-- Nor does an acceptor send Accept messages.
pub prepare_votes :
    (msg : Prepare) (a : Acceptor) (log : List Message)
    → accepts ((Acceptor.receive_prepare msg a).0 ∷ log) ≡ accepts log
unfolding accepts Acceptor.receive_prepare
prepare_votes msg a log = elim (Bool-cases (before_opt (some msg.proposal_id) a.promised_id)) [
  | inl e ↦ rw e
  | inr e ↦ rw e
]

pub accept_votes :
    (msg : Accept) (a : Acceptor) (log : List Message)
    → accepts ((Acceptor.receive_accept msg a).0 ∷ log) ≡ accepts log
unfolding accepts Acceptor.receive_accept
accept_votes msg a log = elim (Bool-cases (before_opt (some msg.proposal_id) a.promised_id)) [
  | inl e ↦ rw e
  | inr e ↦ rw e
]
