-- ===== src/Paxos/Instance.antt =====
-- PaxosInstance of paxos/composable_paxos.py, with the dispatch of MessageHandler.
pub mod Quiet
pub mod Promises
pub mod Reports
pub mod Outbids
use krafters.Prelude.{ℕ, List, [], ◌∷◌, Option, none, some}
use krafters.Text.{Text}
use krafters.Paxos.Messages.{
  ProposalId, Message, Prepare, Accept, prepare, nack, promise, accept, accepted, resolution, Reply,
  returns, raises,
}
use krafters.Paxos.Acceptor
use krafters.Paxos.Acceptor.{Acceptor}
use krafters.Paxos.Proposer.{
  Proposer, new_proposer, observe_proposal, receive_nack, receive_promise,
}
use krafters.Paxos.Learner.{Learner, new_learner, receive_accepted}

-- The attributes that the three classes give the object. (All have the same network_uid, and the
-- proposer and the learner the same quorum_size.)
pub record Instance : Type 0 where
  pub proposer : Proposer
  pub acceptor : Acceptor
  pub learner : Learner

unfoldable pub paxos_instance :
    ℕ → ℕ → Option ProposalId → Option ProposalId → Option Text → Instance
unfolding new_proposer new_learner
paxos_instance network_uid quorum_size promised_id accepted_id accepted_value = record {
  proposer = new_proposer network_uid quorum_size;
  acceptor = record {
    network_uid = network_uid;
    promised_id = promised_id;
    accepted_id = accepted_id;
    accepted_value = accepted_value;
  };
  learner = new_learner network_uid quorum_size;
}

unfoldable pub receive_prepare : Prepare → Instance → Reply × Instance
unfolding observe_proposal Acceptor.receive_prepare
receive_prepare msg self =
    let (reply, acceptor) = Acceptor.receive_prepare msg self.acceptor in
    (
      returns reply,
      record self {
        proposer = observe_proposal (some msg.proposal_id) self.proposer;
        acceptor = acceptor;
      },
    )

unfoldable pub receive_accept : Accept → Instance → Reply × Instance
unfolding observe_proposal Acceptor.receive_accept
receive_accept msg self =
    let (reply, acceptor) = Acceptor.receive_accept msg self.acceptor in
    (
      returns reply,
      record self {
        proposer = observe_proposal (some msg.proposal_id) self.proposer;
        acceptor = acceptor;
      },
    )

-- MessageHandler.receive: no class handles a Resolution, which is an InvalidMessageError.
unfoldable pub receive : Message → Instance → Reply × Instance
unfolding receive_prepare receive_nack receive_promise receive_accept receive_accepted
receive (prepare msg) self = receive_prepare msg self
receive (accept msg) self = receive_accept msg self
receive (nack msg) self =
    let (reply, proposer) = receive_nack msg self.proposer in
    (reply, record self { proposer = proposer })
receive (promise msg) self =
    let (reply, proposer) = receive_promise msg self.proposer in
    (reply, record self { proposer = proposer })
receive (accepted msg) self =
    let (reply, learner) = receive_accepted msg self.learner in
    (reply, record self { learner = learner })
receive (resolution msg) self = (raises, self)

-- A run of the handler: the replies, in order, and the object behind them.
unfoldable pub run : List Message → Instance → List Reply × Instance
unfolding receive
run [] self = ([], self)
run (msg ∷ msgs) self =
    let (reply, self') = receive msg self in
    let (replies, end) = run msgs self' in (reply ∷ replies, end)
