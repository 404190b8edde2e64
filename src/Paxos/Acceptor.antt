-- ===== src/Paxos/Acceptor.antt =====
-- Acceptor of paxos/composable_paxos.py.
use krafters.Prelude.{ℕ, Option, some, if◌then◌else◌}
use krafters.Text.{Text}
use krafters.Paxos.Messages.{
  ProposalId, before_opt, Prepare, Accept, Message, nack, promise, accepted,
}

pub record Acceptor : Type 0 where
  pub network_uid : ℕ
  pub promised_id : Option ProposalId
  pub accepted_id : Option ProposalId
  pub accepted_value : Option Text

-- msg.proposal_id >= self.promised_id fails
unfoldable pub receive_prepare : Prepare → Acceptor → Message × Acceptor
unfolding before_opt
receive_prepare msg self =
    if before_opt (some msg.proposal_id) self.promised_id
    then (
      nack (record {
        from_uid = self.network_uid;
        proposer_uid = msg.from_uid;
        proposal_id = msg.proposal_id;
        promised_proposal_id = self.promised_id;
      }),
      self,
    )
    else (
      promise (record {
        from_uid = self.network_uid;
        proposer_uid = msg.from_uid;
        proposal_id = msg.proposal_id;
        last_accepted_id = self.accepted_id;
        last_accepted_value = self.accepted_value;
      }),
      record self { promised_id = some msg.proposal_id },
    )

unfoldable pub receive_accept : Accept → Acceptor → Message × Acceptor
unfolding before_opt
receive_accept msg self =
    if before_opt (some msg.proposal_id) self.promised_id
    then (
      nack (record {
        from_uid = self.network_uid;
        proposer_uid = msg.from_uid;
        proposal_id = msg.proposal_id;
        promised_proposal_id = self.promised_id;
      }),
      self,
    )
    else (
      accepted (record {
        from_uid = self.network_uid;
        proposal_id = msg.proposal_id;
        proposal_value = msg.proposal_value;
      }),
      record self {
        promised_id = some msg.proposal_id;
        accepted_id = some msg.proposal_id;
        accepted_value = some msg.proposal_value;
      },
    )
