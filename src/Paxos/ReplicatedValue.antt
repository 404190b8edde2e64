-- ===== src/Paxos/ReplicatedValue.antt =====
-- BaseReplicatedValue of paxos/replicated_value.py, without the mixins that override its methods.
pub mod Durable
use krafters.Prelude.{
  ℕ, suc, ◌+◌, ◌/◌, Bool, true, false, not, List, [], ◌∷◌, ◌++◌, map, Option, none, some, ◌==◌,
  if◌then◌else◌, length,
}
use krafters.Text.{Text}
use krafters.Paxos.Messages.{
  ProposalId, Prepare, Nack, Promise, Accept, Accepted, Message, promise, accept, accepted,
  resolution, Reply, returns,
}
use krafters.Paxos.Messages
use krafters.Paxos.Proposer.{propose_value}
use krafters.Paxos.Instance
use krafters.Paxos.Instance.{Instance, paxos_instance}

-- The contents of the state file. (A proposal id is written as a list and read back by to_pid.)
pub record Saved : Type 0 where
  pub instance_number : ℕ
  pub current_value : Option Text
  pub promised_id : Option ProposalId
  pub accepted_id : Option ProposalId
  pub accepted_value : Option Text

-- A call of the messenger, with the peer that it is for and the instance number.
pub data Packet : Type 0 where
  send_nack : ℕ → ℕ → ProposalId → Option ProposalId → Packet
  send_prepare : ℕ → ℕ → ProposalId → Packet
  send_promise : ℕ → ℕ → ProposalId → Option ProposalId → Option Text → Packet
  send_accept : ℕ → ℕ → ProposalId → Text → Packet
  send_accepted : ℕ → ℕ → ProposalId → Text → Packet
  send_sync_request : ℕ → ℕ → Packet
  send_catchup : ℕ → ℕ → Option Text → Packet

-- The object: `saved` is what its own five fields hold, `state_file` what the file holds; the calls of
-- the messenger and of onUpdateCallback are kept in order.
pub record ReplicatedValue : Type 0 where
  pub network_uid : ℕ
  pub peers : List ℕ
  pub quorum_size : ℕ
  pub saved : Saved
  pub state_file : Saved
  pub paxos : Instance
  pub sent : List Packet
  pub updates : List (Option Text)

-- load_state, where there is no file
abbrev pub no_state : Saved
no_state = record {
  instance_number = 0;
  current_value = none;
  promised_id = none;
  accepted_id = none;
  accepted_value = none;
}

-- __init__ with load_state
unfoldable pub start : ℕ → List ℕ → Option Saved → ReplicatedValue
unfolding paxos_instance
start network_uid peers file =
    let saved : Saved = elim file [ none ↦ no_state | some s ↦ s ] in
    record {
      network_uid = network_uid;
      peers = peers;
      quorum_size = length peers / 2 + 1;
      saved = saved;
      state_file = saved;
      paxos =
          paxos_instance network_uid (length peers / 2 + 1) saved.promised_id saved.accepted_id
            saved.accepted_value;
      sent = [];
      updates = [];
    }

-- save_state: the fields, then the file.
unfoldable pub save_state : Saved → ReplicatedValue → ReplicatedValue
save_state s self = record self { saved = s; state_file = s }

unfoldable pub propose_update : Text → ReplicatedValue → ReplicatedValue
unfolding propose_value
propose_update new_value self = elim self.paxos.proposer.proposed_value [
  | some v ↦ self
  | none ↦ record self {
    paxos = record self.paxos { proposer = (propose_value new_value self.paxos.proposer).1 };
  }
]

unfoldable pub advance_instance : ℕ → Option Text → ReplicatedValue → ReplicatedValue
unfolding save_state paxos_instance
advance_instance new_instance_number new_current_value self =
    let self' =
      save_state
        (record no_state {
          instance_number = new_instance_number;
          current_value = new_current_value;
        })
        self in
    record self' {
      paxos = paxos_instance self.network_uid self.quorum_size none none none;
      updates = self.updates ++ new_current_value ∷ [];
    }

-- send_prepare, send_accept and send_accepted: a packet for each peer
abbrev pub send_prepare_to : List ℕ → ℕ → ProposalId → List Packet
send_prepare_to peers n id = map (λ uid. send_prepare uid n id) peers

abbrev pub send_accept_to : List ℕ → ℕ → ProposalId → Text → List Packet
send_accept_to peers n id value = map (λ uid. send_accept uid n id value) peers

abbrev pub send_accepted_to : List ℕ → ℕ → ProposalId → Text → List Packet
send_accepted_to peers n id value = map (λ uid. send_accepted uid n id value) peers

abbrev pub send : List Packet → ReplicatedValue → ReplicatedValue
send packets self = record self { sent = self.sent ++ packets }

-- Only messages for the current link in the chain are processed.
abbrev pub if_current : ℕ → ReplicatedValue → ReplicatedValue → ReplicatedValue
if_current instance_number self next =
    if instance_number == self.saved.instance_number then next else self

-- receive_prepare behind paxos.receive_prepare
unfoldable pub answer_prepare : ℕ → ProposalId → Reply → ReplicatedValue → ReplicatedValue
unfolding save_state
answer_prepare from_uid proposal_id (returns (promise m)) self =
    send
      (send_promise from_uid self.saved.instance_number m.proposal_id m.last_accepted_id
          m.last_accepted_value
        ∷ [])
      (save_state
        (record self.saved {
          promised_id = some m.proposal_id;
          accepted_id = m.last_accepted_id;
          accepted_value = m.last_accepted_value;
        })
        self)
answer_prepare from_uid proposal_id _ self =
    send (send_nack from_uid self.saved.instance_number proposal_id self.saved.promised_id ∷ [])
      self

unfoldable pub receive_prepare : ℕ → ℕ → ProposalId → ReplicatedValue → ReplicatedValue
unfolding answer_prepare Instance.receive_prepare
receive_prepare from_uid instance_number proposal_id self =
    let (m, paxos) =
      Instance.receive_prepare (record { from_uid = from_uid; proposal_id = proposal_id })
        self.paxos in
    if_current instance_number self
      (answer_prepare from_uid proposal_id m (record self { paxos = paxos }))

-- receive_accept behind paxos.receive_accept: the promise that is saved is the old one.
unfoldable pub answer_accept : ℕ → ProposalId → Text → Reply → ReplicatedValue → ReplicatedValue
unfolding save_state
answer_accept from_uid proposal_id proposal_value (returns (accepted m)) self =
    send (send_accepted_to self.peers self.saved.instance_number m.proposal_id m.proposal_value) (
      save_state
        (record self.saved { accepted_id = some proposal_id; accepted_value = some proposal_value })
        self)
answer_accept from_uid proposal_id proposal_value _ self =
    send (send_nack from_uid self.saved.instance_number proposal_id self.saved.promised_id ∷ [])
      self

unfoldable pub receive_accept : ℕ → ℕ → ProposalId → Text → ReplicatedValue → ReplicatedValue
unfolding answer_accept Instance.receive_accept
receive_accept from_uid instance_number proposal_id proposal_value self =
    let (m, paxos) =
      Instance.receive_accept
        (record { from_uid = from_uid; proposal_id = proposal_id; proposal_value = proposal_value })
        self.paxos in
    if_current instance_number self
      (answer_accept from_uid proposal_id proposal_value m (record self { paxos = paxos }))

unfoldable pub receive_nack :
    ℕ → ℕ → ProposalId → Option ProposalId → ReplicatedValue → ReplicatedValue
unfolding Instance.receive
receive_nack from_uid instance_number proposal_id promised_proposal_id self =
    if_current instance_number self (record self {
      paxos =
          (Instance.receive
            (Messages.nack (record {
              from_uid = from_uid;
              proposer_uid = self.network_uid;
              proposal_id = proposal_id;
              promised_proposal_id = promised_proposal_id;
            }))
            self.paxos).1;
    })

-- receive_promise behind paxos.receive_promise
answer_promise : Reply → ReplicatedValue → ReplicatedValue
answer_promise (returns (accept m)) self =
    send (send_accept_to self.peers self.saved.instance_number m.proposal_id m.proposal_value) self
answer_promise _ self = self

unfoldable pub receive_promise :
    ℕ → ℕ → ProposalId → Option ProposalId → Option Text → ReplicatedValue → ReplicatedValue
unfolding answer_promise Instance.receive
receive_promise from_uid instance_number proposal_id last_accepted_id last_accepted_value self =
    let (m, paxos) =
      Instance.receive
        (promise (record {
          from_uid = from_uid;
          proposer_uid = self.network_uid;
          proposal_id = proposal_id;
          last_accepted_id = last_accepted_id;
          last_accepted_value = last_accepted_value;
        }))
        self.paxos in
    if_current instance_number self (answer_promise m (record self { paxos = paxos }))

-- receive_accepted behind paxos.receive_accepted
answer_accepted : Text → Reply → ReplicatedValue → ReplicatedValue
unfolding advance_instance
answer_accepted proposal_value (returns (resolution m)) self =
    advance_instance (suc self.saved.instance_number) (some proposal_value) self
answer_accepted proposal_value _ self = self

unfoldable pub receive_accepted : ℕ → ℕ → ProposalId → Text → ReplicatedValue → ReplicatedValue
unfolding answer_accepted Instance.receive
receive_accepted from_uid instance_number proposal_id proposal_value self =
    let (m, paxos) =
      Instance.receive
        (accepted (record {
          from_uid = from_uid;
          proposal_id = proposal_id;
          proposal_value = proposal_value;
        }))
        self.paxos in
    if_current instance_number self
      (answer_accepted proposal_value m (record self { paxos = paxos }))
