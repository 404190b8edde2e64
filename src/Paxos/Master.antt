-- ===== src/Paxos/Master.antt =====
-- DedicatedMasterStrategyMixin of paxos/master_strategy.py over the node of Node.antt, as
-- paxos/server.py mixes them: the object and the parts of its methods that write no JSON text. Leases has
-- those that do, Events the handlers of messages and timers. Times are in milliseconds, and each handler is given the clock.
pub mod Leases
pub mod Events
pub mod Kept
pub mod Entered
pub mod View
pub mod SingleRound
pub mod Promises
pub mod OnlyMaster
pub mod Leaks
mod Tests
use krafters.Prelude.{
  ℕ, zero, suc, ◌+◌, ◌-◌, Bool, true, false, not, ◌&&◌, List, [], ◌∷◌, ◌++◌, map, Option, none,
  some, ltb, ◌==◌, if◌then◌else◌, get_elem?,
}
use krafters.Text.{Text}
use krafters.Paxos.Messages.{
  ProposalId, Prepare, Promise, promise, accepted, resolution, Reply, returns,
}
use krafters.Paxos.Proposer.{Proposer, observe_proposal}
use krafters.Paxos.Instance
use krafters.Paxos.Instance.{Instance}
use krafters.Paxos.ReplicatedValue
use krafters.Paxos.ReplicatedValue.{
  ReplicatedValue, Saved, Packet, send_nack, send_prepare, send_promise, send_accept, send_accepted,
  send_sync_request, send_catchup,
}
use krafters.Paxos.Node
use krafters.Paxos.Node.{Node, with_paxos, prepare_base, resend_now, retransmit_interval}
use krafters.Paxos.Messenger.{Address, uid_of, Datagram, propose, message}
use krafters.Paxos.Messenger

-- A value of the chain: [master_uid, None] or [None, application_value].
abbrev pub Entry : Type 0
Entry = Option ℕ × Option Text

-- A LoopingCall of send_accept that nothing refers to any more. The value may be None.
pub record Leaked : Type 0 where
  pub proposal_id : ProposalId
  pub proposal_value : Option Text

-- The object. `lease_expiry` is the delayed call while it is active, `renewals` the delays of the
-- calls that propose the node again. A packet carries a text: calls of send_accept with None are kept
-- apart, in `null_accepts`.
pub record Master : Type 0 where
  pub node : Node
  pub lease_start : ℕ
  pub lease_expiry : Bool
  pub master_uid : Option ℕ
  pub master_attempt : Bool
  pub renewals : List ℕ
  pub leaked : List Leaked
  pub null_accepts : List (ℕ × ℕ × ProposalId)

abbrev pub lease_window : ℕ
lease_window = 10000

abbrev pub with_base : ReplicatedValue → Master → Master
with_base base self = record self { node = record self.node { base = base } }

-- `if self.master_uid`, where 0 is no id
abbrev pub is_set : Option ℕ → Bool
is_set none = false
is_set (some uid) = not (uid == 0)

-- The comparison of a master id, which may be None, with an id.
abbrev pub is_uid : Option ℕ → ℕ → Bool
is_uid none uid = false
is_uid (some m) uid = m == uid

abbrev pub has_lease : Master → Bool
has_lease self = is_uid self.master_uid self.node.base.network_uid

unfoldable pub start_master_lease_timer : ℕ → Master → Master
start_master_lease_timer now self = record self { lease_start = now; lease_expiry = true }

-- One call of the function of a LoopingCall that sends Accept messages.
unfoldable pub send_leaked : Leaked → Master → Master
unfolding resend_now
send_leaked call self = elim call.proposal_value [
  | some v ↦ with_base (resend_now (Node.accepts call.proposal_id v) self.node.base) self
  | none ↦ record self {
    null_accepts =
        self.null_accepts
        ++ map (λ uid. (uid, self.node.base.saved.instance_number, call.proposal_id))
            self.node.base.peers;
  }
]

-- send_accept starts a LoopingCall, and drive_to_resolution overwrites retransmit_task with another.
unfoldable pub leak_accept : Master → Master
unfolding send_leaked
leak_accept self =
    let call : Leaked = record {
      proposal_id = self.node.base.paxos.proposer.proposal_id;
      proposal_value = self.node.base.paxos.proposer.proposed_value;
    } in
    send_leaked call (record self { leaked = call ∷ self.leaked })

-- The branch of drive_to_resolution for the master.
unfoldable pub drive_as_master : Master → Master
unfolding leak_accept prepare_base
drive_as_master self =
    let self' =
      if self.node.base.paxos.proposer.proposal_id.number == 1
      then leak_accept self
      else with_base (prepare_base self.node.base) self in
    record self' {
      node = record self'.node {
        retransmit_task =
            some (record { resend = Node.prepares_own; interval = retransmit_interval });
      };
    }

unfoldable pub drive_to_resolution : Master → Master
unfolding drive_as_master Node.stop_driving Node.drive_to_resolution
drive_to_resolution self =
    if has_lease self
    then drive_as_master (record self { node = Node.stop_driving self.node })
    else record self { node = Node.drive_to_resolution self.node }

-- propose_update of the class above, whose drive_to_resolution is the master's
unfoldable pub propose_base : Text → Master → Master
unfolding drive_to_resolution ReplicatedValue.propose_update
propose_base new_value self =
    drive_to_resolution (with_base (ReplicatedValue.propose_update new_value self.node.base) self)

-- self.master_uid is None or self.master_uid == self.network_uid
abbrev pub may_lead : Option ℕ → ℕ → Bool
may_lead none uid = true
may_lead (some m) uid = m == uid

-- for uid in self.peers: self.paxos.receive_promise(Promise(uid, network_uid, master_pid, None, None))
unfoldable pub take_promises : ℕ → ProposalId → List ℕ → Instance → Instance
unfolding Instance.receive
take_promises network_uid master_pid [] paxos = paxos
take_promises network_uid master_pid (uid ∷ peers) paxos =
    let msg : Promise = record {
      from_uid = uid;
      proposer_uid = network_uid;
      proposal_id = master_pid;
      last_accepted_id = none;
      last_accepted_value = none;
    } in
    take_promises network_uid master_pid peers (Instance.receive (promise msg) paxos).1

abbrev pub master_pid : ℕ → ProposalId
master_pid uid = record { number = 1; uid = uid }

-- The promises of an instance that begins under a master: all are the master's.
unfoldable pub begin_under : ℕ → ReplicatedValue → ReplicatedValue
unfolding take_promises prepare_base Instance.receive_prepare observe_proposal
begin_under uid base =
    if uid == base.network_uid
    then (let base' = prepare_base base in
        with_paxos (take_promises base.network_uid (master_pid uid) base.peers base'.paxos) base')
    else (let paxos =
          (Instance.receive_prepare (record { from_uid = uid; proposal_id = master_pid uid })
            base.paxos).1 in
        with_paxos
          (record paxos { proposer = observe_proposal (some (master_pid uid)) paxos.proposer })
          base)

unfoldable pub take_master : Option ℕ → Master → Master
unfolding begin_under
take_master none self = self
take_master (some uid) self =
    if uid == 0 then self else with_base (begin_under uid self.node.base) self

-- advance_instance of the class above, and what follows it
unfoldable pub enter_instance : ℕ → Option Text → Master → Master
unfolding take_master Node.advance_instance
enter_instance new_instance_number new_current_value self =
    take_master self.master_uid
      (record self { node = Node.advance_instance new_instance_number new_current_value self.node })

-- advance_instance(..., catchup=True)
unfoldable pub catch_up : ℕ → Option Text → Master → Master
unfolding Node.advance_instance prepare_base
catch_up new_instance_number new_current_value self =
    let node = Node.advance_instance new_instance_number new_current_value self.node in
    record self { master_attempt = false; node = record node { base = prepare_base node.base } }

-- __init__: load_state calls update_lease(None), once.
unfoldable pub new_master : ℕ → ℕ → List ℕ → Option Saved → Master
unfolding Node.new_node
new_master now network_uid peers file = record {
  node = Node.new_node network_uid peers file;
  lease_start = now;
  lease_expiry = true;
  master_uid = none;
  master_attempt = false;
  renewals = [];
  leaked = [];
  null_accepts = [];
}
