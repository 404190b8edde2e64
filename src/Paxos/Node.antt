-- ===== src/Paxos/Node.antt =====
-- The node that paxos/custom_server.py runs: BaseReplicatedValue of paxos/replicated_value.py under
-- SimpleSynchronizationStrategyMixin of paxos/sync_strategy.py and
-- ExponentialBackoffResolutionStrategyMixin of paxos/resolution_strategy.py. The reactor is the
-- environment: it fires the timers, and a call of the messenger adds to what is sent.
pub mod Handlers
pub mod Chain
pub mod Backoff
pub mod Retransmits
use krafters.Prelude.{ℕ, suc, ◌*◌, List, [], ◌∷◌, Option, none, some, ltb, ◌==◌, if◌then◌else◌}
use krafters.Text.{Text}
use krafters.Paxos.Messages.{ProposalId, promise, accept, accepted, resolution, Reply, returns}
use krafters.Paxos.Proposer.{prepare_next, next_id}
use krafters.Paxos.Instance
use krafters.Paxos.Instance.{Instance}
use krafters.Paxos.ReplicatedValue
use krafters.Paxos.ReplicatedValue.{
  ReplicatedValue, Saved, Packet, send_sync_request, send_catchup, send, send_prepare_to,
  send_accept_to, start,
}

-- What the function of a LoopingCall sends: Prepare or Accept messages, again and again. The master
-- strategy sends Prepare messages with the id that the proposer has at the time.
pub data Resend : Type 0 where
  prepares : ProposalId → Resend
  prepares_own : Resend
  accepts : ProposalId → Text → Resend

-- A LoopingCall that runs, with its interval in milliseconds.
pub record Retransmit : Type 0 where
  pub resend : Resend
  pub interval : ℕ

-- How long callLater waits: drive_silence_timeout, or a random part of so many milliseconds.
pub data Delay : Type 0 where
  silence : Delay
  part_of : ℕ → Delay

-- The object. `delayed_drive` is the delayed call while it is active.
pub record Node : Type 0 where
  pub base : ReplicatedValue
  pub backoff_window : ℕ
  pub retransmit_task : Option Retransmit
  pub delayed_drive : Option Delay

abbrev pub backoff_initial : ℕ
backoff_initial = 5

abbrev pub backoff_cap : ℕ
backoff_cap = 2000

abbrev pub retransmit_interval : ℕ
retransmit_interval = 1000

unfoldable pub new_node : ℕ → List ℕ → Option Saved → Node
unfolding start
new_node network_uid peers file = record {
  base = start network_uid peers file;
  backoff_window = backoff_initial;
  retransmit_task = none;
  delayed_drive = none;
}

unfoldable pub reschedule_next_drive_attempt : Delay → Node → Node
reschedule_next_drive_attempt delay self = record self { delayed_drive = some delay }

unfoldable pub stop_driving : Node → Node
stop_driving self = record self { retransmit_task = none; delayed_drive = none }

-- The function of a LoopingCall: send_prepare or send_accept of the base class.
unfoldable pub resend_now : Resend → ReplicatedValue → ReplicatedValue
resend_now (prepares id) base = send (send_prepare_to base.peers base.saved.instance_number id) base
resend_now prepares_own base =
    send (send_prepare_to base.peers base.saved.instance_number base.paxos.proposer.proposal_id)
      base
resend_now (accepts id value) base =
    send (send_accept_to base.peers base.saved.instance_number id value) base

-- LoopingCall(f).start(interval, now=True) calls f at once.
unfoldable pub start_task : Retransmit → Node → Node
unfolding resend_now
start_task task self = record self {
  base = resend_now task.resend self.base;
  retransmit_task = some task;
}

abbrev pub with_paxos : Instance → ReplicatedValue → ReplicatedValue
with_paxos paxos base = record base { paxos = paxos }

-- self.paxos.prepare(), whose message names the proposal
unfoldable pub prepare_base : ReplicatedValue → ReplicatedValue
unfolding prepare_next
prepare_base base =
    with_paxos (record base.paxos { proposer = (prepare_next base.paxos.proposer).1 }) base

unfoldable pub drive_to_resolution : Node → Node
unfolding stop_driving prepare_base start_task
drive_to_resolution self =
    start_task
      (record {
        resend = prepares (next_id self.base.paxos.proposer);
        interval = retransmit_interval;
      })
      (record (stop_driving self) { base = prepare_base self.base })

unfoldable pub advance_instance : ℕ → Option Text → Node → Node
unfolding stop_driving ReplicatedValue.advance_instance
advance_instance new_instance_number new_current_value self =
    record (stop_driving (record self {
      base = ReplicatedValue.advance_instance new_instance_number new_current_value self.base;
    })) { backoff_window = backoff_initial }

unfoldable pub propose_update : Text → Node → Node
unfolding drive_to_resolution ReplicatedValue.propose_update
propose_update new_value self =
    drive_to_resolution (record self { base = ReplicatedValue.propose_update new_value self.base })

-- The old task is stopped. The interval of the new one is passed in seconds, and is a thousand times
-- that of drive_to_resolution.
unfoldable pub send_accept : ProposalId → Text → Node → Node
unfolding start_task
send_accept proposal_id proposal_value self =
    start_task
      (record {
        resend = accepts proposal_id proposal_value;
        interval = 1000 * retransmit_interval;
      })
      self

-- Only messages for the current link in the chain are processed.
abbrev pub if_current : ℕ → Node → Node → Node
if_current instance_number self next =
    if instance_number == self.base.saved.instance_number then next else self

unfoldable pub receive_prepare : ℕ → ℕ → ProposalId → Node → Node
unfolding ReplicatedValue.receive_prepare
receive_prepare from_uid instance_number proposal_id self = record self {
  base = ReplicatedValue.receive_prepare from_uid instance_number proposal_id self.base;
}

unfoldable pub receive_accept : ℕ → ℕ → ProposalId → Text → Node → Node
unfolding ReplicatedValue.receive_accept reschedule_next_drive_attempt
receive_accept from_uid instance_number proposal_id proposal_value self =
    if_current instance_number self (
      reschedule_next_drive_attempt silence (record self {
        base =
            ReplicatedValue.receive_accept from_uid instance_number proposal_id proposal_value
              self.base;
      }))

-- self.backoff_window * 2, up to the cap
unfoldable pub double_window : ℕ → ℕ
double_window w = if ltb backoff_cap (w * 2) then backoff_cap else w * 2

unfoldable pub receive_nack : ℕ → ℕ → ProposalId → Option ProposalId → Node → Node
unfolding ReplicatedValue.receive_nack stop_driving double_window reschedule_next_drive_attempt
receive_nack from_uid instance_number proposal_id promised_proposal_id self =
    let window = double_window self.backoff_window in
    if_current instance_number self (
      reschedule_next_drive_attempt (part_of window)
        (record (stop_driving (record self {
          base =
              ReplicatedValue.receive_nack from_uid instance_number proposal_id promised_proposal_id
                self.base;
        })) { backoff_window = window }))

-- receive_promise of the base class behind paxos.receive_promise; self.send_accept is the mixin's.
unfoldable pub answer_promise : Reply → Node → Node
unfolding send_accept
answer_promise (returns (accept m)) self = send_accept m.proposal_id m.proposal_value self
answer_promise _ self = self

unfoldable pub receive_promise : ℕ → ℕ → ProposalId → Option ProposalId → Option Text → Node → Node
unfolding answer_promise Instance.receive
receive_promise from_uid instance_number proposal_id last_accepted_id last_accepted_value self =
    let (m, paxos) =
      Instance.receive
        (promise (record {
          from_uid = from_uid;
          proposer_uid = self.base.network_uid;
          proposal_id = proposal_id;
          last_accepted_id = last_accepted_id;
          last_accepted_value = last_accepted_value;
        }))
        self.base.paxos in
    if_current instance_number self
      (answer_promise m (record self { base = with_paxos paxos self.base }))

-- receive_accepted of the base class behind paxos.receive_accepted, likewise
unfoldable pub answer_accepted : Text → Reply → Node → Node
unfolding advance_instance
answer_accepted proposal_value (returns (resolution m)) self =
    advance_instance (suc self.base.saved.instance_number) (some proposal_value) self
answer_accepted proposal_value _ self = self

unfoldable pub receive_accepted : ℕ → ℕ → ProposalId → Text → Node → Node
unfolding answer_accepted Instance.receive
receive_accepted from_uid instance_number proposal_id proposal_value self =
    let (m, paxos) =
      Instance.receive
        (accepted (record {
          from_uid = from_uid;
          proposal_id = proposal_id;
          proposal_value = proposal_value;
        }))
        self.base.paxos in
    if_current instance_number self
      (answer_accepted proposal_value m (record self { base = with_paxos paxos self.base }))

abbrev pub send_packets : List Packet → Node → Node
send_packets packets self = record self { base = send packets self.base }

-- sync(), with the peer that random.choice gives
unfoldable pub sync : ℕ → Node → Node
sync peer self = send_packets (send_sync_request peer self.base.saved.instance_number ∷ []) self

unfoldable pub receive_sync_request : ℕ → ℕ → Node → Node
receive_sync_request from_uid instance_number self =
    let saved = self.base.saved in
    if ltb instance_number saved.instance_number
    then send_packets (send_catchup from_uid saved.instance_number saved.current_value ∷ []) self
    else self

unfoldable pub receive_catchup : ℕ → ℕ → Option Text → Node → Node
unfolding advance_instance
receive_catchup from_uid instance_number current_value self =
    if ltb self.base.saved.instance_number instance_number
    then advance_instance instance_number current_value self
    else self
