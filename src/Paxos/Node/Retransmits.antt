-- ===== src/Paxos/Node/Retransmits.antt =====
-- What the looping call of paxos/resolution_strategy.py sends again.
use krafters.Prelude.{
  ℕ, ◌≡◌, refl, sym, ap, ◌∙◌, inl, inr, List, [], ◌∷◌, Option, none, some, Bool-cases, Option-cases,
  ◌==◌, ltb,
}
use mathlib.Core.Option.{some-injective}
use krafters.Text.{Text}
use krafters.Paxos.Messages.{
  ProposalId, Promise, Accept, promise, accept, accepted, resolution, Reply, returns,
}
use krafters.Paxos.Proposer.{next_id}
use krafters.Paxos.Instance
use krafters.Paxos.ReplicatedValue
use krafters.Paxos.ReplicatedValue.{
  ReplicatedValue, Packet, send_nack, send_prepare, send_promise, send_accept, send_accepted,
  send_sync_request, send_catchup,
}
use krafters.Paxos.Node
use krafters.Paxos.Node.{Node, Resend, Retransmit}
use krafters.Paxos.Messenger.{
  Address, propose, message, Event, receives, paxos_append, delayed_drive_fires,
  retransmit_task_fires, sync_fires, datagram_received, fire_delayed_drive, fire_retransmit_task,
  uid_of, handle, step, run,
}
use krafters.Paxos.Proposer.Answers.{observe_proposal-same, receive_promise-Answers}

-- The proposal that is sent again, where `own` is the proposer's.
abbrev pub resend_id : Resend → ProposalId → ProposalId
resend_id (Node.prepares id) own = id
resend_id Node.prepares_own own = own
resend_id (Node.accepts id value) own = id

abbrev pub IsCurrent : Option Retransmit → ProposalId → Type 0
IsCurrent task id = (t : Retransmit) → task ≡ some t → resend_id t.resend id ≡ id

abbrev own_id : ReplicatedValue → ProposalId
own_id base = base.paxos.proposer.proposal_id

abbrev Good : Node → Type 0
Good n = IsCurrent n.retransmit_task (own_id n.base)

if_current-Good : (n : ℕ) (a b : Node) → Good a → Good b → Good (Node.if_current n a b)
if_current-Good n a b h g = elim (Bool-cases (n == a.base.saved.instance_number)) [
  | inl e ↦ rw e g
  | inr e ↦ rw e h
]

no_task : (id : ProposalId) → IsCurrent none id
no_task id t e = absurd (cc e)

-- A new task.
new_task :
    (task : Retransmit) (id : ProposalId) → resend_id task.resend id ≡ id → IsCurrent (some task) id
new_task task id same t e = ap (λ t. resend_id t.resend id) (sym (some-injective task t e)) ∙ same

resend_now-same :
    (r : Resend) (base : ReplicatedValue) → own_id (Node.resend_now r base) ≡ own_id base
unfolding Node.resend_now
resend_now-same (Node.prepares id) base = refl
resend_now-same Node.prepares_own base = refl
resend_now-same (Node.accepts id value) base = refl

answer_promise-Good :
    (reply : Reply) (n : Node)
    → Good n
    → ((m : Accept) → reply ≡ returns (accept m) → m.proposal_id ≡ own_id n.base)
    → Good (Node.answer_promise reply n)
unfolding Node.answer_promise Node.send_accept Node.start_task Node.resend_now
answer_promise-Good (returns (accept m)) n h answer = new_task _ (own_id n.base) (answer m refl)
answer_promise-Good reply n h answer = h

answer_accepted-Good :
    (value : Text) (reply : Reply) (n : Node) → Good n → Good (Node.answer_accepted value reply n)
unfolding Node.answer_accepted Node.advance_instance Node.stop_driving
answer_accepted-Good value (returns (resolution m)) n h = no_task _
answer_accepted-Good value reply n h = h

-- A step of the base that keeps the proposal.
keeps :
    (n : Node) (base : ReplicatedValue)
    → own_id base ≡ own_id n.base
    → Good n
    → IsCurrent n.retransmit_task (own_id base)
keeps n base same h t e = rw same (h t e)

base_if_current-same :
    (k : ℕ) (a b : ReplicatedValue)
    → own_id b ≡ own_id a
    → own_id (ReplicatedValue.if_current k a b) ≡ own_id a
base_if_current-same k a b same = elim (Bool-cases (k == a.saved.instance_number)) [
  | inl e ↦ rw e same
  | inr e ↦ rw e refl
]

answer_prepare-same :
    (from : ℕ) (id : ProposalId) (reply : Reply) (a : ReplicatedValue)
    → own_id (ReplicatedValue.answer_prepare from id reply a) ≡ own_id a
unfolding ReplicatedValue.answer_prepare
answer_prepare-same from id (returns (promise m)) a = refl
answer_prepare-same from id reply a = refl

answer_accept-same :
    (from : ℕ) (id : ProposalId) (value : Text) (reply : Reply) (a : ReplicatedValue)
    → own_id (ReplicatedValue.answer_accept from id value reply a) ≡ own_id a
unfolding ReplicatedValue.answer_accept
answer_accept-same from id value (returns (accepted m)) a = refl
answer_accept-same from id value reply a = refl

receive_prepare-same :
    (from k : ℕ) (id : ProposalId) (a : ReplicatedValue)
    → own_id (ReplicatedValue.receive_prepare from k id a) ≡ own_id a
unfolding ReplicatedValue.receive_prepare Instance.receive_prepare
receive_prepare-same from k id a =
    let next = Instance.receive_prepare (record { from_uid = from; proposal_id = id }) a.paxos in
    let a' = Node.with_paxos next.1 a in
    base_if_current-same k a (ReplicatedValue.answer_prepare from id next.0 a')
      (answer_prepare-same from id next.0 a' ∙ observe_proposal-same (some id) a.paxos.proposer)

receive_accept-same :
    (from k : ℕ) (id : ProposalId) (value : Text) (a : ReplicatedValue)
    → own_id (ReplicatedValue.receive_accept from k id value a) ≡ own_id a
unfolding ReplicatedValue.receive_accept Instance.receive_accept
receive_accept-same from k id value a =
    let next =
      Instance.receive_accept (record { from_uid = from; proposal_id = id; proposal_value = value })
        a.paxos in
    let a' = Node.with_paxos next.1 a in
    base_if_current-same k a (ReplicatedValue.answer_accept from id value next.0 a') (
      answer_accept-same from id value next.0 a' ∙ observe_proposal-same (some id) a.paxos.proposer)

drive-Good : (n : Node) → Good (Node.drive_to_resolution n)
unfolding Node.drive_to_resolution Node.start_task Node.prepare_base Node.resend_now
    Node.stop_driving
drive-Good n = new_task _ (next_id n.base.paxos.proposer) refl

handle-Good : (from : ℕ) (packet : Packet) (n : Node) → Good n → Good (handle from packet n)
unfolding handle Node.receive_prepare Node.receive_accept Node.receive_nack Node.receive_promise
    Node.receive_accepted Node.receive_sync_request Node.receive_catchup Node.advance_instance
    Node.reschedule_next_drive_attempt Node.stop_driving Instance.receive
handle-Good from (send_nack _ k id promised) n h = if_current-Good k n _ h (no_task _)
handle-Good from (send_prepare _ k id) n h =
    keeps n (ReplicatedValue.receive_prepare from k id n.base)
      (receive_prepare-same from k id n.base) h
handle-Good from (send_promise _ k id last value) n h =
    let msg : Promise = record {
      from_uid = from;
      proposer_uid = n.base.network_uid;
      proposal_id = id;
      last_accepted_id = last;
      last_accepted_value = value;
    } in
    let (same, answer) = receive_promise-Answers msg n.base.paxos.proposer in
    let next = Instance.receive (promise msg) n.base.paxos in
    let base = Node.with_paxos next.1 n.base in
    if_current-Good k n (Node.answer_promise next.0 (record n { base = base })) h (
      answer_promise-Good next.0 (record n { base = base }) (keeps n base same h)
        (λ m e. answer m e ∙ sym same))
handle-Good from (send_accept _ k id value) n h = if_current-Good k n _ h (
    keeps n (ReplicatedValue.receive_accept from k id value n.base)
      (receive_accept-same from k id value n.base) h)
handle-Good from (send_accepted _ k id value) n h =
    let next =
      Instance.receive
        (accepted (record { from_uid = from; proposal_id = id; proposal_value = value }))
        n.base.paxos in
    let n' = record n { base = Node.with_paxos next.1 n.base } in
    if_current-Good k n (Node.answer_accepted value next.0 n') h
      (answer_accepted-Good value next.0 n' h)
handle-Good from (send_sync_request _ k) n h =
    elim (Bool-cases (ltb k n.base.saved.instance_number)) [
      | inl e ↦ rw (e, Node.receive_sync_request) h
      | inr e ↦ rw (e, Node.receive_sync_request) h
    ]
handle-Good from (send_catchup _ k value) n h =
    elim (Bool-cases (ltb n.base.saved.instance_number k)) [
      | inl e ↦ rw (e, Node.receive_catchup) (no_task _)
      | inr e ↦ rw (e, Node.receive_catchup) h
    ]

step-Good : (addrs : List (ℕ × Address)) (e : Event) (n : Node) → Good n → Good (step addrs e n)
unfolding step datagram_received fire_delayed_drive fire_retransmit_task Node.sync
    Node.propose_update
step-Good addrs (receives from (propose value)) n h =
    drive-Good (record n { base = ReplicatedValue.propose_update value n.base })
step-Good addrs (receives from (message packet)) n h = elim (Option-cases (uid_of from addrs)) [
  | inl e ↦ rw (e, datagram_received) h
  | inr (uid, e) ↦ rw (e, datagram_received) (handle-Good uid packet n h)
]
step-Good addrs (paxos_append value) n h =
    drive-Good (record n { base = ReplicatedValue.propose_update value n.base })
step-Good addrs delayed_drive_fires n h = elim (Option-cases n.delayed_drive) [
  | inl e ↦ rw (e, fire_delayed_drive) h
  | inr (d, e) ↦ rw (e, fire_delayed_drive) (drive-Good (record n { delayed_drive = none }))
]
step-Good addrs retransmit_task_fires n h = elim (Option-cases n.retransmit_task) [
  | inl e ↦ rw (e, fire_retransmit_task) h
  | inr (task, e) ↦
      rw (e, fire_retransmit_task)
        (keeps n (Node.resend_now task.resend n.base) (resend_now-same task.resend n.base) h)
]
step-Good addrs (sync_fires peer) n h = h

-- Only the current proposal is sent again. If the looping call of a node, where it has one, is for the
-- current proposal of its proposer, it is so after any events of the network and of the timers.
pub run-IsCurrent :
    (addrs : List (ℕ × Address)) (events : List Event) (n : Node)
    → IsCurrent n.retransmit_task n.base.paxos.proposer.proposal_id
    → IsCurrent
        (run addrs events n).retransmit_task
        (run addrs events n).base.paxos.proposer.proposal_id
unfolding run
run-IsCurrent addrs [] n h = h
run-IsCurrent addrs (e ∷ events) n h = run-IsCurrent addrs events _ (step-Good addrs e n h)
