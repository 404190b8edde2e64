-- ===== src/Paxos/Node/Backoff.antt =====
-- The window of the exponential backoff of paxos/resolution_strategy.py.
use krafters.Prelude.{
  ℕ, ◌≤◌, List, [], ◌∷◌, inl, inr, Bool-cases, Option-cases, ◌==◌, ltb, arith, ◌*◌,
}
use krafters.Text.{Text}
use krafters.Paxos.Messages.{accept, resolution, Reply, returns}
use krafters.Paxos.ReplicatedValue.{
  Packet, send_nack, send_prepare, send_promise, send_accept, send_accepted, send_sync_request,
  send_catchup,
}
use krafters.Paxos.Node
use krafters.Paxos.Node.{Node, backoff_initial, backoff_cap, double_window}
use krafters.Paxos.Messenger.{
  Address, propose, message, Event, receives, paxos_append, delayed_drive_fires,
  retransmit_task_fires, sync_fires, datagram_received, fire_delayed_drive, fire_retransmit_task,
  uid_of, handle, step, run,
}

-- The window is between backoff_initial and backoff_cap.
abbrev pub InWindow : ℕ → Type 0
InWindow w = (backoff_initial ≤ w) × (w ≤ backoff_cap)

abbrev Fits : Node → Type 0
Fits n = InWindow n.backoff_window

double_window-InWindow : (w : ℕ) → InWindow w → InWindow (double_window w)
unfolding double_window
double_window-InWindow w (low, high) = elim (Bool-cases (ltb backoff_cap (w * 2))) [
  | inl e ↦ rw (e, double_window) (omega arith, omega arith)
  | inr e ↦ rw (e, double_window) (omega arith, ground arith)
]

if_current-Fits : (n : ℕ) (a b : Node) → Fits a → Fits b → Fits (Node.if_current n a b)
if_current-Fits n a b h g = elim (Bool-cases (n == a.base.saved.instance_number)) [
  | inl e ↦ rw e g
  | inr e ↦ rw e h
]

answer_promise-Fits : (reply : Reply) (n : Node) → Fits n → Fits (Node.answer_promise reply n)
unfolding Node.answer_promise Node.send_accept Node.start_task
answer_promise-Fits (returns (accept m)) n h = h
answer_promise-Fits reply n h = h

answer_accepted-Fits :
    (value : Text) (reply : Reply) (n : Node) → Fits n → Fits (Node.answer_accepted value reply n)
unfolding Node.answer_accepted Node.advance_instance
answer_accepted-Fits value (returns (resolution m)) n h = (omega arith, omega arith)
answer_accepted-Fits value reply n h = h

handle-Fits : (from : ℕ) (packet : Packet) (n : Node) → Fits n → Fits (handle from packet n)
unfolding handle Node.receive_prepare Node.receive_accept Node.receive_nack Node.receive_promise
    Node.receive_accepted Node.receive_sync_request Node.receive_catchup Node.advance_instance
    Node.reschedule_next_drive_attempt
handle-Fits from (send_nack _ k id promised) n h =
    if_current-Fits k n _ h (double_window-InWindow n.backoff_window h)
handle-Fits from (send_prepare _ k id) n h = h
handle-Fits from (send_promise _ k id last value) n h =
    if_current-Fits k n _ h (answer_promise-Fits _ _ h)
handle-Fits from (send_accept _ k id value) n h = if_current-Fits k n _ h h
handle-Fits from (send_accepted _ k id value) n h =
    if_current-Fits k n _ h (answer_accepted-Fits value _ _ h)
handle-Fits from (send_sync_request _ k) n h =
    elim (Bool-cases (ltb k n.base.saved.instance_number)) [
      | inl e ↦ rw (e, Node.receive_sync_request) h
      | inr e ↦ rw (e, Node.receive_sync_request) h
    ]
handle-Fits from (send_catchup _ k value) n h =
    elim (Bool-cases (ltb n.base.saved.instance_number k)) [
      | inl e ↦ rw (e, Node.receive_catchup) (omega arith, omega arith)
      | inr e ↦ rw (e, Node.receive_catchup) h
    ]

step-Fits : (addrs : List (ℕ × Address)) (e : Event) (n : Node) → Fits n → Fits (step addrs e n)
unfolding step datagram_received fire_delayed_drive fire_retransmit_task Node.sync
    Node.propose_update Node.drive_to_resolution Node.start_task
step-Fits addrs (receives from (propose value)) n h = h
step-Fits addrs (receives from (message packet)) n h = elim (Option-cases (uid_of from addrs)) [
  | inl e ↦ rw (e, datagram_received) h
  | inr (uid, e) ↦ rw (e, datagram_received) (handle-Fits uid packet n h)
]
step-Fits addrs (paxos_append value) n h = h
step-Fits addrs delayed_drive_fires n h = elim (Option-cases n.delayed_drive) [
  | inl e ↦ rw (e, fire_delayed_drive) h
  | inr (d, e) ↦ rw (e, fire_delayed_drive) h
]
step-Fits addrs retransmit_task_fires n h = elim (Option-cases n.retransmit_task) [
  | inl e ↦ rw (e, fire_retransmit_task) h
  | inr (task, e) ↦ rw (e, fire_retransmit_task) h
]
step-Fits addrs (sync_fires peer) n h = h

-- The backoff window is bounded. If it is between backoff_initial and backoff_cap, it is so after any
-- events of the network and of the timers.
pub run-InWindow :
    (addrs : List (ℕ × Address)) (events : List Event) (n : Node)
    → InWindow n.backoff_window
    → InWindow (run addrs events n).backoff_window
unfolding run
run-InWindow addrs [] n h = h
run-InWindow addrs (e ∷ events) n h = run-InWindow addrs events _ (step-Fits addrs e n h)
