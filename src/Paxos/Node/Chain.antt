-- ===== src/Paxos/Node/Chain.antt =====
-- The multi-paxos chain of a node, over whatever the reactor and the network do.
use krafters.Prelude.{ℕ, refl, inl, inr, List, [], ◌∷◌, none, Option-cases}
use krafters.Paxos.Node
use krafters.Paxos.Node.{Node}
use krafters.Paxos.Messenger.{
  Address, propose, message, Event, receives, paxos_append, delayed_drive_fires,
  retransmit_task_fires, sync_fires, datagram_received, fire_delayed_drive, fire_retransmit_task,
  uid_of, step, run,
}
use krafters.Paxos.Node.Handlers.{
  Later, Later-refl, Later-trans, kept, resend_now-Later, drive_to_resolution-Later,
  propose_update-Later, handle-Later,
}

step-Later :
    (addrs : List (ℕ × Address)) (e : Event) (n : Node) → Later n.base (step addrs e n).base
unfolding step datagram_received fire_delayed_drive fire_retransmit_task Node.sync
step-Later addrs (receives from (propose value)) n = propose_update-Later value n
step-Later addrs (receives from (message packet)) n = elim (Option-cases (uid_of from addrs)) [
  | inl e ↦ rw (e, datagram_received) (Later-refl n.base)
  | inr (uid, e) ↦ rw (e, datagram_received) (handle-Later uid packet n)
]
step-Later addrs (paxos_append value) n = propose_update-Later value n
step-Later addrs delayed_drive_fires n = elim (Option-cases n.delayed_drive) [
  | inl e ↦ rw (e, fire_delayed_drive) (Later-refl n.base)
  | inr (d, e) ↦
      rw (e, fire_delayed_drive) (drive_to_resolution-Later (record n { delayed_drive = none }))
]
step-Later addrs retransmit_task_fires n = elim (Option-cases n.retransmit_task) [
  | inl e ↦ rw (e, fire_retransmit_task) (Later-refl n.base)
  | inr (task, e) ↦ rw (e, fire_retransmit_task) (resend_now-Later task.resend n.base)
]
step-Later addrs (sync_fires peer) n = kept _ _ refl refl (λ h. h)

-- The chain only grows. Over any events, of the network and of the timers, a node's instance number
-- never falls, the callback is called at most once for each instance that is left, and if the state
-- file held the object's five fields at the start, it holds them at the end.
pub run-Later :
    (addrs : List (ℕ × Address)) (events : List Event) (n : Node)
    → Later n.base (run addrs events n).base
unfolding run
run-Later addrs [] n = Later-refl n.base
run-Later addrs (e ∷ events) n =
    Later-trans n.base (step addrs e n).base (run addrs events (step addrs e n)).base
      (step-Later addrs e n) (run-Later addrs events (step addrs e n))
