-- ===== src/Paxos/Master/OnlyMaster.antt =====
-- Every handler of paxos/master_strategy.py, and any run of them, promises to the master only.
use krafters.Prelude.{
  false, ℕ, suc, ◌≡◌, inl, inr, List, [], ◌∷◌, Option, none, some, ◌==◌, ltb, Bool-cases,
  Option-cases, get_elem?,
}
use krafters.Text.{Text}
use krafters.Paxos.Messages.{ProposalId, accepted, resolution, Reply, returns}
use krafters.Paxos.Instance
use krafters.Paxos.ReplicatedValue.{
  Packet, send_nack, send_prepare, send_promise, send_accept, send_accepted, send_sync_request,
  send_catchup,
}
use krafters.Paxos.Node
use krafters.Paxos.Messenger.{Address, uid_of, Datagram, propose, message}
use krafters.Paxos.Messenger
use krafters.Paxos.Master.{
  Master, Entry, with_base, propose_base, has_lease, drive_to_resolution, send_leaked,
}
use krafters.Paxos.Master.Leases.{
  propose_update, propose_lease, lease_expired, advance_instance, advance_by, update_lease,
}
use krafters.Paxos.Master.Events.{
  Event, of_node, lease_expiry_fires, renewal_fires, leaked_fires, is_dropped, receive_prepare,
  receive_accept, receive_catchup, fire_delayed_drive, fire_leaked, fire_renewal, answer_accepted,
  receive_accepted, handle, datagram_received, node_step, step, run,
}
use krafters.Paxos.Master.Kept.{
  propose_base-Kept, propose_lease-Kept, drive_to_resolution-Kept, send_leaked-Kept,
}
use krafters.Paxos.Master.Promises.{
  OnlyMaster, Owned, Honest, AllHonest, Kept-Only, enter_instance-Only, catch_up-Only,
  receive_prepare-Raises, node_receive_accept-Raises, Raises-Only, node_same, receive_nack-promised,
  receive_promise-promised, receive_sync_request-promised, fire_retransmit_task-promised,
}

-- The parts that write no JSON text.
request :
    (from k : ℕ) (id : ProposalId) (a : Master)
    → id.uid ≡ from
    → OnlyMaster a
    → OnlyMaster (receive_prepare from k id a)
unfolding receive_prepare Node.receive_prepare
request from k id a own h = elim (Bool-cases (is_dropped from a)) [
  | inl e ↦ rw (e, receive_prepare) h
  | inr e ↦
      rw (e, receive_prepare)
        (Raises-Only from id a (Node.receive_prepare from k id a.node) e own
          (receive_prepare-Raises from k id a.node.base) h)
]

proposal :
    (from k : ℕ) (id : ProposalId) (value : Text) (a : Master)
    → id.uid ≡ from
    → OnlyMaster a
    → OnlyMaster (receive_accept from k id value a)
unfolding receive_accept
proposal from k id value a own h = elim (Bool-cases (is_dropped from a)) [
  | inl e ↦ rw (e, receive_accept) h
  | inr e ↦
      rw (e, receive_accept)
        (Raises-Only from id a (Node.receive_accept from k id value a.node) e own
          (node_receive_accept-Raises from k id value a.node) h)
]

catchup :
    (k : ℕ) (value : Option Text) (a : Master)
    → OnlyMaster a
    → OnlyMaster (receive_catchup k value a)
unfolding receive_catchup
catchup k value a h = elim (Bool-cases (ltb a.node.base.saved.instance_number k)) [
  | inl e ↦ rw (e, receive_catchup) (catch_up-Only k value a)
  | inr e ↦ rw (e, receive_catchup) h
]

delayed_drive : (a : Master) → OnlyMaster a → OnlyMaster (fire_delayed_drive a)
unfolding fire_delayed_drive
delayed_drive a h = elim (Option-cases a.node.delayed_drive) [
  | inl e ↦ rw (e, fire_delayed_drive) h
  | inr (d, e) ↦
      rw (e, fire_delayed_drive)
        (let b = record a { node = record a.node { delayed_drive = none } } in
          Kept-Only b (drive_to_resolution b) (drive_to_resolution-Kept b) h)
]

leaked : (k : ℕ) (a : Master) → OnlyMaster a → OnlyMaster (fire_leaked k a)
unfolding fire_leaked
leaked k a h = elim (Option-cases (get_elem? a.leaked k)) [
  | inl e ↦ rw (e, fire_leaked) h
  | inr (call, e) ↦
      rw (e, fire_leaked) (Kept-Only a (send_leaked call a) (send_leaked-Kept call a) h)
]

module _ (dumps : Entry → Text) (loads : Text → Option Entry) where
  client :
      (value : Text) (a : Master) → OnlyMaster a → OnlyMaster (propose_update dumps loads value a)
  unfolding propose_update
  client value a h = elim (Bool-cases (has_lease a)) [
    | inl e ↦
        rw (e, propose_update)
          (Kept-Only a (propose_base (dumps (none, some value)) a)
            (propose_base-Kept (dumps (none, some value)) a) h)
    | inr e ↦ rw (e, propose_update) h
  ]

  attempt : (now : ℕ) (a : Master) → OnlyMaster a → OnlyMaster (propose_lease dumps loads now a)
  attempt now a h =
      Kept-Only a (propose_lease dumps loads now a) (propose_lease-Kept dumps loads now a) h

  renewal :
      (now : ℕ) (renewals : List ℕ) (a : Master)
      → OnlyMaster a
      → OnlyMaster (fire_renewal dumps loads now renewals a)
  unfolding fire_renewal
  renewal now [] a h = h
  renewal now (delay ∷ rest) a h = attempt now (record a { renewals = rest }) h

  advance_by-Only :
      (now n : ℕ) (e : Option Entry) (a : Master)
      → OnlyMaster a
      → OnlyMaster (advance_by dumps loads now n e a)
  unfolding advance_by
  advance_by-Only now n none a h = h
  advance_by-Only now n (some (some uid, value)) a h =
      let b = update_lease dumps loads now (some uid) a in
      enter_instance-Only n b.node.base.saved.current_value b
  advance_by-Only now n (some (none, value)) a h = enter_instance-Only n value a

  answer :
      (now : ℕ) (value : Text) (reply : Reply) (a : Master)
      → OnlyMaster a
      → OnlyMaster (answer_accepted dumps loads now value reply a)
  unfolding answer_accepted advance_instance
  answer now value (returns (resolution m)) a h =
      advance_by-Only now (suc a.node.base.saved.instance_number) (loads value)
        (record a { master_attempt = false }) h
  answer now value reply a h = h

  acceptance :
      (now from k : ℕ) (id : ProposalId) (value : Text) (a : Master)
      → OnlyMaster a
      → OnlyMaster (receive_accepted dumps loads now from k id value a)
  unfolding receive_accepted Instance.receive
  acceptance now from k id value a h =
      let next =
        Instance.receive
          (accepted (record { from_uid = from; proposal_id = id; proposal_value = value }))
          a.node.base.paxos in
      let b = with_base (Node.with_paxos next.1 a.node.base) a in
      elim (Bool-cases (k == a.node.base.saved.instance_number)) [
        | inl e ↦ rw e (answer now value next.0 b h)
        | inr e ↦ rw e h
      ]

  handle-Only :
      (now from : ℕ) (packet : Packet) (a : Master)
      → Owned from packet
      → OnlyMaster a
      → OnlyMaster (handle dumps loads now from packet a)
  unfolding handle
  handle-Only now from (send_nack _ k id p) a own h =
      node_same a (Node.receive_nack from k id p a.node) (receive_nack-promised from k id p a.node)
        h
  handle-Only now from (send_prepare _ k id) a own h = request from k id a own h
  handle-Only now from (send_promise _ k id last value) a own h =
      node_same a (Node.receive_promise from k id last value a.node)
        (receive_promise-promised from k id last value a.node) h
  handle-Only now from (send_accept _ k id value) a own h = proposal from k id value a own h
  handle-Only now from (send_accepted _ k id value) a own h = acceptance now from k id value a h
  handle-Only now from (send_sync_request _ k) a own h =
      node_same a (Node.receive_sync_request from k a.node)
        (receive_sync_request-promised from k a.node) h
  handle-Only now from (send_catchup _ k value) a own h = catchup k value a h

  node_step-Only :
      (now : ℕ) (addrs : List (ℕ × Address)) (e : Messenger.Event) (a : Master)
      → Honest addrs (now, of_node e)
      → OnlyMaster a
      → OnlyMaster (node_step dumps loads now addrs e a)
  unfolding node_step datagram_received Node.sync
  node_step-Only now addrs (Messenger.receives from (propose value)) a honest h = client value a h
  node_step-Only now addrs (Messenger.receives from (message packet)) a honest h =
      elim (Option-cases (uid_of from addrs)) [
        | inl e ↦ rw (e, datagram_received) h
        | inr (uid, e) ↦ rw (e, datagram_received) (handle-Only now uid packet a (honest uid e) h)
      ]
  node_step-Only now addrs (Messenger.paxos_append value) a honest h = client value a h
  node_step-Only now addrs Messenger.delayed_drive_fires a honest h = delayed_drive a h
  node_step-Only now addrs Messenger.retransmit_task_fires a honest h =
      node_same a (Messenger.fire_retransmit_task a.node) (fire_retransmit_task-promised a.node) h
  node_step-Only now addrs (Messenger.sync_fires peer) a honest h = h

  step-Only :
      (addrs : List (ℕ × Address)) (e : ℕ × Event) (a : Master)
      → Honest addrs e
      → OnlyMaster a
      → OnlyMaster (step dumps loads addrs e a)
  unfolding step lease_expired
  step-Only addrs (now, of_node e) a honest h = node_step-Only now addrs e a honest h
  step-Only addrs (now, lease_expiry_fires) a honest h = elim (Bool-cases a.lease_expiry) [
    | inl e ↦
        rw (e, step)
          (attempt now (record a { master_uid = none; lease_expiry = false })
            (λ m lease. absurd (cc lease)))
    | inr e ↦ rw (e, step) h
  ]
  step-Only addrs (now, renewal_fires) a honest h = renewal now a.renewals a h
  step-Only addrs (now, leaked_fires k) a honest h = leaked k a h

  -- Only the master is promised. Let it hold of a node that if it knows a master, whose id is not 0, an
  -- id that its acceptor has promised in its instance is the master's, and let the Prepare and Accept
  -- messages that reach the node be of proposals of their senders. Then after any events of the network
  -- and of the timers, at any times, it holds again.
  pub run-OnlyMaster :
      (addrs : List (ℕ × Address)) (events : List (ℕ × Event)) (a : Master)
      → AllHonest addrs events
      → OnlyMaster a
      → OnlyMaster (run dumps loads addrs events a)
  unfolding run
  run-OnlyMaster addrs [] a honest h = h
  run-OnlyMaster addrs (e ∷ events) a honest h =
      run-OnlyMaster addrs events (step dumps loads addrs e a) honest.1
        (step-Only addrs e a honest.0 h)
