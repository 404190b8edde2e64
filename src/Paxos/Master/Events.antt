-- ===== src/Paxos/Master/Events.antt =====
-- The messages and the timers that reach a node with the master strategy: the overrides of
-- paxos/master_strategy.py, with the handlers of the classes above that call them.
use krafters.Prelude.{
  ℕ, suc, Bool, not, ◌&&◌, List, [], ◌∷◌, Option, none, some, ltb, ◌==◌, if◌then◌else◌, get_elem?,
}
use krafters.Text.{Text}
use krafters.Paxos.Messages.{ProposalId, accepted, resolution, Reply, returns}
use krafters.Paxos.Instance
use krafters.Paxos.ReplicatedValue.{
  Packet, send_nack, send_prepare, send_promise, send_accept, send_accepted, send_sync_request,
  send_catchup,
}
use krafters.Paxos.Node
use krafters.Paxos.Node.{with_paxos, resend_now}
use krafters.Paxos.Messenger.{Address, uid_of, Datagram, propose, message}
use krafters.Paxos.Messenger
use krafters.Paxos.Master.{
  Master, Entry, with_base, is_set, is_uid, send_leaked, drive_to_resolution, catch_up,
}
use krafters.Paxos.Master.Leases.{propose_update, propose_lease, lease_expired, advance_instance}

-- self.master_uid and from_uid != self.master_uid: the request is dropped.
unfoldable pub is_dropped : ℕ → Master → Bool
is_dropped from_uid self = is_set self.master_uid && not (is_uid self.master_uid from_uid)

unfoldable pub receive_prepare : ℕ → ℕ → ProposalId → Master → Master
unfolding is_dropped Node.receive_prepare
receive_prepare from_uid instance_number proposal_id self =
    if is_dropped from_uid self
    then self
    else record self { node = Node.receive_prepare from_uid instance_number proposal_id self.node }

unfoldable pub receive_accept : ℕ → ℕ → ProposalId → Text → Master → Master
unfolding is_dropped Node.receive_accept
receive_accept from_uid instance_number proposal_id proposal_value self =
    if is_dropped from_uid self then self else record self {
      node = Node.receive_accept from_uid instance_number proposal_id proposal_value self.node;
    }

unfoldable pub receive_catchup : ℕ → Option Text → Master → Master
unfolding catch_up
receive_catchup instance_number current_value self =
    if ltb self.node.base.saved.instance_number instance_number
    then catch_up instance_number current_value self
    else self

-- The delayed call is no longer active when it calls drive_to_resolution.
unfoldable pub fire_delayed_drive : Master → Master
unfolding drive_to_resolution
fire_delayed_drive self = elim self.node.delayed_drive [
  | none ↦ self
  | some d ↦ drive_to_resolution (record self { node = record self.node { delayed_drive = none } })
]

unfoldable pub fire_leaked : ℕ → Master → Master
unfolding send_leaked
fire_leaked k self = elim (get_elem? self.leaked k) [
  | none ↦ self
  | some call ↦ send_leaked call self
]

-- What the reactor calls: what it calls of every node, and the calls of the lease.
pub data Event : Type 0 where
  of_node : Messenger.Event → Event
  lease_expiry_fires : Event
  renewal_fires : Event
  leaked_fires : ℕ → Event

module _ (dumps : Entry → Text) (loads : Text → Option Entry) where
  -- receive_accepted of the base class behind paxos.receive_accepted
  unfoldable pub answer_accepted : ℕ → Text → Reply → Master → Master
  unfolding advance_instance
  answer_accepted now proposal_value (returns (resolution m)) self =
      advance_instance dumps loads now (suc self.node.base.saved.instance_number) proposal_value
        self
  answer_accepted now proposal_value _ self = self

  unfoldable pub receive_accepted : ℕ → ℕ → ℕ → ProposalId → Text → Master → Master
  unfolding answer_accepted Instance.receive
  receive_accepted now from_uid instance_number proposal_id proposal_value self =
      let (m, paxos) =
        Instance.receive
          (accepted (record {
            from_uid = from_uid;
            proposal_id = proposal_id;
            proposal_value = proposal_value;
          }))
          self.node.base.paxos in
      if instance_number == self.node.base.saved.instance_number
      then answer_accepted now proposal_value m (with_base (with_paxos paxos self.node.base) self)
      else self

  -- The handlers that the mixin does not override are those of the node.
  unfoldable pub handle : ℕ → ℕ → Packet → Master → Master
  unfolding receive_prepare receive_accept receive_accepted receive_catchup Node.receive_nack
      Node.receive_promise Node.receive_sync_request
  handle now from_uid (send_nack _ n id promised) self = record self {
    node = Node.receive_nack from_uid n id promised self.node;
  }
  handle now from_uid (send_prepare _ n id) self = receive_prepare from_uid n id self
  handle now from_uid (send_promise _ n id last value) self = record self {
    node = Node.receive_promise from_uid n id last value self.node;
  }
  handle now from_uid (send_accept _ n id value) self = receive_accept from_uid n id value self
  handle now from_uid (send_accepted _ n id value) self =
      receive_accepted now from_uid n id value self
  handle now from_uid (send_sync_request _ n) self = record self {
    node = Node.receive_sync_request from_uid n self.node;
  }
  handle now from_uid (send_catchup _ n value) self = receive_catchup n value self

  unfoldable pub datagram_received : ℕ → List (ℕ × Address) → Address → Datagram → Master → Master
  unfolding uid_of handle propose_update
  datagram_received now addrs from_addr (propose value) self = propose_update dumps loads value self
  datagram_received now addrs from_addr (message packet) self = elim (uid_of from_addr addrs) [
    | none ↦ self
    | some from_uid ↦ handle now from_uid packet self
  ]

  unfoldable pub node_step : ℕ → List (ℕ × Address) → Messenger.Event → Master → Master
  unfolding datagram_received propose_update fire_delayed_drive Messenger.fire_retransmit_task
      Node.sync
  node_step now addrs (Messenger.receives from_addr datagram) self =
      datagram_received now addrs from_addr datagram self
  node_step now addrs (Messenger.paxos_append value) self = propose_update dumps loads value self
  node_step now addrs Messenger.delayed_drive_fires self = fire_delayed_drive self
  node_step now addrs Messenger.retransmit_task_fires self = record self {
    node = Messenger.fire_retransmit_task self.node;
  }
  node_step now addrs (Messenger.sync_fires peer) self = record self {
    node = Node.sync peer self.node;
  }

  -- The calls that renew the lease are alike: the first of them is taken to fire.
  unfoldable pub fire_renewal : ℕ → List ℕ → Master → Master
  unfolding propose_lease
  fire_renewal now [] self = self
  fire_renewal now (delay ∷ rest) self =
      propose_lease dumps loads now (record self { renewals = rest })

  -- A call of the reactor at the time `now`.
  unfoldable pub step : List (ℕ × Address) → ℕ × Event → Master → Master
  unfolding node_step lease_expired fire_renewal fire_leaked
  step addrs (now, of_node e) self = node_step now addrs e self
  step addrs (now, lease_expiry_fires) self =
      if self.lease_expiry then lease_expired dumps loads now self else self
  step addrs (now, renewal_fires) self = fire_renewal now self.renewals self
  step addrs (now, leaked_fires k) self = fire_leaked k self

  unfoldable pub run : List (ℕ × Address) → List (ℕ × Event) → Master → Master
  unfolding step
  run addrs [] self = self
  run addrs (e ∷ events) self = run addrs events (step addrs e self)
