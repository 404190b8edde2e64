-- ===== src/Paxos/Master/Promises.antt =====
-- Whom the acceptor of a node promises while paxos/master_strategy.py knows a master.
use krafters.Prelude.{
  ℕ, ◌≡◌, ◌≢◌, refl, ap, ◌∙◌, sym, ◌⊎◌, inl, inr, false, not, ◌&&◌, List, [], ◌∷◌, Option, none,
  some, ◌==◌, ltb, arith, Bool-cases, Option-cases, ==_iff,
}
use mathlib.Core.Option.{some-injective}
use krafters.Text.{Text}
use krafters.Paxos.Messages.{ProposalId, promise, accept, accepted, before_opt, Reply, returns}
use krafters.Paxos.Acceptor
use krafters.Paxos.Instance
use krafters.Paxos.ReplicatedValue
use krafters.Paxos.ReplicatedValue.{
  ReplicatedValue, Packet, send_nack, send_prepare, send_promise, send_accept, send_accepted,
  send_sync_request, send_catchup,
}
use krafters.Paxos.Node
use krafters.Paxos.Node.{Node}
use krafters.Paxos.Messenger.{Address, uid_of, propose, message}
use krafters.Paxos.Messenger
use krafters.Paxos.Master.{Master, enter_instance, catch_up, is_set, is_uid}
use krafters.Paxos.Master.Events.{Event, of_node, is_dropped}
use krafters.Paxos.Master.Kept.{Kept}
use krafters.Paxos.Master.Entered.{
  enter_instance-chain, enter_instance-leads, enter_instance-follows,
}

abbrev pub promised : ReplicatedValue → Option ProposalId
promised base = base.paxos.acceptor.promised_id

-- While the node knows a master whose id is not 0, its acceptor has promised nobody else.
abbrev pub OnlyMaster : Master → Type 0
OnlyMaster a =
    (m : ℕ)
    → a.master_uid ≡ some m
    → m ≢ 0
    → (id : ProposalId) → a.node.base.paxos.acceptor.promised_id ≡ some id
    → id.uid ≡ m

-- A node sends its own proposals only.
abbrev pub Owned : ℕ → Packet → Type 0
Owned from (send_nack _ n id p) = Unit {0}
Owned from (send_prepare _ n id) = id.uid ≡ from
Owned from (send_promise _ n id last value) = Unit {0}
Owned from (send_accept _ n id value) = id.uid ≡ from
Owned from (send_accepted _ n id value) = Unit {0}
Owned from (send_sync_request _ n) = Unit {0}
Owned from (send_catchup _ n value) = Unit {0}

abbrev pub Honest : List (ℕ × Address) → ℕ × Event → Type 0
Honest addrs (now, of_node (Messenger.receives from (message packet))) =
    (uid : ℕ) → uid_of from addrs ≡ some uid → Owned uid packet
Honest addrs (now, e) = Unit {0}

abbrev pub AllHonest : List (ℕ × Address) → List (ℕ × Event) → Type 0
AllHonest addrs [] = Unit {0}
AllHonest addrs (e ∷ events) = Honest addrs e × AllHonest addrs events

same-Only :
    (a b : Master)
    → b.master_uid ≡ a.master_uid
    → promised b.node.base ≡ promised a.node.base
    → OnlyMaster a
    → OnlyMaster b
same-Only a b master same h m lease set id e = h m (sym master ∙ lease) set id (sym same ∙ e)

pub Kept-Only : (a b : Master) → Kept a b → OnlyMaster a → OnlyMaster b
Kept-Only a b ((s, acc, u, p), master) h = same-Only a b master (ap (λ a. a.promised_id) acc) h

pub enter_instance-Only : (n : ℕ) (v : Option Text) (a : Master) → OnlyMaster (enter_instance n v a)
enter_instance-Only n v a m lease set id e =
    let (number, current, uid, master) = enter_instance-chain n v a in
    let zero : (m == 0) ≡ false = ground arith in
    elim (Bool-cases (m == a.node.base.network_uid)) [
      | inl own ↦ absurd (
          cc (
            e,
            (enter_instance-leads n m v a (sym master ∙ lease) zero (sym ((==_iff m _).0 own))).2,
          ))
      | inr other ↦
          ap (λ i. i.uid)
            (some-injective id _
              (sym e ∙ enter_instance-follows n m v a (sym master ∙ lease) zero other))
    ]

pub catch_up-Only : (n : ℕ) (v : Option Text) (a : Master) → OnlyMaster (catch_up n v a)
unfolding catch_up Node.advance_instance Node.stop_driving ReplicatedValue.advance_instance
    ReplicatedValue.save_state Node.prepare_base
catch_up-Only n v a m lease set id e = absurd (cc e)

resend_now-promised :
    (r : Node.Resend) (a : ReplicatedValue) → promised (Node.resend_now r a) ≡ promised a
unfolding Node.resend_now
resend_now-promised (Node.prepares id) a = refl
resend_now-promised Node.prepares_own a = refl
resend_now-promised (Node.accepts id value) a = refl

-- What a request does to the promise.
abbrev pub Raises : ProposalId → ReplicatedValue → ReplicatedValue → Type 0
Raises id a b = (promised b ≡ promised a) ⊎ (promised b ≡ some id)

base_if_current-Raises :
    (id : ProposalId) (k : ℕ) (a b : ReplicatedValue)
    → Raises id a b
    → Raises id a (ReplicatedValue.if_current k a b)
base_if_current-Raises id k a b h = elim (Bool-cases (k == a.saved.instance_number)) [
  | inl e ↦ rw e h
  | inr e ↦ rw e (inl refl)
]

answer_prepare-promised :
    (from : ℕ) (id : ProposalId) (reply : Reply) (a : ReplicatedValue)
    → promised (ReplicatedValue.answer_prepare from id reply a) ≡ promised a
unfolding ReplicatedValue.answer_prepare ReplicatedValue.save_state
answer_prepare-promised from id (returns (promise m)) a = refl
answer_prepare-promised from id reply a = refl

answer_accept-promised :
    (from : ℕ) (id : ProposalId) (value : Text) (reply : Reply) (a : ReplicatedValue)
    → promised (ReplicatedValue.answer_accept from id value reply a) ≡ promised a
unfolding ReplicatedValue.answer_accept ReplicatedValue.save_state
answer_accept-promised from id value (returns (accepted m)) a = refl
answer_accept-promised from id value reply a = refl

pub receive_prepare-Raises :
    (from k : ℕ) (id : ProposalId) (a : ReplicatedValue)
    → Raises id a (ReplicatedValue.receive_prepare from k id a)
unfolding ReplicatedValue.receive_prepare Instance.receive_prepare Acceptor.receive_prepare
receive_prepare-Raises from k id a =
    let next = Instance.receive_prepare (record { from_uid = from; proposal_id = id }) a.paxos in
    let kept = answer_prepare-promised from id next.0 (Node.with_paxos next.1 a) in
    base_if_current-Raises id k a _
      (elim (Bool-cases (before_opt (some id) a.paxos.acceptor.promised_id)) [
        | inl e ↦ inl (kept ∙ rw (e, Acceptor.receive_prepare) refl)
        | inr e ↦ inr (kept ∙ rw (e, Acceptor.receive_prepare) refl)
      ])

receive_accept-Raises :
    (from k : ℕ) (id : ProposalId) (value : Text) (a : ReplicatedValue)
    → Raises id a (ReplicatedValue.receive_accept from k id value a)
unfolding ReplicatedValue.receive_accept Instance.receive_accept Acceptor.receive_accept
receive_accept-Raises from k id value a =
    let next =
      Instance.receive_accept (record { from_uid = from; proposal_id = id; proposal_value = value })
        a.paxos in
    let kept = answer_accept-promised from id value next.0 (Node.with_paxos next.1 a) in
    base_if_current-Raises id k a _
      (elim (Bool-cases (before_opt (some id) a.paxos.acceptor.promised_id)) [
        | inl e ↦ inl (kept ∙ rw (e, Acceptor.receive_accept) refl)
        | inr e ↦ inr (kept ∙ rw (e, Acceptor.receive_accept) refl)
      ])

node_if_current-Raises :
    (id : ProposalId) (k : ℕ) (a b : Node)
    → Raises id a.base b.base
    → Raises id a.base (Node.if_current k a b).base
node_if_current-Raises id k a b h = elim (Bool-cases (k == a.base.saved.instance_number)) [
  | inl e ↦ rw e h
  | inr e ↦ rw e (inl refl)
]

pub node_receive_accept-Raises :
    (from k : ℕ) (id : ProposalId) (value : Text) (n : Node)
    → Raises id n.base (Node.receive_accept from k id value n).base
unfolding Node.receive_accept Node.reschedule_next_drive_attempt
node_receive_accept-Raises from k id value n =
    node_if_current-Raises id k n _ (receive_accept-Raises from k id value n.base)

-- A request that is not dropped while there is a master is the master's.
heard_by :
    (from m : ℕ) (master : Option ℕ)
    → (is_set master && not (is_uid master from)) ≡ false
    → master ≡ some m
    → m ≢ 0
    → m ≡ from
heard_by from m none passed lease set = absurd (cc lease)
heard_by from m (some k) passed lease set = ground arith

heard :
    (from m : ℕ) (a : Master) → is_dropped from a ≡ false → a.master_uid ≡ some m → m ≢ 0 → m ≡ from
unfolding is_dropped
heard from m a passed lease set = heard_by from m a.master_uid passed lease set

pub Raises-Only :
    (from : ℕ) (id : ProposalId) (a : Master) (node : Node)
    → is_dropped from a ≡ false
    → id.uid ≡ from
    → Raises id a.node.base node.base
    → OnlyMaster a
    → OnlyMaster (record a { node = node })
Raises-Only from id a node passed own (inl same) h =
    same-Only a (record a { node = node }) refl same h
Raises-Only from id a node passed own (inr raised) h = λ m lease set id' e.
    ap (λ (i : ProposalId). i.uid) (some-injective id' id (sym e ∙ raised))
    ∙ own
    ∙ sym (heard from m a passed lease set)

pub node_same :
    (a : Master) (node : Node)
    → promised node.base ≡ promised a.node.base
    → OnlyMaster a
    → OnlyMaster (record a { node = node })
node_same a node same h = same-Only a (record a { node = node }) refl same h

if_current-promised :
    (k : ℕ) (a b : Node)
    → promised b.base ≡ promised a.base
    → promised (Node.if_current k a b).base ≡ promised a.base
if_current-promised k a b h = elim (Bool-cases (k == a.base.saved.instance_number)) [
  | inl e ↦ rw e h
  | inr e ↦ rw e refl
]

answer_promise-promised :
    (reply : Reply) (a : Node) → promised (Node.answer_promise reply a).base ≡ promised a.base
unfolding Node.answer_promise Node.send_accept Node.start_task Node.resend_now
answer_promise-promised (returns (accept m)) a = refl
answer_promise-promised reply a = refl

pub receive_nack-promised :
    (from k : ℕ) (id : ProposalId) (p : Option ProposalId) (a : Node)
    → promised (Node.receive_nack from k id p a).base ≡ promised a.base
unfolding Node.receive_nack Node.stop_driving Node.reschedule_next_drive_attempt
    ReplicatedValue.receive_nack Instance.receive
receive_nack-promised from k id p a = elim (Bool-cases (k == a.base.saved.instance_number)) [
  | inl e ↦ rw e refl
  | inr e ↦ rw e refl
]

pub receive_promise-promised :
    (from k : ℕ) (id : ProposalId) (last : Option ProposalId) (value : Option Text) (a : Node)
    → promised (Node.receive_promise from k id last value a).base ≡ promised a.base
unfolding Node.receive_promise Instance.receive
receive_promise-promised from k id last value a =
    let next =
      Instance.receive
        (promise (record {
          from_uid = from;
          proposer_uid = a.base.network_uid;
          proposal_id = id;
          last_accepted_id = last;
          last_accepted_value = value;
        }))
        a.base.paxos in
    if_current-promised k a _
      (answer_promise-promised next.0 (record a { base = Node.with_paxos next.1 a.base }))

pub receive_sync_request-promised :
    (from k : ℕ) (a : Node) → promised (Node.receive_sync_request from k a).base ≡ promised a.base
unfolding Node.receive_sync_request
receive_sync_request-promised from k a = elim (Bool-cases (ltb k a.base.saved.instance_number)) [
  | inl e ↦ rw e refl
  | inr e ↦ rw e refl
]

pub fire_retransmit_task-promised :
    (a : Node) → promised (Messenger.fire_retransmit_task a).base ≡ promised a.base
unfolding Messenger.fire_retransmit_task
fire_retransmit_task-promised a = elim (Option-cases a.retransmit_task) [
  | inl e ↦ rw (e, Messenger.fire_retransmit_task) refl
  | inr (task, e) ↦ rw (e, Messenger.fire_retransmit_task) (resend_now-promised task.resend a.base)
]
