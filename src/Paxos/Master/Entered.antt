-- ===== src/Paxos/Master/Entered.antt =====
-- The instance that advance_instance of paxos/master_strategy.py begins.
use krafters.Prelude.{
  ◌++◌, ℕ, ◌≡◌, refl, ap, ◌∙◌, true, false, not, inl, inr, List, [], ◌∷◌, Option, none, some, ◌==◌,
  arith, Bool-cases, ◌&&◌, ◌++◌, length,
}
use krafters.Sets.{contains}
use krafters.Text.{Text}
use krafters.Paxos.Messages.{ProposalId, before_opt, same_id, Promise, promise}
use krafters.Paxos.Acceptor
use krafters.Paxos.Proposer.{
  Proposer, receive_promise, count_promise, adopt, try_lead, observe_proposal, next_id,
}
use krafters.Paxos.Instance
use krafters.Paxos.Instance.{Instance}
use krafters.Paxos.ReplicatedValue
use krafters.Paxos.ReplicatedValue.{ReplicatedValue}
use krafters.Paxos.Node
use krafters.Paxos.Master.{
  Master, Entry, master_pid, take_promises, begin_under, take_master, enter_instance,
}
use krafters.Paxos.Master.Leases.{advance_instance, advance_by, update_lease}

-- What an advance leaves alone beside the paxos object.
abbrev pub Aside : Master → Master → Type 0
Aside a b =
    (b.node.base.saved ≡ a.node.base.saved)
    × (b.node.base.network_uid ≡ a.node.base.network_uid)
    × (b.node.base.peers ≡ a.node.base.peers)
    × (b.master_uid ≡ a.master_uid)

begin_under-base :
    (uid : ℕ) (base : ReplicatedValue)
    → ((begin_under uid base).saved ≡ base.saved)
      × ((begin_under uid base).network_uid ≡ base.network_uid)
      × ((begin_under uid base).peers ≡ base.peers)
unfolding begin_under Node.prepare_base
begin_under-base uid base = elim (Bool-cases (uid == base.network_uid)) [
  | inl e ↦ rw (e, begin_under) (refl, refl, refl)
  | inr e ↦ rw (e, begin_under) (refl, refl, refl)
]

pub take_master-Aside : (master : Option ℕ) (a : Master) → Aside a (take_master master a)
unfolding take_master
take_master-Aside none a = (refl, refl, refl, refl)
take_master-Aside (some uid) a =
    let (s, n, p) = begin_under-base uid a.node.base in
    elim (Bool-cases (uid == 0)) [
      | inl e ↦ rw (e, take_master) (refl, refl, refl, refl)
      | inr e ↦ rw (e, take_master) (s, n, p, refl)
    ]

-- The instance number, the value and the master of the new instance.
pub enter_instance-chain :
    (n : ℕ) (v : Option Text) (a : Master)
    → let b = enter_instance n v a in
      (b.node.base.saved.instance_number ≡ n)
      × (b.node.base.saved.current_value ≡ v)
      × (b.node.base.network_uid ≡ a.node.base.network_uid)
      × (b.master_uid ≡ a.master_uid)
unfolding enter_instance Node.advance_instance ReplicatedValue.advance_instance
    ReplicatedValue.save_state Node.stop_driving
enter_instance-chain n v a =
    let a' = record a { node = Node.advance_instance n v a.node } in
    let (s, u, p, m) = take_master-Aside a.master_uid a' in
    (ap (λ s. s.instance_number) s, ap (λ s. s.current_value) s, u, m)

-- The proposal and its value are the same.
abbrev Still : Proposer → Proposer → Type 0
Still p q = (q.proposal_id ≡ p.proposal_id) × (q.proposed_value ≡ p.proposed_value)

-- A promise that reports no proposal.
abbrev plain : ℕ → ℕ → ProposalId → Promise
plain peer uid id = record {
  from_uid = peer;
  proposer_uid = uid;
  proposal_id = id;
  last_accepted_id = none;
  last_accepted_value = none;
}

try_lead-Still : (k : ℕ) (p : Proposer) → Still p (try_lead k p).1
unfolding try_lead
try_lead-Still k p = elim (Bool-cases (k == p.quorum_size)) [
  | inl e ↦ rw (e, try_lead) (refl, refl)
  | inr e ↦ rw (e, try_lead) (refl, refl)
]

count_promise-Still :
    (peer uid : ℕ) (id : ProposalId) (promises : Option (List ℕ)) (p : Proposer)
    → Still p (count_promise (plain peer uid id) promises p).1
unfolding count_promise adopt before_opt
count_promise-Still peer uid id none p = (refl, refl)
count_promise-Still peer uid id (some promises) p = elim (Bool-cases (contains peer promises)) [
  | inl e ↦ rw (e, count_promise) (refl, refl)
  | inr e ↦
      rw (e, count_promise)
        (try_lead-Still (length (promises ++ peer ∷ []))
          (record p { promises_received = some (promises ++ peer ∷ []) }))
]

observe_proposal-Still : (id : ProposalId) (p : Proposer) → Still p (observe_proposal (some id) p)
unfolding observe_proposal
observe_proposal-Still id p =
    elim (Bool-cases (before_opt (some p.highest_proposal_id) (some id))) [
      | inl e ↦ rw (e, observe_proposal) (refl, refl)
      | inr e ↦ rw (e, observe_proposal) (refl, refl)
    ]

plain-Still :
    (peer uid : ℕ) (id : ProposalId) (p : Proposer)
    → Still p (receive_promise (plain peer uid id) p).1
unfolding receive_promise
plain-Still peer uid id p =
    let seen = observe_proposal (some id) p in
    let (i, v) = observe_proposal-Still id p in
    let (i', v') = count_promise-Still peer uid id seen.promises_received seen in
    elim (Bool-cases (not seen.leader && same_id id seen.proposal_id)) [
      | inl e ↦ rw (e, receive_promise) (i' ∙ i, v' ∙ v)
      | inr e ↦ rw (e, receive_promise) (i, v)
    ]

-- The promises of the members to the master.
take_promises-fields :
    (uid : ℕ) (id : ProposalId) (peers : List ℕ) (paxos : Instance)
    → let paxos' = take_promises uid id peers paxos in
      (paxos'.proposer.proposal_id ≡ paxos.proposer.proposal_id)
      × (paxos'.proposer.proposed_value ≡ paxos.proposer.proposed_value)
      × (paxos'.acceptor ≡ paxos.acceptor)
unfolding take_promises Instance.receive
take_promises-fields uid id [] paxos = (refl, refl, refl)
take_promises-fields uid id (peer ∷ peers) paxos =
    let (i, v) = plain-Still peer uid id paxos.proposer in
    let (i', v', a') =
      take_promises-fields uid id peers (Instance.receive (promise (plain peer uid id)) paxos).1 in
    (i' ∙ i, v' ∙ v, a')

-- What an advance by a value that json.loads reads ends in: the new instance is entered from a state
-- in which the lease is up to date.
pub advance_instance-enters :
    (dumps : Entry → Text) (loads : Text → Option Entry) (now n : ℕ) (text : Text) (e : Entry)
    (a : Master)
    → loads text ≡ some e
    → (b : Master) × (v : Option Text) × (advance_instance dumps loads now n text a
        ≡ enter_instance n v b)
unfolding advance_instance advance_by
advance_instance-enters dumps loads now n text (some uid, value) a h =
    let b = update_lease dumps loads now (some uid) (record a { master_attempt = false }) in
    (b, b.node.base.saved.current_value, rw (h, advance_instance) refl)
advance_instance-enters dumps loads now n text (none, value) a h =
    (record a { master_attempt = false }, value, rw (h, advance_instance) refl)

-- The paxos object that a node has behind `enter_instance`, under itself and under another master.
begin_under_self :
    (uid : ℕ) (base : ReplicatedValue)
    → (uid == base.network_uid) ≡ true
    → let paxos = (begin_under uid base).paxos in
      (paxos.proposer.proposal_id ≡ next_id base.paxos.proposer)
      × (paxos.proposer.proposed_value ≡ base.paxos.proposer.proposed_value)
      × (paxos.acceptor ≡ base.paxos.acceptor)
unfolding begin_under Node.prepare_base
begin_under_self uid base self =
    rw (self, begin_under)
      (take_promises-fields base.network_uid (master_pid uid) base.peers
        (Node.prepare_base base).paxos)

pub enter_instance-leads :
    (n m : ℕ) (v : Option Text) (a : Master)
    → a.master_uid ≡ some m
    → (m == 0) ≡ false
    → a.node.base.network_uid ≡ m
    → let paxos = (enter_instance n v a).node.base.paxos in
      (paxos.proposer.proposal_id ≡ master_pid m)
      × (paxos.proposer.proposed_value ≡ none)
      × (paxos.acceptor.promised_id ≡ none)
unfolding enter_instance take_master Node.advance_instance Node.stop_driving
    ReplicatedValue.advance_instance ReplicatedValue.save_state
enter_instance-leads n m v a lease set self =
    let node = Node.advance_instance n v a.node in
    let (i, p, acc) = begin_under_self m node.base (ground arith) in
    rw (lease, enter_instance, set, take_master)
      (i ∙ ap master_pid self, p, ap (λ a. a.promised_id) acc)

pub enter_instance-follows :
    (n m : ℕ) (v : Option Text) (a : Master)
    → a.master_uid ≡ some m
    → (m == 0) ≡ false
    → (m == a.node.base.network_uid) ≡ false
    → (enter_instance n v a).node.base.paxos.acceptor.promised_id ≡ some (master_pid m)
unfolding enter_instance take_master begin_under Node.advance_instance Node.stop_driving
    ReplicatedValue.advance_instance ReplicatedValue.save_state Node.prepare_base
    Instance.receive_prepare Acceptor.receive_prepare before_opt
enter_instance-follows n m v a lease set other =
    rw (lease, enter_instance, set, take_master, other, begin_under) refl
