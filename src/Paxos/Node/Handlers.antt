-- ===== src/Paxos/Node/Handlers.antt =====
-- What each handler of a node does to its multi-paxos chain.
use krafters.Paxos.Proposer.{next_id}
use krafters.Prelude.{
  ◌<◌, ℕ, suc, ◌+◌, ◌≤◌, ◌≡◌, refl, ap, inl, inr, [], ◌∷◌, Option, some, Bool-cases, Option-cases,
  ◌==◌, ltb, arith, length, length-append,
}
use krafters.Text.{Text}
use krafters.Paxos.Messages.{ProposalId, promise, accept, accepted, resolution, Reply, returns}
use krafters.Paxos.Instance
use krafters.Paxos.ReplicatedValue
use krafters.Paxos.ReplicatedValue.{
  ReplicatedValue, Saved, Packet, send_nack, send_prepare, send_promise, send_accept, send_accepted,
  send_sync_request, send_catchup,
}
use krafters.Paxos.Node
use krafters.Paxos.Node.{Node}
use krafters.Paxos.Messenger.{handle}

abbrev pub number : ReplicatedValue → ℕ
number r = r.saved.instance_number

-- From `a` to `b` the instance number has not fallen, each new value that the callback got has a
-- number of its own, and the file holds the object's fields if it did.
pub record Later (a b : ReplicatedValue) : Type 0 where
  pub grows : number a ≤ number b
  pub counted : length b.updates + number a ≤ number b + length a.updates
  pub on_disk : a.state_file ≡ a.saved → b.state_file ≡ b.saved

pub Later-refl : (a : ReplicatedValue) → Later a a
Later-refl a = record { grows = omega arith; counted = omega arith; on_disk = λ h. h }

pub Later-trans : (a b c : ReplicatedValue) → Later a b → Later b c → Later a c
Later-trans a b c h g = record {
  grows = omega arith;
  counted = omega arith;
  on_disk = λ e. g.on_disk (h.on_disk e);
}

if_current-Later :
    (n : ℕ) (a b : Node) → Later a.base b.base → Later a.base (Node.if_current n a b).base
if_current-Later n a b h = elim (Bool-cases (n == a.base.saved.instance_number)) [
  | inl e ↦ rw e h
  | inr e ↦ rw e (Later-refl a.base)
]

base_if_current-Later :
    (n : ℕ) (a b : ReplicatedValue) → Later a b → Later a (ReplicatedValue.if_current n a b)
base_if_current-Later n a b h = elim (Bool-cases (n == a.saved.instance_number)) [
  | inl e ↦ rw e h
  | inr e ↦ rw e (Later-refl a)
]

-- A step that keeps the number and the updates.
pub kept :
    (a b : ReplicatedValue)
    → number a ≡ number b
    → b.updates ≡ a.updates
    → (a.state_file ≡ a.saved → b.state_file ≡ b.saved)
    → Later a b
kept a b n u disk = record {
  grows = omega arith;
  counted = (let l = ap length u in omega arith);
  on_disk = disk;
}

answer_prepare-Later :
    (from : ℕ) (id : ProposalId) (reply : Reply) (a : ReplicatedValue)
    → Later a (ReplicatedValue.answer_prepare from id reply a)
unfolding ReplicatedValue.answer_prepare
answer_prepare-Later from id (returns (promise m)) a = kept _ _ refl refl (λ h. refl)
answer_prepare-Later from id reply a = kept _ _ refl refl (λ h. h)

answer_accept-Later :
    (from : ℕ) (id : ProposalId) (value : Text) (reply : Reply) (a : ReplicatedValue)
    → Later a (ReplicatedValue.answer_accept from id value reply a)
unfolding ReplicatedValue.answer_accept
answer_accept-Later from id value (returns (accepted m)) a = kept _ _ refl refl (λ h. refl)
answer_accept-Later from id value reply a = kept _ _ refl refl (λ h. h)

receive_prepare-Later :
    (from n : ℕ) (id : ProposalId) (a : ReplicatedValue)
    → Later a (ReplicatedValue.receive_prepare from n id a)
unfolding ReplicatedValue.receive_prepare
receive_prepare-Later from n id a =
    let next = Instance.receive_prepare (record { from_uid = from; proposal_id = id }) a.paxos in
    let a' = Node.with_paxos next.1 a in
    base_if_current-Later n a (ReplicatedValue.answer_prepare from id next.0 a')
      (Later-trans a a' _ (kept a a' refl refl (λ h. h)) (answer_prepare-Later from id next.0 a'))

receive_accept-Later :
    (from n : ℕ) (id : ProposalId) (value : Text) (a : ReplicatedValue)
    → Later a (ReplicatedValue.receive_accept from n id value a)
unfolding ReplicatedValue.receive_accept
receive_accept-Later from n id value a =
    let next =
      Instance.receive_accept (record { from_uid = from; proposal_id = id; proposal_value = value })
        a.paxos in
    let a' = Node.with_paxos next.1 a in
    base_if_current-Later n a (ReplicatedValue.answer_accept from id value next.0 a') (
      Later-trans a a' _ (kept a a' refl refl (λ h. h))
        (answer_accept-Later from id value next.0 a'))

receive_nack-Later :
    (from n : ℕ) (id : ProposalId) (promised : Option ProposalId) (a : ReplicatedValue)
    → Later a (ReplicatedValue.receive_nack from n id promised a)
unfolding ReplicatedValue.receive_nack
receive_nack-Later from n id promised a = base_if_current-Later n a _ (kept _ _ refl refl (λ h. h))

pub resend_now-Later : (r : Node.Resend) (a : ReplicatedValue) → Later a (Node.resend_now r a)
unfolding Node.resend_now
resend_now-Later (Node.prepares id) a = kept _ _ refl refl (λ h. h)
resend_now-Later Node.prepares_own a = kept _ _ refl refl (λ h. h)
resend_now-Later (Node.accepts id value) a = kept _ _ refl refl (λ h. h)

pub drive_to_resolution-Later : (n : Node) → Later n.base (Node.drive_to_resolution n).base
unfolding Node.drive_to_resolution Node.start_task Node.prepare_base
drive_to_resolution-Later n =
    Later-trans n.base (Node.prepare_base n.base) _ (kept _ _ refl refl (λ h. h))
      (resend_now-Later (Node.prepares (next_id n.base.paxos.proposer)) (Node.prepare_base n.base))

base_propose-Later :
    (value : Text) (a : ReplicatedValue) → Later a (ReplicatedValue.propose_update value a)
unfolding ReplicatedValue.propose_update
base_propose-Later value a = elim (Option-cases a.paxos.proposer.proposed_value) [
  | inl e ↦ rw (e, ReplicatedValue.propose_update) (kept _ _ refl refl (λ h. h))
  | inr (v, e) ↦ rw (e, ReplicatedValue.propose_update) (kept _ _ refl refl (λ h. h))
]

pub propose_update-Later :
    (value : Text) (n : Node) → Later n.base (Node.propose_update value n).base
unfolding Node.propose_update
propose_update-Later value n =
    let n' = record n { base = ReplicatedValue.propose_update value n.base } in
    Later-trans n.base n'.base _ (base_propose-Later value n.base) (drive_to_resolution-Later n')

advance_instance-Later :
    (k : ℕ) (value : Option Text) (n : Node)
    → number n.base < k
    → Later n.base (Node.advance_instance k value n).base
unfolding Node.advance_instance ReplicatedValue.advance_instance
advance_instance-Later k value n h = record {
  grows = omega arith;
  counted = omega (arith, length-append n.base.updates (value ∷ []));
  on_disk = λ e. refl;
}

answer_promise-Later : (reply : Reply) (n : Node) → Later n.base (Node.answer_promise reply n).base
unfolding Node.answer_promise Node.send_accept Node.start_task
answer_promise-Later (returns (accept m)) n =
    resend_now-Later (Node.accepts m.proposal_id m.proposal_value) n.base
answer_promise-Later reply n = Later-refl n.base

answer_accepted-Later :
    (value : Text) (reply : Reply) (n : Node)
    → Later n.base (Node.answer_accepted value reply n).base
unfolding Node.answer_accepted
answer_accepted-Later value (returns (resolution m)) n =
    advance_instance-Later (suc (number n.base)) (some value) n (omega arith)
answer_accepted-Later value reply n = Later-refl n.base

pub handle-Later :
    (from : ℕ) (packet : Packet) (n : Node) → Later n.base (handle from packet n).base
unfolding handle Node.receive_prepare Node.receive_accept Node.receive_nack Node.receive_promise
    Node.receive_accepted Node.receive_sync_request Node.receive_catchup
handle-Later from (send_nack _ k id promised) n =
    if_current-Later k n _ (receive_nack-Later from k id promised n.base)
handle-Later from (send_prepare _ k id) n = receive_prepare-Later from k id n.base
handle-Later from (send_promise _ k id last value) n =
    let next =
      Instance.receive
        (promise (record {
          from_uid = from;
          proposer_uid = n.base.network_uid;
          proposal_id = id;
          last_accepted_id = last;
          last_accepted_value = value;
        }))
        n.base.paxos in
    let n' = record n { base = Node.with_paxos next.1 n.base } in
    if_current-Later k n (Node.answer_promise next.0 n')
      (Later-trans n.base n'.base _ (kept _ _ refl refl (λ h. h)) (answer_promise-Later next.0 n'))
handle-Later from (send_accept _ k id value) n =
    if_current-Later k n _ (receive_accept-Later from k id value n.base)
handle-Later from (send_accepted _ k id value) n =
    let next =
      Instance.receive
        (accepted (record { from_uid = from; proposal_id = id; proposal_value = value }))
        n.base.paxos in
    let n' = record n { base = Node.with_paxos next.1 n.base } in
    if_current-Later k n (Node.answer_accepted value next.0 n') (
      Later-trans n.base n'.base _ (kept _ _ refl refl (λ h. h))
        (answer_accepted-Later value next.0 n'))
handle-Later from (send_sync_request _ k) n = elim (Bool-cases (ltb k (number n.base))) [
  | inl e ↦ rw (e, Node.receive_sync_request) (kept _ _ refl refl (λ h. h))
  | inr e ↦ rw (e, Node.receive_sync_request) (Later-refl n.base)
]
handle-Later from (send_catchup _ k value) n = elim (Bool-cases (ltb (number n.base) k)) [
  | inl e ↦ rw (e, Node.receive_catchup) (advance_instance-Later k value n (ground arith))
  | inr e ↦ rw (e, Node.receive_catchup) (Later-refl n.base)
]
