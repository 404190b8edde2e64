-- ===== src/Paxos/Master/SingleRound.antt =====
-- Resolution in a single round trip, which paxos/master_strategy.py is for.
use krafters.Prelude.{
  ==_iff, ◌≢◌, ℕ, ◌≡◌, refl, ap, ◌∙◌, sym, false, true, ◌++◌, Option, none, some, ◌==◌, arith, inl,
  inr, Bool-cases,
}
use mathlib.Core.Path.{subst}
use krafters.Text.{Text}
use krafters.Paxos.Messages.{before_opt}
use krafters.Paxos.Proposer.{propose_value}
use krafters.Paxos.Acceptor
use krafters.Paxos.Instance
use krafters.Paxos.ReplicatedValue
use krafters.Paxos.ReplicatedValue.{ReplicatedValue, send_accept_to, send_accepted_to}
use krafters.Paxos.Node
use krafters.Paxos.Master.{
  Master, Entry, master_pid, enter_instance, propose_base, drive_to_resolution, drive_as_master,
  leak_accept, send_leaked, has_lease,
}
use krafters.Paxos.Master.Leases.{advance_instance, propose_update}
use krafters.Paxos.Master.Events.{receive_accept, is_dropped}
use krafters.Paxos.Master.Entered.{
  advance_instance-enters, enter_instance-chain, enter_instance-leads, enter_instance-follows,
}

never : (m : ℕ) → before_opt (some (master_pid m)) none ≡ false
unfolding before_opt
never m = refl

own : (m : ℕ) → before_opt (some (master_pid m)) (some (master_pid m)) ≡ false
unfolding before_opt
own m = ground arith

pub has_lease-own : (a : Master) → a.master_uid ≡ some a.node.base.network_uid → has_lease a ≡ true
has_lease-own a lease = rw lease (ground arith)

drive-sends :
    (a : Master) (value : Text)
    → a.master_uid ≡ some a.node.base.network_uid
    → a.node.base.paxos.proposer.proposal_id.number ≡ 1
    → a.node.base.paxos.proposer.proposed_value ≡ some value
    → (drive_to_resolution a).node.base.sent
      ≡ a.node.base.sent
        ++ send_accept_to a.node.base.peers a.node.base.saved.instance_number
            a.node.base.paxos.proposer.proposal_id value
unfolding drive_to_resolution drive_as_master leak_accept send_leaked Node.stop_driving
    Node.resend_now
drive-sends a value lease first proposed =
    let own = has_lease-own a lease in
    let one : (a.node.base.paxos.proposer.proposal_id.number == 1) ≡ true = ground arith in
    rw
      (
        own, drive_to_resolution, one, drive_as_master, proposed, leak_accept, send_leaked,
        has_lease,
      )
      refl

pub proposes :
    (value : Text) (base : ReplicatedValue)
    → base.paxos.proposer.proposed_value ≡ none
    → ReplicatedValue.propose_update value base ≡ record base {
      paxos = record base.paxos {
        proposer = record base.paxos.proposer { proposed_value = some value };
      };
    }
unfolding ReplicatedValue.propose_update propose_value
proposes value base fresh = ground arith

receive_accept-answers :
    (m : ℕ) (value : Text) (b : Master)
    → b.master_uid ≡ some m
    → before_opt (some (master_pid m)) b.node.base.paxos.acceptor.promised_id ≡ false
    → (receive_accept m b.node.base.saved.instance_number (master_pid m) value b).node.base.sent
      ≡ b.node.base.sent
        ++ send_accepted_to b.node.base.peers b.node.base.saved.instance_number (master_pid m) value
unfolding receive_accept is_dropped Node.receive_accept Node.reschedule_next_drive_attempt
    ReplicatedValue.receive_accept Instance.receive_accept Acceptor.receive_accept
    ReplicatedValue.answer_accept ReplicatedValue.save_state
receive_accept-answers m value b lease ok =
    let heard : is_dropped m b ≡ false = rw lease (ground arith) in
    let now : (b.node.base.saved.instance_number == b.node.base.saved.instance_number) ≡ true =
      ground arith in
    rw
      (
        heard, receive_accept, now, Node.receive_accept, ReplicatedValue.receive_accept, ok,
        Instance.receive_accept, Acceptor.receive_accept, ReplicatedValue.answer_accept,
      )
      refl

module _ (dumps : Entry → Text) (loads : Text → Option Entry) where
  -- The master that has no proposal and is at its first id.
  propose_update-sends :
      (value : Text) (a : Master)
      → a.master_uid ≡ some a.node.base.network_uid
      → a.node.base.paxos.proposer.proposal_id.number ≡ 1
      → a.node.base.paxos.proposer.proposed_value ≡ none
      → (propose_update dumps loads value a).node.base.sent
        ≡ a.node.base.sent
          ++ send_accept_to a.node.base.peers a.node.base.saved.instance_number
              a.node.base.paxos.proposer.proposal_id
              (dumps (none, some value))
  unfolding propose_update propose_base
  propose_update-sends value a lease first fresh =
      let text = dumps (none, some value) in
      rw (has_lease-own a lease, propose_update, proposes text a.node.base fresh, propose_base)
        (drive-sends
          (record a {
            node = record a.node {
              base = record a.node.base {
                paxos = record a.node.base.paxos {
                  proposer = record a.node.base.paxos.proposer { proposed_value = some text };
                };
              };
            };
          })
          text lease first refl)

  -- The master of an instance that begins, and any node that knows it.
  master-sends :
      (n m : ℕ) (v : Option Text) (value : Text) (c : Master)
      → let a = enter_instance n v c in
        a.master_uid ≡ some m
        → a.node.base.network_uid ≡ m
        → (m == 0) ≡ false
        → (propose_update dumps loads value a).node.base.sent
          ≡ a.node.base.sent
            ++ send_accept_to a.node.base.peers n (master_pid m) (dumps (none, some value))
  master-sends n m v value c lease self set =
      let a = enter_instance n v c in
      let (number, current, uid, master) = enter_instance-chain n v c in
      let (id, fresh, promised) =
        enter_instance-leads n m v c (sym master ∙ lease) set (sym uid ∙ self) in
      propose_update-sends value a (lease ∙ ap some (sym self)) (ap (λ i. i.number) id) fresh
      ∙ rw (number, id) refl

  node-answers :
      (n m : ℕ) (v : Option Text) (text : Text) (c : Master)
      → let b = enter_instance n v c in
        b.master_uid ≡ some m
        → (m == 0) ≡ false
        → (receive_accept m n (master_pid m) text b).node.base.sent
          ≡ b.node.base.sent ++ send_accepted_to b.node.base.peers n (master_pid m) text
  node-answers n m v text c lease set =
      let b = enter_instance n v c in
      let (number, current, uid, master) = enter_instance-chain n v c in
      let free : before_opt (some (master_pid m)) b.node.base.paxos.acceptor.promised_id ≡ false =
        elim (Bool-cases (m == c.node.base.network_uid)) [
          | inl e ↦
              rw
                ((enter_instance-leads n m v c (sym master ∙ lease) set (sym ((==_iff m _).0 e))).2)
                (never m)
          | inr e ↦ rw (enter_instance-follows n m v c (sym master ∙ lease) set e) (own m)
        ] in
      subst
        (λ k.
          (receive_accept m k (master_pid m) text b).node.base.sent
          ≡ b.node.base.sent ++ send_accepted_to b.node.base.peers k (master_pid m) text)
        number (receive_accept-answers m text b lease free)

  -- Under a lease a value needs one round trip. Let two nodes advance to the instance `n` by the same
  -- text, which json.loads can read, and both know the master `m` afterwards, whose id is not 0 and which
  -- the first node is. Then a client's value at the master is at once sent to every peer in an Accept
  -- message of the instance with the id (1, m), with no Prepare message before it, and if that message
  -- reaches the second node (which may be the master itself), it accepts the value and tells every peer.
  pub propose_update_single_round :
      (now now' n m : ℕ) (text value : Text) (e : Entry) (a b : Master)
      → loads text ≡ some e
      → let a' = advance_instance dumps loads now n text a in
        let b' = advance_instance dumps loads now' n text b in
        a'.master_uid ≡ some m
        → a'.node.base.network_uid ≡ m
        → b'.master_uid ≡ some m
        → m ≢ 0
        → let sent = dumps (none, some value) in
          ((propose_update dumps loads value a').node.base.sent
            ≡ a'.node.base.sent ++ send_accept_to a'.node.base.peers n (master_pid m) sent)
          × ((receive_accept m n (master_pid m) sent b').node.base.sent
              ≡ b'.node.base.sent ++ send_accepted_to b'.node.base.peers n (master_pid m) sent)
  propose_update_single_round now now' n m text value e a b read lease self lease' set =
      let zero : (m == 0) ≡ false = ground arith in
      let (c, v, p) = advance_instance-enters dumps loads now n text e a read in
      let (d, w, q) = advance_instance-enters dumps loads now' n text e b read in
      (
        rw p (master-sends n m v value c (rw (sym p) lease) (rw (sym p) self) zero),
        rw q (node-answers n m w (dumps (none, some value)) d (rw (sym q) lease') zero),
      )
