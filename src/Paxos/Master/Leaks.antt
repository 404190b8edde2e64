-- ===== src/Paxos/Master/Leaks.antt =====
-- The looping calls that drive_to_resolution of paxos/master_strategy.py loses.
use krafters.Prelude.{
  ℕ, ◌≡◌, refl, ap, ◌∙◌, true, inl, inr, ◌++◌, ◌∷◌, Option, none, some, ◌==◌, arith, Bool-cases,
  get_elem?,
}
use mathlib.Core.Path.{subst}
use krafters.Text.{Text}
use krafters.Paxos.Messages.{ProposalId}
use krafters.Paxos.ReplicatedValue.{send_accept_to}
use krafters.Paxos.Node
use krafters.Paxos.Master.{
  Master, Entry, Leaked, enter_instance, take_master, propose_base, drive_to_resolution,
  drive_as_master, leak_accept, send_leaked,
}
use krafters.Paxos.Master.Leases.{propose_update}
use krafters.Paxos.Master.Events.{fire_leaked}
use krafters.Paxos.Master.Entered.{enter_instance-chain}
use krafters.Paxos.Master.SingleRound.{proposes, has_lease-own}

take_master-leaked : (master : Option ℕ) (a : Master) → (take_master master a).leaked ≡ a.leaked
unfolding take_master
take_master-leaked none a = refl
take_master-leaked (some uid) a = elim (Bool-cases (uid == 0)) [
  | inl e ↦ rw (e, take_master) refl
  | inr e ↦ rw (e, take_master) refl
]

enter_instance-leaked :
    (n : ℕ) (v : Option Text) (a : Master) → (enter_instance n v a).leaked ≡ a.leaked
unfolding enter_instance
enter_instance-leaked n v a =
    take_master-leaked a.master_uid (record a { node = Node.advance_instance n v a.node })

abbrev call_of : ProposalId → Option Text → Leaked
call_of id value = record { proposal_id = id; proposal_value = value }

drive-leaks :
    (a : Master) (value : Text)
    → a.master_uid ≡ some a.node.base.network_uid
    → a.node.base.paxos.proposer.proposal_id.number ≡ 1
    → a.node.base.paxos.proposer.proposed_value ≡ some value
    → (drive_to_resolution a).leaked
      ≡ record { proposal_id = a.node.base.paxos.proposer.proposal_id; proposal_value = some value }
        ∷ a.leaked
unfolding drive_to_resolution drive_as_master leak_accept send_leaked Node.stop_driving
    Node.resend_now
drive-leaks a value lease first proposed =
    let own = has_lease-own a lease in
    let one : (a.node.base.paxos.proposer.proposal_id.number == 1) ≡ true = ground arith in
    rw (own, drive_to_resolution, one, drive_as_master, proposed, leak_accept, send_leaked)
      (ap (λ v. call_of a.node.base.paxos.proposer.proposal_id v ∷ a.leaked) proposed)

fire_leaked-sends :
    (call : Leaked) (value : Text) (a : Master)
    → call.proposal_value ≡ some value
    → get_elem? a.leaked 0 ≡ some call
    → (fire_leaked 0 a).node.base.sent
      ≡ a.node.base.sent
        ++ send_accept_to a.node.base.peers a.node.base.saved.instance_number call.proposal_id value
unfolding fire_leaked send_leaked Node.resend_now
fire_leaked-sends call value a has first = rw (first, fire_leaked, has, send_leaked) refl

module _ (dumps : Entry → Text) (loads : Text → Option Entry) where
  proposes-leaks :
      (value : Text) (a : Master)
      → a.master_uid ≡ some a.node.base.network_uid
      → a.node.base.paxos.proposer.proposal_id.number ≡ 1
      → a.node.base.paxos.proposer.proposed_value ≡ none
      → (propose_update dumps loads value a).leaked
        ≡ record {
          proposal_id = a.node.base.paxos.proposer.proposal_id;
          proposal_value = some (dumps (none, some value));
        }
          ∷ a.leaked
  unfolding propose_update propose_base
  proposes-leaks value a lease first fresh =
      let text = dumps (none, some value) in
      rw (has_lease-own a lease, propose_update, proposes text a.node.base fresh, propose_base)
        (drive-leaks
          (record a {
            node = record a.node {
              base = record a.node.base {
                paxos = record a.node.base.paxos {
                  proposer = record a.node.base.paxos.proposer { proposed_value = some text };
                };
              };
            };
          })
          text lease first refl)

  -- The looping call of an Accept message outlives its instance. Let the master have no proposal in its
  -- instance and be at its first id there. If it proposes a client's value and then enters any
  -- instance, with any value, the next call of the looping call that the proposal started sends the old
  -- value to every peer in an Accept message of the new instance, with the old id.
  pub fire_leaked_resends :
      (value : Text) (n : ℕ) (v : Option Text) (a : Master)
      → a.master_uid ≡ some a.node.base.network_uid
      → a.node.base.paxos.proposer.proposal_id.number ≡ 1
      → a.node.base.paxos.proposer.proposed_value ≡ none
      → let c = enter_instance n v (propose_update dumps loads value a) in
        (fire_leaked 0 c).node.base.sent
        ≡ c.node.base.sent
          ++ send_accept_to c.node.base.peers n a.node.base.paxos.proposer.proposal_id
              (dumps (none, some value))
  fire_leaked_resends value n v a lease first fresh =
      let b = propose_update dumps loads value a in
      let c = enter_instance n v b in
      let call : Leaked = record {
        proposal_id = a.node.base.paxos.proposer.proposal_id;
        proposal_value = some (dumps (none, some value));
      } in
      let leaked = enter_instance-leaked n v b ∙ proposes-leaks value a lease first fresh in
      subst
        (λ k.
          (fire_leaked 0 c).node.base.sent
          ≡ c.node.base.sent
            ++ send_accept_to c.node.base.peers k call.proposal_id (dumps (none, some value)))
        (enter_instance-chain n v b).0
        (fire_leaked-sends call (dumps (none, some value)) c refl (ap (λ l. get_elem? l 0) leaked))
