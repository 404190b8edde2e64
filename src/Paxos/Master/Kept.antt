-- ===== src/Paxos/Master/Kept.antt =====
-- What the proposals of the master strategy leave alone: the chain, the acceptor and the lease.
use krafters.Prelude.{
  ℕ, ◌≡◌, refl, inl, inr, not, ◌&&◌, ◌==◌, ltb, ◌∷◌, Option, some, Bool-cases, Option-cases, ◌+◌,
  ◌-◌, ◌∙◌, arith, true,
}
use krafters.Text.{Text}
use krafters.Paxos.Proposer.{propose_value}
use krafters.Paxos.ReplicatedValue
use krafters.Paxos.Node
use krafters.Paxos.Master.{
  Master, Entry, Leaked, has_lease, may_lead, is_uid, with_base, drive_to_resolution,
  drive_as_master, leak_accept, send_leaked, propose_base, start_master_lease_timer, lease_window,
}
use krafters.Paxos.Master.Leases.{propose_lease, renew, update_lease}

-- From `a` to `b` the chain, the acceptor and the members are the same.
abbrev pub Same : Master → Master → Type 0
Same a b =
    (b.node.base.saved ≡ a.node.base.saved)
    × (b.node.base.paxos.acceptor ≡ a.node.base.paxos.acceptor)
    × (b.node.base.network_uid ≡ a.node.base.network_uid)
    × (b.node.base.peers ≡ a.node.base.peers)

-- ... and so is the lease.
abbrev pub Kept : Master → Master → Type 0
Kept a b = Same a b × (b.master_uid ≡ a.master_uid)

pub Kept-trans : (a b c : Master) → Kept a b → Kept b c → Kept a c
Kept-trans a b c ((s, t, u, v), w) ((s', t', u', v'), w') =
    ((s' ∙ s, t' ∙ t, u' ∙ u, v' ∙ v), w' ∙ w)

pub send_leaked-Kept : (call : Leaked) (a : Master) → Kept a (send_leaked call a)
unfolding send_leaked Node.resend_now
send_leaked-Kept call a = elim (Option-cases call.proposal_value) [
  | inl e ↦ rw (e, send_leaked) ((refl, refl, refl, refl), refl)
  | inr (v, e) ↦ rw (e, send_leaked) ((refl, refl, refl, refl), refl)
]

propose_update-Kept :
    (value : Text) (a : Master)
    → Kept a (with_base (ReplicatedValue.propose_update value a.node.base) a)
unfolding ReplicatedValue.propose_update propose_value
propose_update-Kept value a = ((ground arith, ground arith, ground arith, ground arith), refl)

leak_accept-Kept : (a : Master) → Kept a (leak_accept a)
unfolding leak_accept
leak_accept-Kept a =
    let call : Leaked = record {
      proposal_id = a.node.base.paxos.proposer.proposal_id;
      proposal_value = a.node.base.paxos.proposer.proposed_value;
    } in
    send_leaked-Kept call (record a { leaked = call ∷ a.leaked })

drive_as_master-Kept : (a : Master) → Kept a (drive_as_master a)
unfolding drive_as_master Node.prepare_base
drive_as_master-Kept a = elim (Bool-cases (a.node.base.paxos.proposer.proposal_id.number == 1)) [
  | inl e ↦ rw (e, drive_as_master) (leak_accept-Kept a)
  | inr e ↦ rw (e, drive_as_master) ((refl, refl, refl, refl), refl)
]

pub drive_to_resolution-Kept : (a : Master) → Kept a (drive_to_resolution a)
unfolding drive_to_resolution Node.stop_driving Node.drive_to_resolution Node.start_task
    Node.prepare_base Node.resend_now
drive_to_resolution-Kept a = elim (Bool-cases (has_lease a)) [
  | inl e ↦
      rw (e, drive_to_resolution)
        (drive_as_master-Kept (record a { node = Node.stop_driving a.node }))
  | inr e ↦ rw (e, drive_to_resolution) ((refl, refl, refl, refl), refl)
]

pub propose_base-Kept : (value : Text) (a : Master) → Kept a (propose_base value a)
unfolding propose_base
propose_base-Kept value a =
    let a' = with_base (ReplicatedValue.propose_update value a.node.base) a in
    Kept-trans a a' (drive_to_resolution a') (propose_update-Kept value a)
      (drive_to_resolution-Kept a')

module _ (dumps : Entry → Text) (loads : Text → Option Entry) where
  pub propose_lease-Kept : (now : ℕ) (a : Master) → Kept a (propose_lease dumps loads now a)
  unfolding propose_lease start_master_lease_timer
  propose_lease-Kept now a =
      elim (Bool-cases (may_lead a.master_uid a.node.base.network_uid && not a.master_attempt)) [
        | inl e ↦
            rw (e, propose_lease)
              (propose_base-Kept (dumps (some a.node.base.network_uid, _))
                (start_master_lease_timer now (record a { master_attempt = true })))
        | inr e ↦ rw (e, propose_lease) ((refl, refl, refl, refl), refl)
      ]

  renew-Kept : (now : ℕ) (a : Master) → Kept a (renew dumps loads now a)
  unfolding renew
  renew-Kept now a = elim (Bool-cases (ltb now (a.lease_start + lease_window - 1000))) [
    | inl e ↦ rw (e, renew) ((refl, refl, refl, refl), refl)
    | inr e ↦ rw (e, renew) (propose_lease-Kept now a)
  ]

  -- update_lease writes the master, and leaves the chain, the acceptor and the members alone.
  pub update_lease-Kept :
      (now : ℕ) (uid : Option ℕ) (a : Master)
      → Kept (record a { master_uid = uid }) (update_lease dumps loads now uid a)
  unfolding update_lease start_master_lease_timer
  update_lease-Kept now uid a = elim (Bool-cases (is_uid uid a.node.base.network_uid)) [
    | inl e ↦ rw (e, update_lease) (renew-Kept now (record a { master_uid = uid }))
    | inr e ↦ rw (e, update_lease) ((refl, refl, refl, refl), refl)
  ]
