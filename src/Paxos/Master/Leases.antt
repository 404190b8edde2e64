-- ===== src/Paxos/Master/Leases.antt =====
-- The methods of paxos/master_strategy.py that read or write values of the chain. The JSON text is a
-- parameter: `dumps` writes a pair of a master and an application value, `loads` reads one, or raises.
use krafters.Prelude.{
  ℕ, ◌+◌, ◌-◌, true, false, not, ◌&&◌, ◌∷◌, Option, none, some, ltb, if◌then◌else◌,
}
use krafters.Text.{Text}
use krafters.Paxos.Master.{
  Master, Entry, may_lead, has_lease, is_uid, lease_window, start_master_lease_timer, propose_base,
  enter_instance,
}

module _ (dumps : Entry → Text) (loads : Text → Option Entry) where
  -- propose_update(new_value), the request of a client
  unfoldable pub propose_update : Text → Master → Master
  unfolding propose_base
  propose_update new_value self =
      if has_lease self then propose_base (dumps (none, some new_value)) self else self

  -- propose_update(self.network_uid, False)
  unfoldable pub propose_lease : ℕ → Master → Master
  unfolding propose_base start_master_lease_timer
  propose_lease now self =
      if may_lead self.master_uid self.node.base.network_uid && not self.master_attempt
      then propose_base (dumps (some self.node.base.network_uid, none))
          (start_master_lease_timer now (record self { master_attempt = true }))
      else self

  -- renew_delay > 0, where it is (lease_start + lease_window - 1 s) - now
  unfoldable pub renew : ℕ → Master → Master
  unfolding propose_lease
  renew now self =
      let due = self.lease_start + lease_window - 1000 in
      if ltb now due
      then record self { renewals = (due - now) ∷ self.renewals }
      else propose_lease now self

  unfoldable pub update_lease : ℕ → Option ℕ → Master → Master
  unfolding start_master_lease_timer renew
  update_lease now master_uid self =
      let self' = record self { master_uid = master_uid } in
      if is_uid master_uid self.node.base.network_uid
      then renew now self'
      else start_master_lease_timer now self'

  unfoldable pub lease_expired : ℕ → Master → Master
  unfolding propose_lease
  lease_expired now self =
      propose_lease now (record self { master_uid = none; lease_expiry = false })

  -- advance_instance by the value that json.loads gives; where it raises, only the attempt is over.
  unfoldable pub advance_by : ℕ → ℕ → Option Entry → Master → Master
  unfolding update_lease enter_instance
  advance_by now new_instance_number none self = self
  advance_by now new_instance_number (some (some uid, value)) self =
      let self' = update_lease now (some uid) self in
      enter_instance new_instance_number self'.node.base.saved.current_value self'
  advance_by now new_instance_number (some (none, value)) self =
      enter_instance new_instance_number value self

  unfoldable pub advance_instance : ℕ → ℕ → Text → Master → Master
  unfolding advance_by
  advance_instance now new_instance_number new_current_value self =
      advance_by now new_instance_number (loads new_current_value)
        (record self { master_attempt = false })
