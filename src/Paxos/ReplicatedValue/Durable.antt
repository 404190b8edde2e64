-- ===== src/Paxos/ReplicatedValue/Durable.antt =====
-- What the state file holds of the acceptor's promises and proposals.
use krafters.Prelude.{
  ℕ, ◌≡◌, refl, sym, ap, ◌∙◌, true, false, some, List, [], ◌∷◌, ◌++◌, ◌==◌, arith,
}
use krafters.Text.{Text}
use krafters.Paxos.Messages.{ProposalId, before_opt}
use krafters.Paxos.Acceptor
use krafters.Paxos.Instance
use krafters.Paxos.ReplicatedValue.{
  Saved, ReplicatedValue, receive_prepare, answer_prepare, receive_accept, answer_accept,
  save_state, start, send_nack, send_promise,
}

-- Promises reach the file. For a Prepare message of the current instance with an id that is not below
-- the acceptor's promise, once receive_prepare has ended the file holds what the acceptor holds: its
-- new promise, and the id and the value of its last proposal.
pub receive_prepare-state_file :
    (from_uid : ℕ) (id : ProposalId) (r : ReplicatedValue)
    → before_opt (some id) r.paxos.acceptor.promised_id ≡ false
    → let next = receive_prepare from_uid r.saved.instance_number id r in
      (next.state_file.promised_id ≡ next.paxos.acceptor.promised_id)
      × (next.state_file.accepted_id ≡ next.paxos.acceptor.accepted_id)
      × (next.state_file.accepted_value ≡ next.paxos.acceptor.accepted_value)
unfolding receive_prepare Instance.receive_prepare Acceptor.receive_prepare answer_prepare
    save_state
receive_prepare-state_file from_uid id r h =
    let now : (r.saved.instance_number == r.saved.instance_number) ≡ true = ground arith in
    rw (now, h, receive_prepare, Instance.receive_prepare, Acceptor.receive_prepare, answer_prepare)
      (refl, refl, refl)

receive_prepare-Nack :
    (from_uid number : ℕ) (id : ProposalId) (r : ReplicatedValue)
    → number ≡ r.saved.instance_number
    → before_opt (some id) r.paxos.acceptor.promised_id ≡ true
    → let next = receive_prepare from_uid number id r in
      (next.sent ≡ r.sent ++ send_nack from_uid number id r.saved.promised_id ∷ [])
      × (next.paxos.acceptor.promised_id ≡ r.paxos.acceptor.promised_id)
unfolding receive_prepare Instance.receive_prepare Acceptor.receive_prepare answer_prepare
receive_prepare-Nack from_uid number id r same h =
    let now : (number == r.saved.instance_number) ≡ true = ground arith in
    rw (now, h, receive_prepare, Instance.receive_prepare, Acceptor.receive_prepare, answer_prepare)
      (ap (λ k. r.sent ++ send_nack from_uid k id r.saved.promised_id ∷ []) (sym same), refl)

receive_prepare-Promise :
    (from_uid number : ℕ) (id : ProposalId) (r : ReplicatedValue)
    → number ≡ r.saved.instance_number
    → before_opt (some id) r.paxos.acceptor.promised_id ≡ false
    → let next = receive_prepare from_uid number id r in
      let acceptor = r.paxos.acceptor in
      (next.sent
        ≡ r.sent
          ++ send_promise from_uid number id acceptor.accepted_id acceptor.accepted_value ∷ [])
      × (next.paxos.acceptor.promised_id ≡ some id)
unfolding receive_prepare Instance.receive_prepare Acceptor.receive_prepare answer_prepare
    save_state
receive_prepare-Promise from_uid number id r same h =
    let now : (number == r.saved.instance_number) ≡ true = ground arith in
    let acceptor = r.paxos.acceptor in
    rw (now, h, receive_prepare, Instance.receive_prepare, Acceptor.receive_prepare, answer_prepare)
      (
        ap
            (λ k.
              r.sent
              ++ send_promise from_uid k id acceptor.accepted_id acceptor.accepted_value ∷ [])
            (sym same),
        refl,
      )

-- The file and the acceptor behind an Accept message that is accepted.
receive_accept_fields :
    (from_uid : ℕ) (id : ProposalId) (value : Text) (r : ReplicatedValue)
    → before_opt (some id) r.paxos.acceptor.promised_id ≡ false
    → let next = receive_accept from_uid r.saved.instance_number id value r in
      let written = record r.saved { accepted_id = some id; accepted_value = some value } in
      (next.state_file ≡ written)
      × (next.saved ≡ written)
      × (next.paxos.acceptor.promised_id ≡ some id)
unfolding receive_accept Instance.receive_accept Acceptor.receive_accept answer_accept save_state
receive_accept_fields from_uid id value r h =
    let now : (r.saved.instance_number == r.saved.instance_number) ≡ true = ground arith in
    rw (now, h, receive_accept, Instance.receive_accept, Acceptor.receive_accept, answer_accept)
      (refl, refl, refl)

-- A node that starts again from a file.
restart-Promise :
    (preparer : ℕ) (lower : ProposalId) (network_uid : ℕ) (peers : List ℕ) (file : Saved)
    → before_opt (some lower) file.promised_id ≡ false
    → let next =
        receive_prepare preparer file.instance_number lower (start network_uid peers (some file)) in
      (next.sent
        ≡ send_promise preparer file.instance_number lower file.accepted_id file.accepted_value
          ∷ [])
      × (next.paxos.acceptor.promised_id ≡ some lower)
unfolding start Instance.paxos_instance
restart-Promise preparer lower network_uid peers file h =
    receive_prepare-Promise preparer file.instance_number lower
      (start network_uid peers (some file)) refl h

-- A node that has accepted a proposal forgets its promise when it restarts. Let the node have accepted
-- the proposal `id` in its instance, by an Accept message whose id is not below the acceptor's promise,
-- and let `lower` be below `id` and not below the promise that was saved before. Then for a Prepare
-- message with the id `lower` the running node sends a Nack and keeps its promise of `id`, while the
-- node that restarts from its file sends a Promise, which reports the proposal, and promises `lower`.
pub receive_accept-state_file :
    (from_uid preparer : ℕ) (id lower : ProposalId) (value : Text) (r : ReplicatedValue)
    → before_opt (some id) r.paxos.acceptor.promised_id ≡ false
    → before_opt (some lower) r.saved.promised_id ≡ false
    → before_opt (some lower) (some id) ≡ true
    → let number = r.saved.instance_number in
      let next = receive_accept from_uid number id value r in
      let asked = receive_prepare preparer number lower next in
      let restarted =
        receive_prepare preparer number lower
          (start r.network_uid r.peers (some next.state_file)) in
      (asked.sent ≡ next.sent ++ send_nack preparer number lower r.saved.promised_id ∷ [])
      × (asked.paxos.acceptor.promised_id ≡ some id)
      × (restarted.sent ≡ send_promise preparer number lower (some id) (some value) ∷ [])
      × (restarted.paxos.acceptor.promised_id ≡ some lower)
receive_accept-state_file from_uid preparer id lower value r h low lt =
    let number = r.saved.instance_number in
    let next = receive_accept from_uid number id value r in
    let (file, fields, raised) = receive_accept_fields from_uid id value r h in
    let (nacked, kept) =
      receive_prepare-Nack preparer number lower next (ap (λ s. s.instance_number) (sym fields))
        (ap (before_opt (some lower)) raised ∙ lt) in
    let again =
      restart-Promise preparer lower r.network_uid r.peers
        (record r.saved { accepted_id = some id; accepted_value = some value }) low in
    (
      nacked ∙ ap (λ s. next.sent ++ send_nack preparer number lower s.promised_id ∷ []) fields,
      kept ∙ raised,
      (rw file again.0),
      (rw file again.1),
    )
