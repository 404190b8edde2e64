-- ===== src/Paxos/Network/Proposers.antt =====
-- What a proposer has sent, and what it has heard of the acceptors.
use krafters.Prelude.{
  ℕ, ◌≡◌, refl, inl, inr, true, false, List, [], ◌++◌, Option, none, some, Bool-cases, Option-cases,
  ◌==◌, length,
}
use mathlib.Core.Path.{subst}
use mathlib.Core.Option.{some-injective}
use krafters.Text.{Text}
use krafters.Sets.{contains, add}
use krafters.Paxos.Messages.{Among, ProposalId, before, before_opt, same_id, Nack, Accept, Message}
use krafters.Paxos.Messages.Order.{before_irrefl, before_trans, before_asymm, at_least_trans}
use krafters.Paxos.Proposer.{
  Proposer, next_id, observe_proposal, prepare_next, count_nack, receive_nack,
}
use krafters.Paxos.Instance.Outbids.{next_id-before, below_next}
use krafters.Paxos.Learner.Tallies.{Distinct, no_member}
use krafters.Paxos.Network.{accepts, sent_of}

-- `K id v` says that an Accept message for `id` with `v` has been sent, `Prom w id last` that the node
-- `w` has sent a Promise message for `id` that reports `last`.
module _ (K : ProposalId → Text → Type 0) (Prom : ℕ → ProposalId → Option ProposalId → Type 0)
    (q : ℕ) where
  -- The node `w` has promised `id`, and reported nothing above `high`.
  abbrev pub Promised : ProposalId → Option ProposalId → ℕ → Type 0
  Promised id high w = (last : Option ProposalId) × Prom w id last × (before_opt high last ≡ false)

  abbrev pub AllPromised : ProposalId → Option ProposalId → List ℕ → Type 0
  AllPromised id high us = (w : ℕ) → contains w us ≡ true → Promised id high w

  -- `v` is the value that was sent with the proposal `high`, below `id`, if there is one.
  abbrev pub Inherits : ProposalId → Text → Option ProposalId → Type 0
  Inherits id v high = (h : ProposalId) → high ≡ some h → K h v × (before h id ≡ true)

  -- A quorum has promised `id`, and the value is that of the highest proposal that it reports.
  abbrev pub Quorate : ProposalId → Text → Type 0
  Quorate id v =
      (us : List ℕ) × (high : Option ProposalId) × Distinct us
      × (length us ≡ q)
      × AllPromised id high us
      × Inherits id v high

  -- The proposer of the node `u`, with the Accept messages that it has sent.
  pub record Proposing (u : ℕ) (p : Proposer) (xs : List Accept) : Type 0 where
    pub named : p.network_uid ≡ u
    pub size : p.quorum_size ≡ q
    pub own : p.proposal_id.uid ≡ u
    pub high : before p.highest_proposal_id p.proposal_id ≡ false
    pub low :
        (x : Accept)
        → Among x xs
        → (x.proposal_id.uid ≡ u) × (before p.proposal_id x.proposal_id ≡ false)
    pub current :
        (x : Accept)
        → Among x xs
        → x.proposal_id ≡ p.proposal_id
        → (p.leader ≡ true) × (p.proposed_value ≡ some x.proposal_value)
    pub one :
        (x y : Accept)
        → Among x xs
        → Among y xs
        → x.proposal_id ≡ y.proposal_id
        → x.proposal_value ≡ y.proposal_value
    pub backed : (x : Accept) → Among x xs → Quorate x.proposal_id x.proposal_value
    pub adopted :
        (h : ProposalId)
        → p.highest_accepted_id ≡ some h
        → (v : Text) × (p.proposed_value ≡ some v) × K h v × (before h p.proposal_id ≡ true)
    pub gathered :
        (us : List ℕ)
        → p.promises_received ≡ some us
        → Distinct us × AllPromised p.proposal_id p.highest_accepted_id us
    pub leads : p.leader ≡ true → (us : List ℕ) × (p.promises_received ≡ some us) × (length us ≡ q)

  module _ (u : ℕ) (xs : List Accept) where
    abbrev Now : Proposer → Type 0
    Now p = Proposing u p xs

    pub observe_proposal-Proposing :
        (o : Option ProposalId) (p : Proposer) → Now p → Now (observe_proposal o p)
    unfolding observe_proposal before_opt
    observe_proposal-Proposing none p h = h
    observe_proposal-Proposing (some id) p h = elim (Bool-cases (before p.highest_proposal_id id)) [
      | inr e ↦ rw (e, observe_proposal) h
      | inl e ↦
          rw (e, observe_proposal)
            (record {
              named = h.named;
              size = h.size;
              own = h.own;
              high =
                  at_least_trans id p.highest_proposal_id p.proposal_id
                    (before_asymm p.highest_proposal_id id e) h.high;
              low = h.low;
              current = h.current;
              one = h.one;
              backed = h.backed;
              adopted = h.adopted;
              gathered = h.gathered;
              leads = h.leads;
            })
    ]

    pub prepare_next-Proposing : (p : Proposer) → Now p → Now (prepare_next p).1
    unfolding prepare_next before contains
    prepare_next-Proposing p h =
        let up : before p.proposal_id (next_id p) ≡ true =
          below_next p.proposal_id p.highest_proposal_id (next_id p) h.high (next_id-before p) in
        record {
          named = h.named;
          size = h.size;
          own = h.named;
          high = before_irrefl (next_id p);
          low = λ x among.
              let (own, low) = h.low x among in
              (
                own,
                at_least_trans (next_id p) p.proposal_id x.proposal_id
                    (before_asymm p.proposal_id (next_id p) up) low,
              );
          current = λ x among same.
              let still : before p.proposal_id (next_id p) ≡ false =
                subst (λ id. before p.proposal_id id ≡ false) same (h.low x among).1 in
              absurd (cc (still, up));
          one = h.one;
          backed = h.backed;
          adopted = λ id e.
              let (v, value, known, below) = h.adopted id e in
              (v, value, known, before_trans id p.proposal_id (next_id p) below up);
          gathered = λ us e.
              subst (λ us. Distinct us × AllPromised (next_id p) p.highest_accepted_id us)
                (some-injective [] us e) (tt, λ w here. absurd (no_member w here));
          leads = λ e. absurd (cc e);
        }

    nacking :
        (nacks : List ℕ) (p : Proposer) → Now p → Now (record p { nacks_received = some nacks })
    nacking nacks p h = record {
      named = h.named;
      size = h.size;
      own = h.own;
      high = h.high;
      low = h.low;
      current = h.current;
      one = h.one;
      backed = h.backed;
      adopted = h.adopted;
      gathered = h.gathered;
      leads = h.leads;
    }

    nack-Proposing :
        (msg : Nack) (log : List Message) (p : Proposer)
        → xs ≡ accepts log
        → Now p
        → Proposing u (count_nack msg p).1 (accepts (sent_of (count_nack msg p).0 ++ log))
    unfolding count_nack accepts sent_of prepare_next
    nack-Proposing msg log p same h = elim (Option-cases p.nacks_received) [
      | inl e ↦ rw (e, count_nack, ← same) h
      | inr (nacks, e) ↦ elim (Bool-cases (same_id msg.proposal_id p.proposal_id)) [
        | inr g ↦ rw (e, g, count_nack, ← same) h
        | inl g ↦
            let more = add msg.from_uid nacks in
            let p' = record p { nacks_received = some more } in
            elim (Bool-cases (length more == p.quorum_size)) [
              | inl full ↦
                  rw (e, g, full, count_nack, ← same) (prepare_next-Proposing p' (nacking more p h))
              | inr fewer ↦ rw (e, g, fewer, count_nack, ← same) (nacking more p h)
            ]
      ]
    ]

  pub receive_nack-Proposing :
      (u : ℕ) (msg : Nack) (log : List Message) (p : Proposer)
      → Proposing u p (accepts log)
      → Proposing u (receive_nack msg p).1 (accepts (sent_of (receive_nack msg p).0 ++ log))
  unfolding receive_nack
  receive_nack-Proposing u msg log p h =
      nack-Proposing u (accepts log) msg log (observe_proposal msg.promised_proposal_id p) refl
        (observe_proposal-Proposing u (accepts log) msg.promised_proposal_id p h)
