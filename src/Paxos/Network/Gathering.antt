-- ===== src/Paxos/Network/Gathering.antt =====
-- A promise more makes a proposer adopt what it reports, and a quorum makes it lead.
use krafters.Prelude.{
  ◌⊎◌, if◌then◌else◌, ℕ, ◌≡◌, refl, ap, ◌∙◌, inl, inr, Bool, true, false, not, ◌&&◌, List, Option,
  none, some, Bool-cases, Option-cases, ◌==◌, arith, length,
}
use mathlib.Core.Path.{subst}
use mathlib.Core.Option.{some-injective}
use krafters.Text.{Text}
use krafters.Sets.{contains, add}
use krafters.Paxos.Messages.{
  Among, ProposalId, before, before_opt, same_id, Promise, Accept, Message, Reply, nothing,
}
use krafters.Paxos.Messages.Order.{before_opt_trans, before_opt_irrefl, before_opt_flip, same_id-≡}
use krafters.Paxos.Proposer.{
  Proposer, observe_proposal, adopt, try_lead, count_promise, receive_promise,
}
use krafters.Paxos.Learner.Tallies.{Distinct}
use krafters.Paxos.Network.{accepts, sent_of}
use krafters.Paxos.Network.Acceptors.{Known}
use krafters.Paxos.Network.Proposers.{AllPromised, observe_proposal-Proposing}
use krafters.Paxos.Network.Leaders.{Holds, At, lead, unled, Unsent-follower}
use krafters.Paxos.Network.Members.{Distinct-add, contains-add}

module _ (K : ProposalId → Text → Type 0) (Prom : ℕ → ProposalId → Option ProposalId → Type 0)
    (q : ℕ) where
  module _ (u : ℕ) (log : List Message) where
    -- One more promise, behind which `top` and `value` are the highest proposal and its value.
    gather :
        (p : Proposer) (us : List ℕ) (w : ℕ) (last top : Option ProposalId) (value : Option Text)
        → Holds K Prom q u log p
        → p.leader ≡ false
        → p.promises_received ≡ some us
        → contains w us ≡ false
        → Prom w p.proposal_id last
        → before_opt top p.highest_accepted_id ≡ false
        → before_opt top last ≡ false
        → ((h : ProposalId)
            → top ≡ some h
            → (v : Text) × (value ≡ some v) × K h v × (before h p.proposal_id ≡ true))
        → Holds K Prom q u log (record p {
          promises_received = some (add w us);
          highest_accepted_id = top;
          proposed_value = value;
        })
    gather p us w last top value h e got new prom above_high above_last adopted =
        let (distinct, promised) = h.gathered us got in
        record {
          named = h.named;
          size = h.size;
          own = h.own;
          high = h.high;
          low = h.low;
          current = λ x among same. absurd (Unsent-follower K Prom q u log p h e x among same);
          one = h.one;
          backed = h.backed;
          adopted = adopted;
          gathered = λ vs same.
              subst (λ vs. Distinct vs × AllPromised K Prom q p.proposal_id top vs)
                (some-injective (add w us) vs same)
                (
                  Distinct-add w us new distinct,
                  λ x here. elim (contains-add x w us here) [
                    | inl old ↦
                        let (last', prom', low) = promised x old in
                        (
                          last',
                          prom',
                          before_opt_trans top p.highest_accepted_id last' above_high low,
                        )
                    | inr eq ↦ (last, subst (λ x. Prom x p.proposal_id last) eq prom, above_last)
                  ],
                );
          leads = λ led. absurd (cc (led, e));
        }

    adopt-Proposing :
        (msg : Promise) (us : List ℕ) (p : Proposer)
        → Holds K Prom q u log p
        → p.leader ≡ false
        → p.promises_received ≡ some us
        → contains msg.from_uid us ≡ false
        → Prom msg.from_uid p.proposal_id msg.last_accepted_id
        → Known K msg.last_accepted_id msg.last_accepted_value
        → ((h : ProposalId) → msg.last_accepted_id ≡ some h → before h p.proposal_id ≡ true)
        → Holds K Prom q u log
            (adopt msg (record p { promises_received = some (add msg.from_uid us) }))
    unfolding adopt
    adopt-Proposing msg us p h e got new prom known below =
        elim (Bool-cases (before_opt p.highest_accepted_id msg.last_accepted_id)) [
          | inr g ↦
              rw (g, adopt)
                (gather p us msg.from_uid msg.last_accepted_id p.highest_accepted_id
                  p.proposed_value h e got new prom (before_opt_irrefl p.highest_accepted_id) g
                  h.adopted)
          | inl g ↦
              rw (g, adopt)
                (gather p us msg.from_uid msg.last_accepted_id msg.last_accepted_id _ h e got new
                  prom (before_opt_flip p.highest_accepted_id msg.last_accepted_id g)
                  (before_opt_irrefl msg.last_accepted_id)
                  (λ id same.
                    let (v, value, k) = known id same in (v, rw value refl, k, below id same)))
        ]

    try_lead-Proposing :
        (us : List ℕ) (p : Proposer)
        → Holds K Prom q u log p
        → p.leader ≡ false
        → p.promises_received ≡ some us
        → At K Prom q u log (try_lead (length us) p).0 (try_lead (length us) p).1
    unfolding try_lead sent_of
    try_lead-Proposing us p h e got = elim (Bool-cases (length us == p.quorum_size)) [
      | inr g ↦ rw (g, try_lead) h
      | inl g ↦
          let full : length us ≡ q = (let size = h.size in ground arith) in
          elim (Option-cases p.proposed_value) [
            | inl none_yet ↦
                rw (g, none_yet, try_lead)
                  (unled K Prom q u log p true none h none_yet (λ led. (us, got, full)))
            | inr (v, value) ↦
                rw (g, value, try_lead)
                  (lead K Prom q u log p v us h (Unsent-follower K Prom q u log p h e) got full
                    (λ id same. value))
          ]
    ]

    adopt-leader : (msg : Promise) (p : Proposer) → (adopt msg p).leader ≡ p.leader
    unfolding adopt
    adopt-leader msg p = elim (Bool-cases (before_opt p.highest_accepted_id msg.last_accepted_id)) [
      | inl e ↦ rw (e, adopt)
      | inr e ↦ rw (e, adopt)
    ]

    adopt-promises :
        (msg : Promise) (p : Proposer) → (adopt msg p).promises_received ≡ p.promises_received
    unfolding adopt
    adopt-promises msg p =
        elim (Bool-cases (before_opt p.highest_accepted_id msg.last_accepted_id)) [
          | inl e ↦ rw (e, adopt)
          | inr e ↦ rw (e, adopt)
        ]

    below_or_same :
        (a b : ProposalId) → before b a ≡ false → (before a b ≡ true) ⊎ (same_id a b ≡ true)
    unfolding before same_id
    below_or_same a b h = elim (Bool-cases (before a b)) [
      | inl e ↦ inl e
      | inr e ↦ inr (ground arith)
    ]

    -- A follower has not sent its proposal, so that nothing that was sent has its id.
    strictly :
        (p : Proposer)
        → Holds K Prom q u log p
        → p.leader ≡ false
        → (id : ProposalId) (v : Text) → K id v
        → (id.uid ≡ u → (x : Accept) × Among x (accepts log) × (x.proposal_id ≡ id))
        → before p.proposal_id id ≡ false
        → before id p.proposal_id ≡ true
    strictly p h e id v k mine low = elim (below_or_same id p.proposal_id low) [
      | inl below ↦ below
      | inr same ↦
          let eq : id ≡ p.proposal_id = same_id-≡ id p.proposal_id same in
          let (x, among, x_id) = mine (ap ProposalId.uid eq ∙ h.own) in
          absurd (Unsent-follower K Prom q u log p h e x among (x_id ∙ eq))
    ]

    either :
        (b : Bool) (x y : Reply × Proposer)
        → (b ≡ true → At K Prom q u log x.0 x.1)
        → (b ≡ false → At K Prom q u log y.0 y.1)
        → At K Prom q u log (if b then x else y).0 (if b then x else y).1
    either true x y h g = h refl
    either false x y h g = g refl

    -- The branch of a promise that counts.
    count_promise-Proposing :
        (msg : Promise) (o : Option (List ℕ)) (p : Proposer)
        → Holds K Prom q u log p
        → p.leader ≡ false
        → p.promises_received ≡ o
        → Prom msg.from_uid p.proposal_id msg.last_accepted_id
        → Known K msg.last_accepted_id msg.last_accepted_value
        → ((h : ProposalId) → msg.last_accepted_id ≡ some h → before h p.proposal_id ≡ true)
        → At K Prom q u log (count_promise msg o p).0 (count_promise msg o p).1
    unfolding count_promise sent_of
    count_promise-Proposing msg none p h e got prom known below = h
    count_promise-Proposing msg (some us) p h e got prom known below =
        let us' = add msg.from_uid us in
        let p1 = record p { promises_received = some us' } in
        let p' = adopt msg p1 in
        either (contains msg.from_uid us) (nothing, p) (try_lead (length us') p') (λ g. h)
          (λ g.
            try_lead-Proposing us' p' (adopt-Proposing msg us p h e got g prom known below)
              (adopt-leader msg p1 ∙ e) (adopt-promises msg p1))

    -- A Promise message that has been sent, for a proposal of this node's own.
    pub receive_promise-Proposing :
        (msg : Promise) (p : Proposer)
        → Holds K Prom q u log p
        → Prom msg.from_uid msg.proposal_id msg.last_accepted_id
        → Known K msg.last_accepted_id msg.last_accepted_value
        → before_opt (some msg.proposal_id) msg.last_accepted_id ≡ false
        → ((h : ProposalId) (v : Text)
            → K h v
            → h.uid ≡ u
            → (x : Accept) × Among x (accepts log) × (x.proposal_id ≡ h))
        → At K Prom q u log (receive_promise msg p).0 (receive_promise msg p).1
    unfolding receive_promise sent_of
    receive_promise-Proposing msg p h prom known low mine =
        let seen = observe_proposal (some msg.proposal_id) p in
        let h' = observe_proposal-Proposing K Prom q u (accepts log) (some msg.proposal_id) p h in
        elim (Bool-cases (not seen.leader && same_id msg.proposal_id seen.proposal_id)) [
          | inr e ↦ rw (e, receive_promise) h'
          | inl e ↦
              let follower : seen.leader ≡ false = ground arith in
              let same : same_id msg.proposal_id seen.proposal_id ≡ true = ground arith in
              let eq = same_id-≡ msg.proposal_id seen.proposal_id same in
              rw (e, receive_promise)
                (count_promise-Proposing msg seen.promises_received seen h' follower refl
                  (subst (λ id. Prom msg.from_uid id msg.last_accepted_id) eq prom) known
                  (λ id last.
                    let (v, _, k) = known id last in
                    strictly seen h' follower id v k (mine id v k) (
                      subst (λ own. before_opt (some own) (some id) ≡ false) eq
                        (subst (λ o. before_opt (some msg.proposal_id) o ≡ false) last low))))
        ]
