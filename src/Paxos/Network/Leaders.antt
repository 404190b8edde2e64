-- ===== src/Paxos/Network/Leaders.antt =====
-- A proposer sends the Accept message of its current proposal once.
use krafters.Prelude.{
  ℕ, ◌≡◌, ◌≢◌, refl, sym, ◌∙◌, inl, inr, Bool, true, false, List, ◌++◌, Option, none, some,
  Bool-cases, Option-cases, length,
}
use mathlib.Core.Path.{subst}
use mathlib.Core.Option.{some-injective}
use krafters.Text.{Text}
use krafters.Paxos.Messages.{Among, ProposalId, before, Accept, Message, Reply, returns}
use krafters.Paxos.Messages.Order.{before_irrefl}
use krafters.Paxos.Proposer.{Proposer, accept_msg, propose_value}
use krafters.Paxos.Network.{accepts, sent_of}
use krafters.Paxos.Network.Acceptors.{each}
use krafters.Paxos.Network.Proposers.{Inherits, Quorate, Proposing}

module _ (K : ProposalId → Text → Type 0) (Prom : ℕ → ProposalId → Option ProposalId → Type 0)
    (q : ℕ) where
  module _ (u : ℕ) (log : List Message) where
    abbrev pub Holds : Proposer → Type 0
    Holds p = Proposing K Prom q u p (accepts log)

    abbrev pub At : Reply → Proposer → Type 0
    At reply p = Proposing K Prom q u p (accepts (sent_of reply ++ log))

    abbrev pub Unsent : Proposer → Type 0
    Unsent p = (x : Accept) → Among x (accepts log) → x.proposal_id ≢ p.proposal_id

    abbrev pub leading : Text → Proposer → Proposer
    leading v p = record p { leader = true; proposed_value = some v }

    inherits :
        (p : Proposer) (v : Text)
        → Holds p
        → ((h : ProposalId) → p.highest_accepted_id ≡ some h → p.proposed_value ≡ some v)
        → Inherits K Prom q p.proposal_id v p.highest_accepted_id
    inherits p v h value id e =
        let (v', same, known, below) = h.adopted id e in
        let eq : v' ≡ v = some-injective v' v (sym same ∙ value id e) in
        (subst (λ x. K id x) eq known, below)

    -- A leader without Accept messages for its proposal sends one.
    pub lead :
        (p : Proposer) (v : Text) (us : List ℕ)
        → Holds p
        → Unsent p
        → p.promises_received ≡ some us
        → length us ≡ q
        → ((h : ProposalId) → p.highest_accepted_id ≡ some h → p.proposed_value ≡ some v)
        → At (returns (accept_msg p v)) (leading v p)
    unfolding accepts sent_of
    lead p v us h unsent got full value =
        let heir = inherits p v h value in
        let (distinct, promised) = h.gathered us got in
        record {
          named = h.named;
          size = h.size;
          own = h.own;
          high = h.high;
          low =
              each (λ x. (x.proposal_id.uid ≡ u) × (before p.proposal_id x.proposal_id ≡ false)) _
                (accepts log) (h.own, before_irrefl p.proposal_id) h.low;
          current =
              each
                (λ x.
                  x.proposal_id ≡ p.proposal_id → (true ≡ true) × (some v ≡ some x.proposal_value))
                _ (accepts log) (λ same. (refl, refl)) (λ x old same. absurd (unsent x old same));
          one = λ x y x_in y_in.
              each (λ x. x.proposal_id ≡ y.proposal_id → x.proposal_value ≡ y.proposal_value) _
                (accepts log)
                (each (λ y. p.proposal_id ≡ y.proposal_id → v ≡ y.proposal_value) _ (accepts log)
                  (λ same. refl) (λ y old same. absurd (unsent y old (sym same))) y y_in)
                (λ x old.
                  each (λ y. x.proposal_id ≡ y.proposal_id → x.proposal_value ≡ y.proposal_value) _
                    (accepts log) (λ same. absurd (unsent x old same))
                    (λ y older. h.one x y old older) y y_in)
                x x_in;
          backed =
              each (λ x. Quorate K Prom q x.proposal_id x.proposal_value) _ (accepts log)
                (us, p.highest_accepted_id, distinct, full, promised, heir) h.backed;
          adopted = λ id e. let (known, below) = heir id e in (v, refl, known, below);
          gathered = h.gathered;
          leads = λ e. (us, got, full);
        }

    -- The value of a leader without one.
    Unsent-none : (p : Proposer) → Holds p → p.proposed_value ≡ none → Unsent p
    Unsent-none p h e x among same =
        let (_, value) = h.current x among same in absurd (cc (value, e))

    pub Unsent-follower : (p : Proposer) → Holds p → p.leader ≡ false → Unsent p
    Unsent-follower p h e x among same =
        let (led, _) = h.current x among same in absurd (cc (led, e))

    no_value :
        (p : Proposer) (v : Text)
        → Holds p
        → p.proposed_value ≡ none
        → (h : ProposalId) → p.highest_accepted_id ≡ some h
        → p.proposed_value ≡ some v
    no_value p v h e id g = let (v', value, _, _) = h.adopted id g in absurd (cc (value, e))

    -- A proposer without a value sends nothing, whether it leads from now on or gets its value.
    pub unled :
        (p : Proposer) (led : Bool) (value : Option Text)
        → Holds p
        → p.proposed_value ≡ none
        → (led ≡ true → (us : List ℕ) × (p.promises_received ≡ some us) × (length us ≡ q))
        → Holds (record p { leader = led; proposed_value = value })
    unled p led value h e leads = record {
      named = h.named;
      size = h.size;
      own = h.own;
      high = h.high;
      low = h.low;
      current = λ x among same. absurd (Unsent-none p h e x among same);
      one = h.one;
      backed = h.backed;
      adopted = λ id same. let (v', has, _, _) = h.adopted id same in absurd (cc (has, e));
      gathered = h.gathered;
      leads = leads;
    }

    pub propose_value-Proposing :
        (v : Text) (p : Proposer) → Holds p → At (propose_value v p).0 (propose_value v p).1
    unfolding propose_value sent_of
    propose_value-Proposing v p h = elim (Option-cases p.proposed_value) [
      | inr (v', e) ↦ rw (e, propose_value) h
      | inl e ↦ elim (Bool-cases p.leader) [
        | inl g ↦
            rw (e, g, propose_value)
              let (us, got, full) = h.leads g in
                lead p v us h (Unsent-none p h e) got full (no_value p v h e)
        | inr g ↦ rw (e, g, propose_value) (unled p false (some v) h e (λ led. absurd (cc led)))
      ]
    ]
