-- ===== src/Paxos/Proposer/Leads.antt =====
-- A proposer that hears the promises of a quorum sends its proposal.
use krafters.Prelude.{
  Bool, if◌then◌else◌, ℕ, ◌≡◌, refl, sym, ap, ◌∙◌, inl, inr, true, false, not, ◌&&◌, List, [], ◌∷◌,
  ◌++◌, some, Bool-cases, Option-cases, ◌==◌, length,
}
use mathlib.Core.Path.{subst}
use krafters.Text.{Text}
use krafters.Sets.{contains, add}
use krafters.Paxos.Messages.{ProposalId, same_id, before_opt, Promise, returns, accept}
use krafters.Paxos.Messages.Order.{same_id_refl, before_opt_irrefl}
use krafters.Paxos.Proposer.{
  Proposer, accept_msg, observe_proposal, adopt, try_lead, count_promise, receive_promise,
}

-- The proposer waits for promises of its current proposal, has those of `done`, and has a value.
pub record Waiting (uid q : ℕ) (id : ProposalId) (done : List ℕ) (p : Proposer) : Type 0 where
  pub named : p.network_uid ≡ uid
  pub follows : p.leader ≡ false
  pub current : p.proposal_id ≡ id
  pub highest : p.highest_proposal_id ≡ id
  pub size : p.quorum_size ≡ q
  pub heard : p.promises_received ≡ some done
  pub value : Text
  pub proposed : p.proposed_value ≡ some value

if_false : {A : Type 0} (b : Bool) (x y : A) → b ≡ false → (if b then x else y) ≡ y
if_false b x y e = rw e refl

-- A proposal that is not above the highest one changes nothing.
pub observe_same :
    (id : ProposalId) (p : Proposer) → p.highest_proposal_id ≡ id → observe_proposal (some id) p ≡ p
unfolding observe_proposal
observe_same id p e =
    let old : before_opt (some p.highest_proposal_id) (some id) ≡ false =
      rw e (before_opt_irrefl (some id)) in
    rw (old, observe_proposal) refl

-- What a promise may change before the quorum is looked at.
adopt-Waiting :
    (uid q : ℕ) (id : ProposalId) (done : List ℕ) (msg : Promise) (p : Proposer)
    → Waiting uid q id done p
    → Waiting uid q id done (adopt msg p)
unfolding adopt
adopt-Waiting uid q id done msg p h =
    elim (Bool-cases (before_opt p.highest_accepted_id msg.last_accepted_id)) [
      | inr e ↦ rw (e, adopt) h
      | inl e ↦ elim (Option-cases msg.last_accepted_value) [
        | inl g ↦
            rw (e, adopt, g)
              (record {
                named = h.named;
                follows = h.follows;
                current = h.current;
                highest = h.highest;
                size = h.size;
                heard = h.heard;
                value = h.value;
                proposed = h.proposed;
              })
        | inr (v, g) ↦
            rw (e, adopt, g)
              (record {
                named = h.named;
                follows = h.follows;
                current = h.current;
                highest = h.highest;
                size = h.size;
                heard = h.heard;
                value = v;
                proposed = refl;
              })
      ]
    ]

module _ (uid q : ℕ) (id : ProposalId) (done : List ℕ) (msg : Promise) (p : Proposer)
    (h : Waiting uid q id done p) (fits : msg.proposal_id ≡ id)
    (new : contains msg.from_uid done ≡ false) where
  abbrev more : List ℕ
  more = done ++ msg.from_uid ∷ []

  abbrev next : Proposer
  next = adopt msg (record p { promises_received = some more })

  next-Waiting : Waiting uid q id more next
  next-Waiting =
      adopt-Waiting uid q id more msg (record p { promises_received = some more })
        (record {
          named = h.named;
          follows = h.follows;
          current = h.current;
          highest = h.highest;
          size = h.size;
          heard = refl;
          value = h.value;
          proposed = h.proposed;
        })

  counts_promise : count_promise msg (some done) p ≡ try_lead (length more) next
  unfolding count_promise add
  counts_promise =
      if_false (contains msg.from_uid done) _ _ new
      ∙ ap (λ k. try_lead (length k) (adopt msg (record p { promises_received = some k })))
          (if_false (contains msg.from_uid done) done more new)

  hears_promise : receive_promise msg p ≡ try_lead (length more) next
  unfolding receive_promise
  hears_promise =
      let seen = observe_same msg.proposal_id p (h.highest ∙ sym fits) in
      let own : same_id msg.proposal_id p.proposal_id ≡ true =
        rw (fits, h.current) (same_id_refl id) in
      let counts : (not p.leader && same_id msg.proposal_id p.proposal_id) ≡ true =
        rw (h.follows, own) refl in
      rw (seen, receive_promise, counts) (ap (λ o. count_promise msg o p) h.heard ∙ counts_promise)

  pub receive_promise-Waiting :
      (length more == q) ≡ false → Waiting uid q id more (receive_promise msg p).1
  unfolding try_lead
  receive_promise-Waiting short =
      let w = next-Waiting in
      let fewer : (length more == next.quorum_size) ≡ false = rw w.size short in
      let kept : (try_lead (length more) next).1 ≡ next = rw (fewer, try_lead) refl in
      subst (Waiting uid q id more) (sym (ap (λ r. r.1) hears_promise ∙ kept)) w

  pub receive_promise-sends :
      (length more == q) ≡ true
      → (v : Text) × ((receive_promise msg p).0
          ≡ returns (accept (record { from_uid = uid; proposal_id = id; proposal_value = v })))
  unfolding try_lead
  receive_promise-sends full =
      let w = next-Waiting in
      let enough : (length more == next.quorum_size) ≡ true = rw w.size full in
      let sends : (try_lead (length more) next).0 ≡ returns (accept_msg next w.value) =
        rw (enough, try_lead, w.proposed) refl in
      (
        w.value,
        ap (λ r. r.0) hears_promise
            ∙ sends
            ∙ ap
                (λ u. returns (
                  accept (record {
                    from_uid = u;
                    proposal_id = next.proposal_id;
                    proposal_value = w.value;
                  })))
                w.named
            ∙ ap
                (λ i.
                  returns
                    (accept (record { from_uid = uid; proposal_id = i; proposal_value = w.value })))
                w.current,
      )
