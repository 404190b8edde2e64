-- ===== src/Paxos/Network/Acceptors.antt =====
-- What an acceptor has sent, and what it keeps.
use krafters.Prelude.{ℕ, ◌≡◌, refl, inl, inr, true, false, List, ◌∷◌, Option, some, Bool-cases}
use mathlib.Core.Path.{subst}
use mathlib.Core.Option.{some-injective}
use krafters.Text.{Text}
use krafters.Paxos.Messages.{
  Among, ProposalId, before, before_opt, Prepare, Promise, Accept, Accepted, Message,
}
use krafters.Paxos.Messages.Order.{before_irrefl, before_opt_trans, before_opt_irrefl}
use krafters.Paxos.Acceptor
use krafters.Paxos.Acceptor.{Acceptor}
use krafters.Paxos.Network.{promises, accepteds}

-- `K id v` says that an Accept message for the proposal `id` with the value `v` has been sent.
abbrev pub Known : (ProposalId → Text → Type 0) → Option ProposalId → Option Text → Type 0
Known K id value = (h : ProposalId) → id ≡ some h → (v : Text) × (value ≡ some v) × K h v

-- The promises and the acceptances of the acceptor `u`.
pub record Kept (K : ProposalId → Text → Type 0) (u : ℕ) (a : Acceptor) (ps : List Promise)
    (xs : List Accepted) : Type 0 where
  pub named : a.network_uid ≡ u
  pub floor : before_opt a.promised_id a.accepted_id ≡ false
  pub holds : Known K a.accepted_id a.accepted_value
  pub promised :
      (p : Promise)
      → Among p ps
      → (p.from_uid ≡ u) × (before_opt a.promised_id (some p.proposal_id) ≡ false)
  pub told :
      (p : Promise)
      → Among p ps
      → Known K p.last_accepted_id p.last_accepted_value
        × (before_opt (some p.proposal_id) p.last_accepted_id ≡ false)
  pub voted :
      (x : Accepted)
      → Among x xs
      → (x.from_uid ≡ u)
        × (before_opt a.accepted_id (some x.proposal_id) ≡ false)
        × K x.proposal_id x.proposal_value
  pub reported :
      (p : Promise) (x : Accepted)
      → Among p ps
      → Among x xs
      → before x.proposal_id p.proposal_id ≡ true
      → before_opt p.last_accepted_id (some x.proposal_id) ≡ false

-- What holds of the first element and of all others.
pub each :
    {A : Type 0} (P : A → Type 0) (x : A) (xs : List A)
    → P x
    → ((a : A) → Among a xs → P a)
    → (a : A) → Among a (x ∷ xs)
    → P a
each P x xs here rest a (inl e) = subst P e here
each P x xs here rest a (inr later) = rest a later

pub Known-some :
    (K : ProposalId → Text → Type 0) (id : ProposalId) (v : Text)
    → K id v
    → Known K (some id) (some v)
Known-some K id v known h e = (v, refl, subst (λ x. K x v) (some-injective id h e) known)

module _ (K : ProposalId → Text → Type 0) (u : ℕ) (a : Acceptor) (log : List Message) where
  abbrev Now : Type 0
  Now = Kept K u a (promises log) (accepteds log)

  pub receive_prepare-Kept :
      (msg : Prepare)
      → Now
      → let (reply, a') = Acceptor.receive_prepare msg a in
        Kept K u a' (promises (reply ∷ log)) (accepteds (reply ∷ log))
  unfolding Acceptor.receive_prepare promises accepteds
  receive_prepare-Kept msg h = elim (Bool-cases (before_opt (some msg.proposal_id) a.promised_id)) [
    | inl e ↦ rw (e, Acceptor.receive_prepare) h
    | inr e ↦
        rw (e, Acceptor.receive_prepare)
          (record {
            named = h.named;
            floor = before_opt_trans (some msg.proposal_id) a.promised_id a.accepted_id e h.floor;
            holds = h.holds;
            promised = λ p among.
                each (λ p. (p.from_uid ≡ u) × (before msg.proposal_id p.proposal_id ≡ false)) _
                  (promises log) (h.named, before_irrefl msg.proposal_id)
                  (λ p old.
                    let (named, low) = h.promised p old in
                    (
                      named,
                      before_opt_trans (some msg.proposal_id) a.promised_id (some p.proposal_id) e
                          low,
                    ))
                  p among;
            told = λ p among.
                each
                  (λ p.
                    Known K p.last_accepted_id p.last_accepted_value
                    × (before_opt (some p.proposal_id) p.last_accepted_id ≡ false))
                  _ (promises log)
                  (
                    h.holds,
                    before_opt_trans (some msg.proposal_id) a.promised_id a.accepted_id e h.floor,
                  )
                  h.told p among;
            voted = h.voted;
            reported = λ p x among vote.
                each
                  (λ p.
                    before x.proposal_id p.proposal_id ≡ true
                    → before_opt p.last_accepted_id (some x.proposal_id) ≡ false)
                  _ (promises log) (λ below. (h.voted x vote).1) (λ p old. h.reported p x old vote)
                  p among;
          })
  ]

  pub receive_accept-Kept :
      (msg : Accept)
      → K msg.proposal_id msg.proposal_value
      → Now
      → let (reply, a') = Acceptor.receive_accept msg a in
        Kept K u a' (promises (reply ∷ log)) (accepteds (reply ∷ log))
  unfolding Acceptor.receive_accept promises accepteds
  receive_accept-Kept msg known h =
      elim (Bool-cases (before_opt (some msg.proposal_id) a.promised_id)) [
        | inl e ↦ rw (e, Acceptor.receive_accept) h
        | inr e ↦
            rw (e, Acceptor.receive_accept)
              (record {
                named = h.named;
                floor = before_opt_irrefl (some msg.proposal_id);
                holds = Known-some K msg.proposal_id msg.proposal_value known;
                promised = λ p among.
                    let (named, low) = h.promised p among in
                    (
                      named,
                      before_opt_trans (some msg.proposal_id) a.promised_id (some p.proposal_id) e
                          low,
                    );
                told = h.told;
                voted = λ x among.
                    each
                      (λ x.
                        (x.from_uid ≡ u)
                        × (before msg.proposal_id x.proposal_id ≡ false)
                        × K x.proposal_id x.proposal_value)
                      _ (accepteds log) (h.named, before_irrefl msg.proposal_id, known)
                      (λ x old.
                        let (named, low, k) = h.voted x old in
                        (
                          named,
                          before_opt_trans (some msg.proposal_id) a.accepted_id (some x.proposal_id)
                              (before_opt_trans (some msg.proposal_id) a.promised_id a.accepted_id e
                                h.floor)
                              low,
                          k,
                        ))
                      x among;
                reported = λ p x among vote.
                    each
                      (λ x.
                        before x.proposal_id p.proposal_id ≡ true
                        → before_opt p.last_accepted_id (some x.proposal_id) ≡ false)
                      _ (accepteds log)
                      (λ below.
                        let high : before msg.proposal_id p.proposal_id ≡ false =
                          before_opt_trans (some msg.proposal_id) a.promised_id (some p.proposal_id)
                            e (h.promised p among).1 in
                        absurd (cc (high, below)))
                      (λ x old. h.reported p x among old) x vote;
              })
      ]

-- More may be known.
pub Kept-mono :
    (K K' : ProposalId → Text → Type 0) (u : ℕ) (a : Acceptor) (ps : List Promise)
    (xs : List Accepted)
    → ((id : ProposalId) (v : Text) → K id v → K' id v)
    → Kept K u a ps xs
    → Kept K' u a ps xs
Kept-mono K K' u a ps xs more h =
    let still : (id : Option ProposalId) (value : Option Text)
        → Known K id value
        → Known K' id value =
      λ id value known h e. let (v, same, k) = known h e in (v, same, more h v k) in
    record {
      named = h.named;
      floor = h.floor;
      holds = still a.accepted_id a.accepted_value h.holds;
      promised = h.promised;
      told = λ p among. let (known, low) = h.told p among in (still _ _ known, low);
      voted = λ x among.
          let (named, low, k) = h.voted x among in
          (named, low, more x.proposal_id x.proposal_value k);
      reported = h.reported;
    }
