-- ===== src/Paxos/Learner/Quorum.antt =====
-- The final value of a learner has a quorum of acceptors behind it.
use krafters.Prelude.{
  ℕ, suc, ◌≡◌, refl, ◌∙◌, inl, inr, true, not, ◌&&◌, List, [], ◌∷◌, Option, none, some, Bool-cases,
  Option-cases, ◌==◌, arith, length,
}
use mathlib.Core.Path.{subst}
use krafters.Text.{Text, text_eq}
use krafters.Sets.{contains}
use krafters.Dict.{find, put}
use krafters.Paxos.Messages.{Among, ProposalId, before_opt, Accepted}
use krafters.Paxos.Learner.{
  Learner, ProposalStatus, Proposals, new_learner, leave_last, status_of, counted, count_accepted,
  count_new, tally, receive_open, receive_closed, receive_by, receive_accepted, hear,
}
use krafters.Paxos.Learner.Tallies.{
  Distinct, vote, Backed, Tallied, Backed-put, Tallied-put, put-Tallied, leave_last-Tallied,
  status_of-Backed, Backed-count,
}

-- A proposal with that value was accepted by `q` distinct acceptors.
abbrev pub Chosen : List Accepted → ℕ → Text → Type 0
Chosen all q v =
    (id : ProposalId) × (uids : List ℕ) × Distinct uids
    × (length uids ≡ q)
    × ((u : ℕ) → contains u uids ≡ true → Among (vote u id v) all)

module _ (all : List Accepted) (q : ℕ) where
  -- What holds of a learner's final value and dictionaries.
  abbrev Holds : Option Text → Option (List (ℕ × ProposalId)) → Option Proposals → Type 0
  Holds (some v) accs props = Chosen all q v
  Holds none (some accs) (some props) = Tallied all accs props
  Holds none _ _ = ⊥

  abbrev Inv : Learner → Type 0
  Inv l = (l.quorum_size ≡ q) × Holds l.final_value l.acceptors l.proposals

  text_eq-≡ : (a b : Text) → text_eq a b ≡ true → a ≡ b
  unfolding text_eq
  text_eq-≡ [] [] h = refl
  text_eq-≡ [] (b ∷ bs) h = cc
  text_eq-≡ (a ∷ as_) [] h = cc
  text_eq-≡ (a ∷ as_) (b ∷ bs) h =
      let one : a ≡ b = ground arith in
      let rest : text_eq as_ bs ≡ true = ground arith in cc (one, text_eq-≡ as_ bs rest)

  Holds-counting :
      (f : Option Text) (o : Option (List (ℕ × ProposalId))) (accs : List (ℕ × ProposalId))
      (props : Proposals)
      → f ≡ none
      → o ≡ some accs
      → Tallied all accs props
      → Holds f o (some props)
  Holds-counting f o accs props e g t = rw (e, g) t

  module _ (msg : Accepted) (heard : Among msg all) (accs : List (ℕ × ProposalId)) where
    abbrev accs' : List (ℕ × ProposalId)
    accs' = put ◌==◌ msg.from_uid msg.proposal_id accs

    Chosen-by :
        {n size : ℕ}
        → Backed all accs' msg.proposal_id n msg.proposal_value
        → (n == size) ≡ true
        → size ≡ q
        → Chosen all q msg.proposal_value
    Chosen-by {n} {size} (uids, distinct, count, votes) full eq = (
      msg.proposal_id,
      uids,
      distinct,
      (let same : n ≡ size = ground arith in count ∙ same ∙ eq),
      λ u here. (votes u here).0,
    )

    count_accepted-Inv :
        (ps : ProposalStatus) (props : Proposals) (l : Learner)
        → l.quorum_size ≡ q
        → l.final_value ≡ none
        → l.acceptors ≡ some accs'
        → before_opt (find ◌==◌ msg.from_uid accs) (some msg.proposal_id) ≡ true
        → Tallied all accs props
        → Backed all accs msg.proposal_id ps.accept_count ps.value
        → Inv (count_accepted msg ps props l).1
    unfolding count_accepted counted
    count_accepted-Inv ps props l size undecided here newer h backed =
        elim (Bool-cases (text_eq msg.proposal_value ps.value)) [
          | inr differ ↦
              rw (differ, count_accepted)
                (
                  size,
                  Holds-counting l.final_value l.acceptors accs' _ undecided here (
                      put-Tallied all accs' msg.proposal_id ps props
                        (Tallied-put all accs msg.from_uid msg.proposal_id props newer h)
                        (Backed-put all accs msg.from_uid msg.proposal_id msg.proposal_id
                          ps.accept_count ps.value newer backed)),
                )
          | inl same ↦
              let value : msg.proposal_value ≡ ps.value =
                text_eq-≡ msg.proposal_value ps.value same in
              let more = Backed-count all accs msg ps.accept_count heard newer (rw value backed) in
              elim (Bool-cases (suc ps.accept_count == l.quorum_size)) [
                | inl full ↦ rw (same, full, count_accepted) (size, Chosen-by more full size)
                | inr fewer ↦
                    rw (same, fewer, count_accepted)
                      (
                        size,
                        Holds-counting l.final_value l.acceptors accs' _ undecided here (
                            put-Tallied all accs' msg.proposal_id (counted msg.from_uid ps) props
                              (Tallied-put all accs msg.from_uid msg.proposal_id props newer h)
                              (subst (λ v. Backed all accs' msg.proposal_id (suc ps.accept_count) v)
                                value more)),
                      )
              ]
        ]

    count_new-Inv :
        (last : Option ProposalId) (props : Proposals) (l : Learner)
        → l.quorum_size ≡ q
        → l.final_value ≡ none
        → l.acceptors ≡ some accs'
        → before_opt (find ◌==◌ msg.from_uid accs) (some msg.proposal_id) ≡ true
        → Tallied all accs props
        → Inv (count_new msg last props l).1
    unfolding count_new
    count_new-Inv last props l size undecided here newer h =
        let ps = (leave_last msg.from_uid last props).1 in
        let kept : Tallied all accs ps = leave_last-Tallied all accs msg.from_uid last props h in
        elim (Bool-cases (leave_last msg.from_uid last props).0) [
          | inl e ↦
              rw (e, count_new)
                (count_accepted-Inv (status_of msg ps) ps l size undecided here newer kept
                  (status_of-Backed all accs msg ps kept))
          | inr e ↦
              rw (e, count_new)
                (
                  size,
                  Holds-counting l.final_value l.acceptors accs' ps undecided here
                      (Tallied-put all accs msg.from_uid msg.proposal_id ps newer kept),
                )
        ]

  tally-Inv :
      (o : Option (List (ℕ × ProposalId))) (p : Option Proposals) (msg : Accepted) (l : Learner)
      → Among msg all
      → l.final_value ≡ none
      → Holds none o p
      → Inv l
      → Inv (tally o p msg l).1
  unfolding tally
  tally-Inv none p msg l heard undecided h inv = absurd h
  tally-Inv (some accs) none msg l heard undecided h inv = absurd h
  tally-Inv (some accs) (some props) msg l heard undecided h inv =
      let last = find ◌==◌ msg.from_uid accs in
      elim (Bool-cases (before_opt last (some msg.proposal_id))) [
        | inr e ↦ rw (e, tally) inv
        | inl e ↦
            rw (e, tally)
              (count_new-Inv msg heard accs last props
                (record l { acceptors = some (put ◌==◌ msg.from_uid msg.proposal_id accs) }) inv.0
                undecided refl e h)
      ]

  receive_closed-same :
      (msg : Accepted) (v : Text) (l : Learner)
      → ((receive_closed msg v l).1.final_value ≡ l.final_value)
        × ((receive_closed msg v l).1.quorum_size ≡ l.quorum_size)
  unfolding receive_closed
  receive_closed-same msg v l =
      elim (Bool-cases (
        not (before_opt (some msg.proposal_id) l.final_proposal_id)
        && text_eq msg.proposal_value v)) [
          | inr g ↦ rw (g, receive_closed) (refl, refl)
          | inl g ↦ elim (Option-cases l.final_acceptors) [
            | inl e ↦ rw (e, g, receive_closed) (refl, refl)
            | inr (uids, e) ↦ rw (e, g, receive_closed) (refl, refl)
          ]
        ]

  receive_by-Inv :
      (o : Option Text) (msg : Accepted) (l : Learner)
      → Among msg all
      → l.final_value ≡ o
      → Inv l
      → Inv (receive_by o msg l).1
  unfolding receive_by receive_open
  receive_by-Inv none msg l heard undecided inv =
      tally-Inv l.acceptors l.proposals msg l heard undecided
        (subst (λ f. Holds f l.acceptors l.proposals) undecided inv.1) inv
  receive_by-Inv (some v) msg l heard decided inv =
      let (same, size) = receive_closed-same msg v l in
      let chosen : Chosen all q v = subst (λ f. Holds f l.acceptors l.proposals) decided inv.1 in
      (size ∙ inv.0, rw (same, decided) chosen)

  hear-Inv :
      (msgs : List Accepted) (l : Learner)
      → ((m : Accepted) → Among m msgs → Among m all)
      → Inv l
      → Inv (hear msgs l)
  unfolding hear receive_accepted
  hear-Inv [] l known inv = inv
  hear-Inv (msg ∷ msgs) l known inv =
      hear-Inv msgs (receive_accepted msg l).1 (λ m later. known m (inr later))
        (receive_by-Inv l.final_value msg l (known msg (inl refl)) refl inv)

-- A final value was chosen. Whatever Accepted messages a new learner receives, in any order and with
-- repetitions, once it has a final value there are `quorum` distinct nodes that have each sent an
-- Accepted message with this value for one and the same proposal.
pub hear-final_value :
    (uid quorum : ℕ) (msgs : List Accepted) (v : Text)
    → (hear msgs (new_learner uid quorum)).final_value ≡ some v
    → Chosen msgs quorum v
unfolding new_learner
hear-final_value uid quorum msgs v e =
    let start : Inv msgs quorum (new_learner uid quorum) = (refl, λ k st found. cc) in
    let (size, holds) = hear-Inv msgs quorum msgs (new_learner uid quorum) (λ m here. here) start in
    subst
      (λ f.
        Holds msgs quorum f (hear msgs (new_learner uid quorum)).acceptors
          (hear msgs (new_learner uid quorum)).proposals)
      e holds
