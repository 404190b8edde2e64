-- ===== src/Paxos/Network/Agreement.antt =====
-- Two nodes of a network never learn different values.
use krafters.Prelude.{
  ◌<◌, ◌+◌, ℕ, ◌≡◌, sym, ap, ◌∙◌, inl, inr, true, false, List, [], ◌∷◌, some, Bool-cases,
  Option-cases, ◌==◌, arith, length,
}
use mathlib.Core.Path.{subst}
use krafters.Text.{Text}
use krafters.Sets.{contains}
use krafters.Paxos.Messages.{Among, ProposalId, before, before_opt}
use krafters.Paxos.Messages.Order.{before_opt_trans, before_asymm, before_induction, same_or_below}
use krafters.Paxos.Learner.Tallies.{Distinct, vote}
use krafters.Paxos.Learner.Quorum.{hear-final_value}
use krafters.Paxos.Network.{System, Reachable, accepts, accepteds}
use krafters.Paxos.Network.Members.{quorums_meet}
use krafters.Paxos.Network.Proposers.{Quorate}
use krafters.Paxos.Network.Sites.{SentAccept, SentPromise, SentAccepted, AllFine}
use krafters.Paxos.Network.Turns.{Reachable-AllFine}

module _ (members : List ℕ) (q : ℕ) (minority : length members < q + q) (s : System)
    (fine : AllFine members s q) where
  -- A quorum of members has accepted the proposal with the value.
  abbrev Decided : ProposalId → Text → Type 0
  Decided id v =
      (us : List ℕ) × Distinct us
      × (length us ≡ q)
      × ((u : ℕ) → contains u us ≡ true → SentAccepted members s (vote u id v))

  -- A vote is in the log of its acceptor, and its proposal was sent.
  accepted_accept :
      (u : ℕ) (id : ProposalId) (v : Text)
      → SentAccepted members s (vote u id v)
      → (contains u members ≡ true)
        × Among (vote u id v) (accepteds (s u).log)
        × SentAccept members s id v
  accepted_accept u id v (w, in_, here) =
      let (named, _, known) = (fine w in_).kept.voted (vote u id v) here in
      (rw named in_, subst (λ w. Among (vote u id v) (accepteds (s w).log)) (sym named) here, known)

  -- One proposal has one value.
  one_value :
      (id : ProposalId) (v w : Text) → SentAccept members s id v → SentAccept members s id w → v ≡ w
  one_value id v w (a, a_in, x, x_here, x_id, x_value) (b, b_in, y, y_here, y_id, y_value) =
      let x_own = ((fine a a_in).proposing.low x x_here).0 in
      let y_own = ((fine b b_in).proposing.low y y_here).0 in
      let same : b ≡ a = sym y_own ∙ ap ProposalId.uid (y_id ∙ sym x_id) ∙ x_own in
      let y_there = subst (λ b. Among y (accepts (s b).log)) same y_here in
      sym x_value ∙ (fine a a_in).proposing.one x y x_here y_there (x_id ∙ sym y_id) ∙ y_value

  -- A proposal that was sent has its quorum.
  quorate :
      (id : ProposalId) (v : Text)
      → SentAccept members s id v
      → Quorate (SentAccept members s) (SentPromise members s) q id v
  quorate id v (w, in_, x, here, x_id, x_value) =
      subst (λ id. Quorate (SentAccept members s) (SentPromise members s) q id v) x_id
        (subst (Quorate (SentAccept members s) (SentPromise members s) q x.proposal_id) x_value
          ((fine w in_).proposing.backed x here))

  -- A later proposal has a promise of an acceptor of the decided one, and inherits from it or above.
  inherited :
      (b c : ProposalId) (v w : Text)
      → Decided b v
      → before b c ≡ true
      → SentAccept members s c w
      → (h : ProposalId) × (before h b ≡ false) × (before h c ≡ true) × SentAccept members s h w
  unfolding before_opt
  inherited b c v w (vs, distinct', size', votes) below sent =
      let (us, high, distinct, size, promised, heir) = quorate c w sent in
      let (n, here, there) =
        quorums_meet members us vs q minority distinct distinct' size size'
          (λ u here. let (_, (in_, _, _, _, _), _) = promised u here in in_)
          (λ u here. let (in_, _, _) = accepted_accept u b v (votes u here) in in_) in
      let (last, (in_, p, p_here, p_id, p_last), low) = promised n here in
      let (_, x_here, _) = accepted_accept n b v (votes n there) in
      let reported : before_opt p.last_accepted_id (some b) ≡ false =
        (fine n in_).kept.reported p (vote n b v) p_here x_here (rw p_id below) in
      let above : before_opt high (some b) ≡ false =
        before_opt_trans high last (some b) low (rw p_last at reported) in
      elim (Option-cases high) [
        | inl e ↦ absurd (cc (rw e at above))
        | inr (h, e) ↦ let (known, under) = heir h e in (h, rw e at above, under, known)
      ]

  -- A quorum has a member, so that a decided proposal was sent.
  sent-Decided : (b : ProposalId) (v : Text) → Decided b v → SentAccept members s b v
  unfolding contains
  sent-Decided b v ([], distinct, size, votes) = absurd (let z : q ≡ 0 = sym size in omega arith)
  sent-Decided b v (u ∷ us, distinct, size, votes) =
      let same : (u == u) ≡ true = ground arith in
      let (_, _, known) = accepted_accept u b v (votes u (rw same)) in known

  -- Every proposal from the decided one on has its value.
  keeps_value :
      (b : ProposalId) (v : Text)
      → Decided b v
      → (c : ProposalId) → before c b ≡ false
      → (w : Text) → SentAccept members s c w
      → w ≡ v
  keeps_value b v decided =
      before_induction (λ c. before c b ≡ false → (w : Text) → SentAccept members s c w → w ≡ v)
        (λ c below above w sent. elim (same_or_below b c above) [
          | inl same ↦
              one_value c w v sent
                (subst (λ id. SentAccept members s id v) same (sent-Decided b v decided))
          | inr later ↦
              let (h, high, under, known) = inherited b c v w decided later sent in
              below h under high w known
        ])

  -- Two decided values are one.
  pub Decided-once : (b c : ProposalId) (v w : Text) → Decided b v → Decided c w → v ≡ w
  Decided-once b c v w first second = elim (Bool-cases (before c b)) [
    | inr e ↦ sym (keeps_value b v first c e w (sent-Decided c w second))
    | inl e ↦ keeps_value c w second b (before_asymm c b e) v (sent-Decided b v first)
  ]

module _ (members : List ℕ) (q : ℕ) (s : System) where
  decided_of :
      AllFine members s q
      → (u : ℕ) (v : Text) → contains u members ≡ true
      → (s u).node.learner.final_value ≡ some v
      → (id : ProposalId) × (us : List ℕ) × Distinct us
        × (length us ≡ q)
        × ((w : ℕ) → contains w us ≡ true → SentAccepted members s (vote w id v))
  decided_of fine u v in_ e =
      let (heard, same, sent) = (fine u in_).learned in
      let (id, us, distinct, size, votes) = hear-final_value u q heard v (rw same at e) in
      (id, us, distinct, size, λ w here. sent (vote w id v) (votes w here))

-- Agreement. In every state that a network of instances can reach, where messages are lost, repeated
-- and reordered and any node prepares and proposes at any time, two nodes whose learners have final
-- values have the same one. The quorum is more than half of the members.
pub final_value_agrees :
    (members : List ℕ) (q : ℕ) (s : System)
    → length members < q + q
    → Reachable members q s
    → (a b : ℕ) (v w : Text) → contains a members ≡ true
    → contains b members ≡ true
    → (s a).node.learner.final_value ≡ some v
    → (s b).node.learner.final_value ≡ some w
    → v ≡ w
final_value_agrees members q s minority reachable a b v w a_in b_in a_final b_final =
    let fine = Reachable-AllFine members q s reachable in
    let (id, us, d, size, votes) = decided_of members q s fine a v a_in a_final in
    let (id', us', d', size', votes') = decided_of members q s fine b w b_in b_final in
    Decided-once members q minority s fine id id' v w (us, d, size, votes) (us', d', size', votes')
