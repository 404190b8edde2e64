-- ===== src/Paxos/Learner/Complete.antt =====
-- A learner that hears a quorum has a final value.
use krafters.Prelude.{
  ℕ, suc, ◌≡◌, refl, sym, ap, ◌∙◌, inl, inr, true, false, List, [], ◌∷◌, none, some, Bool-cases,
  ◌==◌, arith,
}
use mathlib.Core.Path.{subst}
use krafters.Text.{Text, text_eq, text_eq_refl}
use krafters.Sets.{contains}
use krafters.Dict.{find, put, find-put_same, find-put_other}
use krafters.Paxos.Messages.{ProposalId, same_id, before_opt}
use krafters.Paxos.Messages.Order.{same_id_refl}
use krafters.Paxos.Learner.{
  Learner, ProposalStatus, Proposals, new_learner, leave_last, status_of, counted, count_accepted,
  count_new, tally, receive_open, receive_by, receive_accepted,
}
use krafters.Paxos.Learner.Tallies.{vote, same_number}

pub other :
    (u w : ℕ) (left : List ℕ) → contains u left ≡ false → contains w left ≡ true → (u == w) ≡ false
other u w left alone here = elim (Bool-cases (u == w)) [
  | inr e ↦ e
  | inl e ↦ let eq : u ≡ w = ground arith in absurd (cc (ap (λ x. contains x left) eq, alone, here))
]

module _ (q : ℕ) (id : ProposalId) (v : Text) where
  -- The learner has counted `n` votes for the proposal, and none of the nodes in `left` has voted.
  pub record Counting (n : ℕ) (left : List ℕ) (l : Learner) : Type 0 where
    pub open_ : l.final_value ≡ none
    pub size : l.quorum_size ≡ q
    pub accs : List (ℕ × ProposalId)
    pub accs_eq : l.acceptors ≡ some accs
    pub props : Proposals
    pub props_eq : l.proposals ≡ some props
    pub unheard : (w : ℕ) → contains w left ≡ true → find ◌==◌ w accs ≡ none
    pub count : (status_of (vote 0 id v) props).accept_count ≡ n
    pub value : (status_of (vote 0 id v) props).value ≡ v

  pub new_learner-Counting : (u : ℕ) (left : List ℕ) → Counting 0 left (new_learner u q)
  unfolding new_learner status_of
  new_learner-Counting u left = record {
    open_ = refl;
    size = refl;
    accs = [];
    accs_eq = refl;
    props = [];
    props_eq = refl;
    unheard = λ w here. refl;
    count = refl;
    value = refl;
  }

  hears_vote :
      (n u : ℕ) (left : List ℕ) (l : Learner) (accs : List (ℕ × ProposalId)) (props : Proposals)
      → l.final_value ≡ none
      → l.acceptors ≡ some accs
      → l.proposals ≡ some props
      → find ◌==◌ u accs ≡ none
      → receive_accepted (vote u id v) l
        ≡ count_accepted
            (vote u id v)
            (status_of (vote u id v) props)
            props
            (record l { acceptors = some (put ◌==◌ u id accs) })
  unfolding receive_accepted receive_by receive_open tally count_new leave_last before_opt
  hears_vote n u left l accs props undecided a p new =
      rw (undecided, receive_accepted, receive_by, a, p, receive_open, new, tally) refl

  -- The end of receive_accepted, on a status with the vote's value.
  counts_full :
      (u : ℕ) (ps : ProposalStatus) (props : Proposals) (l : Learner)
      → ps.value ≡ v
      → (suc ps.accept_count == l.quorum_size) ≡ true
      → (count_accepted (vote u id v) ps props l).1.final_value ≡ some v
  unfolding count_accepted counted
  counts_full u ps props l value full =
      let same : text_eq v ps.value ≡ true = rw value (text_eq_refl v) in
      rw (same, count_accepted, full) refl

  counts_more :
      (u : ℕ) (ps : ProposalStatus) (props : Proposals) (l : Learner)
      → ps.value ≡ v
      → (suc ps.accept_count == l.quorum_size) ≡ false
      → (count_accepted (vote u id v) ps props l).1
        ≡ record l { proposals = some (put same_id id (counted u ps) props) }
  unfolding count_accepted counted
  counts_more u ps props l value more =
      let same : text_eq v ps.value ≡ true = rw value (text_eq_refl v) in
      rw (same, count_accepted, more) refl

  status_same :
      (u : ℕ) (props : Proposals) → status_of (vote u id v) props ≡ status_of (vote 0 id v) props
  unfolding status_of
  status_same u props = refl

  status_put :
      (u : ℕ) (ps : ProposalStatus) (props : Proposals)
      → status_of (vote u id v) (put same_id id ps props) ≡ ps
  unfolding status_of
  status_put u ps props = rw (find-put_same same_id id ps props (same_id_refl id), status_of) refl

  counted_fields :
      (u n : ℕ) (ps : ProposalStatus)
      → ps.accept_count ≡ n
      → ((counted u ps).accept_count ≡ suc n) × ((counted u ps).value ≡ ps.value)
  unfolding counted
  counted_fields u n ps e = (ap suc e, refl)

  pub votes-Counting :
      (n u : ℕ) (left : List ℕ) (l : Learner)
      → contains u left ≡ false
      → Counting n (u ∷ left) l
      → (suc n == q) ≡ false
      → Counting (suc n) left (receive_accepted (vote u id v) l).1
  unfolding contains
  votes-Counting n u left l alone h more =
      let ps = status_of (vote 0 id v) h.props in
      let accs = put ◌==◌ u id h.accs in
      let self : (u == u) ≡ true = ground arith in
      let step =
        hears_vote n u left l h.accs h.props h.open_ h.accs_eq h.props_eq
          (h.unheard u (rw self refl))
        ∙ ap (λ ps. count_accepted (vote u id v) ps h.props (record l { acceptors = some accs }))
            (status_same u h.props) in
      let short : (suc ps.accept_count == l.quorum_size) ≡ false = rw (h.count, h.size) more in
      let after =
        ap (λ r. r.1) step
        ∙ counts_more u ps h.props (record l { acceptors = some accs }) h.value short in
      let (count, value) = counted_fields u n ps h.count in
      subst (Counting (suc n) left) (sym after) (record {
        open_ = h.open_;
        size = h.size;
        accs = accs;
        accs_eq = refl;
        props = put same_id id (counted u ps) h.props;
        props_eq = refl;
        unheard = λ w here.
            let apart : (u == w) ≡ false = other u w left alone here in
            find-put_other ◌==◌ same_number u w id h.accs apart
            ∙ h.unheard w (rw (apart, here) refl);
        count = ap (λ s. s.accept_count) (status_put 0 (counted u ps) h.props) ∙ count;
        value = ap (λ s. s.value) (status_put 0 (counted u ps) h.props) ∙ value ∙ h.value;
      })

  pub votes-final_value :
      (n u : ℕ) (left : List ℕ) (l : Learner)
      → Counting n (u ∷ left) l
      → (suc n == q) ≡ true
      → (receive_accepted (vote u id v) l).1.final_value ≡ some v
  unfolding contains
  votes-final_value n u left l h full =
      let ps = status_of (vote 0 id v) h.props in
      let accs = put ◌==◌ u id h.accs in
      let self : (u == u) ≡ true = ground arith in
      let step =
        hears_vote n u left l h.accs h.props h.open_ h.accs_eq h.props_eq
          (h.unheard u (rw self refl))
        ∙ ap (λ ps. count_accepted (vote u id v) ps h.props (record l { acceptors = some accs }))
            (status_same u h.props) in
      let enough : (suc ps.accept_count == l.quorum_size) ≡ true = rw (h.count, h.size) full in
      ap (λ r. r.1.final_value) step
      ∙ counts_full u ps h.props (record l { acceptors = some accs }) h.value enough
