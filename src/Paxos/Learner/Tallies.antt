-- ===== src/Paxos/Learner/Tallies.antt =====
-- What the dictionaries of a learner stand for: each count has that many acceptors behind it.
use krafters.Prelude.{
  ℕ, suc, ◌≡◌, ◌≢◌, refl, sym, ap, ◌∙◌, inl, inr, true, false, List, [], ◌∷◌, Option, none, some,
  Bool-cases, Option-cases, ◌==◌, arith, length,
}
use krafters.Prelude.Int.{decr}
use mathlib.Core.Path.{subst}
use krafters.Text.{Text}
use krafters.Sets.{contains, discard}
use krafters.Dict.{
  find, put, delete, find-put_same, find-put_other, find-delete_other, find-delete_same,
}
use krafters.Paxos.Messages.{Among, ProposalId, before, same_id, before_opt, Accepted}
use krafters.Paxos.Messages.Order.{
  before_irrefl, at_least_trans, before_asymm, same_id_refl, same_id-≡, same_id_join,
}
use krafters.Paxos.Learner.{ProposalStatus, Proposals, is_zero, retire, leave_last, status_of}

abbrev pub Distinct : List ℕ → Type 0
Distinct [] = Unit {0}
Distinct (x ∷ xs) = (contains x xs ≡ false) × Distinct xs

abbrev pub vote : ℕ → ProposalId → Text → Accepted
vote uid id value = record { from_uid = uid; proposal_id = id; proposal_value = value }

-- The acceptors have sent an Accepted message for the proposal, and none of them is below it in the
-- dictionary of last proposals.
abbrev pub Votes : List Accepted → List (ℕ × ProposalId) → ProposalId → Text → List ℕ → Type 0
Votes all accs id value uids =
    (u : ℕ)
    → contains u uids ≡ true
    → Among (vote u id value) all
      × (q : ProposalId) × (find ◌==◌ u accs ≡ some q)
      × (before q id ≡ false)

-- There are `n` such acceptors.
abbrev pub Backed : List Accepted → List (ℕ × ProposalId) → ProposalId → ℕ → Text → Type 0
Backed all accs id n value =
    (uids : List ℕ) × Distinct uids × (length uids ≡ n) × Votes all accs id value uids

abbrev pub Tallied : List Accepted → List (ℕ × ProposalId) → Proposals → Type 0
Tallied all accs props =
    (k : ProposalId) (st : ProposalStatus)
    → find same_id k props ≡ some st
    → Backed all accs k st.accept_count st.value

pub no_member : (u : ℕ) → contains u [] ≢ true
unfolding contains
no_member u e = cc

pub same_number : (a b c : ℕ) → (a == b) ≡ true → (a == c) ≡ true → (b == c) ≡ true
same_number a b c h g = ground arith

same_number_refl : (a : ℕ) → (a == a) ≡ true
same_number_refl a = ground arith

above_floor : (q id k : ProposalId) → before q id ≡ true → before q k ≡ false → before id k ≡ false
above_floor q id k h g = at_least_trans id q k (before_asymm q id h) g

module _ (all : List Accepted) (accs : List (ℕ × ProposalId)) where
  -- A newer proposal of one acceptor leaves what backs the others.
  pub Votes-put :
      (uid : ℕ) (id k : ProposalId) (value : Text) (uids : List ℕ)
      → before_opt (find ◌==◌ uid accs) (some id) ≡ true
      → Votes all accs k value uids
      → Votes all (put ◌==◌ uid id accs) k value uids
  unfolding before_opt
  Votes-put uid id k value uids newer votes u here =
      let (vote_u, q, known, high) = votes u here in
      elim (Bool-cases (uid == u)) [
        | inr apart ↦ (vote_u, q, find-put_other ◌==◌ same_number uid u id accs apart ∙ known, high)
        | inl same ↦
            let eq : uid ≡ u = ground arith in
            let below : before q id ≡ true = rw (eq, known) at newer in
            (
              vote_u,
              id,
              rw⁻¹ eq (find-put_same ◌==◌ uid id accs (same_number_refl uid)),
              above_floor q id k below high,
            )
      ]

  pub Backed-put :
      (uid : ℕ) (id k : ProposalId) (n : ℕ) (value : Text)
      → before_opt (find ◌==◌ uid accs) (some id) ≡ true
      → Backed all accs k n value
      → Backed all (put ◌==◌ uid id accs) k n value
  Backed-put uid id k n value newer (uids, distinct, size, votes) =
      (uids, distinct, size, Votes-put uid id k value uids newer votes)

  pub Tallied-put :
      (uid : ℕ) (id : ProposalId) (props : Proposals)
      → before_opt (find ◌==◌ uid accs) (some id) ≡ true
      → Tallied all accs props
      → Tallied all (put ◌==◌ uid id accs) props
  Tallied-put uid id props newer h k st e =
      Backed-put uid id k st.accept_count st.value newer (h k st e)

  pub put-Tallied :
      (k : ProposalId) (st : ProposalStatus) (props : Proposals)
      → Tallied all accs props
      → Backed all accs k st.accept_count st.value
      → Tallied all accs (put same_id k st props)
  put-Tallied k st props h backed k' st' e = elim (Bool-cases (same_id k k')) [
    | inr apart ↦ h k' st' (sym (find-put_other same_id same_id_join k k' st props apart) ∙ e)
    | inl same ↦
        let eq : k ≡ k' = same_id-≡ k k' same in
        let here : find same_id k (put same_id k st props) ≡ some st' = rw (← eq) at e in
        let st_eq : st ≡ st' = cc (find-put_same same_id k st props (same_id_refl k), here) in
        subst (λ x. Backed all accs x st'.accept_count st'.value) eq
          (subst (λ x. Backed all accs k x.accept_count x.value) st_eq backed)
  ]

  pub delete-Tallied :
      (k : ProposalId) (props : Proposals)
      → Tallied all accs props
      → Tallied all accs (delete same_id k props)
  delete-Tallied k props h k' st' e = elim (Bool-cases (same_id k k')) [
    | inr apart ↦ h k' st' (sym (find-delete_other same_id same_id_join k k' props apart) ∙ e)
    | inl same ↦
        let eq : k ≡ k' = same_id-≡ k k' same in
        absurd (cc (find-delete_same same_id k props, eq, e))
  ]

  retire-Tallied :
      (uid : ℕ) (last : ProposalId) (ps : ProposalStatus) (props : Proposals)
      → Tallied all accs props
      → find same_id last props ≡ some ps
      → Tallied all accs (retire uid last ps props).1
  unfolding retire
  retire-Tallied uid last ps props h e =
      let backed = h last ps e in
      let fewer = record ps { retain_count = decr ps.retain_count } in
      elim (Bool-cases (contains uid ps.acceptors)) [
        | inr g ↦ rw (g, retire) (put-Tallied last fewer props h backed)
        | inl g ↦ elim (Bool-cases (is_zero (decr ps.retain_count))) [
          | inl z ↦ rw (g, z, retire) (delete-Tallied last props h)
          | inr z ↦
              rw (g, z, retire)
                (put-Tallied last (record fewer { acceptors = discard uid ps.acceptors }) props h
                  backed)
        ]
      ]

  -- What an acceptor leaves behind keeps its counts.
  pub leave_last-Tallied :
      (uid : ℕ) (last : Option ProposalId) (props : Proposals)
      → Tallied all accs props
      → Tallied all accs (leave_last uid last props).1
  unfolding leave_last
  leave_last-Tallied uid none props h = h
  leave_last-Tallied uid (some last) props h = elim (Option-cases (find same_id last props)) [
    | inl e ↦ rw (e, leave_last) h
    | inr (ps, e) ↦ rw (e, leave_last) (retire-Tallied uid last ps props h e)
  ]

  pub status_of-Backed :
      (msg : Accepted) (props : Proposals)
      → Tallied all accs props
      → Backed all accs msg.proposal_id
          (status_of msg props).accept_count
          (status_of msg props).value
  unfolding status_of
  status_of-Backed msg props h = elim (Option-cases (find same_id msg.proposal_id props)) [
    | inl e ↦ rw (e, status_of) ([], tt, refl, λ u here. absurd (no_member u here))
    | inr (ps, e) ↦ rw (e, status_of) (h msg.proposal_id ps e)
  ]

  -- An acceptor whose last proposal is below the message's has not been counted for it.
  not_counted :
      (uid : ℕ) (id : ProposalId) (value : Text) (uids : List ℕ)
      → before_opt (find ◌==◌ uid accs) (some id) ≡ true
      → Votes all accs id value uids
      → contains uid uids ≡ false
  unfolding before_opt
  not_counted uid id value uids newer votes = elim (Bool-cases (contains uid uids)) [
    | inr e ↦ e
    | inl e ↦ let (v, q, known, high) = votes uid e in absurd (cc (rw known at newer, high))
  ]

  -- One more acceptor behind the message's proposal.
  pub Backed-count :
      (msg : Accepted) (n : ℕ)
      → Among msg all
      → before_opt (find ◌==◌ msg.from_uid accs) (some msg.proposal_id) ≡ true
      → Backed all accs msg.proposal_id n msg.proposal_value
      → Backed all
          (put ◌==◌ msg.from_uid msg.proposal_id accs)
          msg.proposal_id
          (suc n)
          msg.proposal_value
  unfolding contains
  Backed-count msg n heard newer backed =
      let uid = msg.from_uid in
      let id = msg.proposal_id in
      let (uids, distinct, size, votes) = backed in
      let new = not_counted uid id msg.proposal_value uids newer votes in
      let kept = Votes-put uid id id msg.proposal_value uids newer votes in
      (
        uid ∷ uids,
        (new, distinct),
        ap suc size,
        λ u here. elim (Bool-cases (uid == u)) [
          | inr apart ↦ kept u (rw (apart) at here)
          | inl same ↦
              let eq : uid ≡ u = ground arith in
              (
                subst (λ x. Among (vote x id msg.proposal_value) all) eq heard,
                id,
                subst (λ x. find ◌==◌ x (put ◌==◌ uid id accs) ≡ some id) eq
                    (find-put_same ◌==◌ uid id accs (same_number_refl uid)),
                before_irrefl id,
              )
        ],
      )
