-- ===== src/Paxos/Network/Sites.antt =====
-- What holds of each node of a network, relative to what all members have sent.
use krafters.Prelude.{
  ◌⊎◌, ℕ, ◌≡◌, refl, sym, ap, ◌∙◌, inl, inr, true, List, [], ◌∷◌, ◌++◌, Option, none, some,
}
use mathlib.Core.Path.{subst}
use krafters.Text.{Text}
use krafters.Sets.{contains}
use krafters.Paxos.Messages.{Among, ProposalId, Promise, Accept, Accepted, Message}
use krafters.Paxos.Proposer.{Proposer}
use krafters.Paxos.Learner.{Learner, new_learner, hear, receive_accepted}
use krafters.Paxos.Network.{Site, System, joined, only, promises, accepts, accepteds}
use krafters.Paxos.Network.Acceptors.{Kept, Kept-mono}
use krafters.Paxos.Network.Proposers.{Proposing, Promised, Quorate}

module _ {A : Type 0} (f : Message → Option A) where
  joined-later : (o : Option A) (x : A) (xs : List A) → Among x xs → Among x (joined o xs)
  unfolding joined
  joined-later none x xs here = here
  joined-later (some y) x xs here = inr here

  pub only-Among :
      (m : Message) (x : A) (log : List Message) → f m ≡ some x → Among m log → Among x (only f log)
  unfolding only joined
  only-Among m x [] e here = absurd here
  only-Among m x (y ∷ log) e (inl same) = rw (same, e) (inl refl)
  only-Among m x (y ∷ log) e (inr later) = joined-later (f y) x _ (only-Among m x log e later)

  pub only-more :
      (ms log : List Message) (x : A) → Among x (only f log) → Among x (only f (ms ++ log))
  unfolding only
  only-more [] log x here = here
  only-more (m ∷ ms) log x here = joined-later (f m) x _ (only-more ms log x here)

module _ (members : List ℕ) where
  -- A member has sent an Accept message for the proposal with the value.
  abbrev pub SentAccept : System → ProposalId → Text → Type 0
  SentAccept s id v =
      (w : ℕ) × (contains w members ≡ true)
      × (x : Accept) × Among x (accepts (s w).log)
      × (x.proposal_id ≡ id)
      × (x.proposal_value ≡ v)

  -- The member `w` has sent a Promise message for the proposal, which reports `last`.
  abbrev pub SentPromise : System → ℕ → ProposalId → Option ProposalId → Type 0
  SentPromise s w id last =
      (contains w members ≡ true)
      × (p : Promise) × Among p (promises (s w).log)
      × (p.proposal_id ≡ id)
      × (p.last_accepted_id ≡ last)

  abbrev pub SentAccepted : System → Accepted → Type 0
  SentAccepted s x = (w : ℕ) × (contains w members ≡ true) × Among x (accepteds (s w).log)

  -- The learner has heard Accepted messages that members have sent.
  abbrev pub Learned : System → ℕ → ℕ → Learner → Type 0
  Learned s q u l =
      (heard : List Accepted) × (l ≡ hear heard (new_learner u q))
      × ((x : Accepted) → Among x heard → SentAccepted s x)

  pub record Fine (s : System) (q u : ℕ) (site : Site) : Type 0 where
    pub kept : Kept (SentAccept s) u site.node.acceptor (promises site.log) (accepteds site.log)
    pub proposing :
        Proposing (SentAccept s) (SentPromise s) q u site.node.proposer (accepts site.log)
    pub learned : Learned s q u site.node.learner

  abbrev pub AllFine : System → ℕ → Type 0
  AllFine s q = (u : ℕ) → contains u members ≡ true → Fine s q u (s u)

  -- No message is taken back.
  pub record More (s s' : System) : Type 0 where
    pub more_promises :
        (w : ℕ) (x : Promise) → Among x (promises (s w).log) → Among x (promises (s' w).log)
    pub more_accepts :
        (w : ℕ) (x : Accept) → Among x (accepts (s w).log) → Among x (accepts (s' w).log)
    pub more_accepteds :
        (w : ℕ) (x : Accepted) → Among x (accepteds (s w).log) → Among x (accepteds (s' w).log)

  module _ (s s' : System) (more : More s s') (q : ℕ) where
    still_accept : (id : ProposalId) (v : Text) → SentAccept s id v → SentAccept s' id v
    still_accept id v (w, member, x, here, own, value) =
        (w, member, x, more.more_accepts w x here, own, value)

    still-Promised :
        (id : ProposalId) (high : Option ProposalId) (w : ℕ)
        → Promised (SentAccept s) (SentPromise s) q id high w
        → Promised (SentAccept s') (SentPromise s') q id high w
    still-Promised id high w (last, (member, p, here, own, told), low) =
        (last, (member, p, more.more_promises w p here, own, told), low)

    still-Quorate :
        (id : ProposalId) (v : Text)
        → Quorate (SentAccept s) (SentPromise s) q id v
        → Quorate (SentAccept s') (SentPromise s') q id v
    still-Quorate id v (us, high, distinct, size, promised, heir) = (
      us,
      high,
      distinct,
      size,
      λ w here. still-Promised id high w (promised w here),
      λ h e. let (known, below) = heir h e in (still_accept h v known, below),
    )

    still-Proposing :
        (u : ℕ) (p : Proposer) (xs : List Accept)
        → Proposing (SentAccept s) (SentPromise s) q u p xs
        → Proposing (SentAccept s') (SentPromise s') q u p xs
    still-Proposing u p xs h = record {
      named = h.named;
      size = h.size;
      own = h.own;
      high = h.high;
      low = h.low;
      current = h.current;
      one = h.one;
      backed = λ x among. still-Quorate x.proposal_id x.proposal_value (h.backed x among);
      adopted = λ id e.
          let (v, value, known, below) = h.adopted id e in
          (v, value, still_accept id v known, below);
      gathered = λ us e.
          let (distinct, promised) = h.gathered us e in
          (
            distinct,
            λ w here. still-Promised p.proposal_id p.highest_accepted_id w (promised w here),
          );
      leads = h.leads;
    }

    pub Fine-mono : (u : ℕ) (site : Site) → Fine s q u site → Fine s' q u site
    Fine-mono u site h = record {
      kept =
          Kept-mono (SentAccept s) (SentAccept s') u site.node.acceptor (promises site.log)
            (accepteds site.log) still_accept h.kept;
      proposing = still-Proposing u site.node.proposer (accepts site.log) h.proposing;
      learned =
          let (heard, same, sent) = h.learned in
          (
            heard,
            same,
            λ x among.
                let (w, member, here) = sent x among in (w, member, more.more_accepteds w x here),
          );
    }

hear-append :
    (xs : List Accepted) (x : Accepted) (l : Learner)
    → hear (xs ++ x ∷ []) l ≡ (receive_accepted x (hear xs l)).1
unfolding hear
hear-append [] x l = refl
hear-append (y ∷ xs) x l = hear-append xs x (receive_accepted y l).1

Among-append :
    (y : Accepted) (xs : List Accepted) (x : Accepted)
    → Among y (xs ++ x ∷ [])
    → Among y xs ⊎ (x ≡ y)
Among-append y [] x (inl e) = inr e
Among-append y [] x (inr later) = elim later [ ]
Among-append y (z ∷ xs) x (inl e) = inl (inl e)
Among-append y (z ∷ xs) x (inr later) = elim (Among-append y xs x later) [
  | inl old ↦ inl (inr old)
  | inr e ↦ inr e
]

-- One more message for a learner.
pub receive_accepted-Learned :
    (members : List ℕ) (s : System) (q u : ℕ) (l : Learner) (x : Accepted)
    → SentAccepted members s x
    → Learned members s q u l
    → Learned members s q u (receive_accepted x l).1
receive_accepted-Learned members s q u l x new (heard, same, sent) = (
  heard ++ x ∷ [],
  ap (λ l. (receive_accepted x l).1) same ∙ sym (hear-append heard x (new_learner u q)),
  λ y among. elim (Among-append y heard x among) [
    | inl old ↦ sent y old
    | inr e ↦ subst (SentAccepted members s) e new
  ],
)
