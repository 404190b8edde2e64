-- ===== src/Paxos/Network/Liveness.antt =====
-- What a proposal, once it is promised by a quorum, brings about: the Accept message of the proposer.
use krafters.Prelude.{
  ℕ, suc, ◌+◌, ◌≡◌, refl, sym, ap, ◌∙◌, inl, inr, true, false, List, [], ◌∷◌, ◌++◌, Option, some,
  Bool-cases, ◌==◌, arith, length, length-append,
}
use mathlib.Core.Path.{subst}
use krafters.Text.{Text}
use krafters.Sets.{contains}
use krafters.Paxos.Messages.{
  Among, ProposalId, before_opt, Promise, Message, prepare, promise, accept, accepted, returns,
}
use krafters.Paxos.Messages.Order.{before_opt_irrefl}
use krafters.Paxos.Acceptor
use krafters.Paxos.Acceptor.{Acceptor}
use krafters.Paxos.Proposer.{receive_promise}
use krafters.Paxos.Proposer.Leads.{
  Waiting, observe_same, receive_promise-Waiting, receive_promise-sends,
}
use krafters.Paxos.Learner.Tallies.{Distinct, vote}
use krafters.Paxos.Learner.Complete.{other}
use krafters.Paxos.Instance
use krafters.Paxos.Instance.{Instance}
use krafters.Paxos.Network.{System, hears, act, sent_of, moved, turn}
use krafters.Paxos.Network.Members.{contains-append}
use krafters.Paxos.Network.Progress.{
  Grows, turn_at, turn_elsewhere, turn-Grows, Continues, goes, in_later,
}

abbrev pub prepare_msg : ℕ → ProposalId → Message
prepare_msg x id = prepare (record { from_uid = x; proposal_id = id })

abbrev pub promise_msg : ℕ → ℕ → ProposalId → Option ProposalId → Option Text → Promise
promise_msg u x id last value = record {
  from_uid = u;
  proposer_uid = x;
  proposal_id = id;
  last_accepted_id = last;
  last_accepted_value = value;
}

abbrev pub accept_by : ℕ → ProposalId → Text → Message
accept_by p id v = accept (record { from_uid = p; proposal_id = id; proposal_value = v })

-- The node has promised the proposal, and has said so.
abbrev pub HasPromised : ℕ → ProposalId → ℕ → Acceptor → List Message → Type 0
HasPromised x id u a log =
    (a.promised_id ≡ some id)
    × (last : Option ProposalId) × (value : Option Text) × Among
        (promise (promise_msg u x id last value)) log

pub promises_it :
    (x : ℕ) (id : ProposalId) (u : ℕ) (n : Instance) (log : List Message)
    → n.acceptor.network_uid ≡ u
    → before_opt (some id) n.acceptor.promised_id ≡ false
    → let r = act (hears (prepare_msg x id)) n in
      HasPromised x id u r.1.acceptor (sent_of r.0 ++ log)
unfolding act Instance.receive Instance.receive_prepare Acceptor.receive_prepare sent_of
promises_it x id u n log named free =
    rw (free, Acceptor.receive_prepare)
      (
        refl,
        n.acceptor.accepted_id,
        n.acceptor.accepted_value,
        inl (
            ap (λ u. promise (promise_msg u x id n.acceptor.accepted_id n.acceptor.accepted_value))
              named),
      )

-- The node has accepted the proposal, and has said so.
abbrev pub HasAccepted : ProposalId → Text → ℕ → Acceptor → List Message → Type 0
HasAccepted id v u a log = Among (accepted (vote u id v)) log

pub accepts_it :
    (p : ℕ) (id : ProposalId) (v : Text) (u : ℕ) (n : Instance) (log : List Message)
    → n.acceptor.network_uid ≡ u
    → n.acceptor.promised_id ≡ some id
    → let r = act (hears (accept_by p id v)) n in
      HasAccepted id v u r.1.acceptor (sent_of r.0 ++ log)
unfolding act Instance.receive Instance.receive_accept Acceptor.receive_accept sent_of
accepts_it p id v u n log named promised =
    let free : before_opt (some id) n.acceptor.promised_id ≡ false =
      rw promised (before_opt_irrefl (some id)) in
    rw (free, Acceptor.receive_accept) (inl (ap (λ u. accepted (vote u id v)) named))

pub prepare-Waiting :
    (q p x : ℕ) (id : ProposalId) (n : Instance)
    → Waiting p q id [] n.proposer
    → Waiting p q id [] (act (hears (prepare_msg x id)) n).1.proposer
unfolding act Instance.receive Instance.receive_prepare
prepare-Waiting q p x id n h =
    subst (Waiting p q id []) (sym (observe_same id n.proposer h.highest)) h

pub prepare-learner :
    (x : ℕ) (id : ProposalId) (n : Instance)
    → (act (hears (prepare_msg x id)) n).1.learner ≡ n.learner
unfolding act Instance.receive Instance.receive_prepare
prepare-learner x id n = refl

pub accept-learner :
    (p : ℕ) (id : ProposalId) (v : Text) (n : Instance)
    → (act (hears (accept_by p id v)) n).1.learner ≡ n.learner
unfolding act Instance.receive Instance.receive_accept
accept-learner p id v n = refl

fresh :
    (done : List ℕ) (u w : ℕ)
    → contains w done ≡ false
    → (u == w) ≡ false
    → contains w (done ++ u ∷ []) ≡ false
fresh done u w new apart = elim (Bool-cases (contains w (done ++ u ∷ []))) [
  | inr e ↦ e
  | inl e ↦ elim (contains-append w u done e) [
    | inl old ↦ absurd (cc (old, new))
    | inr eq ↦ absurd (ground arith)
  ]
]

-- The proposer has heard all promises, and has sent an Accept message.
pub record Led (members : List ℕ) (start : System) (p : ℕ) (id : ProposalId) (s : System)
    : Type 0 where
  pub after : System
  pub reached : Continues members start after
  pub grows : Grows s after
  pub learners : (w : ℕ) → (after w).node.learner ≡ (s w).node.learner
  pub acceptors : (w : ℕ) → (after w).node.acceptor ≡ (s w).node.acceptor
  pub value : Text
  pub sent : Among (accept_by p id value) (after p).log

module _ (members : List ℕ) (start : System) (q p x : ℕ) (id : ProposalId)
    (proposer : contains p members ≡ true) where
  -- What the proposer's turn at a promise leaves alone.
  turn-learner :
      (msg : Promise) (s : System) (w : ℕ)
      → (turn p (hears (promise msg)) s w).node.learner ≡ (s w).node.learner
  unfolding moved act Instance.receive
  turn-learner msg s w = elim (Bool-cases (w == p)) [
    | inr e ↦ rw (turn_elsewhere p (hears (promise msg)) s w e) refl
    | inl e ↦ let eq : w ≡ p = ground arith in rw (eq, turn_at p (hears (promise msg)) s) refl
  ]

  turn-acceptor :
      (msg : Promise) (s : System) (w : ℕ)
      → (turn p (hears (promise msg)) s w).node.acceptor ≡ (s w).node.acceptor
  unfolding moved act Instance.receive
  turn-acceptor msg s w = elim (Bool-cases (w == p)) [
    | inr e ↦ rw (turn_elsewhere p (hears (promise msg)) s w e) refl
    | inl e ↦ let eq : w ≡ p = ground arith in rw (eq, turn_at p (hears (promise msg)) s) refl
  ]

  turn-proposer :
      (msg : Promise) (s : System)
      → (turn p (hears (promise msg)) s p).node.proposer
        ≡ (receive_promise msg (s p).node.proposer).1
  unfolding moved act Instance.receive
  turn-proposer msg s = rw (turn_at p (hears (promise msg)) s) refl

  turn-log :
      (msg : Promise) (s : System) (m : Message)
      → (receive_promise msg (s p).node.proposer).0 ≡ returns m
      → Among m (turn p (hears (promise msg)) s p).log
  unfolding moved act Instance.receive sent_of
  turn-log msg s m e = rw (turn_at p (hears (promise msg)) s, e, moved) (inl refl)

  abbrev pub Promises : System → ℕ → Type 0
  Promises s u =
      (last : Option ProposalId) × (value : Option Text) × Among
        (promise (promise_msg u x id last value)) (s u).log

  pub collect :
      (done : List ℕ) (u : ℕ) (todo : List ℕ) (s : System)
      → Continues members start s
      → Distinct (u ∷ todo)
      → ((w : ℕ) → contains w (u ∷ todo) ≡ true → contains w members ≡ true)
      → ((w : ℕ) → contains w (u ∷ todo) ≡ true → contains w done ≡ false)
      → Waiting p q id done (s p).node.proposer
      → ((w : ℕ) → contains w (u ∷ todo) ≡ true → Promises s w)
      → length done + suc (length todo) ≡ q
      → Led members start p id s
  unfolding contains
  collect done u [] s reached distinct ins new waiting promised size =
      let self : (u == u) ≡ true = ground arith in
      let here : contains u (u ∷ []) ≡ true = rw self refl in
      let (last, value, sent) = promised u here in
      let msg = promise_msg u x id last value in
      let full : (length (done ++ u ∷ []) == q) ≡ true =
        ground (arith, length-append {0} done (u ∷ [])) in
      let (v, reply) =
        receive_promise-sends p q id done msg (s p).node.proposer waiting refl (new u here) full in
      record {
        after = turn p (hears (promise msg)) s;
        reached = goes p (hears (promise msg)) s proposer (u, ins u here, sent) reached;
        grows = turn-Grows p (hears (promise msg)) s;
        learners = turn-learner msg s;
        acceptors = turn-acceptor msg s;
        value = v;
        sent = turn-log msg s (accept_by p id v) reply;
      }
  collect done u (u' ∷ todo) s reached (alone, distinct) ins new waiting promised size =
      let self : (u == u) ≡ true = ground arith in
      let here : contains u (u ∷ u' ∷ todo) ≡ true = rw self refl in
      let (last, value, sent) = promised u here in
      let msg = promise_msg u x id last value in
      let short : (length (done ++ u ∷ []) == q) ≡ false =
        ground (arith, length-append {0} done (u ∷ [])) in
      let s' = turn p (hears (promise msg)) s in
      let rest =
        collect (done ++ u ∷ []) u' todo s'
          (goes p (hears (promise msg)) s proposer (u, ins u here, sent) reached) distinct
          (λ w later. ins w (in_later u w (u' ∷ todo) later))
          (λ w later.
            fresh done u w (new w (in_later u w (u' ∷ todo) later))
              (other u w (u' ∷ todo) alone later))
          (subst (Waiting p q id (done ++ u ∷ [])) (sym (turn-proposer msg s)) (
            receive_promise-Waiting p q id done msg (s p).node.proposer waiting refl (new u here)
              short))
          (λ w later.
            let (last, value, sent) = promised w (in_later u w (u' ∷ todo) later) in
            (last, value, turn-Grows p (hears (promise msg)) s w _ sent))
          (omega (arith, length-append {0} done (u ∷ []))) in
      record {
        after = rest.after;
        reached = rest.reached;
        grows = λ w m old. rest.grows w m (turn-Grows p (hears (promise msg)) s w m old);
        learners = λ w. rest.learners w ∙ turn-learner msg s w;
        acceptors = λ w. rest.acceptors w ∙ turn-acceptor msg s w;
        value = rest.value;
        sent = rest.sent;
      }
