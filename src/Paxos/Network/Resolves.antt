-- ===== src/Paxos/Network/Resolves.antt =====
-- A proposer whose messages reach a quorum gets a learner to a final value.
use krafters.Prelude.{
  ℕ, suc, ◌+◌, ◌≡◌, refl, sym, ap, ◌∙◌, inl, inr, true, false, List, [], ◌∷◌, some, Bool-cases,
  ◌==◌, arith, length,
}
use mathlib.Core.Path.{subst}
use krafters.Text.{Text}
use krafters.Sets.{contains}
use krafters.Paxos.Messages.{Among, ProposalId, before_opt, accepted}
use krafters.Paxos.Acceptor.{Acceptor}
use krafters.Paxos.Proposer.{Proposer, next_id, prepare_next}
use krafters.Paxos.Proposer.Leads.{Waiting}
use krafters.Paxos.Learner.{new_learner, receive_accepted}
use krafters.Paxos.Learner.Tallies.{Distinct, vote}
use krafters.Paxos.Learner.Complete.{
  Counting, new_learner-Counting, votes-Counting, votes-final_value,
}
use krafters.Paxos.Instance
use krafters.Paxos.Network.{System, hears, prepares, act, sent_of, moved, turn, Reachable}
use krafters.Paxos.Network.Turns.{Reachable-AllFine}
use krafters.Paxos.Network.Progress.{
  turn_at, turn_elsewhere, turn-Grows, Continues, stays, goes, Round, all_hear, in_later,
}
use krafters.Paxos.Network.Liveness.{
  prepare_msg, accept_by, HasPromised, promises_it, HasAccepted, accepts_it, prepare-Waiting,
  prepare-learner, accept-learner, Led, collect,
}

module _ (members : List ℕ) (start : System) (q l : ℕ) (id : ProposalId) (v : Text)
    (learner : contains l members ≡ true) where
  vote-learner :
      (u : ℕ) (s : System)
      → (turn l (hears (accepted (vote u id v))) s l).node.learner
        ≡ (receive_accepted (vote u id v) (s l).node.learner).1
  unfolding moved act Instance.receive
  vote-learner u s = rw (turn_at l (hears (accepted (vote u id v))) s) refl

  -- The learner hears the votes of a quorum.
  listen :
      (n u : ℕ) (todo : List ℕ) (s : System)
      → Continues members start s
      → Distinct (u ∷ todo)
      → ((w : ℕ) → contains w (u ∷ todo) ≡ true → contains w members ≡ true)
      → Counting q id v n (u ∷ todo) (s l).node.learner
      → ((w : ℕ) → contains w (u ∷ todo) ≡ true → Among (accepted (vote w id v)) (s w).log)
      → n + suc (length todo) ≡ q
      → (s' : System) × Continues members start s' × ((s' l).node.learner.final_value ≡ some v)
  unfolding contains
  listen n u [] s reached distinct ins counting voted size =
      let self : (u == u) ≡ true = ground arith in
      let here : contains u (u ∷ []) ≡ true = rw self refl in
      let full : (suc n == q) ≡ true = ground arith in
      (
        turn l (hears (accepted (vote u id v))) s,
        goes l (hears (accepted (vote u id v))) s learner (u, ins u here, voted u here) reached,
        ap (λ l. l.final_value) (vote-learner u s)
            ∙ votes-final_value q id v n u [] (s l).node.learner counting full,
      )
  listen n u (u' ∷ todo) s reached (alone, distinct) ins counting voted size =
      let self : (u == u) ≡ true = ground arith in
      let here : contains u (u ∷ u' ∷ todo) ≡ true = rw self refl in
      let short : (suc n == q) ≡ false = ground arith in
      let s' = turn l (hears (accepted (vote u id v))) s in
      listen (suc n) u' todo s'
        (goes l (hears (accepted (vote u id v))) s learner (u, ins u here, voted u here) reached)
        distinct (λ w later. ins w (in_later u w (u' ∷ todo) later))
        (subst (Counting q id v (suc n) (u' ∷ todo)) (sym (vote-learner u s))
          (votes-Counting q id v n u (u' ∷ todo) (s l).node.learner alone counting short))
        (λ w later.
          turn-Grows l (hears (accepted (vote u id v))) s w _
            (voted w (in_later u w (u' ∷ todo) later)))
        (omega arith)

-- What `prepare` of a member does to the network.
module _ (p : ℕ) (s : System) where
  abbrev own : Proposer
  own = (s p).node.proposer

  prepared-learner : (w : ℕ) → (turn p prepares s w).node.learner ≡ (s w).node.learner
  unfolding moved act
  prepared-learner w = elim (Bool-cases (w == p)) [
    | inr e ↦ rw (turn_elsewhere p prepares s w e) refl
    | inl e ↦ let eq : w ≡ p = ground arith in rw (eq, turn_at p prepares s) refl
  ]

  prepared-acceptor : (w : ℕ) → (turn p prepares s w).node.acceptor ≡ (s w).node.acceptor
  unfolding moved act
  prepared-acceptor w = elim (Bool-cases (w == p)) [
    | inr e ↦ rw (turn_elsewhere p prepares s w e) refl
    | inl e ↦ let eq : w ≡ p = ground arith in rw (eq, turn_at p prepares s) refl
  ]

  prepared-log : Among (prepare_msg own.network_uid (next_id own)) (turn p prepares s p).log
  unfolding moved act prepare_next sent_of
  prepared-log = rw (turn_at p prepares s) (inl refl)

  prepared-proposer : (turn p prepares s p).node.proposer ≡ (prepare_next own).1
  unfolding moved act
  prepared-proposer = rw (turn_at p prepares s) refl

  prepared-Waiting :
      (q : ℕ) (v : Text)
      → own.network_uid ≡ p
      → own.quorum_size ≡ q
      → own.proposed_value ≡ some v
      → Waiting p q (next_id own) [] (turn p prepares s p).node.proposer
  unfolding prepare_next
  prepared-Waiting q v named size value =
      subst (Waiting p q (next_id own) []) (sym prepared-proposer) (record {
        named = named;
        follows = refl;
        current = refl;
        highest = refl;
        size = size;
        heard = refl;
        value = v;
        proposed = value;
      })

module _ (members : List ℕ) (q : ℕ) (s : System) (p u : ℕ) (us : List ℕ) (v : Text)
    (reachable : Reachable members q s) (proposer : contains p members ≡ true)
    (distinct : Distinct (u ∷ us)) (size : length (u ∷ us) ≡ q)
    (ins : (w : ℕ) → contains w (u ∷ us) ≡ true → contains w members ≡ true)
    (value : (s p).node.proposer.proposed_value ≡ some v)
    (free : (w : ℕ)
      → contains w (u ∷ us) ≡ true
      → before_opt (some (next_id (s p).node.proposer)) (s w).node.acceptor.promised_id
        ≡ false) where
  abbrev x : ℕ
  x = (s p).node.proposer.network_uid

  abbrev id : ProposalId
  id = next_id (s p).node.proposer

  -- The quorum hears the Prepare message.
  prepare_round :
      Round members s p (Waiting p q id []) (HasPromised x id) (u ∷ us) (turn p prepares s)
  prepare_round =
      let fine = Reachable-AllFine members q s reachable p proposer in
      all_hear members q p s reachable (prepare_msg x id) (Waiting p q id [])
        (λ w a. before_opt (some id) a.promised_id ≡ false) (HasPromised x id) (promises_it x id)
        (prepare-learner x id) (prepare-Waiting q p x id)
        (λ w a log log' more (promised, last, value, here). (promised, last, value, more _ here))
        (u ∷ us) (turn p prepares s) (goes p prepares s proposer tt stays) distinct ins
        (p, proposer, prepared-log p s)
        (prepared-Waiting p s q v fine.proposing.named fine.proposing.size value)
        (λ w here.
          subst (λ (a : Acceptor). before_opt (some id) a.promised_id ≡ false)
            (sym (prepared-acceptor p s w)) (free w here))

  -- The proposer hears the promises.
  promise_round : Led members s p id prepare_round.after
  unfolding contains
  promise_round =
      collect members s q p x id proposer [] u us prepare_round.after prepare_round.reached distinct
        ins (λ w here. refl) prepare_round.keeps
        (λ w here.
          let (promised, last, value, sent) = prepare_round.done w here in (last, value, sent))
        (omega (arith, size))

  -- The quorum hears the Accept message.
  accept_round :
      Round members s p
        (λ n. Unit {0})
        (HasAccepted id promise_round.value)
        (u ∷ us)
        promise_round.after
  accept_round =
      all_hear members q p s reachable (accept_by p id promise_round.value) (λ n. Unit {0})
        (λ w a. a.promised_id ≡ some id) (HasAccepted id promise_round.value)
        (accepts_it p id promise_round.value) (accept-learner p id promise_round.value)
        (λ n keep. tt) (λ w a log log' more here. more _ here) (u ∷ us) promise_round.after
        promise_round.reached distinct ins (p, proposer, promise_round.sent) tt
        (λ w here.
          ap (λ (a : Acceptor). a.promised_id) (promise_round.acceptors w)
          ∙ (prepare_round.done w here).0)

  -- The votes reach the learner.
  accepted_round :
      (l : ℕ)
      → contains l members ≡ true
      → (s l).node.learner ≡ new_learner l q
      → (s' : System) × Continues members s s'
        × ((s' l).node.learner.final_value ≡ some promise_round.value)
  accepted_round l learner unheard =
      let same =
        accept_round.learners l
        ∙ promise_round.learners l
        ∙ prepare_round.learners l
        ∙ prepared-learner p s l
        ∙ unheard in
      listen members s q l id promise_round.value learner 0 u us accept_round.after
        accept_round.reached distinct ins
        (subst (Counting q id promise_round.value 0 (u ∷ us)) (sym same)
          (new_learner-Counting q id promise_round.value l (u ∷ us)))
        accept_round.done (omega (arith, size))

-- Progress. From every state that a network of instances can reach, let a member have a value to
-- propose, let a quorum of distinct members have promised nothing above the id that it takes next, and
-- let some member's learner have heard nothing. Then the network can go on to a state in which this
-- learner has a final value.
pub final_value_reached :
    (members : List ℕ) (q : ℕ) (s : System) (p l u : ℕ) (us : List ℕ) (v : Text)
    → Reachable members q s
    → contains p members ≡ true
    → contains l members ≡ true
    → Distinct (u ∷ us)
    → length (u ∷ us) ≡ q
    → ((w : ℕ) → contains w (u ∷ us) ≡ true → contains w members ≡ true)
    → (s p).node.proposer.proposed_value ≡ some v
    → ((w : ℕ)
        → contains w (u ∷ us) ≡ true
        → before_opt (some (next_id (s p).node.proposer)) (s w).node.acceptor.promised_id ≡ false)
    → (s l).node.learner ≡ new_learner l q
    → (s' : System) × Continues members s s'
      × (w : Text) × ((s' l).node.learner.final_value ≡ some w)
final_value_reached members q s p l u us v reachable proposer learner distinct size ins value free
      unheard =
    let (s', reached, final) =
      accepted_round members q s p u us v reachable proposer distinct size ins value free l learner
        unheard in
    (s', reached, _, final)
