-- ===== src/Paxos/Network/Tests.antt =====
-- Three nodes, where the nodes 1 and 3 learn the value that the node 1 proposes.
use krafters.Prelude.{
  ℕ, ◌≡◌, refl, inl, inr, true, false, List, [], ◌∷◌, none, some, ◌==◌, Bool-cases, arith,
}
use krafters.Text.{Text, text_eq, codes}
use krafters.Sets.{contains}
use krafters.Paxos.Messages.{
  Message, ProposalId, before_opt, same_id, prepare, promise, accept, accepted,
}
use krafters.Paxos.Network.{
  System, hears, prepares, proposes, turn, initial, Reachable, begins, acts,
}
use krafters.Paxos.Learner.{new_learner}
use krafters.Paxos.Learner.Tallies.{Distinct}
use krafters.Paxos.Network.Agreement.{final_value_agrees}
use krafters.Paxos.Network.Progress.{Continues}
use krafters.Paxos.Network.Resolves.{final_value_reached}

abbrev members : List ℕ
members = 1 ∷ 2 ∷ 3 ∷ []

abbrev id : ProposalId
id = record { number = 1; uid = 1 }

abbrev prepare_one : Message
prepare_one = prepare (record { from_uid = 1; proposal_id = id })

abbrev promise_of : ℕ → Message
promise_of uid = promise (record {
  from_uid = uid;
  proposer_uid = 1;
  proposal_id = id;
  last_accepted_id = none;
  last_accepted_value = none;
})

abbrev accept_one : Message
accept_one = accept (record { from_uid = 1; proposal_id = id; proposal_value = codes "x" })

abbrev accepted_by : ℕ → Message
accepted_by uid = accepted (record { from_uid = uid; proposal_id = id; proposal_value = codes "x" })

abbrev promised : System
promised = turn 1 (hears (promise_of 2)) (
    turn 1 (hears (promise_of 1)) (
      turn 2 (hears prepare_one)
        (turn 1 (hears prepare_one) (turn 1 prepares (turn 1 (proposes (codes "x")) (initial 2))))))

abbrev voted : System
voted = turn 2 (hears accept_one) (turn 1 (hears accept_one) promised)

abbrev learned : System
learned = turn 3 (hears (accepted_by 2)) (
    turn 3 (hears (accepted_by 1))
      (turn 1 (hears (accepted_by 2)) (turn 1 (hears (accepted_by 1)) voted)))

promised-Reachable : Reachable members 2 promised
unfolding contains turn initial
promised-Reachable =
    acts 1 (hears (promise_of 2)) _ refl (2, refl, inl refl)
      (acts 1 (hears (promise_of 1)) _ refl (1, refl, inl refl)
        (acts 2 (hears prepare_one) _ refl (1, refl, inr (inl refl))
          (acts 1 (hears prepare_one) _ refl (1, refl, inl refl)
            (acts 1 prepares _ refl tt (acts 1 (proposes (codes "x")) _ refl tt begins)))))

voted-Reachable : Reachable members 2 voted
unfolding contains turn initial before_opt same_id
voted-Reachable =
    acts 2 (hears accept_one) _ refl (1, refl, inr (inl refl))
      (acts 1 (hears accept_one) _ refl (1, refl, inl refl) promised-Reachable)

learned-Reachable : Reachable members 2 learned
unfolding contains turn initial before_opt same_id
learned-Reachable =
    acts 3 (hears (accepted_by 2)) _ refl (2, refl, inl refl)
      (acts 3 (hears (accepted_by 1)) _ refl (1, refl, inr (inl refl))
        (acts 1 (hears (accepted_by 2)) _ refl (2, refl, inl refl)
          (acts 1 (hears (accepted_by 1)) _ refl (1, refl, inl refl) voted-Reachable)))

first_in : contains 1 members ≡ true
unfolding contains
first_in = refl

third_in : contains 3 members ≡ true
unfolding contains
third_in = refl

first_final : (learned 1).node.learner.final_value ≡ some (codes "x")
unfolding turn initial before_opt same_id text_eq
first_final = refl

third_final : (learned 3).node.learner.final_value ≡ some (codes "x")
unfolding turn initial before_opt same_id text_eq
third_final = refl

final_value_agrees_example : codes "x" ≡ codes "x"
final_value_agrees_example =
    final_value_agrees members 2 learned (omega arith) learned-Reachable 1 3 (codes "x") (codes "x")
      first_in third_in first_final third_final

abbrev asked : System
asked = turn 1 (proposes (codes "x")) (initial 2)

asked-Reachable : Reachable members 2 asked
unfolding contains turn initial
asked-Reachable = acts 1 (proposes (codes "x")) _ refl tt begins

pair_in : (w : ℕ) → contains w (1 ∷ 2 ∷ []) ≡ true → contains w members ≡ true
unfolding contains
pair_in w h = ground arith

asked_free :
    (w : ℕ)
    → contains w (1 ∷ 2 ∷ []) ≡ true
    → before_opt (some id) (asked w).node.acceptor.promised_id ≡ false
unfolding contains turn initial before_opt
asked_free w h = elim (Bool-cases (w == 1)) [ inl e ↦ rw e refl | inr e ↦ rw e refl ]

asked_unheard : (asked 3).node.learner ≡ new_learner 3 2
unfolding turn initial
asked_unheard = refl

asked_value : (asked 1).node.proposer.proposed_value ≡ some (codes "x")
unfolding turn initial
asked_value = refl

pair-Distinct : Distinct (1 ∷ 2 ∷ [])
unfolding contains
pair-Distinct = (refl, (refl, tt))

final_value_reached_example :
    (s' : System) × Continues members asked s'
    × (w : Text) × ((s' 3).node.learner.final_value ≡ some w)
unfolding turn initial
final_value_reached_example =
    final_value_reached members 2 asked 1 3 1 (2 ∷ []) (codes "x") asked-Reachable first_in third_in
      pair-Distinct refl pair_in asked_value asked_free asked_unheard
