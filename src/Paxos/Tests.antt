-- ===== src/Paxos/Tests.antt =====
-- Concrete messages between the nodes 1, 2 and 3.
use krafters.Paxos.ReplicatedValue.{
  ReplicatedValue, start, receive_prepare as handle_prepare, receive_accept as handle_accept,
}
use krafters.Paxos.ReplicatedValue.Durable.{receive_prepare-state_file, receive_accept-state_file}
use krafters.Paxos.Node.{new_node}
use krafters.Paxos.Node.Handlers.{Later}
use krafters.Paxos.Node.Retransmits.{IsCurrent, run-IsCurrent}
use krafters.Paxos.Node.Backoff.{InWindow, run-InWindow}
use krafters.Paxos.Node.Chain.{run-Later}
use krafters.Paxos.ReplicatedValue.{send_catchup, send_nack, send_promise}
use krafters.Paxos.Messenger
use krafters.Paxos.Messenger.{
  Address, same_address, uid_of, address_of, message, Event, receives, paxos_append,
  delayed_drive_fires, retransmit_task_fires,
}
use krafters.Paxos.Messenger.Addresses.{AllApart, uid_of-address_of}
use krafters.Prelude.{ℕ, arith, inr, ◌≡◌, refl, inl, true, false, List, [], ◌∷◌, ◌++◌, none, some}
use krafters.Text.{codes}
use krafters.Paxos.Messages.{
  before_opt, same_id, Among, ProposalId, before, Prepare, Promise, Accept, Accepted, prepare,
  promise, accept, accepted, returns,
}
use krafters.Paxos.Proposer.{next_id}
use krafters.Paxos.Instance.{Instance, paxos_instance, receive_prepare, run}
use krafters.Paxos.Instance.Promises.{receive_prepare-promise}
use krafters.Paxos.Instance.Reports.{promise-last_accepted}
use krafters.Paxos.Instance.Outbids.{run-next_id}
use krafters.Paxos.Learner.{new_learner, hear}
use krafters.Paxos.Learner.Quorum.{Chosen, hear-final_value}

abbrev first_id : ProposalId
first_id = record { number = 1; uid = 2 }

abbrev second_id : ProposalId
second_id = record { number = 2; uid = 3 }

abbrev node : Instance
node = paxos_instance 1 2 none none none

abbrev prepare_first : Prepare
prepare_first = record { from_uid = 2; proposal_id = first_id }

abbrev prepare_second : Prepare
prepare_second = record { from_uid = 3; proposal_id = second_id }

abbrev accept_first : Accept
accept_first = record { from_uid = 2; proposal_id = first_id; proposal_value = codes "x" }

abbrev accepted_first : Accepted
accepted_first = record { from_uid = 1; proposal_id = first_id; proposal_value = codes "x" }

abbrev promise_first : Promise
promise_first = record {
  from_uid = 1;
  proposer_uid = 2;
  proposal_id = first_id;
  last_accepted_id = none;
  last_accepted_value = none;
}

abbrev promise_second : Promise
promise_second = record {
  from_uid = 1;
  proposer_uid = 3;
  proposal_id = second_id;
  last_accepted_id = some first_id;
  last_accepted_value = some (codes "x");
}

promised_first : (receive_prepare prepare_first node).0 ≡ returns (promise promise_first)
unfolding receive_prepare paxos_instance
promised_first = refl

accepted_after :
    Among
      (returns (accepted accepted_first))
      (run (accept accept_first ∷ []) (receive_prepare prepare_first node).1).0
unfolding run paxos_instance receive_prepare
accepted_after = inl refl

receive_prepare-promise_example : before first_id first_id ≡ false
receive_prepare-promise_example =
    receive_prepare-promise node prepare_first promise_first (accept accept_first ∷ [])
      accepted_first promised_first accepted_after

accepted_alone : Among (returns (accepted accepted_first)) (run (accept accept_first ∷ []) node).0
unfolding run paxos_instance
accepted_alone = inl refl

promised_second :
    (receive_prepare prepare_second (run (accept accept_first ∷ []) node).1).0
    ≡ returns (promise promise_second)
unfolding run paxos_instance receive_prepare
promised_second = refl

promise-last_accepted_example :
    (top : Accepted) × Among (returns (accepted top)) (run (accept accept_first ∷ []) node).0
    × (some first_id ≡ some top.proposal_id)
    × (some (codes "x") ≡ some top.proposal_value)
    × (before top.proposal_id first_id ≡ false)
promise-last_accepted_example =
    promise-last_accepted 1 2 (accept accept_first ∷ []) prepare_second promise_second
      accepted_first accepted_alone promised_second

run-next_id_example :
    before second_id
      (next_id (run (prepare prepare_second ∷ prepare prepare_first ∷ []) node).1.proposer)
    ≡ true
run-next_id_example = run-next_id node prepare_second (prepare prepare_first ∷ [])

abbrev two_votes : List Accepted
two_votes = accepted_first ∷ record accepted_first { from_uid = 3 } ∷ []

heard_two : (hear two_votes (new_learner 1 2)).final_value ≡ some (codes "x")
unfolding hear new_learner same_id
heard_two = refl

hear-final_value_example : Chosen two_votes 2 (codes "x")
hear-final_value_example = hear-final_value 1 2 two_votes (codes "x") heard_two

-- The first node of three, with no state file.
abbrev replica : ReplicatedValue
replica = start 1 (1 ∷ 2 ∷ 3 ∷ []) none

receive_prepare-state_file_example :
    let next = handle_prepare 2 replica.saved.instance_number first_id replica in
    (next.state_file.promised_id ≡ next.paxos.acceptor.promised_id)
    × (next.state_file.accepted_id ≡ next.paxos.acceptor.accepted_id)
    × (next.state_file.accepted_value ≡ next.paxos.acceptor.accepted_value)
unfolding start paxos_instance before_opt
receive_prepare-state_file_example = receive_prepare-state_file 2 first_id replica refl

-- It accepts the proposal (2, 3), and is then asked to promise (1, 2).
receive_accept-state_file_example :
    let next = handle_accept 3 0 second_id (codes "x") replica in
    let asked = handle_prepare 2 0 first_id next in
    let restarted = handle_prepare 2 0 first_id (start 1 (1 ∷ 2 ∷ 3 ∷ []) (some next.state_file)) in
    (asked.sent ≡ next.sent ++ send_nack 2 0 first_id none ∷ [])
    × (asked.paxos.acceptor.promised_id ≡ some second_id)
    × (restarted.sent ≡ send_promise 2 0 first_id (some second_id) (some (codes "x")) ∷ [])
    × (restarted.paxos.acceptor.promised_id ≡ some first_id)
unfolding start paxos_instance before_opt
receive_accept-state_file_example =
    receive_accept-state_file 3 2 second_id first_id (codes "x") replica refl refl refl

abbrev home : ℕ → Address
home port = (codes "10.0.0.1", port)

abbrev peers : List (ℕ × Address)
peers = (1, home 9001) ∷ (2, home 9002) ∷ (3, home 9003) ∷ []

-- A client proposes "x" at the node 1, which prepares; the node 2 has gone on and sends its value.
abbrev events : List Event
events =
    paxos_append (codes "x")
    ∷ retransmit_task_fires
    ∷ receives (home 9002) (message (send_catchup 1 4 (some (codes "y"))))
    ∷ delayed_drive_fires
    ∷ []

run-Later_example :
    Later
      (new_node 1 (1 ∷ 2 ∷ 3 ∷ []) none).base
      (Messenger.run peers events (new_node 1 (1 ∷ 2 ∷ 3 ∷ []) none)).base
run-Later_example = run-Later peers events (new_node 1 (1 ∷ 2 ∷ 3 ∷ []) none)

peers-AllApart : AllApart peers
unfolding same_address
peers-AllApart = ((refl, refl, (refl, refl, tt)), ((refl, refl, tt), (tt, tt)))

uid_of-address_of_example :
    (address_of 2 peers ≡ some (home 9002)) × (uid_of (home 9002) peers ≡ some 2)
uid_of-address_of_example = uid_of-address_of 2 (home 9002) peers peers-AllApart (inr (inl refl))

run-InWindow_example :
    InWindow (Messenger.run peers events (new_node 1 (1 ∷ 2 ∷ 3 ∷ []) none)).backoff_window
unfolding new_node
run-InWindow_example =
    run-InWindow peers events (new_node 1 (1 ∷ 2 ∷ 3 ∷ []) none) (omega arith, omega arith)

run-IsCurrent_example :
    IsCurrent
      (Messenger.run peers events (new_node 1 (1 ∷ 2 ∷ 3 ∷ []) none)).retransmit_task
      (Messenger.run peers events
        (new_node 1 (1 ∷ 2 ∷ 3 ∷ []) none)).base.paxos.proposer.proposal_id
unfolding new_node
run-IsCurrent_example =
    run-IsCurrent peers events (new_node 1 (1 ∷ 2 ∷ 3 ∷ []) none) (λ t e. absurd (cc e))
