-- ===== src/Paxos/Master/Tests.antt =====
-- The master strategy on concrete inputs: the nodes 1, 2 and 3.
use krafters.Prelude.{ℕ, zero, suc, ◌≡◌, refl, ◌++◌, List, [], ◌∷◌, Option, none, some, arith}
use mathlib.Core.Option.{some-injective}
use krafters.Text.{Text, codes, text_eq}
use krafters.Paxos.ReplicatedValue
use krafters.Paxos.ReplicatedValue.{
  Packet, send_prepare, send_accepted, send_accept_to, send_accepted_to,
}
use krafters.Paxos.Node
use krafters.Paxos.Messenger.{Address, uid_of, same_address, message}
use krafters.Paxos.Messenger
use krafters.Paxos.Master.{Master, Entry, master_pid, new_master, enter_instance}
use krafters.Paxos.Master.Leases.{advance_instance, propose_update}
use krafters.Paxos.Master.Events.{Event, of_node, receive_accept, run, fire_leaked}
use krafters.Paxos.Master.View.{view, learn_all, learn_all-view}
use krafters.Paxos.Master.SingleRound.{propose_update_single_round}
use krafters.Paxos.Master.Promises.{OnlyMaster}
use krafters.Paxos.Master.OnlyMaster.{run-OnlyMaster}
use krafters.Paxos.Master.Leaks.{fire_leaked_resends}

-- A way to write and read values.
abbrev dumps : Entry → Text
dumps (none, none) = 0 ∷ []
dumps (some uid, none) = 1 ∷ uid ∷ []
dumps (none, some value) = 2 ∷ value
dumps (some uid, some value) = 3 ∷ uid ∷ value

abbrev loads : Text → Option Entry
loads (zero ∷ rest) = some (none, none)
loads (suc zero ∷ uid ∷ rest) = some (some uid, none)
loads (suc (suc zero) ∷ value) = some (none, some value)
loads (suc (suc (suc zero)) ∷ uid ∷ value) = some (some uid, some value)
loads other = none

loads-dumps : (e : Entry) → loads (dumps e) ≡ some e
loads-dumps (none, none) = refl
loads-dumps (some uid, none) = refl
loads-dumps (none, some value) = refl
loads-dumps (some uid, some value) = refl

abbrev node : ℕ → Master
node uid = new_master 100 uid (1 ∷ 2 ∷ 3 ∷ []) none

learn_all-view_example :
    view (
      learn_all dumps loads
        ((200, (some 1, none)) ∷ (300, (none, some (codes "x"))) ∷ (400, (some 2, none)) ∷ [])
        (node 1))
    ≡ record { instance_number = 3; current_value = some (codes "x"); master = some 2 }
unfolding new_master Node.new_node ReplicatedValue.start
learn_all-view_example =
    learn_all-view dumps loads loads-dumps
      ((200, (some 1, none)) ∷ (300, (none, some (codes "x"))) ∷ (400, (some 2, none)) ∷ [])
      (node 1)

abbrev granted : ℕ → Master
granted uid = advance_instance dumps loads 200 1 (dumps (some 1, none)) (node uid)

propose_update_single_round_example :
    ((propose_update dumps loads (codes "x") (granted 1)).node.base.sent
      ≡ (granted 1).node.base.sent
        ++ send_accept_to
            (granted 1).node.base.peers
            1
            (master_pid 1)
            (dumps (none, some (codes "x"))))
    × ((receive_accept 1 1
          (master_pid 1)
          (dumps (none, some (codes "x")))
          (granted 2)).node.base.sent
        ≡ (granted 2).node.base.sent
          ++ send_accepted_to
              (granted 2).node.base.peers
              1
              (master_pid 1)
              (dumps (none, some (codes "x"))))
unfolding advance_instance new_master Node.new_node ReplicatedValue.start
propose_update_single_round_example =
    propose_update_single_round dumps loads 200 200 1 1 (dumps (some 1, none)) (codes "x")
      (some 1, none) (node 1) (node 2) refl refl refl refl (λ e. omega arith)

abbrev addrs : List (ℕ × Address)
addrs = (1, (codes "h", 1)) ∷ (2, (codes "h", 2)) ∷ (3, (codes "h", 3)) ∷ []

-- Node 2 learns that node 1 has the lease; node 3 asks for a promise.
abbrev events : List (ℕ × Event)
events =
    (
      100,
      of_node (
          Messenger.receives (codes "h", 1)
            (message (send_accepted 2 0 (master_pid 1) (dumps (some 1, none))))),
    )
    ∷ (
      110,
      of_node (
          Messenger.receives (codes "h", 3)
            (message (send_accepted 2 0 (master_pid 1) (dumps (some 1, none))))),
    )
    ∷ (120, of_node (Messenger.receives (codes "h", 3) (message (send_prepare 2 1 (master_pid 3)))))
    ∷ []

run_promises :
    (run dumps loads addrs events (node 2)).node.base.paxos.acceptor.promised_id
    ≡ some (master_pid 1)
unfolding run new_master Node.new_node ReplicatedValue.start
run_promises = refl

run-OnlyMaster_example : OnlyMaster (run dumps loads addrs events (node 2))
unfolding new_master uid_of same_address text_eq
run-OnlyMaster_example =
    run-OnlyMaster dumps loads addrs events (node 2)
      (λ uid e. tt, (λ uid e. tt, (λ uid e. some-injective 3 uid e, tt))) (λ m e. absurd (cc e))

fire_leaked_resends_example :
    let c =
      enter_instance 2 (some (codes "x")) (propose_update dumps loads (codes "x") (granted 1)) in
    (fire_leaked 0 c).node.base.sent
    ≡ c.node.base.sent
      ++ send_accept_to c.node.base.peers 2 (master_pid 1) (dumps (none, some (codes "x")))
unfolding advance_instance new_master Node.new_node ReplicatedValue.start
fire_leaked_resends_example =
    fire_leaked_resends dumps loads (codes "x") 2 (some (codes "x")) (granted 1) refl refl refl
