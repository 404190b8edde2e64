-- ===== src/ConfigureTester/Tests.antt =====
-- The tester on two local nodes.
use krafters.Prelude.{ℕ, ◌+◌, ◌≡◌, refl, inl, true, false, [], ◌∷◌, some, length}
use krafters.Text.{codes, text_eq}
use krafters.Sets.{contains}
use krafters.Provisioner.{Pool, no_ports, new_node}
use krafters.ConfigureTester.{Outcome, configure_rethinkdb, master_request, takes}
use krafters.ConfigureTester.Faults.{configure_rethinkdb-Stopped}

abbrev os_port : ℕ → ℕ
os_port n = 9101 + n

abbrev outcome : Outcome
outcome = (false, master_request (new_node 1 9001 9002) 9101 9001 9102 ∷ [])

abbrev drawn : Pool
drawn = record { taken = 9101 ∷ 9102 ∷ []; sockets = 2 }

asked :
    configure_rethinkdb os_port 1
      (new_node 1 9001 9002 ∷ new_node 2 9003 9004 ∷ [])
      (codes "local")
      no_ports
    ≡ some (outcome, drawn)
unfolding configure_rethinkdb contains text_eq takes
asked = refl

is_local : text_eq (codes "local") (codes "local") ≡ true
unfolding text_eq
is_local = refl

configure_rethinkdb-Stopped_example : (outcome.0 ≡ false) × (length outcome.1 ≡ 1)
configure_rethinkdb-Stopped_example =
    configure_rethinkdb-Stopped os_port 1 (new_node 1 9001 9002) (new_node 2 9003 9004 ∷ [])
      (codes "local") no_ports drawn outcome refl (inl is_local) asked
