-- ===== src/Provisioner/Tests.antt =====
-- Two local nodes, on a system that offers the port 9001 twice.
use krafters.Prelude.{
  ℕ, zero, suc, ◌+◌, ◌≡◌, refl, inl, inr, true, List, [], ◌∷◌, some, arith, length,
}
use krafters.Text.{codes, str}
use krafters.Sets.{contains}
use krafters.Paxos.Learner.Tallies.{Distinct}
use krafters.Paxos.Messenger.{uid_of, address_of}
use krafters.Provisioner.{
  Machine, paxos, Pool, no_ports, new_node, get_node_config, local_test_daemon,
}
use krafters.Provisioner.Local.{spin}
use krafters.Provisioner.Ports.{ports, spin-ports}
use krafters.Provisioner.Ends.{Offers-injective, spin_ends}
use krafters.Provisioner.Contacts.{paxos_peers, spin-address_of}
use krafters.TearDown.{kills, removes, tear_down_local_cluster}

abbrev os_port : ℕ → ℕ
os_port zero = 9001
os_port (suc n) = 9001 + n

abbrev two : List Machine
two = new_node 1 9001 9002 ∷ new_node 2 9003 9004 ∷ []

abbrev pool_of_two : Pool
pool_of_two = record { taken = 9001 ∷ 9002 ∷ 9003 ∷ 9004 ∷ []; sockets = 5 }

spun : spin os_port 2 2 1 no_ports ≡ some (two, pool_of_two)
unfolding spin contains
spun = refl

spin-ports_example : Distinct (ports two)
spin-ports_example = spin-ports os_port 2 2 1 no_ports pool_of_two two spun

spin-address_of_example :
    let peers = paxos_peers (get_node_config two (new_node 1 9001 9002) (codes "local") []) in
    (address_of 2 peers ≡ some (codes "127.0.0.1", 9003))
    × (uid_of (codes "127.0.0.1", 9003) peers ≡ some 2)
spin-address_of_example =
    spin-address_of os_port 2 2 1 no_ports pool_of_two two spun (codes "local") []
      (new_node 1 9001 9002) (new_node 2 9003 9004) (inl refl) (inr (inl refl)) refl

torn_down :
    tear_down_local_cluster
      (record {
        mode = codes "local";
        algorithm = paxos;
        test_daemon = local_test_daemon;
        nodes = new_node 1 9001 9002 ∷ [];
      })
      (codes "rethinkdb_data2" ∷ codes "logs" ∷ [])
    ≡ (
      true,
      kills (codes "9001")
          ∷ kills (codes "9002")
          ∷ kills (codes "2082")
          ∷ removes (codes "./rethinkdb_data2")
          ∷ [],
    )
unfolding tear_down_local_cluster str
torn_down = refl

abbrev fresh_port : ℕ → ℕ
fresh_port n = 9001 + n

spin_ends_example :
    (cluster : List Machine) × (pool' : Pool) × (spin fresh_port 6 3 1 no_ports
      ≡ some (cluster, pool'))
    × (length cluster ≡ 3)
spin_ends_example =
    spin_ends fresh_port 6 (Offers-injective fresh_port (λ a b e. omega arith) 6) 3 1 no_ports
      (omega arith)
