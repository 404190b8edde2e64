-- ===== src/TearDown/Tests.antt =====
-- A local cluster of one Paxos node, and its end.
use krafters.Prelude.{ℕ, ◌+◌, ◌≡◌, ◌≢◌, refl, inl, inr, true, false, List, [], ◌∷◌, ◌++◌, some, map}
use krafters.Text.{Text, codes, str}
use krafters.Sets.{contains}
use krafters.Paxos.Messages.{Among}
use krafters.ConfigureDaemon.{runs, waits, run_paxos_node, run_test_daemon, serve}
use krafters.Provisioner.{
  Machine, MasterConfig, paxos, rethinkdb, no_ports, new_node, node_file_path, local_test_daemon,
  get_node_config, Step, writes, does, saves,
}
use krafters.Provisioner.Local.{provide_local_cluster}
use krafters.TearDown.{kills, tear_down_local_cluster}
use krafters.TearDown.Covers.{provide_local_cluster-torn_down}

abbrev os_port : ℕ → ℕ
os_port n = 9001 + n

abbrev metadata : Text → Text
metadata name = []

abbrev only_node : List Machine
only_node = new_node 1 9001 9002 ∷ []

abbrev saved : MasterConfig
saved = record {
  mode = codes "local";
  algorithm = paxos;
  test_daemon = local_test_daemon;
  nodes = only_node;
}

abbrev steps : List Step
steps =
    writes (node_file_path 1) (get_node_config only_node (new_node 1 9001 9002) (codes "local") [])
      ∷ map does
          (serve metadata [] (run_paxos_node 9001 (node_file_path 1) (some local_test_daemon)))
    ++ (does (runs (codes "python3" ∷ codes "network_manager.py" ∷ node_file_path 1 ∷ []))
          ∷ does (waits 9002 true)
          ∷ map does (serve metadata [] (run_test_daemon (codes "paxos") 9001))
        ++ saves saved ∷ [])

provided :
    provide_local_cluster os_port 2 metadata (codes "python3") [] 1 paxos no_ports
    ≡ some (steps, record { taken = 9001 ∷ 9002 ∷ []; sockets = 2 })
unfolding provide_local_cluster contains serve
provided = refl

waited : Among (does (waits 9001 false)) steps
unfolding serve
waited = inr (inr (inl refl))

was_saved : Among (saves saved) steps
unfolding serve
was_saved = inr (inr (inr (inr (inr (inr (inr (inl refl)))))))

not_rethinkdb : paxos ≢ rethinkdb
not_rethinkdb e = cc e

provide_local_cluster-torn_down_example :
    Among (kills (str 9001)) (tear_down_local_cluster saved (codes "logs" ∷ [])).1
provide_local_cluster-torn_down_example =
    provide_local_cluster-torn_down os_port 2 metadata (codes "python3") [] 1 paxos no_ports
      (record { taken = 9001 ∷ 9002 ∷ []; sockets = 2 }) steps not_rethinkdb provided 9001 false
      waited saved was_saved (codes "logs" ∷ [])
