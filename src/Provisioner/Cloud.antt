-- ===== src/Provisioner/Cloud.antt =====
-- provide_gce_cluster of provisioner.py, behind the start of the machines: what is uploaded, and the
-- calls of the configure daemons in order. `vm_id` gives the name of the machine with an id.
use krafters.Prelude.{ℕ, suc, ◌+◌, ◌-◌, List, [], ◌∷◌, ◌++◌, Option, none, some, map}
use krafters.Text.{Text, codes, str}
use krafters.ConfigureDaemon.{
  Call, run_test_daemon, run_network_manager, download_node_config, run_pso_node, run_paxos_node,
  test_daemon_port, network_manager_port,
}
use krafters.Provisioner.{
  Machine, Config, MasterConfig, Algorithm, pso, paxos, rethinkdb, datastore, algorithm_name,
  get_node_config, configure_gce, configure_rethinkdb_gce, driver_port, cluster_port,
}

-- new_node, with the addresses that the cloud gives; CONSENSUS_ALGORITHM_PORT is the driver port.
abbrev pub cloud_node : ℕ → Text → Text → Machine
cloud_node i address internal_ip = record {
  id = i + 1;
  address = address;
  port = driver_port;
  rpc_port = network_manager_port;
  interface = codes "eth0";
  internal_ip = internal_ip;
}

-- upload_object of a configuration file, an RPC of the daemon with a number, the file for tear_down.py.
pub data CloudStep : Type 0 where
  uploads : Text → Config → CloudStep
  asks : ℕ → Call → CloudStep
  keeps : MasterConfig → CloudStep

abbrev pub config_object : Text → Text
config_object vm = codes "config/provision_node_" ++ (vm ++ codes "_config.json")

-- additional_ports
abbrev pub additional_ports : Algorithm → List ℕ
additional_ports rethinkdb = cluster_port ∷ []
additional_ports _ = []

abbrev pub asked : List (ℕ × Call) → List CloudStep
asked calls = map (λ c. asks c.0 c.1) calls

-- for configure_daemon in configure_daemons: ..., from the number `i` on
unfoldable pub downloads : ℕ → List Machine → List CloudStep
downloads i [] = []
downloads i (node ∷ cluster) = asks i download_node_config ∷ downloads (suc i) cluster

unfoldable pub run_algorithm : Algorithm → Text → List Machine → Option (List (ℕ × Call))
unfolding configure_gce configure_rethinkdb_gce
run_algorithm pso test_daemon cluster = configure_gce run_pso_node test_daemon cluster
run_algorithm paxos test_daemon cluster = configure_gce run_paxos_node test_daemon cluster
run_algorithm rethinkdb test_daemon cluster = configure_rethinkdb_gce cluster
run_algorithm datastore test_daemon cluster = some []

abbrev pub cloud_test_daemon : Machine → Text
cloud_test_daemon first = first.address ++ (codes ":" ++ str test_daemon_port)

-- From the configuration files on; `cluster[0]` of an empty list is an IndexError.
unfoldable pub provide_cloud_steps : (ℕ → Text) → Algorithm → List Machine → Option (List CloudStep)
unfolding get_node_config downloads run_algorithm
provide_cloud_steps vm_id algorithm [] = none
provide_cloud_steps vm_id algorithm (first ∷ others) =
    let cluster = first ∷ others in
    let test_daemon = cloud_test_daemon first in
    elim (run_algorithm algorithm test_daemon cluster) [
      | none ↦ none
      | some calls ↦ some (
          map
            (λ node.
              uploads (config_object (vm_id node.id))
                (get_node_config cluster node (codes "gce") (additional_ports algorithm)))
            cluster
          ++ (downloads 0 cluster
              ++ (asked calls
                  ++ (map (λ node. asks (node.id - 1) run_network_manager) cluster
                      ++ asks 0 (run_test_daemon (algorithm_name algorithm) first.port)
                        ∷ keeps (record {
                          mode = codes "gce";
                          algorithm = algorithm;
                          test_daemon = test_daemon;
                          nodes = cluster;
                        })
                        ∷ []))))
    ]
