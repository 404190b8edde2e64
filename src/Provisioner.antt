-- ===== src/Provisioner.antt =====
-- provisioner.py: the nodes of a cluster, their configuration files and the steps that start them.
-- `os_port` gives the free port that the system binds the n-th socket to.
pub mod Local
pub mod Cloud
mod Tests
pub mod Ports
pub mod Ends
pub mod Contacts
use krafters.Prelude.{
  ℕ, suc, zero, Bool, true, false, List, [], ◌∷◌, ◌++◌, Option, none, some, ◌==◌, if◌then◌else◌,
  map, not, ◌+◌,
}
use krafters.Text.{Text, codes, str, text_eq}
use krafters.Sets.{contains, add}
use krafters.ConfigureDaemon.{
  Effect, runs, waits, Call, run_test_daemon, run_network_manager, run_pso_node, run_paxos_node,
  configure_rethinkdb_master, configure_rethinkdb_follower, serve, test_daemon_port,
  local_node_conf_file, network_manager_port,
}

-- A node of the cluster, without its vmID.
pub record Machine : Type 0 where
  pub id : ℕ
  pub address : Text
  pub port : ℕ
  pub rpc_port : ℕ
  pub interface : Text
  pub internal_ip : Text

pub record PeerConfig : Type 0 where
  pub address : Text
  pub port : ℕ
  pub id : ℕ
  pub addresses_to_lock : List Text
  pub ports_to_lock : List ℕ

-- A configuration file of a node.
pub record Config : Type 0 where
  pub mode : Text
  pub interface : Text
  pub rpc_port : ℕ
  pub host_port : ℕ
  pub host_address : Text
  pub host_id : ℕ
  pub peers : List PeerConfig

pub data Algorithm : Type 0 where
  pso : Algorithm
  paxos : Algorithm
  rethinkdb : Algorithm
  datastore : Algorithm

abbrev pub algorithm_name : Algorithm → Text
algorithm_name pso = codes "pso"
algorithm_name paxos = codes "paxos"
algorithm_name rethinkdb = codes "rethinkdb"
algorithm_name datastore = codes "datastore"

-- masterConfig.json
pub record MasterConfig : Type 0 where
  pub mode : Text
  pub algorithm : Algorithm
  pub test_daemon : Text
  pub nodes : List Machine

-- RANDOM_PORTS_POOL, with the number of sockets so far.
pub record Pool : Type 0 where
  pub taken : List ℕ
  pub sockets : ℕ

abbrev pub no_ports : Pool
no_ports = record { taken = []; sockets = 0 }

-- list({peer["internalIP"], peer["address"]})
unfoldable pub address_set : Text → Text → List Text
unfolding text_eq
address_set a b = if text_eq a b then a ∷ [] else a ∷ b ∷ []

abbrev pub peer_config : List ℕ → Machine → PeerConfig
peer_config additional_ports peer = record {
  address = peer.address;
  port = peer.port;
  id = peer.id;
  addresses_to_lock = address_set peer.internal_ip peer.address;
  ports_to_lock = peer.port ∷ additional_ports;
}

-- [... for peer in cluster if peer["id"] != node["id"]]
unfoldable pub peer_configs : List ℕ → ℕ → List Machine → List PeerConfig
unfolding address_set
peer_configs additional_ports id [] = []
peer_configs additional_ports id (peer ∷ cluster) =
    if peer.id == id
    then peer_configs additional_ports id cluster
    else peer_config additional_ports peer ∷ peer_configs additional_ports id cluster

unfoldable pub get_node_config : List Machine → Machine → Text → List ℕ → Config
unfolding peer_configs
get_node_config cluster node mode additional_ports = record {
  mode = mode;
  interface = node.interface;
  rpc_port = node.rpc_port;
  host_port = node.port;
  host_address = node.address;
  host_id = node.id;
  peers = peer_configs additional_ports node.id cluster;
}

abbrev pub new_node : ℕ → ℕ → ℕ → Machine
new_node i port rpc_port = record {
  id = i;
  address = codes "127.0.0.1";
  port = port;
  rpc_port = rpc_port;
  interface = codes "lo";
  internal_ip = codes "127.0.0.1";
}

abbrev pub node_file_path : ℕ → Text
node_file_path id = codes "/tmp/provision_node_" ++ (str id ++ codes "_config.json")

abbrev pub local_test_daemon : Text
local_test_daemon = codes "127.0.0.1:" ++ str test_daemon_port

-- What is done, in order: a configuration file is written, a process run or waited for, the file for
-- tear_down.py saved.
pub data Step : Type 0 where
  writes : Text → Config → Step
  does : Effect → Step
  saves : MasterConfig → Step

-- configure_pso_local and configure_paxos_local, with the function that they call; `cluster[0]` of an
-- empty list is an IndexError.
unfoldable pub configure_local : (ℕ → Text → Option Text → Call) → List Machine → Option (List Call)
configure_local run_node [] = none
configure_local run_node (first ∷ others) = some (
    run_node first.port (node_file_path first.id) (some local_test_daemon)
    ∷ map (λ node. run_node node.port (node_file_path node.id) none) others)

-- configure_pso_gce and configure_paxos_gce: each call with the number of its daemon.
unfoldable pub followers_gce : (ℕ → Text → Option Text → Call) → ℕ → List Machine → List (ℕ × Call)
followers_gce run_node i [] = []
followers_gce run_node i (node ∷ others) =
    (i, run_node node.port local_node_conf_file none) ∷ followers_gce run_node (suc i) others

unfoldable pub configure_gce :
    (ℕ → Text → Option Text → Call) → Text → List Machine → Option (List (ℕ × Call))
unfolding followers_gce
configure_gce run_node test_daemon [] = none
configure_gce run_node test_daemon (first ∷ others) = some (
    (0, run_node first.port local_node_conf_file (some test_daemon))
    ∷ followers_gce run_node 1 others)

-- GCE_RETHINKDB_PORTS
abbrev pub driver_port : ℕ
driver_port = 12348

abbrev pub cluster_port : ℕ
cluster_port = 12349

abbrev pub http_port : ℕ
http_port = 12350

unfoldable pub joiners_gce : Text → ℕ → List Machine → List (ℕ × Call)
joiners_gce master i [] = []
joiners_gce master i (node ∷ others) =
    (
      i + 1,
      configure_rethinkdb_follower node.id master cluster_port cluster_port driver_port http_port,
    )
    ∷ joiners_gce master (suc i) others

unfoldable pub configure_rethinkdb_gce : List Machine → Option (List (ℕ × Call))
unfolding joiners_gce
configure_rethinkdb_gce [] = none
configure_rethinkdb_gce (first ∷ others) = some (
    (0, configure_rethinkdb_master cluster_port driver_port http_port first.address)
    ∷ joiners_gce first.address 0 others)
