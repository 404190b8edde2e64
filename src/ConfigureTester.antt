-- ===== src/ConfigureTester.antt =====
-- configure_daemon_tester.py: its requests to the configure daemons. The server of configure_daemon.py
-- answers a request with a wrong number of arguments with a fault, which ends the program.
pub mod Faults
mod Tests
use krafters.Prelude.{
  ℕ, Bool, true, false, List, [], ◌∷◌, ◌||◌, Option, some, ◌==◌, if◌then◌else◌, length,
}
use krafters.Text.{Text, codes, text_eq}
use krafters.Provisioner.{Machine, driver_port, cluster_port, http_port}
use krafters.Provisioner.Local.{Draws, ◌>>=◌, pure, get_free_random_port}

-- The functions that the server registers.
pub data Function : Type 0 where
  run_test_daemon : Function
  run_network_manager : Function
  download_node_config : Function
  run_pso_node : Function
  run_paxos_node : Function
  configure_rethinkdb_master : Function
  configure_rethinkdb_follower : Function
  stop_rethinkdb : Function

-- Whether a function takes so many arguments.
unfoldable pub takes : Function → ℕ → Bool
takes run_test_daemon n = n == 2
takes run_network_manager n = n == 0
takes download_node_config n = n == 0
takes run_pso_node n = n == 2 || n == 3
takes run_paxos_node n = n == 2 || n == 3
takes configure_rethinkdb_master n = n == 4
takes configure_rethinkdb_follower n = n == 6
takes stop_rethinkdb n = n == 0

pub data Argument : Type 0 where
  number : ℕ → Argument
  text : Text → Argument

-- A call of the proxy that createServer makes for an address.
pub record Request : Type 0 where
  pub address : Text
  pub function : Function
  pub arguments : List Argument

-- Whether the loop has ended, and the requests.
abbrev pub Outcome : Type 0
Outcome = Bool × List Request

-- A request, with what the loop does behind it unless there is a fault.
unfoldable pub ask : Request → Draws Outcome → Draws Outcome
unfolding takes
ask r later =
    if takes r.function (length r.arguments)
    then (do rest ← later; pure (rest.0, r ∷ rest.1))
    else pure (false, r ∷ [])

abbrev pub master_request : Machine → ℕ → ℕ → ℕ → Request
master_request node cp dp hp = record {
  address = node.address;
  function = configure_rethinkdb_master;
  arguments = number cp ∷ number dp ∷ number hp ∷ [];
}

abbrev pub follower_request : Machine → Text → ℕ → ℕ → ℕ → ℕ → Request
follower_request node master m_cp cp dp hp = record {
  address = node.address;
  function = configure_rethinkdb_follower;
  arguments = number node.id ∷ text master ∷ number m_cp ∷ number cp ∷ number dp ∷ number hp ∷ [];
}

module _ (os_port : ℕ → ℕ) (fuel : ℕ) where
  -- for node in cluster: ... on one machine
  unfoldable pub configure_local_nodes : Text → ℕ → List Machine → Draws Outcome
  unfolding get_free_random_port ask
  configure_local_nodes master m_cp [] = pure (true, [])
  configure_local_nodes master m_cp (node ∷ cluster) =
      if node.id == 1
      then (do
        hp ← get_free_random_port os_port fuel
        ask (master_request node m_cp node.port hp) (configure_local_nodes master m_cp cluster))
      else (do
        cp ← get_free_random_port os_port fuel
        hp ← get_free_random_port os_port fuel
        ask (follower_request node master m_cp cp node.port hp)
            (configure_local_nodes master m_cp cluster))

  unfoldable pub configure_cloud_nodes : Text → List Machine → Draws Outcome
  unfolding ask
  configure_cloud_nodes master [] = pure (true, [])
  configure_cloud_nodes master (node ∷ cluster) =
      let rest = configure_cloud_nodes master cluster in
      if node.id == 1
      then ask (master_request node cluster_port driver_port http_port) rest
      else ask (follower_request node master cluster_port cluster_port driver_port http_port) rest

  -- cluster[0]['address'], which only the followers read
  abbrev pub first_address : List Machine → Text
  first_address [] = []
  first_address (node ∷ _) = node.address

  -- Any other mode is not recognized.
  unfoldable pub by_mode : Text → List Machine → ℕ → Draws Outcome
  unfolding configure_local_nodes configure_cloud_nodes text_eq
  by_mode mode cluster master_cluster_port =
      if text_eq mode (codes "local")
      then configure_local_nodes (first_address cluster) master_cluster_port cluster
      else (if text_eq mode (codes "gce")
          then configure_cloud_nodes (first_address cluster) cluster
          else pure (true, []))

  unfoldable pub configure_rethinkdb : List Machine → Text → Draws Outcome
  unfolding get_free_random_port by_mode
  configure_rethinkdb cluster mode = do
    master_cluster_port ← get_free_random_port os_port fuel
    by_mode mode cluster master_cluster_port
