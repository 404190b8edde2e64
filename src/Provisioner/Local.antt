-- ===== src/Provisioner/Local.antt =====
-- provide_local_cluster of provisioner.py. `os_port` gives the free port that the system binds the n-th
-- socket to, `python` and `here` the interpreter and the directory of the scripts; a port that has to
-- be drawn more than `fuel` times is none.
use krafters.Prelude.{
  ℕ, suc, zero, true, List, [], ◌∷◌, ◌++◌, Option, none, some, if◌then◌else◌, map,
}
use krafters.Text.{Text, codes}
use krafters.Sets.{contains, add}
use krafters.ConfigureDaemon.{
  runs, waits, Call, run_test_daemon, run_pso_node, run_paxos_node, configure_rethinkdb_master,
  configure_rethinkdb_follower, serve,
}
use krafters.Provisioner.{
  Machine, Algorithm, pso, paxos, rethinkdb, datastore, algorithm_name, Pool, new_node,
  node_file_path, local_test_daemon, get_node_config, configure_local, Step, writes, does, saves,
}

abbrev pub Draws : Type 0 → Type 0
Draws A = Pool → Option (A × Pool)

infixl 10 ◌>>=◌
abbrev pub ◌>>=◌ : {A B : Type 0} → Draws A → (A → Draws B) → Draws B
◌>>=◌ m f pool = elim (m pool) [ none ↦ none | some (a, pool') ↦ f a pool' ]

abbrev pub pure : {A : Type 0} → A → Draws A
pure a pool = some (a, pool)

-- A program without random ports, where none is an exception.
abbrev pub lift : {A : Type 0} → Option A → Draws A
lift none pool = none
lift (some a) pool = some (a, pool)

module _ (os_port : ℕ → ℕ) where
  -- The rounds of `while True`.
  unfoldable pub draw_port : ℕ → Draws ℕ
  unfolding contains add
  draw_port zero pool = none
  draw_port (suc rounds) pool =
      let port = os_port pool.sockets in
      let again = draw_port rounds (record pool { sockets = suc pool.sockets }) in
      if contains port pool.taken
      then again
      else some (port, record { taken = add port pool.taken; sockets = suc pool.sockets })

module _ (os_port : ℕ → ℕ) (fuel : ℕ) where
  unfoldable pub get_free_random_port : Draws ℕ
  unfolding draw_port
  get_free_random_port = draw_port os_port fuel

  -- for i in range(1, nodes_num + 1): ..., from the node `i` on
  unfoldable pub spin : ℕ → ℕ → Draws (List Machine)
  unfolding get_free_random_port
  spin zero i = pure []
  spin (suc n) i = do
    port ← get_free_random_port
    rpc_port ← get_free_random_port
    cluster ← spin n (suc i)
    pure (new_node i port rpc_port ∷ cluster)

  -- configure_rethinkdb_local, where Python evaluates the arguments in order
  unfoldable pub followers_rethinkdb : Text → ℕ → List Machine → Draws (List Call)
  unfolding get_free_random_port
  followers_rethinkdb master master_cluster_port [] = pure []
  followers_rethinkdb master master_cluster_port (node ∷ others) = do
    my_cluster_port ← get_free_random_port
    my_http_port ← get_free_random_port
    calls ← followers_rethinkdb master master_cluster_port others
    pure (
        configure_rethinkdb_follower node.id master master_cluster_port my_cluster_port node.port
          my_http_port
        ∷ calls)

  unfoldable pub configure_rethinkdb_local : List Machine → Draws (List Call)
  unfolding get_free_random_port followers_rethinkdb
  configure_rethinkdb_local [] = lift none
  configure_rethinkdb_local (first ∷ others) = do
    master_cluster_port ← get_free_random_port
    http_port ← get_free_random_port
    calls ← followers_rethinkdb first.address master_cluster_port others
    pure (
        configure_rethinkdb_master master_cluster_port first.port http_port (codes "localhost")
        ∷ calls)

  unfoldable pub run_algorithm : Algorithm → List Machine → Draws (List Call)
  unfolding configure_local configure_rethinkdb_local
  run_algorithm pso cluster = lift (configure_local run_pso_node cluster)
  run_algorithm paxos cluster = lift (configure_local run_paxos_node cluster)
  run_algorithm rethinkdb cluster = configure_rethinkdb_local cluster
  run_algorithm datastore cluster = pure []

  module _ (metadata : Text → Text) (python here : Text) where
    abbrev pub served : List Call → List Step
    served [] = []
    served (call ∷ calls) = map does (serve metadata here call) ++ served calls

    -- What runs behind the algorithm: the network managers, the test daemon, the file.
    unfoldable pub last_steps : Algorithm → List Machine → Option (List Step)
    unfolding serve
    last_steps algorithm [] = none
    last_steps algorithm (first ∷ others) =
        let cluster = first ∷ others in
        some (
          map
            (λ node.
              does (runs (python ∷ codes "network_manager.py" ∷ node_file_path node.id ∷ [])))
            cluster
          ++ (map (λ node. does (waits node.rpc_port true)) cluster
              ++ (served (run_test_daemon (algorithm_name algorithm) first.port ∷ [])
                  ++ saves (record {
                    mode = codes "local";
                    algorithm = algorithm;
                    test_daemon = local_test_daemon;
                    nodes = cluster;
                  })
                    ∷ [])))

    unfoldable pub provide_local_cluster : ℕ → Algorithm → Draws (List Step)
    unfolding spin get_node_config run_algorithm last_steps
    provide_local_cluster nodes_num algorithm = do
      cluster ← spin nodes_num 1
      calls ← run_algorithm algorithm cluster
      steps ← lift (last_steps algorithm cluster)
      pure (
          map
            (λ node.
              writes (node_file_path node.id) (get_node_config cluster node (codes "local") []))
            cluster
          ++ (served calls ++ steps))
