-- ===== src/TearDown/Covers.antt =====
-- What provisioner.py starts on a local cluster, tear_down.py kills.
use krafters.Prelude.{
  ℕ, ◌≡◌, ◌≢◌, refl, ap, inl, inr, Bool, true, List, [], ◌∷◌, ◌++◌, Option, none, some, map,
}
use mathlib.Core.Path.{subst}
use mathlib.Core.Option.{some-injective}
use krafters.Text.{Text, str}
use krafters.Paxos.Messages.{Among}
use krafters.ConfigureDaemon.{waits, Call, run_pso_node, run_paxos_node, serve, test_daemon_port}
use krafters.Provisioner.{
  Machine, MasterConfig, Algorithm, pso, paxos, rethinkdb, datastore, Pool, node_file_path,
  local_test_daemon, configure_local, Step, does, saves,
}
use krafters.Provisioner.Local.{
  lift, spin, run_algorithm, served, last_steps, provide_local_cluster,
}
use krafters.Provisioner.Ports.{ran}
use krafters.TearDown.{
  Removal, remove_directories, kills, kill_nodes, finish, tear_down_local_cluster,
}

-- The ports that are killed.
abbrev killed : List Machine → List ℕ
killed [] = test_daemon_port ∷ []
killed (m ∷ cluster) = m.port ∷ m.rpc_port ∷ killed cluster

-- A step that waits for a process waits for a port that is killed, and the file that is saved is that
-- of the cluster.
abbrev Covered : List Machine → Step → Type 0
Covered cluster (does (waits port tcp)) = Among port (killed cluster)
Covered cluster (saves conf) = (conf.nodes ≡ cluster) × (conf.test_daemon ≡ local_test_daemon)
Covered cluster _ = Unit {0}

module _ {A : Type 0} (P : A → Type 0) where
  abbrev All : List A → Type 0
  All [] = Unit {0}
  All (x ∷ xs) = P x × All xs

  All-Among : (x : A) (xs : List A) → All xs → Among x xs → P x
  All-Among x [] h here = absurd here
  All-Among x (y ∷ xs) (p, h) (inl e) = subst P e p
  All-Among x (y ∷ xs) (p, h) (inr later) = All-Among x xs h later

  All-append : (xs ys : List A) → All xs → All ys → All (xs ++ ys)
  All-append [] ys h g = g
  All-append (x ∷ xs) ys (p, h) g = (p, All-append xs ys h g)

  All-map :
      {B : Type 0} (f : B → A) (bs : List B) → ((b : B) → Among b bs → P (f b)) → All (map f bs)
  All-map f [] h = tt
  All-map f (b ∷ bs) h = (h b (inl refl), All-map f bs (λ c later. h c (inr later)))

port_killed :
    (m : Machine) (cluster : List Machine) → Among m cluster → Among m.port (killed cluster)
port_killed m [] here = absurd here
port_killed m (n ∷ cluster) (inl e) = inl (ap Machine.port e)
port_killed m (n ∷ cluster) (inr later) = inr (inr (port_killed m cluster later))

rpc_port_killed :
    (m : Machine) (cluster : List Machine) → Among m cluster → Among m.rpc_port (killed cluster)
rpc_port_killed m [] here = absurd here
rpc_port_killed m (n ∷ cluster) (inl e) = inr (inl (ap Machine.rpc_port e))
rpc_port_killed m (n ∷ cluster) (inr later) = inr (inr (rpc_port_killed m cluster later))

test_daemon_killed : (cluster : List Machine) → Among test_daemon_port (killed cluster)
test_daemon_killed [] = inl refl
test_daemon_killed (m ∷ cluster) = inr (inr (test_daemon_killed cluster))

module _ (os_port : ℕ → ℕ) (fuel : ℕ) (metadata : Text → Text) (python here : Text) where
  abbrev AllCovered : List Machine → List Step → Type 0
  AllCovered cluster steps = All (Covered cluster) steps

  abbrev Serves : List Machine → Call → Type 0
  Serves cluster call = AllCovered cluster (map does (serve metadata here call))

  served-AllCovered :
      (cluster : List Machine) (calls : List Call)
      → All (Serves cluster) calls
      → AllCovered cluster (served os_port fuel metadata python here calls)
  served-AllCovered cluster [] h = tt
  served-AllCovered cluster (call ∷ calls) (serves, h) =
      All-append (Covered cluster) (map does (serve metadata here call))
        (served os_port fuel metadata python here calls) serves (served-AllCovered cluster calls h)

  pso-Serves :
      (cluster : List Machine) (port : ℕ) (file : Text) (td : Option Text)
      → Among port (killed cluster)
      → Serves cluster (run_pso_node port file td)
  unfolding serve
  pso-Serves cluster port file td k = (tt, (k, tt))

  paxos-Serves :
      (cluster : List Machine) (port : ℕ) (file : Text) (td : Option Text)
      → Among port (killed cluster)
      → Serves cluster (run_paxos_node port file td)
  unfolding serve
  paxos-Serves cluster port file td k = (tt, (k, tt))

  configure_local-Serves :
      (run_node : ℕ → Text → Option Text → Call) (cluster : List Machine) (calls : List Call)
      → ((port : ℕ) (file : Text) (td : Option Text)
          → Among port (killed cluster)
          → Serves cluster (run_node port file td))
      → configure_local run_node cluster ≡ some calls
      → All (Serves cluster) calls
  unfolding configure_local
  configure_local-Serves run_node [] calls h e = absurd (cc e)
  configure_local-Serves run_node (first ∷ others) calls h e =
      let cluster = first ∷ others in
      subst (All (Serves cluster)) (some-injective _ calls e) (
        h first.port (node_file_path first.id) (some local_test_daemon) (inl refl),
        All-map (Serves cluster) (λ node. run_node node.port (node_file_path node.id) none) others
            (λ m here_.
              h m.port (node_file_path m.id) none (inr (inr (port_killed m others here_)))),
      )

  -- A program without random ports.
  lifted :
      {A : Type 0} (o : Option A) (pool : Pool) (a : A) (pool' : Pool)
      → lift o pool ≡ some (a, pool')
      → o ≡ some a
  lifted none pool a pool' e = absurd (cc e)
  lifted (some b) pool a pool' e = ap some (ap (λ r. r.0) (some-injective (b, pool) (a, pool') e))

  run_algorithm-Serves :
      (algorithm : Algorithm) (cluster : List Machine) (calls : List Call) (pool pool' : Pool)
      → algorithm ≢ rethinkdb
      → run_algorithm os_port fuel algorithm cluster pool ≡ some (calls, pool')
      → All (Serves cluster) calls
  unfolding run_algorithm
  run_algorithm-Serves pso cluster calls pool pool' h e =
      configure_local-Serves run_pso_node cluster calls (pso-Serves cluster)
        (lifted (configure_local run_pso_node cluster) pool calls pool' e)
  run_algorithm-Serves paxos cluster calls pool pool' h e =
      configure_local-Serves run_paxos_node cluster calls (paxos-Serves cluster)
        (lifted (configure_local run_paxos_node cluster) pool calls pool' e)
  run_algorithm-Serves rethinkdb cluster calls pool pool' h e = absurd (h refl)
  run_algorithm-Serves datastore cluster calls pool pool' h e =
      subst (All (Serves cluster)) (ap (λ r. r.0) (some-injective ([], pool) (calls, pool') e)) tt

  last_steps-AllCovered :
      (algorithm : Algorithm) (cluster : List Machine) (steps : List Step)
      → last_steps os_port fuel metadata python here algorithm cluster ≡ some steps
      → AllCovered cluster steps
  unfolding last_steps serve
  last_steps-AllCovered algorithm [] steps e = absurd (cc e)
  last_steps-AllCovered algorithm (first ∷ others) steps e =
      let cluster = first ∷ others in
      subst (AllCovered cluster) (some-injective _ steps e) (
        All-append (Covered cluster) (map _ cluster) _
          (All-map (Covered cluster) _ cluster (λ m here_. tt))
          (All-append (Covered cluster) (map _ cluster) _
            (All-map (Covered cluster) (λ node. does (waits node.rpc_port true)) cluster
              (λ m here_. rpc_port_killed m cluster here_))
            (tt, (test_daemon_killed cluster, ((refl, refl), tt)))))

  kills-Among :
      (port : ℕ) (cluster : List Machine) (rest : List Removal)
      → Among port (killed cluster)
      → Among (kills (str port)) (kill_nodes cluster ++ kills (str test_daemon_port) ∷ rest)
  unfolding kill_nodes
  kills-Among port [] rest (inl e) = inl (ap (λ p. kills (str p)) e)
  kills-Among port [] rest (inr later) = elim later [ ]
  kills-Among port (m ∷ cluster) rest (inl e) = inl (ap (λ p. kills (str p)) e)
  kills-Among port (m ∷ cluster) rest (inr (inl e)) = inr (inl (ap (λ p. kills (str p)) e))
  kills-Among port (m ∷ cluster) rest (inr (inr later)) =
      inr (inr (kills-Among port cluster rest later))

  steps-AllCovered :
      (nodes_num : ℕ) (algorithm : Algorithm) (pool pool' : Pool) (steps : List Step)
      → algorithm ≢ rethinkdb
      → provide_local_cluster os_port fuel metadata python here nodes_num algorithm pool
        ≡ some (steps, pool')
      → (cluster : List Machine) × AllCovered cluster steps
  unfolding provide_local_cluster
  steps-AllCovered n algorithm pool pool' steps h e =
      let (cluster, pool1, e1, f1) = ran (spin os_port fuel n 1) _ pool (steps, pool') e in
      let (calls, pool2, e2, f2) =
        ran (run_algorithm os_port fuel algorithm cluster) _ pool1 (steps, pool') f1 in
      let ends = last_steps os_port fuel metadata python here algorithm cluster in
      let (last, pool3, e3, f3) = ran (lift ends) _ pool2 (steps, pool') f2 in
      (
        cluster,
        subst (λ r. AllCovered cluster r.0) (some-injective _ (steps, pool') f3)
            (All-append (Covered cluster) (map _ cluster) _
              (All-map (Covered cluster) _ cluster (λ m here_. tt))
              (All-append (Covered cluster) (served os_port fuel metadata python here calls) last
                (served-AllCovered cluster calls
                  (run_algorithm-Serves algorithm cluster calls pool1 pool2 h e2))
                (last_steps-AllCovered algorithm cluster last (lifted ends pool2 last pool3 e3)))),
      )

  -- Tearing a local cluster down kills what was started. For every algorithm but RethinkDB, each port
  -- that the steps of the provisioning wait for is one whose process tear_down.py kills, when it gets
  -- the file that these steps save.
  pub provide_local_cluster-torn_down :
      (nodes_num : ℕ) (algorithm : Algorithm) (pool pool' : Pool) (steps : List Step)
      → algorithm ≢ rethinkdb
      → provide_local_cluster os_port fuel metadata python here nodes_num algorithm pool
        ≡ some (steps, pool')
      → (port : ℕ) (tcp : Bool) → Among (does (waits port tcp)) steps
      → (conf : MasterConfig) → Among (saves conf) steps
      → (files : List Text) → Among (kills (str port)) (tear_down_local_cluster conf files).1
  unfolding tear_down_local_cluster finish str
  provide_local_cluster-torn_down n algorithm pool pool' steps h e port tcp waited conf saved
        files =
      let (cluster, covered) = steps-AllCovered n algorithm pool pool' steps h e in
      let (nodes, td) = All-Among (Covered cluster) (saves conf) steps covered saved in
      rw (nodes, td)
        (kills-Among port cluster (remove_directories files)
          (All-Among (Covered cluster) (does (waits port tcp)) steps covered waited))
