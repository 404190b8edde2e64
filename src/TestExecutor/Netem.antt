-- ===== src/TestExecutor/Netem.antt =====
-- NetemMaster and Executor of test_executor.py over the remote daemons that they call.
pub mod Requests
use krafters.Prelude.{ℕ, Bool, true, false, List, [], ◌∷◌, ◌++◌, ◌==◌, if◌then◌else◌}
use krafters.Text.{Text, codes}
use krafters.TestExecutor.Errors.{
  netem_error, test_exception, Raised, test, other, Outcome, ok, raise,
}
use krafters.Sets.{contains}
use krafters.TestExecutor.Unwrapper.{Action, run, modify}

-- The servers behind the XML-RPC proxies: the network manager of each node and the test daemon. A
-- call may also end in a fault of the connection.
pub record Remote : Type 1 where
  pub Net : Type 0
  pub Time : Type 0
  pub clean_all_qdisc : ℕ → Net → Outcome Bool × Net
  pub create_root_qdisc : ℕ → Net → Outcome Bool × Net
  pub init_qdisc : ℕ → Net → Outcome Bool × Net
  pub modify_outgoing_connection : ℕ → ℕ → Text → Net → Outcome Bool × Net
  pub run_test : ℕ → Net → Outcome (List Time) × Net

module _ (r : Remote) where
  open r use {
    Net, Time, clean_all_qdisc, create_root_qdisc, init_qdisc, modify_outgoing_connection, run_test,
  }

  -- The NetemMaster's `nodes_rpc`, as the ids that it has a proxy for, and the csv file's rows.
  pub record World : Type 0 where
    pub net : Net
    pub nodes_rpc : List ℕ
    pub rows : List (Text × List Time)

  abbrev pub Exec : Type 0 → Type 0
  Exec A = World → Outcome A × World

  infixl 10 ◌>>=◌ ◌>>◌
  abbrev continue : {A B : Type 0} → Outcome A → (A → Exec B) → Exec B
  continue (ok a) f w = f a w
  continue (raise e) f w = (raise e, w)

  abbrev pub ◌>>=◌ : {A B : Type 0} → Exec A → (A → Exec B) → Exec B
  ◌>>=◌ m f w = let (out, w') = m w in continue out f w'

  abbrev pub ◌>>◌ : {A B : Type 0} → Exec A → Exec B → Exec B
  m >> n = m >>= λ _. n

  abbrev pub pure : {A : Type 0} → A → Exec A
  pure a w = (ok a, w)

  abbrev pub throw : {A : Type 0} → Raised → Exec A
  throw e w = (raise e, w)

  -- A call of a server, which the world's net goes through.
  abbrev remote : {A : Type 0} → (Net → Outcome A × Net) → Exec A
  remote call w = let (out, net') = call w.net in (out, record w { net = net' })

  -- self.nodes_rpc[str(node)], where a missing key is a KeyError
  proxy : ℕ → Exec (Unit {0})
  unfolding contains
  proxy node w = if contains node w.nodes_rpc then (ok tt, w) else (raise other, w)

  -- self.nodes_rpc[str(node)].modify_outgoing_connection(str(target), netem_command)
  pub request : Text → ℕ → ℕ → Exec Bool
  unfolding proxy
  request netem_command node target = do
    proxy node
    remote (modify_outgoing_connection node target netem_command)

  -- TestException(NETEM_ERROR, "'{}' is not a valid netem command".format(netem_command))
  pub netem_failure : Text → Raised
  netem_failure netem_command = test (
      test_exception netem_error
        (codes "'" ++ (netem_command ++ codes "' is not a valid netem command")))

  -- What follows the test `if not ...: raise`.
  pub require : Text → Bool → Exec (Unit {0})
  unfolding netem_failure
  require netem_command true = pure tt
  require netem_command false = throw (netem_failure netem_command)

  -- not a or not b: the second request is made only if the first was granted
  both_ways : Text → ℕ → ℕ → Bool → Exec Bool
  unfolding request
  both_ways netem_command source target false = pure false
  both_ways netem_command source target true = request netem_command target source

  pub modify_connection : ℕ → ℕ → Text → Bool → Exec (Unit {0})
  unfolding request both_ways require
  modify_connection source target netem_command bidirectional =
      if source == target
      then pure tt
      else if bidirectional
      then (do
        granted ← request netem_command source target
        both ← both_ways netem_command source target granted
        require netem_command both)
      else (do granted ← request netem_command source target; require netem_command granted)

  -- The inner loop of modify_connections, over the targets of one source.
  pub modify_targets : ℕ → List ℕ → Text → Bool → Exec (Unit {0})
  unfolding modify_connection
  modify_targets source [] netem_command bidirectional = pure tt
  modify_targets source (target ∷ targets) netem_command bidirectional = do
    modify_connection source target netem_command bidirectional
    modify_targets source targets netem_command bidirectional

  pub modify_connections : List ℕ → List ℕ → Text → Bool → Exec (Unit {0})
  unfolding modify_targets
  modify_connections [] targets netem_command bidirectional = pure tt
  modify_connections (source ∷ sources) targets netem_command bidirectional = do
    modify_targets source targets netem_command bidirectional
    modify_connections sources targets netem_command bidirectional

  -- NetemMaster(nodes), once the proxies stand: clean_all_qdisc and create_root_qdisc on each node,
  -- whose answers are dropped.
  pub clean_nodes : List ℕ → Exec (Unit {0})
  unfolding proxy
  clean_nodes [] = pure tt
  clean_nodes (node ∷ nodes) = do
    proxy node
    remote (clean_all_qdisc node)
    remote (create_root_qdisc node)
    clean_nodes nodes

  -- if not ...init_qdisc(): raise Exception(...)
  init_failed : Bool → Exec (Unit {0})
  init_failed true = pure tt
  init_failed false = throw other

  pub init_nodes : List ℕ → Exec (Unit {0})
  unfolding proxy init_failed
  init_nodes [] = pure tt
  init_nodes (node ∷ nodes) = do
    proxy node
    done ← remote (init_qdisc node)
    init_failed done
    init_nodes nodes

  set_proxies : List ℕ → Exec (Unit {0})
  set_proxies nodes w = (ok tt, record w { nodes_rpc = nodes ++ w.nodes_rpc })

  pub netem_master : List ℕ → Exec (Unit {0})
  unfolding set_proxies clean_nodes init_nodes
  netem_master nodes = do set_proxies nodes; clean_nodes nodes; init_nodes nodes

  -- "{}_{}".format(self.algorithm, label)
  row_label : Text → Text → Text
  row_label algorithm label = algorithm ++ (codes "_" ++ label)

  write_row : Text → List Time → Exec (Unit {0})
  write_row name times w = (ok tt, record w { rows = w.rows ++ (name, times) ∷ [] })

  -- Executor.run_command and Executor.modify_link_from_to
  unfoldable pub execute : Text → Action → Exec (Unit {0})
  unfolding row_label write_row modify_connections
  execute algorithm (run n_op label) = do
    result ← remote (run_test n_op)
    write_row (row_label algorithm label) result
  execute algorithm (modify sources targets netem_command bidirectional) =
      modify_connections sources targets netem_command bidirectional
