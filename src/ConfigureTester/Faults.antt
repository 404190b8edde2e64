-- ===== src/ConfigureTester/Faults.antt =====
-- Where the tester ends.
use krafters.Prelude.{
  ◌⊎◌, ℕ, ◌≡◌, refl, inl, inr, true, false, List, [], ◌∷◌, some, Bool-cases, ◌==◌, length,
}
use mathlib.Core.Path.{subst}
use mathlib.Core.Option.{some-injective}
use krafters.Text.{Text, codes, text_eq}
use krafters.Provisioner.{Machine, Pool, driver_port, cluster_port, http_port}
use krafters.Provisioner.Local.{Draws, get_free_random_port}
use krafters.Provisioner.Ports.{ran}
use krafters.ConfigureTester.{
  Outcome, ask, master_request, configure_local_nodes, configure_cloud_nodes, configure_rethinkdb,
  by_mode,
}

-- A fault behind the first request.
abbrev Stopped : Outcome → Type 0
Stopped out = (out.0 ≡ false) × (length out.1 ≡ 1)

-- The master's request is a fault, whatever would come behind it.
master-Stopped :
    (node : Machine) (cp dp hp : ℕ) (later : Draws Outcome) (pool pool' : Pool) (out : Outcome)
    → ask (master_request node cp dp hp) later pool ≡ some (out, pool')
    → Stopped out
unfolding ask
master-Stopped node cp dp hp later pool pool' out e =
    subst (λ r. Stopped r.0)
      (some-injective ((false, master_request node cp dp hp ∷ []), pool) (out, pool') e)
      (refl, refl)

module _ (os_port : ℕ → ℕ) (fuel : ℕ) where
  local-Stopped :
      (master : Text) (m_cp : ℕ) (node : Machine) (cluster : List Machine) (pool pool' : Pool)
      (out : Outcome)
      → (node.id == 1) ≡ true
      → configure_local_nodes os_port fuel master m_cp (node ∷ cluster) pool ≡ some (out, pool')
      → Stopped out
  unfolding configure_local_nodes
  local-Stopped master m_cp node cluster pool pool' out first e =
      let (hp, pool1, e1, f1) =
        ran (get_free_random_port os_port fuel) _ pool (out, pool')
          (rw (first, configure_local_nodes) at e) in
      master-Stopped node m_cp node.port hp (configure_local_nodes os_port fuel master m_cp cluster)
        pool1 pool' out f1

  cloud-Stopped :
      (master : Text) (node : Machine) (cluster : List Machine) (pool pool' : Pool) (out : Outcome)
      → (node.id == 1) ≡ true
      → configure_cloud_nodes os_port fuel master (node ∷ cluster) pool ≡ some (out, pool')
      → Stopped out
  unfolding configure_cloud_nodes
  cloud-Stopped master node cluster pool pool' out first e =
      master-Stopped node cluster_port driver_port http_port
        (configure_cloud_nodes os_port fuel master cluster) pool pool' out
        (rw (first, configure_cloud_nodes) at e)

  -- The tester never gets past the master. In both modes, on a cluster whose first node has the id 1,
  -- its loop ends with a fault at the first request, which has one argument less than the function.
  pub configure_rethinkdb-Stopped :
      (node : Machine) (cluster : List Machine) (mode : Text) (pool pool' : Pool) (out : Outcome)
      → (node.id == 1) ≡ true
      → (text_eq mode (codes "local") ≡ true) ⊎ (text_eq mode (codes "gce") ≡ true)
      → configure_rethinkdb os_port fuel (node ∷ cluster) mode pool ≡ some (out, pool')
      → (out.0 ≡ false) × (length out.1 ≡ 1)
  unfolding configure_rethinkdb by_mode
  configure_rethinkdb-Stopped node cluster mode pool pool' out first known e =
      let (m_cp, pool1, e1, f1) = ran (get_free_random_port os_port fuel) _ pool (out, pool') e in
      elim (Bool-cases (text_eq mode (codes "local"))) [
        | inl g ↦
            local-Stopped node.address m_cp node cluster pool1 pool' out first
              (rw (g, by_mode) at f1)
        | inr g ↦
            let cloud : text_eq mode (codes "gce") ≡ true = elim known [
              | inl h ↦ absurd (cc (h, g))
              | inr h ↦ h
            ] in
            cloud-Stopped node.address node cluster pool1 pool' out first
              (rw (g, cloud, by_mode) at f1)
      ]
