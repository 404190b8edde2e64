-- ===== src/NetworkManager/Commands.antt =====
-- What init_qdisc runs, as a flat list of commands.
use krafters.Prelude.{
  ◌≡◌, refl, ap, ◌∙◌, inl, inr, ℕ, Bool, true, false, List, [], ◌∷◌, ◌++◌, Bool-cases,
  if◌then◌else◌,
}
use mathlib.Core.Path.{fun_ext}
use krafters.Text.{Text, codes, text_eq}
use krafters.NetworkManager.{
  Peer, NetemManager, create_peer_class_command, create_peer_qdisc_command,
  create_peer_filter_command_local, create_peer_filter_command_gce, substitute, peer_map, port_map,
  address_map, run_commands, if_silent, and_then, lock_ports, lock_addresses, create_peer_filters,
  create_peer_qdisc, init_peers, init_qdisc,
}

abbrev port_commands : NetemManager → Peer → List ℕ → List Text
port_commands self peer [] = []
port_commands self peer (port ∷ ports) =
    substitute (port_map self peer port) create_peer_filter_command_local
    ∷ port_commands self peer ports

abbrev address_commands : NetemManager → Peer → List Text → List Text
address_commands self peer [] = []
address_commands self peer (address ∷ addresses) =
    substitute (address_map self peer address) create_peer_filter_command_gce
    ∷ address_commands self peer addresses

-- The class, the qdisc and a filter for each port on one machine, or each address in the cloud.
abbrev peer_commands : NetemManager → Peer → List Text
peer_commands self peer =
    substitute (peer_map self peer) create_peer_class_command
    ∷ substitute (peer_map self peer) create_peer_qdisc_command
    ∷ (if text_eq self.mode (codes "local")
        then port_commands self peer peer.ports_to_lock
        else address_commands self peer peer.addresses_to_lock)

abbrev pub all_commands : NetemManager → List Peer → List Text
all_commands self [] = []
all_commands self (peer ∷ peers) = peer_commands self peer ++ all_commands self peers

module _ {Sys : Type 0} (shell : Text → Sys → Text × Sys) where
  -- The commands in order, up to the first that writes to its standard error.
  abbrev pub run_all : List Text → Sys → Bool × Sys
  run_all [] s = (true, s)
  run_all (command ∷ commands) s =
      let (e, s') = shell command s in if_silent shell e (run_all commands s') s'

  if_silent-then :
      (e : Text) (x : Bool × Sys) (s : Sys) (g : Sys → Bool × Sys)
      → (let (done, t) = if_silent shell e x s in if done then g t else (false, t))
        ≡ if_silent shell e (let (done, t) = x in if done then g t else (false, t)) s
  if_silent-then [] x s g = refl
  if_silent-then (_ ∷ _) x s g = refl

  run_all-append :
      (xs ys : List Text) (s : Sys)
      → and_then shell (run_all xs) (run_all ys) s ≡ run_all (xs ++ ys) s
  run_all-append [] ys s = refl
  run_all-append (x ∷ xs) ys s =
      if_silent-then (shell x s).0 (run_all xs (shell x s).1) (shell x s).1 (run_all ys)
      ∙ ap (λ r. if_silent shell (shell x s).0 r (shell x s).1) (run_all-append xs ys (shell x s).1)

  both-append :
      (f g : Sys → Bool × Sys) (xs ys : List Text)
      → ((s : Sys) → f s ≡ run_all xs s)
      → ((s : Sys) → g s ≡ run_all ys s)
      → (s : Sys) → and_then shell f g s ≡ run_all (xs ++ ys) s
  both-append f g xs ys hf hg s =
      ap (λ k. and_then shell k g s) (fun_ext hf)
      ∙ ap (λ k. and_then shell (run_all xs) k s) (fun_ext hg)
      ∙ run_all-append xs ys s

  one_command :
      (command : Text) (m : List (Text × Text)) (s : Sys)
      → run_commands shell (command ∷ []) m s ≡ run_all (substitute m command ∷ []) s
  unfolding run_commands
  one_command command m s = refl

  lock_ports-run :
      (self : NetemManager) (peer : Peer) (ports : List ℕ) (s : Sys)
      → lock_ports shell self peer ports s ≡ run_all (port_commands self peer ports) s
  unfolding lock_ports
  lock_ports-run self peer [] s = refl
  lock_ports-run self peer (port ∷ ports) s =
      both-append
        (run_commands shell (create_peer_filter_command_local ∷ []) (port_map self peer port))
        (lock_ports shell self peer ports)
        (substitute (port_map self peer port) create_peer_filter_command_local ∷ [])
        (port_commands self peer ports)
        (one_command create_peer_filter_command_local (port_map self peer port))
        (lock_ports-run self peer ports) s

  lock_addresses-run :
      (self : NetemManager) (peer : Peer) (addresses : List Text) (s : Sys)
      → lock_addresses shell self peer addresses s
        ≡ run_all (address_commands self peer addresses) s
  unfolding lock_addresses
  lock_addresses-run self peer [] s = refl
  lock_addresses-run self peer (address ∷ addresses) s =
      both-append
        (run_commands shell (create_peer_filter_command_gce ∷ []) (address_map self peer address))
        (lock_addresses shell self peer addresses)
        (substitute (address_map self peer address) create_peer_filter_command_gce ∷ [])
        (address_commands self peer addresses)
        (one_command create_peer_filter_command_gce (address_map self peer address))
        (lock_addresses-run self peer addresses) s

  abbrev filter_commands : NetemManager → Peer → List Text
  filter_commands self peer =
      if text_eq self.mode (codes "local")
      then port_commands self peer peer.ports_to_lock
      else address_commands self peer peer.addresses_to_lock

  create_peer_filters-run :
      (self : NetemManager) (peer : Peer) (s : Sys)
      → create_peer_filters shell self peer s ≡ run_all (filter_commands self peer) s
  unfolding create_peer_filters
  create_peer_filters-run self peer s = elim (Bool-cases (text_eq self.mode (codes "local"))) [
    | inl e ↦ rw (e, create_peer_filters) (lock_ports-run self peer peer.ports_to_lock s)
    | inr e ↦ rw (e, create_peer_filters) (lock_addresses-run self peer peer.addresses_to_lock s)
  ]

  create_peer_qdisc-run :
      (self : NetemManager) (peer : Peer) (s : Sys)
      → create_peer_qdisc shell self peer s ≡ run_all (peer_commands self peer) s
  unfolding create_peer_qdisc
  create_peer_qdisc-run self peer =
      let m = peer_map self peer in
      both-append (run_commands shell (create_peer_class_command ∷ []) m)
        (and_then shell (run_commands shell (create_peer_qdisc_command ∷ []) m)
          (create_peer_filters shell self peer))
        (substitute m create_peer_class_command ∷ [])
        (substitute m create_peer_qdisc_command ∷ filter_commands self peer)
        (one_command create_peer_class_command m)
        (both-append (run_commands shell (create_peer_qdisc_command ∷ []) m)
          (create_peer_filters shell self peer) (substitute m create_peer_qdisc_command ∷ [])
          (filter_commands self peer) (one_command create_peer_qdisc_command m)
          (create_peer_filters-run self peer))

  init_peers-false :
      (self : NetemManager) (peers : List Peer) (s : Sys)
      → init_peers shell self false peers s ≡ (false, s)
  unfolding init_peers
  init_peers-false self [] s = refl
  init_peers-false self (peer ∷ peers) s = init_peers-false self peers s

  init_peers-then :
      (self : NetemManager) (peer : Peer) (peers : List Peer) (s : Sys)
      → init_peers shell self true (peer ∷ peers) s
        ≡ and_then shell (create_peer_qdisc shell self peer) (init_peers shell self true peers) s
  unfolding init_peers
  init_peers-then self peer peers s =
      let s' = (create_peer_qdisc shell self peer s).1 in
      elim (Bool-cases (create_peer_qdisc shell self peer s).0) [
        | inl e ↦ rw (e, init_peers) refl
        | inr e ↦ rw (e, init_peers) (init_peers-false self peers s')
      ]

  init_peers-run :
      (self : NetemManager) (peers : List Peer) (s : Sys)
      → init_peers shell self true peers s ≡ run_all (all_commands self peers) s
  unfolding init_peers
  init_peers-run self [] s = refl
  init_peers-run self (peer ∷ peers) s =
      init_peers-then self peer peers s
      ∙ both-append (create_peer_qdisc shell self peer) (init_peers shell self true peers)
          (peer_commands self peer) (all_commands self peers) (create_peer_qdisc-run self peer)
          (init_peers-run self peers) s

  -- init_qdisc runs, for each peer in turn, the commands that create its class, its qdisc and its
  -- filters, up to the first command that writes to its standard error; it is True if none does.
  pub init_qdisc-run_all :
      (self : NetemManager) (s : Sys)
      → init_qdisc shell self s ≡ run_all (all_commands self self.peers) s
  unfolding init_qdisc
  init_qdisc-run_all self s = init_peers-run self self.peers s
