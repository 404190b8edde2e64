-- ===== src/NetworkManager.antt =====
-- NetemManager of network_manager.py: the tc commands of a node, over the shell that runs them.
pub mod Commands
mod Tests
use krafters.Prelude.{
  ℕ, Bool, true, false, ◌&&◌, List, [], ◌∷◌, ◌++◌, Option, none, some, if◌then◌else◌,
}
use krafters.Text.{Text, codes, replace, str, text_eq}

-- A peer of the configuration, with the keys that are read.
pub record Peer : Type 0 where
  pub id : ℕ
  pub ports_to_lock : List ℕ
  pub addresses_to_lock : List Text

-- The fields of a NetemManager; `host` is the host's id.
pub record NetemManager : Type 0 where
  pub interface : Text
  pub host : ℕ
  pub peers : List Peer
  pub mode : Text

abbrev pub create_root_command : Text
create_root_command = codes "sudo tc qdisc add dev %INTERFACE% root handle 1: htb"

abbrev pub delete_root_commands : List Text
delete_root_commands =
    codes "sudo tc qdisc del dev %INTERFACE% root"
    ∷ codes "sudo tc -s qdisc ls dev %INTERFACE%"
    ∷ []

abbrev pub create_peer_class_command : Text
create_peer_class_command =
    codes "sudo tc class add dev %INTERFACE% parent 1: classid 1:%DID% htb rate 100Mbps"

abbrev pub create_peer_qdisc_command : Text
create_peer_qdisc_command =
    codes "sudo tc qdisc add dev %INTERFACE% parent 1:%DID% handle %DID%: netem delay 0ms"

abbrev pub create_peer_filter_command_local : Text
create_peer_filter_command_local =
    codes
      "sudo tc filter add dev %INTERFACE% protocol ip u32 match ip dport %PPORT% 0xffff flowid 1:%DID%"

abbrev pub create_peer_filter_command_gce : Text
create_peer_filter_command_gce =
    codes
      "sudo tc filter add dev %INTERFACE% protocol ip u32 match ip dst %PADDRESS%/32 flowid 1:%DID%"

abbrev pub modify_outgoing_connections_command : Text
modify_outgoing_connections_command =
    codes "sudo tc qdisc change dev %INTERFACE% parent 1:%PID%2 netem %NETEM%"

-- for token, value in substitution_map.items(): ..., in the order in which the map is written
unfoldable pub substitute : List (Text × Text) → Text → Text
unfolding replace
substitute [] command = command
substitute ((token, value) ∷ rest) command = substitute rest (replace token value command)

-- self.interface_token: self.interface, self.destination_id_token: destination_id
abbrev pub peer_map : NetemManager → Peer → List (Text × Text)
peer_map self peer =
    (codes "%INTERFACE%", self.interface)
    ∷ (codes "%DID%", str self.host ++ (str peer.id ++ codes "2"))
    ∷ []

abbrev pub port_map : NetemManager → Peer → ℕ → List (Text × Text)
port_map self peer port = peer_map self peer ++ (codes "%PPORT%", str port) ∷ []

abbrev pub address_map : NetemManager → Peer → Text → List (Text × Text)
address_map self peer address = peer_map self peer ++ (codes "%PADDRESS%", address) ∷ []

-- `shell` is what `run` makes of a command: the bytes on its standard error.
module _ {Sys : Type 0} (shell : Text → Sys → Text × Sys) where
  -- if e: ..., where the statement behind it raises
  abbrev pub if_silent : Text → Bool × Sys → Sys → Bool × Sys
  if_silent [] rest s = rest
  if_silent (_ ∷ _) rest s = (false, s)

  -- run_commands; `false` is a TypeError. Standard error comes as bytes, and `e + "\n"` raises if there
  -- are any, so what is returned is always the empty text.
  pub run_commands : List Text → List (Text × Text) → Sys → Bool × Sys
  unfolding substitute
  run_commands [] substitution_map s = (true, s)
  run_commands (command ∷ commands) substitution_map s =
      let (e, s') = shell (substitute substitution_map command) s in
      if_silent e (run_commands commands substitution_map s') s'

  -- The methods end in True if run_commands returns, and in False if it raises.
  pub create_root_qdisc : NetemManager → Sys → Bool × Sys
  unfolding run_commands
  create_root_qdisc self =
      run_commands (create_root_command ∷ []) ((codes "%INTERFACE%", self.interface) ∷ [])

  pub clean_all_qdisc : NetemManager → Sys → Bool × Sys
  unfolding run_commands
  clean_all_qdisc self =
      run_commands delete_root_commands ((codes "%INTERFACE%", self.interface) ∷ [])

  -- First one, then the other if the first has ended in True.
  abbrev pub and_then : (Sys → Bool × Sys) → (Sys → Bool × Sys) → Sys → Bool × Sys
  and_then f g s = let (done, s') = f s in if done then g s' else (false, s')

  -- for peer_port in peer["portsToLock"]: ...
  pub lock_ports : NetemManager → Peer → List ℕ → Sys → Bool × Sys
  unfolding run_commands
  lock_ports self peer [] s = (true, s)
  lock_ports self peer (port ∷ ports) s =
      and_then (run_commands (create_peer_filter_command_local ∷ []) (port_map self peer port))
        (lock_ports self peer ports) s

  -- for peer_address in peer["addressesToLock"]: ...
  pub lock_addresses : NetemManager → Peer → List Text → Sys → Bool × Sys
  unfolding run_commands
  lock_addresses self peer [] s = (true, s)
  lock_addresses self peer (address ∷ addresses) s =
      and_then (run_commands (create_peer_filter_command_gce ∷ []) (address_map self peer address))
        (lock_addresses self peer addresses) s

  pub create_peer_filters : NetemManager → Peer → Sys → Bool × Sys
  unfolding text_eq lock_ports lock_addresses
  create_peer_filters self peer =
      if text_eq self.mode (codes "local")
      then lock_ports self peer peer.ports_to_lock
      else lock_addresses self peer peer.addresses_to_lock

  pub create_peer_qdisc : NetemManager → Peer → Sys → Bool × Sys
  unfolding run_commands create_peer_filters
  create_peer_qdisc self peer =
      and_then (run_commands (create_peer_class_command ∷ []) (peer_map self peer)) (
        and_then (run_commands (create_peer_qdisc_command ∷ []) (peer_map self peer))
          (create_peer_filters self peer))

  pub modify_outgoing_connection : NetemManager → Text → Text → Sys → Bool × Sys
  unfolding run_commands
  modify_outgoing_connection self peer_id netem_command =
      run_commands (modify_outgoing_connections_command ∷ []) (
        (codes "%INTERFACE%", self.interface)
        ∷ (codes "%PID%", str self.host ++ peer_id)
        ∷ (codes "%NETEM%", netem_command)
        ∷ [])

  -- result = result and self.create_peer_qdisc(peer): no call is made behind a False.
  pub init_peers : NetemManager → Bool → List Peer → Sys → Bool × Sys
  unfolding create_peer_qdisc
  init_peers self result [] s = (result, s)
  init_peers self true (peer ∷ peers) s =
      let (result, s') = create_peer_qdisc self peer s in init_peers self result peers s'
  init_peers self false (peer ∷ peers) s = init_peers self false peers s

  pub init_qdisc : NetemManager → Sys → Bool × Sys
  unfolding init_peers
  init_qdisc self = init_peers self true self.peers
