-- ===== src/NetworkManager/Tests.antt =====
-- A node with one peer, over a shell that keeps its commands and complains about the second one.
use krafters.Prelude.{◌≡◌, refl, List, [], ◌∷◌, ◌++◌}
use krafters.Text.{Text, codes}
use krafters.NetworkManager.{
  Peer, NetemManager, modify_outgoing_connections_command, substitute, init_qdisc,
}
use krafters.NetworkManager.Commands.{all_commands, run_all, init_qdisc-run_all}

abbrev peer_two : Peer
peer_two = record { id = 2; ports_to_lock = 12366 ∷ []; addresses_to_lock = [] }

abbrev node_one : NetemManager
node_one = record { interface = codes "lo"; host = 1; peers = peer_two ∷ []; mode = codes "local" }

abbrev complain : List Text → Text
complain (_ ∷ []) = codes "RTNETLINK answers: File exists"
complain _ = []

abbrev shell : Text → List Text → Text × List Text
shell command past = (complain past, past ++ command ∷ [])

init_qdisc-run_all_example :
    init_qdisc shell node_one [] ≡ run_all shell (all_commands node_one (peer_two ∷ [])) []
init_qdisc-run_all_example = init_qdisc-run_all shell node_one []

-- The link from 1 to 2 is changed at the parent that create_peer_qdisc gives its qdisc.
parent_of_link :
    substitute
      ((codes "%INTERFACE%", codes "lo")
        ∷ (codes "%PID%", codes "12")
        ∷ (codes "%NETEM%", codes "delay 1s")
        ∷ [])
      modify_outgoing_connections_command
    ≡ codes "sudo tc qdisc change dev lo parent 1:122 netem delay 1s"
unfolding substitute
parent_of_link = refl
