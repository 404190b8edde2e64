-- ===== src/TearDown.antt =====
-- tear_down.py on a local cluster: what it kills, by the file that provisioner.py saves.
pub mod Covers
mod Tests
use krafters.Prelude.{Bool, true, false, List, [], ◌∷◌, ◌++◌, none, some, get_elem?, if◌then◌else◌}
use krafters.Text.{Text, codes, str, split_on, contains}
use krafters.Provisioner.{Machine, MasterConfig}

-- A process is killed by a port, or a directory removed.
pub data Removal : Type 0 where
  kills : Text → Removal
  removes : Text → Removal

-- The command of a Removal: kill_process_by_port.
unfoldable pub kill_process_by_port : Text → List Text
kill_process_by_port port =
    codes "fuser" ∷ codes "-k" ∷ (port ++ codes "/tcp") ∷ (port ++ codes "/udp") ∷ []

unfoldable pub kill_nodes : List Machine → List Removal
kill_nodes [] = []
kill_nodes (node ∷ nodes) = kills (str node.port) ∷ kills (str node.rpc_port) ∷ kill_nodes nodes

-- for file in os.listdir('.'): ...
unfoldable pub remove_directories : List Text → List Removal
unfolding contains
remove_directories [] = []
remove_directories (file ∷ files) =
    if contains (codes "rethinkdb_data") file
    then removes (codes "./" ++ file) ∷ remove_directories files
    else remove_directories files

-- The end of tear_down_local_cluster, behind conf["testDaemon"].split(":"); `false` is an IndexError.
unfoldable pub finish : List Text → List Removal → List Text → Bool × List Removal
unfolding remove_directories
finish parts before files = elim (get_elem? parts 1) [
  | none ↦ (false, before)
  | some port ↦ (true, before ++ (kills port ∷ remove_directories files))
]

unfoldable pub tear_down_local_cluster : MasterConfig → List Text → Bool × List Removal
unfolding kill_nodes finish split_on
tear_down_local_cluster conf files =
    finish (split_on (codes ":") conf.test_daemon) (kill_nodes conf.nodes) files
