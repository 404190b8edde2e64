-- ===== src/ConfigureDaemon.antt =====
-- The functions that configure_daemon.py serves, and that provisioner.py calls on a local cluster: what
-- each runs, and the ports that it waits for. A port is waited for as long as it takes.
use krafters.Prelude.{ℕ, Bool, true, false, List, [], ◌∷◌, ◌++◌, Option, none, some, map}
use krafters.Text.{Text, codes, replace, str}

-- subprocess.Popen of a list, or of a line with shell=True, and the loop of wait_for_ports for a port,
-- by TCP or UDP.
pub data Effect : Type 0 where
  runs : List Text → Effect
  shell : Text → Effect
  waits : ℕ → Bool → Effect

abbrev pub test_daemon_port : ℕ
test_daemon_port = 2082

abbrev pub network_manager_port : ℕ
network_manager_port = 12347

abbrev pub local_node_conf_file : Text
local_node_conf_file = codes "node_conf.json"

unfoldable pub wait_for_ports : List ℕ → Bool → List Effect
wait_for_ports ports tcp = map (λ port. waits port tcp) ports

-- A call of one of the functions, by its name.
pub data Call : Type 0 where
  run_test_daemon : Text → ℕ → Call
  run_network_manager : Call
  download_node_config : Call
  run_pso_node : ℕ → Text → Option Text → Call
  run_paxos_node : ℕ → Text → Option Text → Call
  configure_rethinkdb_master : ℕ → ℕ → ℕ → Text → Call
  configure_rethinkdb_follower : ℕ → Text → ℕ → ℕ → ℕ → ℕ → Call
  stop_rethinkdb : Call

-- "{} {} {} &".format(script, node_config_file, test_daemon), where the last may be missing
unfoldable pub node_command : Text → Text → Option Text → Text
node_command script node_config_file none =
    script ++ (codes " " ++ (node_config_file ++ codes " &"))
node_command script node_config_file (some test_daemon) =
    script ++ (codes " " ++ (node_config_file ++ (codes " " ++ (test_daemon ++ codes " &"))))

abbrev pub test_daemon_command : Text → Text → ℕ → Text
test_daemon_command file_path algorithm algorithm_port =
    codes "python3.4 "
    ++ (file_path
        ++ (codes "/test_daemon.py '' "
            ++ (algorithm ++ (codes " " ++ (str algorithm_port ++ codes " &")))))

abbrev pub rethinkdb_master_command : ℕ → ℕ → ℕ → Text → Text
rethinkdb_master_command cluster_port driver_port http_port canonical_address =
    codes "rethinkdb --cache-size 0 --bind all --cluster-port "
    ++ (str cluster_port
        ++ (codes " --driver-port "
            ++ (str driver_port
                ++ (codes " --http-port "
                    ++ (str http_port
                        ++ (codes " --canonical-address " ++ (canonical_address ++ codes " &")))))))

abbrev pub rethinkdb_follower_command : ℕ → Text → ℕ → ℕ → ℕ → ℕ → Text
rethinkdb_follower_command my_id m_ip m_cp my_cp my_dp my_hp =
    codes "rethinkdb --cache-size 0 --bind all --directory rethinkdb_data"
    ++ (str my_id
        ++ (codes " --join "
            ++ (m_ip
                ++ (codes ":"
                    ++ (str m_cp
                        ++ (codes " --cluster-port "
                            ++ (str my_cp
                                ++ (codes " --driver-port "
                                    ++ (str my_dp
                                        ++ (codes " --http-port "
                                            ++ (str my_hp ++ codes " &")))))))))))

-- The first two commands of download_node_config; the metadata server answers with a text.
abbrev pub attribute : Text → Effect
attribute name = runs (
    codes "curl"
    ∷ (codes "http://metadata.google.internal/computeMetadata/v1/instance/attributes/" ++ name)
    ∷ codes "-H"
    ∷ codes "Metadata-Flavor: Google"
    ∷ [])

-- What a call does in the directory `here` of the script, with the attributes of the machine.
unfoldable pub serve : (Text → Text) → Text → Call → List Effect
unfolding wait_for_ports node_command
serve metadata here (run_test_daemon algorithm algorithm_port) =
    shell (test_daemon_command (replace (codes " ") (codes "\\ ") here) algorithm algorithm_port)
    ∷ wait_for_ports (test_daemon_port ∷ []) true
serve metadata here run_network_manager =
    runs (codes "sudo" ∷ codes "./network_manager.py" ∷ local_node_conf_file ∷ [])
    ∷ wait_for_ports (network_manager_port ∷ []) true
serve metadata here download_node_config =
    attribute (codes "clusterConfig")
    ∷ attribute (codes "bucket")
    ∷ runs (
        codes "sudo"
        ∷ codes "gsutil"
        ∷ codes "cp"
        ∷ (codes "gs://"
            ++ (metadata (codes "bucket") ++ (codes "/" ++ metadata (codes "clusterConfig"))))
        ∷ local_node_conf_file
        ∷ [])
    ∷ []
serve metadata here (run_pso_node port node_config_file test_daemon) =
    shell (node_command (codes "./pysyncobj/custom_server.py") node_config_file test_daemon)
    ∷ wait_for_ports (port ∷ []) false
serve metadata here (run_paxos_node port node_config_file test_daemon) =
    shell (node_command (codes "./paxos/custom_server.py") node_config_file test_daemon)
    ∷ wait_for_ports (port ∷ []) false
serve metadata here
      (configure_rethinkdb_master cluster_port driver_port http_port canonical_address) =
    shell (rethinkdb_master_command cluster_port driver_port http_port canonical_address)
    ∷ wait_for_ports (cluster_port ∷ driver_port ∷ http_port ∷ []) true
serve metadata here (configure_rethinkdb_follower my_id m_ip m_cp my_cp my_dp my_hp) =
    shell (rethinkdb_follower_command my_id m_ip m_cp my_cp my_dp my_hp)
    ∷ wait_for_ports (my_cp ∷ my_dp ∷ my_hp ∷ []) true
serve metadata here stop_rethinkdb = shell (codes "killall rethinkdb") ∷ []
