-- ===== src/Systems/Zookeeper.antt =====
-- reckon/systems/zookeeper/__init__.py: the files and the commands of the nodes of ZooKeeper and of
-- its clients.
pub mod Leader
use reckon_k8s.Prelude.{
  ℕ, suc, ◌+◌, Bool, false, List, [], ◌∷◌, ◌++◌, map, Option, none, some, if◌then◌else◌,
}
use reckon_k8s.Outcome.{Outcome, ok, raise, not_supported, check, called_process_error, ◌>>=◌, ◌>>◌}
use reckon_k8s.Text.{Text, codes, str, join, text_eq}
use reckon_k8s.Cluster.{Node}
use reckon_k8s.Systems.Screen.{
  Settings, get_node_tag, add_stderr_logging, add_stdout_logging, Act, run, write_file,
}
use reckon_k8s.Systems.Start.{Plan}
use reckon_k8s.Systems.Etcd.{shown_bool}

-- `Java`
unfoldable pub cmd : (ncpr : Bool) → (ips : List Text) → (client_id : Text) → Text
cmd ncpr ips client_id =
    codes "java -jar reckon/systems/zookeeper/bins/client.jar "
    ++ (join (codes ",") (map (λ ip. ip ++ codes ":2379") ips)
        ++ (codes " " ++ (client_id ++ (codes " " ++ (shown_bool ncpr ++ codes " 20")))))

-- `get_client`, on the arguments `client` and `new_client_per_request`: the client is the value of
-- the latter.
unfoldable pub get_client : Option Text → Bool → Outcome Bool
get_client none ncpr = ok ncpr
get_client (some c) ncpr = if text_eq c (codes "java") then ok ncpr else raise not_supported

abbrev pub newline : Text
newline = 10 ∷ []

-- The lines of `cluster_config`, from the index `i`.
unfoldable pub servers : ℕ → List Node → List Text
servers i [] = []
servers i (node ∷ nodes) =
    (codes "server." ++ (str (i + 1) ++ (codes "=" ++ (node.ip ++ codes ":2380:2381"))))
    ∷ servers (suc i) nodes

unfoldable pub config : (electionAlg : ℕ) (data_dir : Text) → List Node → Text
config electionAlg data_dir cluster = join newline (
    codes "tickTime=100"
    ∷ (codes "dataDir=" ++ (data_dir ++ codes "/data"))
    ∷ codes "clientPort=2379"
    ∷ codes "initLimit=10"
    ∷ codes "syncLimit=10"
    ∷ codes "4lw.commands.whitelist=*"
    ∷ codes "max_client_connections=5000"
    ∷ codes "globalOutstandingLimit=10000"
    ∷ (codes "electionAlg=" ++ str electionAlg)
    ∷ join newline (servers 0 cluster)
    ∷ [])

unfoldable pub log4j_config : (logdir : Text) → Text
log4j_config logdir = join newline (
    codes "zookeeper.root.logger=INFO, CONSOLE"
    ∷ codes "zookeeper.console.threshold=INFO"
    ∷ (codes "zookeeper.log.dir=" ++ (logdir ++ codes "/log4j"))
    ∷ codes "zookeeper.log.file=zookeeper.log"
    ∷ codes "zookeeper.log.threshold=INFO"
    ∷ codes "zookeeper.log.maxfilesize=256MB"
    ∷ codes "zookeeper.log.maxbackupindex=20"
    ∷ codes "zookeeper.tracelog.dir=${zookeeper.log.dir}"
    ∷ codes "zookeeper.tracelog.file=zookeeper_trace.log"
    ∷ codes "log4j.rootLogger=${zookeeper.root.logger}"
    ∷ codes "log4j.appender.CONSOLE=org.apache.log4j.ConsoleAppender"
    ∷ codes "log4j.appender.CONSOLE.Threshold=${zookeeper.console.threshold}"
    ∷ codes "log4j.appender.CONSOLE.layout=org.apache.log4j.PatternLayout"
    ∷ codes
        "log4j.appender.CONSOLE.layout.ConversionPattern=%d{ISO8601} [myid:%X{myid}] - %-5p [%t:%C{1}@%L] - %m%n"
    ∷ [])

-- `subprocess.run(command, shell=True).check_returncode()`, where `succeeds` says which commands
-- end with the code zero.
abbrev pub run_checked : (Text → Bool) → Text → Outcome Act
run_checked succeeds command = do check (succeeds command) called_process_error; ok (run command)

module _ {F : Type 0} (electionAlg : ℕ) (succeeds : Text → Bool) (self : Settings F) where
  abbrev pub node_dir : Node → Text
  node_dir host = self.data_dir ++ (codes "/" ++ get_node_tag host)

  abbrev pub logdir : Node → Text
  logdir host = codes "/results/logs/" ++ (get_node_tag host ++ codes ".zklogdir")

  -- The directories and the files of a host, at the index `i` of the cluster.
  unfoldable pub prepare : List Node → ℕ → Node → Outcome (List Act)
  prepare cluster i host = do
    let dir = node_dir host
    let cfg_dir = dir ++ codes "/config"
    data_made ← run_checked succeeds (codes "mkdir -p " ++ (dir ++ codes "/data"))
    id_written ←
        run_checked succeeds
          (codes "echo " ++ (str (i + 1) ++ (codes " > " ++ (dir ++ codes "/data/myid"))))
    config_made ← run_checked succeeds (codes "mkdir -p " ++ cfg_dir)
    ok (
        data_made
        ∷ id_written
        ∷ config_made
        ∷ write_file (cfg_dir ++ codes "/zoo.cfg") (config electionAlg dir cluster)
        ∷ write_file (cfg_dir ++ codes "/log4j.properties") (log4j_config (logdir host))
        ∷ [])

  -- `cmd`
  unfoldable pub start_cmd : Node → Text
  start_cmd host =
      let tag = get_node_tag host in
      let command = join (codes " ") (
        (codes "ZOO_LOG_FILE=/results/logs/" ++ (tag ++ codes ".zklogfile"))
        ∷ (codes "ZOO_LOG_DIR=" ++ logdir host)
        ∷ codes "JVMFLAGS=\"-Xms10G -Xmx10G \""
        ∷ codes "reckon/systems/zookeeper/bins/apache-zookeeper-3.5.10-bin/bin/zkServer.sh"
        ∷ (codes "--config " ++ (node_dir host ++ codes "/config"))
        ∷ codes "start-foreground"
        ∷ []) in
      let log = tag ++ codes ".log" in
      add_stdout_logging self (add_stderr_logging self command log) log false

  unfoldable pub plan : List Node → ℕ → Node → Plan
  plan cluster i host = record {
    prepare = prepare cluster i host;
    first = start_cmd host;
    again = start_cmd host;
  }
