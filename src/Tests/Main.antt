-- ===== src/Tests/Main.antt =====
-- Whole runs of the program.
use reckon_k8s.Prelude.{
  ◌≡◌, refl, Bool, true, false, ◌||◌, List, [], ◌∷◌, ◌++◌, none, some, if◌then◌else◌,
}
use reckon_k8s.Outcome.{ok, raise, name_error, value_error, docker_error}
use reckon_k8s.Text.{Text, codes, str, text_eq}
use reckon_k8s.Failures.Provider.{
  FailureType, Provider, Fault, get_failure_provider, get_failures, worker_offline_failures,
}
use reckon_k8s.Enums.{Member}
use reckon_k8s.Enums.Words.{Reads, as_enum-default}
use reckon_k8s.Main.{Tables, Event, called, stopped, prepare, settle, call_all, run_benchmark}
use reckon_k8s.Main.Cleanup.{Ends, run_benchmark-Ends, run_benchmark_killed_again}
use reckon_k8s.Main.Program.{SystemChoice, System, Args, Outside, program}
use reckon_k8s.Main.Program.Runs.{HasRun, run_benchmark_kubernetes, run_benchmark_other}
use reckon_k8s.Systems.Family.{SystemType}
use reckon_k8s.Systems.Kubernetes.Client.{get_client}
use reckon_k8s.Topology.KuberNet
use reckon_k8s.Topology.Setup
use reckon_k8s.Topology.Setup.Defaults
use reckon_k8s.Tests.{sixteenths}
use reckon_k8s.Topology.Setup.{LinkSpec, TopologyType}
use reckon_k8s.Workload.Provider as Keys
use reckon_k8s.Workload.Provider.{KeyType, ArrivalType}

abbrev args : Args
args = record {
  system_type = SystemChoice.kubernetes;
  client = none;
  new_client_per_request = true;
  light_reads = false;
  topo_type = TopologyType.simple_k8s;
  number_nodes = 2;
  number_clients = 1;
  link_latency = 4;
  link_loss = 0;
  link_jitter = 0;
  link_specs = [];
  failure_type = FailureType.f_k8s_worker_offline;
  mtbf = 5;
  kill_n = 0;
  key_distribution = KeyType.uniform;
  arrival_process = ArrivalType.uniform;
  duration = 60;
}

abbrev tables : Tables Text
tables = record {
  restarters = [];
  stoppers = [];
  killers = (codes "node_cp", codes "cp") ∷ (codes "node_wn", codes "wn") ∷ [];
}

abbrev outside : Outside Text
outside = record {
  start_nodes = λ s hosts. ok tables;
  runtime = some (codes "containernet");
  ping_all = ok tt;
  call = λ log f. ok tt;
}

-- A latency of a quarter, over two links.
abbrev halved : LinkSpec
halved = record {
  n_from = codes "*";
  n_to = codes "*";
  latency_ms = some 2;
  loss_perc = none;
  jitter_ms = none;
}

has_spec : Defaults.default_spec sixteenths TopologyType.simple_k8s 4 0 0 ≡ ok halved
unfolding Defaults.default_spec Defaults.star_spec Defaults.base_spec
has_spec = refl

run_benchmark_kubernetes_example :
    HasRun sixteenths args outside halved tables (codes "containernet")
run_benchmark_kubernetes_example =
    run_benchmark_kubernetes sixteenths args outside halved tables (codes "containernet") refl refl
      has_spec tt (λ s hosts. refl) refl refl (λ log f. refl)

abbrev etcd_args : Args
etcd_args = record args { system_type = SystemChoice.other SystemType.etcd }

run_benchmark_other_example :
    run_benchmark (program sixteenths etcd_args outside) ≡ ([], raise name_error)
run_benchmark_other_example = run_benchmark_other sixteenths etcd_args outside SystemType.etcd refl

run_benchmark-Ends_example :
    Ends
      (program sixteenths args outside)
      (prepare (program sixteenths args outside))
      (run_benchmark (program sixteenths args outside))
run_benchmark-Ends_example = run_benchmark-Ends (program sixteenths args outside) (λ log f. refl)

-- A container can be removed once.
abbrev has_called : List (Event Text Text Fault) → Text → Bool
has_called [] f = false
has_called (called g ∷ log) f = text_eq f g || has_called log f
has_called (e ∷ log) f = has_called log f

abbrev docker : Outside Text
docker = record outside {
  ping_all = raise value_error;
  call = λ log f. if has_called log f then raise docker_error else ok tt;
}

abbrev hosts : List Text
hosts = codes "cp" ∷ codes "wn" ∷ []

abbrev go : System
go = System.kubernetes (record { ncpr = true; light_reads = false })

abbrev provider : Provider
provider = Provider.intermittent_worker_offline_failure 5

docker_prepared :
    prepare (program sixteenths args docker) ≡ ok (go, provider, hosts, codes "mc1" ∷ [])
unfolding prepare Defaults.default_spec Defaults.star_spec Defaults.base_spec get_client
    get_failure_provider Keys.get_ops_provider Keys.get_key_provider Keys.get_arrival_provider
    Setup.get_topology Setup.setup_simple_k8s KuberNet.create_cluster KuberNet.add_worker_nodes
    KuberNet.add_worker_node KuberNet.add_control_planes KuberNet.add_control_plane
    KuberNet.create_all KuberNet.create_nodes KuberNet.create_node KuberNet.own_volumes str
docker_prepared = refl

docker_settled :
    settle (program sixteenths args docker) go provider hosts tables
    ≡ (Event.slept 60 ∷ [], raise value_error)
unfolding settle get_failures worker_offline_failures
docker_settled = refl

docker_calls :
    call_all (program sixteenths args docker) (codes "cp" ∷ codes "wn" ∷ []) (Event.slept 60 ∷ [])
    ≡ (Event.slept 60 ∷ called (codes "cp") ∷ called (codes "wn") ∷ [], ok tt)
unfolding call_all
docker_calls = refl

run_benchmark_killed_again_example : run_benchmark (program sixteenths args docker) ≡ (
  ((Event.slept 60 ∷ called (codes "cp") ∷ called (codes "wn") ∷ []) ++ stopped ∷ [])
      ++ called (codes "cp") ∷ [],
  raise docker_error,
)
run_benchmark_killed_again_example =
    run_benchmark_killed_again (program sixteenths args docker) go provider hosts (codes "mc1" ∷ [])
      tables (Event.slept 60 ∷ []) (Event.slept 60 ∷ called (codes "cp") ∷ called (codes "wn") ∷ [])
      value_error docker_error (codes "cp") (codes "wn" ∷ []) docker_prepared refl docker_settled
      refl refl docker_calls refl

as_enum-default_example : Reads (Member.topology TopologyType.ha_k8s)
as_enum-default_example = as_enum-default (Member.topology TopologyType.ha_k8s)
