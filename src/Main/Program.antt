-- ===== src/Main/Program.antt =====
-- The parts that the program makes of its arguments: reckon/systems/, reckon/topologies/,
-- reckon/failures/ and reckon/workload/, as they are modelled.
pub mod Runs
use reckon_k8s.Prelude.{ℕ, Bool, true, false, List, Option}
use reckon_k8s.Outcome.{Outcome, ok, raise, ◌>>=◌}
use reckon_k8s.Text.{Text}
use reckon_k8s.Failures.Provider.{FailureType, Provider, Fault, get_failure_provider, get_failures}
use reckon_k8s.Main.{Tables, Event, Parts}
use reckon_k8s.Systems.Family.{SystemType, Family, get_system}
use reckon_k8s.Systems.Kubernetes.Client.{Go, get_client}
use reckon_k8s.Topology.Setup.{LinkSpec, TopologyType, get_topology}
use reckon_k8s.Topology.Setup.Defaults.{Reals, default_spec}
use reckon_k8s.Workload.Provider.{KeyType, ArrivalType, KeyProvider, get_ops_provider}

-- Kubernetes, and the systems that `Systems.Family` has.
pub data SystemChoice : Type 0 where
  kubernetes : SystemChoice
  other : SystemType → SystemChoice

pub data System : Type 0 where
  kubernetes : Go → System
  other : Family → System

-- The arguments that the parts read, with the specifications of links made of them.
pub record Args : Type 0 where
  pub system_type : SystemChoice
  pub client : Option Text
  pub new_client_per_request : Bool
  pub light_reads : Bool
  pub topo_type : TopologyType
  pub number_nodes : ℕ
  pub number_clients : ℕ
  pub link_latency : ℕ
  pub link_loss : ℕ
  pub link_jitter : ℕ
  pub link_specs : List LinkSpec
  pub failure_type : FailureType
  pub mtbf : ℕ
  pub kill_n : ℕ
  pub key_distribution : KeyType
  pub arrival_process : ArrivalType
  pub duration : ℕ

-- What happens outside of the program: the nodes are started, the hosts answer, a function is called.
pub record Outside (F : Type 0) : Type 0 where
  pub start_nodes : System → List Text → Outcome (Tables F)
  pub runtime : Option Text
  pub ping_all : Outcome (Unit {0})
  pub call : List (Event F Text Fault) → F → Outcome (Unit {0})

abbrev pub is_kubernetes : SystemChoice → Bool
is_kubernetes SystemChoice.kubernetes = true
is_kubernetes (SystemChoice.other t) = false

-- `get_system`
abbrev pub system_of : SystemChoice → Option Text → (ncpr light_reads : Bool) → Outcome System
system_of SystemChoice.kubernetes client ncpr light_reads = do
  go ← get_client client ncpr light_reads
  ok (System.kubernetes go)
system_of (SystemChoice.other t) client ncpr light_reads = do
  family ← get_system t client ncpr
  ok (System.other family)

-- `get_topology_provider`, with the default specification that the constructor computes.
abbrev pub provider_of :
    Reals
    → TopologyType
    → (link_latency link_loss link_jitter : ℕ) → Outcome (TopologyType × LinkSpec)
provider_of reals t link_latency link_loss link_jitter = do
  spec ← default_spec reals t link_latency link_loss link_jitter
  ok (t, spec)

abbrev pub Program : Type 0 → Type 0
Program F = Parts System (TopologyType × LinkSpec) Provider (KeyProvider × ArrivalType) F Text Fault

abbrev pub program : {F : Type 0} → Reals → Args → Outside F → Program F
program reals args outside = record {
  get_system = system_of args.system_type args.client args.new_client_per_request args.light_reads;
  get_topology_provider =
      provider_of reals args.topo_type args.link_latency args.link_loss args.link_jitter;
  get_failure_provider = ok (get_failure_provider args.mtbf args.kill_n args.failure_type);
  get_ops_provider =
      get_ops_provider (is_kubernetes args.system_type) args.key_distribution args.arrival_process;
  setup = λ (t, spec). do
    net ← get_topology spec args.link_specs t args.number_nodes args.number_clients
    ok (net.hosts, net.clients);
  start_nodes = outside.start_nodes;
  get_failures = λ provider cluster system restarters stoppers.
      get_failures (is_kubernetes args.system_type) provider;
  runtime = outside.runtime;
  ping_all = outside.ping_all;
  duration = args.duration;
  call = outside.call;
}
