-- ===== src/Main/Program/Runs.antt =====
-- Which arguments the program runs a benchmark for.
use reckon_k8s.Prelude.{
  ℕ, ◌<◌, ◌-◌, ◌≡◌, refl, true, false, List, [], ◌∷◌, ◌++◌, none, some, arith, lt→ltb, ltb,
  if◌then◌else◌,
}
use reckon_k8s.Outcome.{
  Exception, ok, raise, name_error, >>=-raises, >>=-returns, check, assertion_error,
}
use reckon_k8s.Text.{Text, codes, text_eq}
use reckon_k8s.Failures.Provider.{Fault, get_failure_provider, get_failures}
use reckon_k8s.Main.{
  Tables, Event, slept, pinged, tested, values, prepare, settle, run_benchmark, join_limit,
}
use reckon_k8s.Main.Cleanup.{prepared_raise, cleaned, guarded-ok}
use reckon_k8s.Failures.Provider.Runs.{failures_lem}
use reckon_k8s.Systems.Kubernetes.Client.{get_client}
use reckon_k8s.Main.Program.{SystemChoice, System, Args, Outside, program, provider_of, system_of}
use reckon_k8s.Systems.Family.{SystemType}
use reckon_k8s.Topology.Setup.{
  Network, LinkSpec, TopologyType, get_topology, setup_simple_k8s, setup_ha_k8s, setup_region,
}
use reckon_k8s.Topology.Setup.Defaults.{Reals, default_spec}
use reckon_k8s.Topology.KuberNet.{create_cluster}
use reckon_k8s.Topology.KuberNet.Cluster.{create_cluster_lem}
use reckon_k8s.Workload.Provider.{
  KeyType, KeyProvider, ArrivalType, get_ops_provider, get_key_provider, get_arrival_provider,
}

get_ops_provider_other :
    (k : KeyType) (a : ArrivalType) → (e : Exception) × (get_ops_provider false k a ≡ raise e)
unfolding get_ops_provider get_key_provider
get_ops_provider_other KeyType.uniform a = (_, refl)
get_ops_provider_other KeyType.tptest a = (_, refl)

module _ {F : Type 0} (reals : Reals) (args : Args) (outside : Outside F) where
  prepare_other :
      (t : SystemType)
      → args.system_type ≡ SystemChoice.other t
      → (e : Exception) × (prepare (program reals args outside) ≡ raise e)
  unfolding prepare
  prepare_other t at =
      let (e, fails) = get_ops_provider_other args.key_distribution args.arrival_process in
      >>=-raises
        (system_of args.system_type args.client args.new_client_per_request args.light_reads) _
        λ system.
          >>=-raises
            (provider_of reals args.topo_type args.link_latency args.link_loss args.link_jitter) _
            λ topo. (e, rw (at, fails) refl)

  -- `run_benchmark`, which is called once the file of the arguments is written and where the flag `-d` is
  -- not given, runs no benchmark on any other system than Kubernetes, whatever its other arguments are and
  -- whatever would happen outside of the program: nothing is started, and it fails with a `NameError`.
  pub run_benchmark_other :
      (t : SystemType)
      → args.system_type ≡ SystemChoice.other t
      → run_benchmark (program reals args outside) ≡ ([], raise name_error)
  unfolding run_benchmark
  run_benchmark_other t at =
      let (e, fails) = prepare_other t at in
      rw fails (prepared_raise (program reals args outside) e)

-- A topology for Kubernetes with enough nodes: one for the simple one, and four for the two others.
abbrev pub IsEnough : TopologyType → ℕ → Type 0
IsEnough TopologyType.simple_k8s n = Unit {0}
IsEnough TopologyType.ha_k8s n = 3 < n
IsEnough TopologyType.ha_region_k8s n = 3 < n
IsEnough t n = ⊥

module _ (args : Args) (spec : LinkSpec) where
  -- What `get_topology_provider` and `setup` return for these.
  abbrev HasNetwork : TopologyType → Type 0
  HasNetwork t =
      (net : Network) × (get_topology spec args.link_specs t args.number_nodes args.number_clients
        ≡ ok net)

  IsEnough-HasNetwork : (t : TopologyType) → IsEnough t args.number_nodes → HasNetwork t
  unfolding get_topology setup_simple_k8s setup_ha_k8s setup_region
  IsEnough-HasNetwork TopologyType.simple h = absurd h
  IsEnough-HasNetwork TopologyType.wan h = absurd h
  IsEnough-HasNetwork TopologyType.simple_k8s h =
      let (nodes, made, places) =
        create_cluster_lem (args.number_nodes - 1) 1 (omega arith) (omega arith) in
      let (net, e) =
        >>=-returns (create_cluster (args.number_nodes - 1) 1) _ made (λ nodes. (_, refl)) in
      (net, e)
  IsEnough-HasNetwork TopologyType.ha_k8s h =
      let (nodes, made, places) =
        create_cluster_lem (args.number_nodes - 3) 3 (omega arith) (omega arith) in
      let found : (net : Network) × (setup_ha_k8s spec args.link_specs args.number_nodes
              args.number_clients
            ≡ ok net) =
        >>=-returns (check (ltb 3 args.number_nodes) assertion_error) _ (rw (lt→ltb _ _ h) refl)
          λ u. >>=-returns (create_cluster (args.number_nodes - 3) 3) _ made (λ nodes. (_, refl)) in
      found
  IsEnough-HasNetwork TopologyType.ha_region_k8s h =
      let (nodes, made, places) =
        create_cluster_lem (args.number_nodes - 3) 3 (omega arith) (omega arith) in
      let found : (net : Network) × (setup_region spec args.link_specs args.number_nodes
              args.number_clients
            ≡ ok net) =
        >>=-returns (check (ltb 3 args.number_nodes) assertion_error) _ (rw (lt→ltb _ _ h) refl)
          λ u. >>=-returns (create_cluster (args.number_nodes - 3) 3) _ made (λ nodes. (_, refl)) in
      found

get_ops_provider_kubernetes :
    (k : KeyType) (a : ArrivalType)
    → (keys : KeyProvider × ArrivalType) × (get_ops_provider true k a ≡ ok keys)
unfolding get_ops_provider get_key_provider get_arrival_provider
get_ops_provider_kubernetes KeyType.uniform a = (_, refl)
get_ops_provider_kubernetes KeyType.tptest a = (_, refl)

-- The program runs the benchmark of Kubernetes.
module _ {F : Type 0} (reals : Reals) (args : Args) (outside : Outside F) where
  -- The wait for the network, and the pings.
  abbrev pub waited : Text → List (Event F Text Fault)
  waited runtime =
      (if text_eq runtime (codes "containernet") then slept 60 ∷ [] else []) ++ pinged ∷ []

  -- With the network of the topology and the faults of the failure type, the clients and the faults are
  -- handed to the test, the killers are called, and the network is stopped.
  abbrev pub HasRun : LinkSpec → Tables F → Text → Type 0
  HasRun spec t runtime =
      (net : Network) × (faults : List Fault) × (get_topology spec args.link_specs args.topo_type
          args.number_nodes args.number_clients
        ≡ ok net)
      × (get_failures true (get_failure_provider args.mtbf args.kill_n args.failure_type)
          ≡ ok faults)
      × (run_benchmark (program reals args outside) ≡ (
        (waited runtime
              ++ tested net.clients net.hosts faults (join_limit (program reals args outside)) ∷ [])
            ++ cleaned (program reals args outside) (values t.killers),
        ok tt,
      ))

  prepare_kubernetes :
      (spec : LinkSpec) (net : Network)
      → args.system_type ≡ SystemChoice.kubernetes
      → args.client ≡ none
      → default_spec reals args.topo_type args.link_latency args.link_loss args.link_jitter
        ≡ ok spec
      → get_topology spec args.link_specs args.topo_type args.number_nodes args.number_clients
        ≡ ok net
      → prepare (program reals args outside)
        ≡ ok (
          System.kubernetes
              (record { ncpr = args.new_client_per_request; light_reads = args.light_reads }),
          get_failure_provider args.mtbf args.kill_n args.failure_type,
          net.hosts,
          net.clients,
        )
  unfolding prepare get_client
  prepare_kubernetes spec net at default provider made =
      let (keys, ops) = get_ops_provider_kubernetes args.key_distribution args.arrival_process in
      simp (at, default, provider, ops, made)

  settle_kubernetes :
      (system : System) (hosts : List Text) (t : Tables F) (runtime : Text) (faults : List Fault)
      → args.system_type ≡ SystemChoice.kubernetes
      → get_failures true (get_failure_provider args.mtbf args.kill_n args.failure_type) ≡ ok faults
      → outside.runtime ≡ some runtime
      → outside.ping_all ≡ ok tt
      → settle
          (program reals args outside)
          system
          (get_failure_provider args.mtbf args.kill_n args.failure_type)
          hosts
          t
        ≡ (waited runtime, ok faults)
  unfolding settle
  settle_kubernetes system hosts t runtime faults at made has_runtime pings =
      simp (at, made, has_runtime, pings)

  -- On Kubernetes with the client that is the default, a topology for it with enough nodes, any failure
  -- type and any workload, the test is run: when the specification of a link can be computed of the
  -- arguments, the nodes start, the variable NETSIM_RUNTIME is set, all
  -- hosts answer and the functions of the nodes return, the clients, the cluster and the faults of the
  -- failure type are handed to the test, after which each killer is called once and the network is stopped.
  pub run_benchmark_kubernetes :
      (spec : LinkSpec) (t : Tables F) (runtime : Text)
      → args.system_type ≡ SystemChoice.kubernetes
      → args.client ≡ none
      → default_spec reals args.topo_type args.link_latency args.link_loss args.link_jitter
        ≡ ok spec
      → IsEnough args.topo_type args.number_nodes
      → ((s : System) (hosts : List Text) → outside.start_nodes s hosts ≡ ok t)
      → outside.runtime ≡ some runtime
      → outside.ping_all ≡ ok tt
      → ((log : List (Event F Text Fault)) (f : F) → outside.call log f ≡ ok tt)
      → HasRun spec t runtime
  unfolding run_benchmark
  run_benchmark_kubernetes spec t runtime at default provider enough starts has_runtime pings
        returns =
      let (net, made) = IsEnough-HasNetwork args spec args.topo_type enough in
      let (fs, faults, more) = failures_lem args.mtbf args.kill_n args.failure_type in
      let go : System =
        System.kubernetes
          (record { ncpr = args.new_client_per_request; light_reads = args.light_reads }) in
      let all = Fault.null_fault ∷ fs in
      (
        net,
        all,
        made,
        faults,
        rw
            (
              prepare_kubernetes spec net at default provider made,
              starts go net.hosts,
              settle_kubernetes go net.hosts t runtime all at faults has_runtime pings,
            )
            (guarded-ok (program reals args outside) returns (values t.killers) (
              waited runtime
              ++ tested net.clients net.hosts all (join_limit (program reals args outside)) ∷ [])),
      )
