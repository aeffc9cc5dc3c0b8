-- ===== src/Topology/Setup.antt =====
-- `setup` of the topologies in reckon/topologies/, `get_link_spec` of reckon/reckon_types.py and
-- `get_topology_provider`: which hosts a network has and which links join them. The networks are
-- new, so that no link is deleted; mininet itself is left out.
pub mod Regions
pub mod Defaults
use reckon_k8s.Prelude.{
  ℕ, zero, suc, ◌+◌, ◌-◌, ◌%◌, Bool, true, false, ◌&&◌, ◌||◌, List, [], ◌∷◌, ◌++◌, map, range_from,
  get_elem?, Option, none, some, ltb, ◌==◌, if◌then◌else◌,
}
use reckon_k8s.Outcome.{
  Outcome, ok, raise, ◌>>=◌, ◌>>◌, check, or_raise, assertion_error, index_error, type_error,
}
use reckon_k8s.Text.{Text, codes, str, text_eq}
use reckon_k8s.Cluster.{NodeType}
use reckon_k8s.Topology.KuberNet.{KubeNode, create_cluster}

-- `LinkSpec`, with numbers of some fixed unit.
pub record LinkSpec : Type 0 where
  pub n_from : Text
  pub n_to : Text
  pub latency_ms : Option ℕ
  pub loss_perc : Option ℕ
  pub jitter_ms : Option ℕ

-- `if spec.loss_perc == 0: spec.loss_perc = None`. The object that is changed is found again with
-- the change, which a second call does not see.
abbrev pub drop_no_loss : LinkSpec → LinkSpec
drop_no_loss sp = elim sp.loss_perc [
  | none ↦ sp
  | some n ↦ if n == 0 then record sp { loss_perc = none } else sp
]

abbrev pub joins : Text → Text → LinkSpec → Bool
joins n_from n_to sp =
    text_eq sp.n_from n_from && text_eq sp.n_to n_to
    || text_eq sp.n_from n_to && text_eq sp.n_to n_from

-- The loop of `get_link_spec`, which ends at the first match.
unfoldable pub find_spec : LinkSpec → List LinkSpec → Text → Text → LinkSpec
find_spec default_spec [] n_from n_to = default_spec
find_spec default_spec (sp ∷ sps) n_from n_to =
    if joins n_from n_to sp then sp else find_spec default_spec sps n_from n_to

unfoldable pub get_link_spec : LinkSpec → List LinkSpec → Text → Text → LinkSpec
get_link_spec default_spec specs n_from n_to =
    drop_no_loss (find_spec default_spec specs n_from n_to)

-- A call of `addLink`.
pub record Link : Type 0 where
  pub n_from : Text
  pub n_to : Text
  pub spec : LinkSpec

-- The names of the hosts and clients that `setup` returns, and the links that it made.
pub record Network : Type 0 where
  pub hosts : List Text
  pub clients : List Text
  pub links : List Link

-- `add_switch`, `add_host` and `add_client`, when there are `n`.
abbrev pub switch : ℕ → Text
switch n = codes "s" ++ str (n + 1)

abbrev pub host : ℕ → Text
host n = codes "h" ++ str (n + 1)

abbrev pub client : ℕ → Text
client n = codes "mc" ++ str (n + 1)

-- `regional_sws[i]`, the switches after the first.
abbrev pub regional : ℕ → Text
regional i = switch (i + 1)

pub data TopologyType : Type 0 where
  simple simple_k8s ha_k8s ha_region_k8s wan : TopologyType

module _ (default_spec : LinkSpec) (specs : List LinkSpec) where
  abbrev pub link : Text → Text → Link
  link n_from n_to = record {
    n_from = n_from;
    n_to = n_to;
    spec = get_link_spec default_spec specs n_from n_to;
  }

  -- Every host and client is joined to the one switch.
  abbrev pub star : List Text → List Text → Network
  star hosts clients = record {
    hosts = hosts;
    clients = clients;
    links = map (λ h. link h (switch 0)) (hosts ++ clients);
  }

  -- `SimpleTopologyProvider.setup`
  unfoldable pub setup_simple : (number_nodes number_clients : ℕ) → Outcome Network
  setup_simple number_nodes number_clients =
      ok (star (map host (range_from number_nodes 0)) (map client (range_from number_clients 0)))

  -- `SimpleKubeTopologyProvider.setup`
  unfoldable pub setup_simple_k8s : (number_nodes number_clients : ℕ) → Outcome Network
  setup_simple_k8s number_nodes number_clients = do
    nodes ← create_cluster (number_nodes - 1) 1
    ok (star (map (λ n. n.name) nodes) (map client (range_from number_clients 0)))

  -- `HAKubeTopologyProvider.setup`
  unfoldable pub setup_ha_k8s : (number_nodes number_clients : ℕ) → Outcome Network
  setup_ha_k8s number_nodes number_clients = do
    check (ltb 3 number_nodes) assertion_error
    nodes ← create_cluster (number_nodes - 3) 3
    ok (star (map (λ n. n.name) nodes) (map client (range_from number_clients 0)))

  -- `WanTopologyProvider.setup`: a switch of its own for each host and client.
  abbrev pub wan_links : ℕ → List Link
  wan_links i = link (switch (i + 1)) (host i) ∷ link (switch (i + 1)) (client i) ∷ []

  abbrev pub all_wan_links : List ℕ → List Link
  all_wan_links [] = []
  all_wan_links (i ∷ is) = wan_links i ++ all_wan_links is

  unfoldable pub setup_wan : (number_nodes : ℕ) → Outcome Network
  setup_wan number_nodes = ok (record {
    hosts = map host (range_from number_nodes 0);
    clients = map client (range_from number_nodes 0);
    links =
        all_wan_links (range_from number_nodes 0)
        ++ map (λ i. link (switch 0) (switch (i + 1))) (range_from number_nodes 0);
  })

  -- The loop over the hosts of `RegionHAKubeTopologyProvider.setup`.
  unfoldable pub host_links : (region_idx : ℕ) → List KubeNode → List Link
  host_links region_idx [] = []
  host_links region_idx (h ∷ hs) = link h.name (regional region_idx) ∷ elim h.node_type [
    | NodeType.load_balancer ↦ host_links region_idx hs
    | NodeType.control_plane ↦ host_links ((region_idx + 1) % 3) hs
    | NodeType.worker ↦ host_links ((region_idx + 1) % 3) hs
  ]

  -- `RegionHAKubeTopologyProvider.setup`
  unfoldable pub setup_region : (number_nodes number_clients : ℕ) → Outcome Network
  setup_region number_nodes number_clients = do
    check (ltb 3 number_nodes) assertion_error
    let clients = map client (range_from number_clients 0)
    nodes ← create_cluster (number_nodes - 3) 3
    ok (record {
      hosts = map (λ n. n.name) nodes;
      clients = clients;
      links =
          link (regional 0) (switch 0)
          ∷ link (regional 1) (switch 0)
          ∷ link (regional 2) (switch 0)
          ∷ link (regional 1) (regional 2)
          ∷ (host_links 0 nodes ++ map (λ c. link c (regional 0)) clients);
    })

  -- `get_topology_provider`, and the call of `setup` on what it returns. The call of
  -- `WanTopologyProvider` lacks the number of clients, so that a list stands for the jitter.
  unfoldable pub get_topology : TopologyType → (number_nodes number_clients : ℕ) → Outcome Network
  get_topology TopologyType.simple n m = setup_simple n m
  get_topology TopologyType.wan n m = raise type_error
  get_topology TopologyType.simple_k8s n m = setup_simple_k8s n m
  get_topology TopologyType.ha_k8s n m = setup_ha_k8s n m
  get_topology TopologyType.ha_region_k8s n m = setup_region n m
