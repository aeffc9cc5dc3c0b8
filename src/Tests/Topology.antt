-- ===== src/Tests/Topology.antt =====
-- The networks at concrete inputs.
use reckon_k8s.Prelude.{
  refl, ◌-◌, ◌%◌, ℕ, ◌≡◌, List, [], ◌∷◌, ◌++◌, map, range_from, some, none, arith,
}
use reckon_k8s.Outcome.{ok}
use reckon_k8s.Text.{codes}
use reckon_k8s.Text.Dict.{Distinct}
use reckon_k8s.Topology.KuberNet.{KubeNode, numbered, address, create_cluster}
use reckon_k8s.Topology.KuberNet.Addresses.{AreHostNumbers, create_cluster_addresses}
use reckon_k8s.Topology.KuberNet.Cluster.{place, places, create_cluster_lem}
use reckon_k8s.Topology.KuberNet.Attributes.{Attributes, set_all}
use reckon_k8s.Topology.KuberNet.Attributes.Numbers.{numbers, all_numbers, set_all-create_cluster}
use reckon_k8s.Topology.Setup.Defaults.{lost, default_spec, default_spec-loss}
use reckon_k8s.Tests.{sixteenths}
use reckon_k8s.Topology.Setup.{
  TopologyType, LinkSpec, Network, switch, client, regional, setup_region,
}
use reckon_k8s.Topology.Setup.Regions.{ends, setup_region_lem}

create_cluster_lem_example :
    (nodes : List KubeNode) × (create_cluster 2 3 ≡ ok nodes) × (map place nodes ≡ places 2 3)
create_cluster_lem_example = create_cluster_lem 2 3 (omega arith) (omega arith)

abbrev slow : LinkSpec
slow = record {
  n_from = codes "*";
  n_to = codes "*";
  latency_ms = some 20;
  loss_perc = some 0;
  jitter_ms = none;
}

abbrev between_s1_cp : LinkSpec
between_s1_cp = record slow { n_from = codes "s1"; n_to = codes "cp" }

setup_region_lem_example :
    (net : Network) × (setup_region slow (between_s1_cp ∷ []) 6 1 ≡ ok net)
    × (map ends net.links
        ≡ (regional 0, switch 0)
          ∷ (regional 1, switch 0)
          ∷ (regional 2, switch 0)
          ∷ (regional 1, regional 2)
          ∷ (codes "lb", regional 0)
          ∷ (map (λ k. (numbered (codes "cp") k, regional (k % 3))) (range_from 3 0)
              ++ (map (λ k. (numbered (codes "wn") k, regional (k % 3))) (range_from (6 - 3) 0)
                  ++ map (λ c. (c, regional 0)) (map client (range_from 1 0)))))
setup_region_lem_example = setup_region_lem slow (between_s1_cp ∷ []) 6 1 (omega arith)

create_cluster_addresses_example :
    (nodes : List KubeNode) × (ns : List ℕ) × (create_cluster 2 3 ≡ ok nodes)
    × (map (λ n. n.ip_addr) nodes ≡ map address ns)
    × AreHostNumbers ns
    × Distinct (map (λ n. n.ip_addr) nodes)
create_cluster_addresses_example = create_cluster_addresses 2 3 (ground arith) (ground arith)

default_spec-loss_example :
    (spec : LinkSpec) × (default_spec sixteenths TopologyType.ha_k8s 320 (lost sixteenths 1) 0
      ≡ ok spec)
    × (spec.loss_perc ≡ some (lost sixteenths 8))
default_spec-loss_example =
    default_spec-loss sixteenths TopologyType.ha_k8s 8 320 0 tt
      (record { root = refl; back = refl; in_range = refl; has_loss = refl })
      (record { root = refl; back = refl; in_range = refl; has_loss = refl }) refl

set_all-create_cluster_example :
    (nodes : List KubeNode) × (attrs : List Attributes) × (create_cluster 300 3 ≡ ok nodes)
    × (set_all nodes ≡ ok attrs)
    × (map numbers attrs ≡ all_numbers 300 3)
set_all-create_cluster_example = set_all-create_cluster 300 3 (omega arith) (omega arith)
