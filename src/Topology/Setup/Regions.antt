-- ===== src/Topology/Setup/Regions.antt =====
-- The links of the topologies.
use reckon_k8s.Prelude.{
  ℕ, zero, suc, ◌+◌, ◌-◌, ◌%◌, ◌<◌, ◌≡◌, refl, ap, ◌∙◌, Bool, true, false, ◌&&◌, ◌||◌, List, [],
  ◌∷◌, ◌++◌, map, range_from, arith, lt→ltb,
}
use reckon_k8s.Outcome.{ok}
use reckon_k8s.Text.{Text, codes, text_eq}
use reckon_k8s.Cluster.{NodeType}
use reckon_k8s.Topology.KuberNet.{KubeNode, numbered, from_the_top}
use reckon_k8s.Topology.KuberNet.Cluster.{place, create_cluster_lem}
use reckon_k8s.Topology.KuberNet.Entries.{map_append}
use reckon_k8s.Topology.Setup.{
  LinkSpec, Link, Network, find_spec, get_link_spec, drop_no_loss, switch, client, link, regional,
  host_links, setup_region,
}

or_comm : (a b : Bool) → (a || b) ≡ (b || a)
or_comm true true = refl
or_comm true false = refl
or_comm false true = refl
or_comm false false = refl

find_spec_comm :
    (default_spec : LinkSpec) (specs : List LinkSpec) (a b : Text)
    → find_spec default_spec specs a b ≡ find_spec default_spec specs b a
unfolding find_spec
find_spec_comm default_spec [] a b = refl
find_spec_comm default_spec (sp ∷ sps) a b =
    rw
      (
        or_comm (text_eq sp.n_from a && text_eq sp.n_to b)
            (text_eq sp.n_from b && text_eq sp.n_to a),
        find_spec_comm default_spec sps a b,
      )
      refl

-- The specification of a link does not depend on the direction in which it is asked for.
pub get_link_spec_comm :
    (default_spec : LinkSpec) (specs : List LinkSpec) (a b : Text)
    → get_link_spec default_spec specs a b ≡ get_link_spec default_spec specs b a
unfolding get_link_spec
get_link_spec_comm default_spec specs a b = ap drop_no_loss (find_spec_comm default_spec specs a b)

-- The two ends of a link.
abbrev pub ends : Link → Text × Text
ends l = (l.n_from, l.n_to)

abbrev host_ends : ℕ → List (NodeType × Text × Text) → List (Text × Text)
host_ends r [] = []
host_ends r ((NodeType.load_balancer, name, ip) ∷ hs) = (name, regional r) ∷ host_ends r hs
host_ends r ((NodeType.control_plane, name, ip) ∷ hs) =
    (name, regional r) ∷ host_ends ((r + 1) % 3) hs
host_ends r ((NodeType.worker, name, ip) ∷ hs) = (name, regional r) ∷ host_ends ((r + 1) % 3) hs

module _ (default_spec : LinkSpec) (specs : List LinkSpec) where
  host_links_lem :
      (r : ℕ) (nodes : List KubeNode)
      → map ends (host_links default_spec specs r nodes) ≡ host_ends r (map place nodes)
  unfolding host_links
  host_links_lem r [] = refl
  host_links_lem r (h ∷ hs) = at (λ r'. host_links_lem r' hs) h.node_type
    where
      at :
          ((r' : ℕ) → map ends (host_links default_spec specs r' hs) ≡ host_ends r' (map place hs))
          → (t : NodeType)
          → map ends (host_links default_spec specs r (record h { node_type = t } ∷ hs))
            ≡ host_ends r (map place (record h { node_type = t } ∷ hs))
      at ih NodeType.load_balancer = ap (λ l. (h.name, regional r) ∷ l) (ih r)
      at ih NodeType.control_plane = ap (λ l. (h.name, regional r) ∷ l) (ih ((r + 1) % 3))
      at ih NodeType.worker = ap (λ l. (h.name, regional r) ∷ l) (ih ((r + 1) % 3))

  worker_place : ℕ → NodeType × Text × Text
  worker_place k =
      (NodeType.worker, numbered (codes "wn") k, codes "10.0.0." ++ from_the_top (k + 1))

  worker_ends :
      (count i r : ℕ)
      → r ≡ i % 3
      → host_ends r (map worker_place (range_from count i))
        ≡ map (λ k. (numbered (codes "wn") k, regional (k % 3))) (range_from count i)
  unfolding worker_place
  worker_ends zero i r e = refl
  worker_ends (suc count) i r e =
      rw (e, worker_ends count (suc i) ((i % 3 + 1) % 3) (omega arith)) refl

  client_ends :
      (cs : List Text)
      → map ends (map (λ c. link default_spec specs c (regional 0)) cs)
        ≡ map (λ c. (c, regional 0)) cs
  client_ends [] = refl
  client_ends (c ∷ cs) = ap (λ l. (c, regional 0) ∷ l) (client_ends cs)

  -- With more than three nodes the regions are set up: three switches are joined to a fourth one and
  -- two of them to each other; control plane `k` and worker `k` are joined to the switch of region
  -- `k` modulo three, the load balancer and the clients to that of the first region.
  pub setup_region_lem :
      (number_nodes number_clients : ℕ)
      → 3 < number_nodes
      → (net : Network) × (setup_region default_spec specs number_nodes number_clients ≡ ok net)
        × (map ends net.links
            ≡ (regional 0, switch 0)
              ∷ (regional 1, switch 0)
              ∷ (regional 2, switch 0)
              ∷ (regional 1, regional 2)
              ∷ (codes "lb", regional 0)
              ∷ (map (λ k. (numbered (codes "cp") k, regional (k % 3))) (range_from 3 0)
                  ++ (map
                        (λ k. (numbered (codes "wn") k, regional (k % 3)))
                        (range_from (number_nodes - 3) 0)
                      ++ map (λ c. (c, regional 0)) (map client (range_from number_clients 0)))))
  unfolding setup_region worker_place
  setup_region_lem n m h =
      let (nodes, made, at) = create_cluster_lem (n - 3) 3 (omega arith) (omega arith) in
      let hosts : map ends (host_links default_spec specs 0 nodes)
          ≡ (codes "lb", regional 0)
            ∷ (map (λ k. (numbered (codes "cp") k, regional (k % 3))) (range_from 3 0)
                ++ map (λ k. (numbered (codes "wn") k, regional (k % 3))) (range_from (n - 3) 0)) =
        host_links_lem 0 nodes
        ∙ ap (host_ends 0) at
        ∙ ap
            (λ l.
              (codes "lb", regional 0)
              ∷ (map (λ k. (numbered (codes "cp") k, regional (k % 3))) (range_from 3 0) ++ l))
            (worker_ends (n - 3) 0 0 (omega arith)) in
      (
        record {
          hosts = map (λ n. n.name) nodes;
          clients = map client (range_from m 0);
          links =
              link default_spec specs (regional 0) (switch 0)
              ∷ link default_spec specs (regional 1) (switch 0)
              ∷ link default_spec specs (regional 2) (switch 0)
              ∷ link default_spec specs (regional 1) (regional 2)
              ∷ (host_links default_spec specs 0 nodes
                  ++ map (λ c. link default_spec specs c (regional 0))
                      (map client (range_from m 0)));
        },
        rw (lt→ltb 3 n h, made) refl,
        ap
            (λ l.
              (regional 0, switch 0)
              ∷ (regional 1, switch 0)
              ∷ (regional 2, switch 0)
              ∷ (regional 1, regional 2)
              ∷ l)
            (map_append ends (host_links default_spec specs 0 nodes) _
              ∙ rw (hosts, client_ends (map client (range_from m 0))) refl),
      )
