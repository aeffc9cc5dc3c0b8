-- ===== src/Topology/KuberNet/Cluster.antt =====
-- The nodes of a new cluster.
use reckon_k8s.Prelude.{
  ℕ, zero, suc, ◌+◌, ◌<◌, ◌≡◌, refl, ap, ◌∙◌, List, [], ◌∷◌, ◌++◌, map, range_from, get_elem?,
  get_elem?-map_range, Option, some, none, ltb, if◌then◌else◌, arith, Bool-cases, inl, inr,
}
use reckon_k8s.Outcome.{ok}
use reckon_k8s.Text.{Text, codes, str}
use reckon_k8s.Cluster.{NodeType}
use reckon_k8s.Topology.KuberNet.{
  NodeInfo, KuberNet, KubeNode, new, numbered, address, from_the_top, control_info, worker_info,
  add_load_balancer, add_control_planes, add_worker_nodes, node_info, node_of, own_volumes,
  node_volumes, create_node, create_nodes, create_all, balancer_info, create_cluster,
}
use reckon_k8s.Topology.KuberNet.Entries.{map_append, add_control_planes_lem, add_worker_nodes_lem}

-- A node's kind, name and address.
abbrev pub place : KubeNode → NodeType × Text × Text
place n = (n.node_type, n.name, n.ip_addr)

abbrev pub place_of : NodeType → NodeInfo → NodeType × Text × Text
place_of t info = (t, info.name, info.ip_addr)

-- A node can be made of its entry.
abbrev Makes : NodeType → KuberNet → (ℕ → NodeInfo) → ℕ → Type 0
Makes t net info k =
    (own : List Text) × (node_info t k net ≡ ok (info k)) × (own_volumes t k (info k) net ≡ ok own)

create_nodes_lem :
    (t : NodeType) (count i : ℕ) (net : KuberNet) (info : ℕ → NodeInfo)
    → ((k : ℕ) → k < i + count → Makes t net info k)
    → (ns : List KubeNode) × (create_nodes t count i net ≡ ok ns)
      × (map place ns ≡ map (λ k. place_of t (info k)) (range_from count i))
unfolding create_nodes create_node
create_nodes_lem t zero i net info h = ([], refl, refl)
create_nodes_lem t (suc count) i net info h =
    let (own, found, mounted) = h i (omega arith) in
    let (ns, made, places) =
      create_nodes_lem t count (suc i) net info (λ k lt. h k (omega arith)) in
    (
      node_of t i (info i) own ∷ ns,
      rw (found, mounted, made) refl,
      ap (λ l. place_of t (info i) ∷ l) places,
    )

node_volumes-map :
    (prefix : Text) (i : ℕ) (info : ℕ → NodeInfo) (volume : ℕ → Text) (ks : List ℕ)
    → ((k : ℕ) → (info k).volume ≡ some (volume k))
    → (vs : List Text) × (node_volumes prefix i (map info ks) ≡ ok vs)
node_volumes-map prefix i info volume [] h = ([], refl)
node_volumes-map prefix i info volume (k ∷ ks) h =
    let (vs, e) = node_volumes-map prefix (suc i) info volume ks h in
    (
      (volume k ++ (codes ":/kind/nodedata/" ++ (prefix ++ (str i ++ codes ":rw")))) ∷ vs,
      rw (h k, e) refl,
    )

-- The network once its entries are made.
abbrev filled : (workers control lbs hosts : ℕ) → Option NodeInfo → KuberNet
filled workers control lbs hosts lb = record {
  cp_num = 0 + control;
  lb_num = lbs;
  host_num = hosts;
  worker_num = 0 + workers;
  control_planes = map control_info (range_from control 0);
  workers = map worker_info (range_from workers 0);
  load_balancer = lb;
}

control-Makes :
    (workers control lbs hosts : ℕ) (lb : Option NodeInfo) (k : ℕ)
    → k < 0 + control
    → Makes NodeType.control_plane (filled workers control lbs hosts lb) control_info k
unfolding own_volumes
control-Makes workers zero lbs hosts lb k h = absurd (omega arith)
control-Makes workers (suc c) lbs hosts lb zero h =
    let (ws, e) =
      node_volumes-map (codes "wn") 1 worker_info (λ k. codes "kubefiles_wn" ++ str (k + 1))
        (range_from workers 0) (λ k. refl) in
    let (cps, f) =
      node_volumes-map (codes "cp") 1 control_info (λ k. codes "kubefiles_cp" ++ str (k + 1))
        (range_from c 1) (λ k. refl) in
    (ws ++ (cps ++ codes "shared_files:/kind/shared_files:rw" ∷ []), refl, rw (e, f) refl)
control-Makes workers (suc c) lbs hosts lb (suc k) h =
    let found : get_elem? (map control_info (range_from (suc c) 0)) (suc k)
        ≡ some (control_info (0 + suc k)) =
      get_elem?-map_range control_info (suc c) 0 (suc k) (omega arith) in
    let same : 0 + suc k ≡ suc k = omega arith in
    (
      (codes "kubefiles_cp" ++ str (suc k + 1) ++ codes ":/kind/nodedata:rw") ∷ [],
      rw found (ap (λ n. ok (control_info n)) same),
      refl,
    )

worker-Makes :
    (workers control lbs hosts : ℕ) (lb : Option NodeInfo) (k : ℕ)
    → k < 0 + workers
    → Makes NodeType.worker (filled workers control lbs hosts lb) worker_info k
unfolding own_volumes
worker-Makes workers control lbs hosts lb k h =
    let found : get_elem? (map worker_info (range_from workers 0)) k ≡ some (worker_info (0 + k)) =
      get_elem?-map_range worker_info workers 0 k (omega arith) in
    let same : 0 + k ≡ k = omega arith in
    (
      ((codes "kubefiles_wn" ++ str (k + 1)) ++ codes ":/kind/nodedata:rw") ∷ [],
      rw found (ap (λ n. ok (worker_info n)) same),
      refl,
    )

-- The places of the nodes of a cluster: with more than one control plane a load balancer comes
-- first, then the control planes, from 10.0.0.1 upwards, and the workers, from 10.0.0.254 downwards.
abbrev pub places : (workers control : ℕ) → List (NodeType × Text × Text)
places workers control =
    (if ltb 1 control then (NodeType.load_balancer, codes "lb", address (control + 1)) ∷ [] else [])
    ++ (map (λ k. (NodeType.control_plane, numbered (codes "cp") k, address (k + 1)))
          (range_from control 0)
        ++ map
            (λ k.
              (NodeType.worker, numbered (codes "wn") k, codes "10.0.0." ++ from_the_top (k + 1)))
            (range_from workers 0))

create_all_lem :
    (workers control lbs lb_num hosts : ℕ) (lb : Option NodeInfo)
    → ((k : ℕ) → k < 0 + lbs → lb ≡ some (balancer_info control))
    → (nodes : List KubeNode) × (create_all workers control lbs
          (filled workers control lb_num hosts lb)
        ≡ ok nodes)
      × (map place nodes
          ≡ map (λ k. place_of NodeType.load_balancer (balancer_info control)) (range_from lbs 0)
            ++ (map (λ k. place_of NodeType.control_plane (control_info k)) (range_from control 0)
                ++ map (λ k. place_of NodeType.worker (worker_info k)) (range_from workers 0)))
unfolding create_all own_volumes
create_all_lem workers control lbs lb_num hosts lb has =
    let net = filled workers control lb_num hosts lb in
    let (bs, b, pb) =
      create_nodes_lem NodeType.load_balancer lbs 0 net (λ k. balancer_info control)
        (λ k lt. ([], rw (has k lt) refl, refl)) in
    let (cs, c, pc) =
      create_nodes_lem NodeType.control_plane control 0 net control_info
        (control-Makes workers control lb_num hosts lb) in
    let (ws, w, pw) =
      create_nodes_lem NodeType.worker workers 0 net worker_info
        (worker-Makes workers control lb_num hosts lb) in
    (bs ++ (cs ++ ws), rw (b, c, w) refl, rw (map_append, map_append, pb, pc, pw) refl)

entries :
    (workers control : ℕ)
    → 0 < control
    → control < 254
    → add_worker_nodes workers (add_control_planes control new)
      ≡ ok (filled workers control 0 (0 + control + workers) none)
entries workers control lo hi =
    ap (add_worker_nodes workers) (add_control_planes_lem control new)
    ∙ add_worker_nodes_lem workers _ (omega arith) (omega arith)

balanced :
    (workers control : ℕ)
    → add_load_balancer (filled workers control 0 (0 + control + workers) none)
      ≡ ok (
          filled workers control 1 (0 + control + workers + 1) (some (balancer_info (0 + control))))
unfolding add_load_balancer
balanced workers control = refl

-- A cluster with 1 to 253 control planes is created, with the nodes in their places: a load
-- balancer first if there is more than one control plane, then the control planes, then the workers.
pub create_cluster_lem :
    (workers control : ℕ)
    → 0 < control
    → control < 254
    → (nodes : List KubeNode) × (create_cluster workers control ≡ ok nodes)
      × (map place nodes ≡ places workers control)
unfolding create_cluster
create_cluster_lem workers control lo hi = elim (Bool-cases (ltb 1 control)) [
  | inl many ↦
      let (ns, made, at) =
        create_all_lem workers control 1 1 (0 + control + workers + 1)
          (some (balancer_info (0 + control)))
          (λ k lt. ap (λ n. some (balancer_info n)) (omega arith)) in
      (ns, rw (entries workers control lo hi, many, balanced workers control) made, rw many at)
  | inr one ↦
      let (ns, made, at) =
        create_all_lem workers control 0 0 (0 + control + workers) none
          (λ k lt. absurd (omega arith)) in
      (ns, rw (entries workers control lo hi, one) made, rw one at)
]
