-- ===== src/Topology/KuberNet.antt =====
-- `KuberNet` of reckon/reckon_types.py: the names, addresses and volumes of the nodes of a cluster.
-- That `addDocker` makes a container of its arguments is left out; the node has the arguments.
pub mod Entries
pub mod Cluster
pub mod Addresses
pub mod Attributes
use reckon_k8s.Prelude.{
  ℕ, zero, suc, ◌+◌, ◌-◌, Bool, true, false, ◌&&◌, List, [], ◌∷◌, ◌++◌, map, drop, length,
  range_from, get_elem?, Option, none, some, ltb, leb, ◌==◌, if◌then◌else◌,
}
use reckon_k8s.Outcome.{
  Outcome, ok, raise, ◌>>=◌, ◌>>◌, check, or_raise, assertion_error, index_error, key_error,
}
use reckon_k8s.Text.{Text, codes, str}
use reckon_k8s.Cluster.{NodeType}

-- An entry of `config_dict`; a key that it lacks is `none`.
pub record NodeInfo : Type 0 where
  pub name : Text
  pub ip_addr : Text
  pub endpoint : Option Text
  pub volume : Option Text
  pub image : Text
  pub cmd : Text

pub record KuberNet : Type 0 where
  pub cp_num : ℕ
  pub lb_num : ℕ
  pub host_num : ℕ
  pub worker_num : ℕ
  pub control_planes : List NodeInfo
  pub workers : List NodeInfo
  pub load_balancer : Option NodeInfo

abbrev pub new : KuberNet
new = record {
  cp_num = 0;
  lb_num = 0;
  host_num = 0;
  worker_num = 0;
  control_planes = [];
  workers = [];
  load_balancer = none;
}

-- f"{prefix}{'' if n == 0 else n + 1}"
abbrev pub numbered : Text → ℕ → Text
numbered prefix n = prefix ++ (if n == 0 then [] else str (n + 1))

abbrev pub address : ℕ → Text
address n = codes "10.0.0." ++ str n

abbrev entry_cmd : Text
entry_cmd = codes "/usr/local/bin/entrypoint /sbin/init && /bin/bash"

-- The entry of the control plane that is made when there are `n`.
abbrev pub control_info : ℕ → NodeInfo
control_info n = record {
  name = numbered (codes "cp") n;
  ip_addr = address (n + 1);
  endpoint = some (address (n + 1) ++ codes ":6443");
  volume = some (codes "kubefiles_cp" ++ str (n + 1));
  image = codes "AleSassi/reckon-k8s-control";
  cmd = entry_cmd;
}

unfoldable pub add_control_plane : KuberNet → KuberNet
add_control_plane net = record net {
  cp_num = net.cp_num + 1;
  host_num = net.host_num + 1;
  control_planes = net.control_planes ++ control_info net.cp_num ∷ [];
}

-- The entry of the load balancer of `n` control planes.
abbrev pub balancer_info : ℕ → NodeInfo
balancer_info n = record {
  name = codes "lb";
  ip_addr = address (n + 1);
  endpoint = some (address (n + 1) ++ codes ":6443");
  volume = none;
  image = codes "AleSassi/reckon-k8s-balancer";
  cmd = codes "/bin/bash";
}

unfoldable pub add_load_balancer : KuberNet → Outcome KuberNet
add_load_balancer net = do
  check (net.lb_num == 0) assertion_error
  ok (record net {
    lb_num = net.lb_num + 1;
    host_num = net.host_num + 1;
    load_balancer = some (balancer_info net.cp_num);
  })

-- `255 - worker_num`, which is negative with too many workers.
abbrev pub from_the_top : ℕ → Text
from_the_top n = if leb n 255 then str (255 - n) else codes "-" ++ str (n - 255)

-- The entry of the worker that is made when there are `n`.
abbrev pub worker_info : ℕ → NodeInfo
worker_info n = record {
  name = numbered (codes "wn") n;
  ip_addr = codes "10.0.0." ++ from_the_top (n + 1);
  endpoint = none;
  volume = some (codes "kubefiles_wn" ++ str (n + 1));
  image = codes "AleSassi/reckon-k8s-worker";
  cmd = entry_cmd;
}

unfoldable pub add_worker_node : KuberNet → Outcome KuberNet
add_worker_node net = do
  check (ltb 0 net.cp_num && ltb net.cp_num 254) assertion_error
  ok (record net {
    worker_num = net.worker_num + 1;
    host_num = net.host_num + 1;
    workers = net.workers ++ worker_info net.worker_num ∷ [];
  })

unfoldable pub add_control_planes : ℕ → KuberNet → KuberNet
add_control_planes zero net = net
add_control_planes (suc n) net = add_control_planes n (add_control_plane net)

unfoldable pub add_worker_nodes : ℕ → KuberNet → Outcome KuberNet
add_worker_nodes zero net = ok net
add_worker_nodes (suc n) net = do net' ← add_worker_node net; add_worker_nodes n net'

-- What `addDocker` and `setKubeAttrs` are given.
pub record KubeNode : Type 0 where
  pub node_type : NodeType
  pub name : Text
  pub ip_addr : Text
  pub dimage : Text
  pub dcmd : Text
  pub volumes : List Text
  pub tmpfs : List (Text × Text)

-- `node_info`: the entry of a node.
abbrev pub node_info : NodeType → ℕ → KuberNet → Outcome NodeInfo
node_info NodeType.control_plane index net =
    or_raise (get_elem? net.control_planes index) index_error
node_info NodeType.worker index net = or_raise (get_elem? net.workers index) index_error
node_info NodeType.load_balancer index net = or_raise net.load_balancer key_error

-- f"{entry['volume']}:/kind/nodedata/{prefix}{i}:rw" for the entries, from `i` on.
abbrev pub node_volumes : Text → ℕ → List NodeInfo → Outcome (List Text)
node_volumes prefix i [] = ok []
node_volumes prefix i (e ∷ es) = do
  volume ← or_raise e.volume key_error
  rest ← node_volumes prefix (suc i) es
  ok ((volume ++ (codes ":/kind/nodedata/" ++ (prefix ++ (str i ++ codes ":rw")))) ∷ rest)

-- The volumes that a node mounts besides those of all nodes: the first control plane has those of
-- all the workers and of the other control planes.
unfoldable pub own_volumes : NodeType → ℕ → NodeInfo → KuberNet → Outcome (List Text)
own_volumes NodeType.load_balancer index info net = ok []
own_volumes NodeType.control_plane zero info net = do
  ws ← node_volumes (codes "wn") 1 net.workers
  cps ← node_volumes (codes "cp") 1 (drop 1 net.control_planes)
  ok (ws ++ (cps ++ codes "shared_files:/kind/shared_files:rw" ∷ []))
own_volumes t index info net = do
  volume ← or_raise info.volume key_error
  ok ((volume ++ codes ":/kind/nodedata:rw") ∷ [])

abbrev snapshots : Text → ℕ → Text
snapshots prefix index =
    codes "containerd_snapshots_overlayfs_"
    ++ (prefix
        ++ (str (index + 1)
            ++ codes ":/var/lib/containerd/io.containerd.snapshotter.v1.overlayfs/snapshots"))

abbrev shared_volumes : NodeType → ℕ → List Text
shared_volumes NodeType.load_balancer index = []
shared_volumes NodeType.control_plane index =
    codes "/lib/modules:/lib/modules:ro" ∷ snapshots (codes "cp") index ∷ []
shared_volumes NodeType.worker index =
    codes "/lib/modules:/lib/modules:ro" ∷ snapshots (codes "wn") index ∷ []

abbrev tmpfs_mounts : NodeType → List (Text × Text)
tmpfs_mounts NodeType.load_balancer = []
tmpfs_mounts t =
    (codes "/opt/cni/bin", codes "exec")
    ∷ (codes "/var/lib/containerd", codes "exec")
    ∷ (codes "/run/containerd", codes "exec")
    ∷ []

abbrev pub node_of : NodeType → ℕ → NodeInfo → List Text → KubeNode
node_of t index info own = record {
  node_type = t;
  name = info.name;
  ip_addr = info.ip_addr;
  dimage = info.image;
  dcmd = info.cmd;
  volumes = codes "kubenode_results:/results/logs:rw" ∷ (shared_volumes t index ++ own);
  tmpfs = tmpfs_mounts t;
}

unfoldable pub create_node : NodeType → ℕ → KuberNet → Outcome KubeNode
create_node t index net = do
  info ← node_info t index net
  own ← own_volumes t index info net
  ok (node_of t index info own)

-- `create_node` for the indices from `i` on.
unfoldable pub create_nodes : NodeType → (count i : ℕ) → KuberNet → Outcome (List KubeNode)
create_nodes t zero i net = ok []
create_nodes t (suc count) i net = do
  node ← create_node t i net
  nodes ← create_nodes t count (suc i) net
  ok (node ∷ nodes)

-- The last loops of `createCluster`, with `lbs` load balancers.
unfoldable pub create_all : (workers control lbs : ℕ) → KuberNet → Outcome (List KubeNode)
create_all workers control lbs net = do
  balancers ← create_nodes NodeType.load_balancer lbs 0 net
  cps ← create_nodes NodeType.control_plane control 0 net
  wns ← create_nodes NodeType.worker workers 0 net
  ok (balancers ++ (cps ++ wns))

-- `createCluster`, on a new network.
unfoldable pub create_cluster : (workers control : ℕ) → Outcome (List KubeNode)
create_cluster workers control = do
  net ← add_worker_nodes workers (add_control_planes control new)
  net' ← (if ltb 1 control then add_load_balancer net else ok net)
  create_all workers control (if ltb 1 control then 1 else 0) net'
