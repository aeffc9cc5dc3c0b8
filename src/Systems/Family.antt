-- ===== src/Systems/Family.antt =====
-- reckon/systems/__init__.py: the system that a `SystemType` stands for, and the methods that it has
-- from its class, for every system but Kubernetes.
pub mod Nodes
pub mod Faults
use reckon_k8s.Prelude.{
  ℕ, Bool, true, false, List, [], ◌∷◌, ◌++◌, map, Option, none, some, if◌then◌else◌,
}
use reckon_k8s.Outcome.{Outcome, ok, raise, ◌>>=◌}
use reckon_k8s.Text.{Text, codes}
use reckon_k8s.Cluster.{Node}
use reckon_k8s.Runner.Preload.{Client}
use reckon_k8s.Systems.Floats.{Floats}
use reckon_k8s.Systems.Screen.{Settings, Act, client, get_client_tag, add_stderr_logging}
use reckon_k8s.Systems.Start.{Plan, Started, nothing_started, start_each}
use reckon_k8s.Systems.Etcd
use reckon_k8s.Systems.Zookeeper
use reckon_k8s.Systems.Ocons.{min_latency}
use reckon_k8s.Systems.Ocons.Commands as Ocons
use reckon_k8s.Systems.Ocons.Commands.{Kind}

pub data SystemType : Type 0 where
  etcd etcd_pre_vote etcd_sbn etcd_pre_vote_sbn zookeeper zookeeper_fle : SystemType
  ocons_paxos ocons_raft ocons_raft_prevote ocons_raft_sbn ocons_raft_prevote_sbn : SystemType
  ocons_conspire_leader ocons_conspire_dc ocons_conspire_leader_dc : SystemType

-- The class, by the attributes in which its subclasses differ and its client, which `__init__` makes.
pub data Family : Type 0 where
  etcd : (binary_path : Text) → (client_class : Etcd.Go) → Family
  zookeeper : (electionAlg : ℕ) → (ncpr : Bool) → Family
  ocons : Kind → Family

abbrev pub etcd_path : Text
etcd_path = codes "reckon/systems/etcd/bin/etcd"

abbrev pub etcd_sbn_path : Text
etcd_sbn_path = codes "reckon/systems/etcd/etcd/bin/etcd"

abbrev pub new_etcd : Text → Option Text → Bool → Outcome Family
new_etcd path c ncpr = do go ← Etcd.get_client c ncpr; ok (Family.etcd path go)

abbrev pub new_zookeeper : ℕ → Option Text → Bool → Outcome Family
new_zookeeper alg c ncpr = do ncpr ← Zookeeper.get_client c ncpr; ok (Family.zookeeper alg ncpr)

abbrev pub new_ocons : Kind → Option Text → Outcome Family
new_ocons kind c = do _ ← Ocons.get_client c; ok (Family.ocons kind)

-- `get_system`, on the arguments `system_type`, `client` and `new_client_per_request`.
unfoldable pub get_system : SystemType → Option Text → Bool → Outcome Family
get_system SystemType.etcd c ncpr = new_etcd etcd_path c ncpr
get_system SystemType.etcd_pre_vote c ncpr = new_etcd etcd_path c ncpr
get_system SystemType.etcd_sbn c ncpr = new_etcd etcd_sbn_path c ncpr
get_system SystemType.etcd_pre_vote_sbn c ncpr = new_etcd etcd_sbn_path c ncpr
get_system SystemType.zookeeper c ncpr = new_zookeeper 0 c ncpr
get_system SystemType.zookeeper_fle c ncpr = new_zookeeper 3 c ncpr
get_system SystemType.ocons_paxos c ncpr = new_ocons Kind.paxos c
get_system SystemType.ocons_raft c ncpr = new_ocons Kind.raft c
get_system SystemType.ocons_raft_prevote c ncpr = new_ocons Kind.prevote_raft c
get_system SystemType.ocons_raft_sbn c ncpr = new_ocons Kind.raft_sbn c
get_system SystemType.ocons_raft_prevote_sbn c ncpr = new_ocons Kind.prevote_raft_sbn c
get_system SystemType.ocons_conspire_leader c ncpr = new_ocons Kind.conspire_leader c
get_system SystemType.ocons_conspire_dc c ncpr = new_ocons Kind.conspire_dc c
get_system SystemType.ocons_conspire_leader_dc c ncpr = new_ocons Kind.conspire_leader_dc c

module _ {F : Type 0} (floats : Floats F) (succeeds : Text → Bool) (self : Settings F) where
  unfoldable pub plan : Family → List Node → ℕ → Node → Plan
  plan (Family.etcd path go) = Etcd.plan floats path self
  plan (Family.zookeeper alg ncpr) = Zookeeper.plan alg succeeds self
  plan (Family.ocons kind) = Ocons.plan floats self kind

  -- `start_nodes(cluster)`: what is done, and the restarters and the stoppers; the killers are the
  -- stoppers.
  unfoldable pub start_nodes : Family → List Node → Outcome Started
  start_nodes family cluster = start_each (plan family cluster) 0 cluster nothing_started

-- `[host.IP() for host in cluster]`
abbrev pub ips : List Node → List Text
ips cluster = map (λ h. h.ip) cluster

-- The latency of each host of the cluster from a client, as `ping` measures it.
module _ {F : Type 0} (latency : Node → Node → Option ℕ) (self : Settings F) where
  -- The command of the client, without its logging: that of `OConsConspireDC` is given the closest host.
  unfoldable pub client_cmd : Family → Node → Text → List Node → Outcome Text
  client_cmd (Family.etcd path go) host client_id cluster = ok (Etcd.cmd go (ips cluster) client_id)
  client_cmd (Family.zookeeper alg ncpr) host client_id cluster =
      ok (Zookeeper.cmd ncpr (ips cluster) client_id)
  client_cmd (Family.ocons Kind.conspire_dc) host client_id cluster = do
    closest ← min_latency (map (λ h. (h.ip, latency host h)) cluster)
    ok (Ocons.cmd (closest.0 ∷ []) client_id)
  client_cmd (Family.ocons kind) host client_id cluster = ok (Ocons.cmd (ips cluster) client_id)

  abbrev pub client_log : Family → Node → Text
  client_log (Family.ocons kind) host = get_client_tag host
  client_log family host = get_client_tag host ++ codes ".log"

  -- `start_client(client, client_id, cluster)`
  unfoldable pub start_client : Family → Node → Text → List Node → Outcome (Act × Client)
  start_client family host client_id cluster = do
    command ← client_cmd family host client_id cluster
    ok (
      client host (add_stderr_logging self command (client_log family host)),
      record { id = client_id },
    )
