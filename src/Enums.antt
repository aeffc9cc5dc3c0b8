-- ===== src/Enums.antt =====
-- The enumerations of reckon/systems/, reckon/failures/, reckon/topologies/ and reckon/workload/ as words
-- of the command line, and the encoding of their members in reckon/config_loader.py.
pub mod Words
use reckon_k8s.Prelude.{Bool, true, false, ◌&&◌, List, [], ◌∷◌, Option, none, some, if◌then◌else◌}
use reckon_k8s.Outcome.{Outcome, ok, raise, or_raise, value_error, key_error, attribute_error}
use reckon_k8s.Text.{Text, codes, text_eq}
use reckon_k8s.Text.Split.{split_on}
use reckon_k8s.Failures.Provider.{FailureType}
use reckon_k8s.Main.Program.{SystemChoice}
use reckon_k8s.Systems.Family.{SystemType}
use reckon_k8s.Topology.Setup.{TopologyType}
use reckon_k8s.Workload.Provider.{ArrivalType, KeyType}

-- A member of one of the classes of `enums`.
pub data Member : Type 0 where
  system : SystemChoice → Member
  failure : FailureType → Member
  topology : TopologyType → Member
  arrival : ArrivalType → Member
  key : KeyType → Member

abbrev pub class_name : Member → Text
class_name (system m) = codes "SystemType"
class_name (failure m) = codes "FailureType"
class_name (topology m) = codes "TopologyType"
class_name (arrival m) = codes "ArrivalType"
class_name (key m) = codes "KeyType"

abbrev pub system_name : SystemChoice → Text
system_name (SystemChoice.other SystemType.etcd) = codes "Etcd"
system_name (SystemChoice.other SystemType.etcd_pre_vote) = codes "EtcdPreVote"
system_name (SystemChoice.other SystemType.etcd_sbn) = codes "EtcdSBN"
system_name (SystemChoice.other SystemType.etcd_pre_vote_sbn) = codes "EtcdPreVoteSBN"
system_name (SystemChoice.other SystemType.zookeeper) = codes "Zookeeper"
system_name (SystemChoice.other SystemType.zookeeper_fle) = codes "ZookeeperFLE"
system_name (SystemChoice.other SystemType.ocons_paxos) = codes "OconsPaxos"
system_name (SystemChoice.other SystemType.ocons_raft) = codes "OconsRaft"
system_name (SystemChoice.other SystemType.ocons_raft_prevote) = codes "OconsRaftPrevote"
system_name (SystemChoice.other SystemType.ocons_raft_sbn) = codes "OconsRaftSBN"
system_name (SystemChoice.other SystemType.ocons_raft_prevote_sbn) = codes "OconsRaftPrevoteSBN"
system_name (SystemChoice.other SystemType.ocons_conspire_leader) = codes "OConsConspireLeader"
system_name (SystemChoice.other SystemType.ocons_conspire_dc) = codes "OConsConspireDC"
system_name (SystemChoice.other SystemType.ocons_conspire_leader_dc) = codes "OConsConspireLeaderDC"
system_name SystemChoice.kubernetes = codes "Kubernetes"

abbrev pub failure_name : FailureType → Text
failure_name FailureType.f_none = codes "FNone"
failure_name FailureType.f_leader_only = codes "FLeaderOnly"
failure_name FailureType.f_leader_recovery = codes "FLeaderRecovery"
failure_name FailureType.f_partial_partition = codes "FPartialPartition"
failure_name FailureType.f_intermittent_pp = codes "FIntermittentPP"
failure_name FailureType.f_intermittent_fp = codes "FIntermittentFP"
failure_name FailureType.f_k8s_control_offline = codes "FK8sControlOffline"
failure_name FailureType.f_k8s_worker_offline = codes "FK8sWorkerOffline"
failure_name FailureType.f_k8s_region_offline = codes "FK8sRegionOffline"
failure_name FailureType.f_kill_n = codes "FKillN"
failure_name FailureType.stat = codes "Stat"

abbrev pub topology_name : TopologyType → Text
topology_name TopologyType.simple = codes "Simple"
topology_name TopologyType.simple_k8s = codes "Simple_K8s"
topology_name TopologyType.ha_k8s = codes "HA_K8s"
topology_name TopologyType.ha_region_k8s = codes "HA_Region_K8s"
topology_name TopologyType.wan = codes "Wan"

abbrev pub arrival_name : ArrivalType → Text
arrival_name ArrivalType.uniform = codes "Uniform"
arrival_name ArrivalType.poisson = codes "Poisson"

abbrev pub key_name : KeyType → Text
key_name KeyType.uniform = codes "Uniform"
key_name KeyType.tptest = codes "TPTest"

-- The name of a member in its class.
abbrev pub name : Member → Text
name (system m) = system_name m
name (failure m) = failure_name m
name (topology m) = topology_name m
name (arrival m) = arrival_name m
name (key m) = key_name m

abbrev pub system_value : SystemChoice → Text
system_value (SystemChoice.other SystemType.etcd) = codes "etcd"
system_value (SystemChoice.other SystemType.etcd_pre_vote) = codes "etcd-pre-vote"
system_value (SystemChoice.other SystemType.etcd_sbn) = codes "etcd+sbn"
system_value (SystemChoice.other SystemType.etcd_pre_vote_sbn) = codes "etcd-pre-vote+sbn"
system_value (SystemChoice.other SystemType.zookeeper) = codes "zookeeper"
system_value (SystemChoice.other SystemType.zookeeper_fle) = codes "zookeeper-fle"
system_value (SystemChoice.other SystemType.ocons_paxos) = codes "ocons-paxos"
system_value (SystemChoice.other SystemType.ocons_raft) = codes "ocons-raft"
system_value (SystemChoice.other SystemType.ocons_raft_prevote) = codes "ocons-raft-pre-vote"
system_value (SystemChoice.other SystemType.ocons_raft_sbn) = codes "ocons-raft+sbn"
system_value (SystemChoice.other SystemType.ocons_raft_prevote_sbn) =
    codes "ocons-raft-pre-vote+sbn"
system_value (SystemChoice.other SystemType.ocons_conspire_leader) = codes "ocons-conspire-leader"
system_value (SystemChoice.other SystemType.ocons_conspire_dc) = codes "ocons-conspire-dc"
system_value (SystemChoice.other SystemType.ocons_conspire_leader_dc) =
    codes "ocons-conspire-leader-dc"
system_value SystemChoice.kubernetes = codes "kubernetes"

abbrev pub failure_value : FailureType → Text
failure_value FailureType.f_none = codes "none"
failure_value FailureType.f_leader_only = codes "leader"
failure_value FailureType.f_leader_recovery = codes "leader-recovery"
failure_value FailureType.f_partial_partition = codes "partial-partition"
failure_value FailureType.f_intermittent_pp = codes "intermittent-partial"
failure_value FailureType.f_intermittent_fp = codes "intermittent-full"
failure_value FailureType.f_k8s_control_offline = codes "k8s_cp_offline"
failure_value FailureType.f_k8s_worker_offline = codes "k8s_wn_offline"
failure_value FailureType.f_k8s_region_offline = codes "k8s_leadreg_offline"
failure_value FailureType.f_kill_n = codes "kill-n"
failure_value FailureType.stat = codes "stat"

abbrev pub topology_value : TopologyType → Text
topology_value TopologyType.simple = codes "simple"
topology_value TopologyType.simple_k8s = codes "simple_k8s"
topology_value TopologyType.ha_k8s = codes "ha_k8s"
topology_value TopologyType.ha_region_k8s = codes "ha_reg_k8s"
topology_value TopologyType.wan = codes "wan"

abbrev pub arrival_value : ArrivalType → Text
arrival_value ArrivalType.uniform = codes "uniform"
arrival_value ArrivalType.poisson = codes "poisson"

abbrev pub key_value : KeyType → Text
key_value KeyType.uniform = codes "uniform"
key_value KeyType.tptest = codes "tptest"

-- Its value, which `str` gives.
abbrev pub value : Member → Text
value (system m) = system_value m
value (failure m) = failure_value m
value (topology m) = topology_value m
value (arrival m) = arrival_value m
value (key m) = key_value m

-- The members of all classes.
abbrev pub members : List Member
members =
    system (SystemChoice.other SystemType.etcd)
    ∷ system (SystemChoice.other SystemType.etcd_pre_vote)
    ∷ system (SystemChoice.other SystemType.etcd_sbn)
    ∷ system (SystemChoice.other SystemType.etcd_pre_vote_sbn)
    ∷ system (SystemChoice.other SystemType.zookeeper)
    ∷ system (SystemChoice.other SystemType.zookeeper_fle)
    ∷ system (SystemChoice.other SystemType.ocons_paxos)
    ∷ system (SystemChoice.other SystemType.ocons_raft)
    ∷ system (SystemChoice.other SystemType.ocons_raft_prevote)
    ∷ system (SystemChoice.other SystemType.ocons_raft_sbn)
    ∷ system (SystemChoice.other SystemType.ocons_raft_prevote_sbn)
    ∷ system (SystemChoice.other SystemType.ocons_conspire_leader)
    ∷ system (SystemChoice.other SystemType.ocons_conspire_dc)
    ∷ system (SystemChoice.other SystemType.ocons_conspire_leader_dc)
    ∷ system SystemChoice.kubernetes
    ∷ failure FailureType.f_none
    ∷ failure FailureType.f_leader_only
    ∷ failure FailureType.f_leader_recovery
    ∷ failure FailureType.f_partial_partition
    ∷ failure FailureType.f_intermittent_pp
    ∷ failure FailureType.f_intermittent_fp
    ∷ failure FailureType.f_k8s_control_offline
    ∷ failure FailureType.f_k8s_worker_offline
    ∷ failure FailureType.f_k8s_region_offline
    ∷ failure FailureType.f_kill_n
    ∷ failure FailureType.stat
    ∷ topology TopologyType.simple
    ∷ topology TopologyType.simple_k8s
    ∷ topology TopologyType.ha_k8s
    ∷ topology TopologyType.ha_region_k8s
    ∷ topology TopologyType.wan
    ∷ arrival ArrivalType.uniform
    ∷ arrival ArrivalType.poisson
    ∷ key KeyType.uniform
    ∷ key KeyType.tptest
    ∷ []

-- `Class(word)`, as `argparse` makes a member of a word.
unfoldable pub with_value : (class : Text) → Text → List Member → Outcome Member
with_value class word [] = raise value_error
with_value class word (m ∷ ms) =
    let rest = with_value class word ms in
    if text_eq class (class_name m) && text_eq word (value m) then ok m else rest

-- `getattr(cls, member)` for the class `class`.
unfoldable pub with_name : (class : Text) → Text → List Member → Outcome Member
with_name class word [] = raise attribute_error
with_name class word (m ∷ ms) =
    let rest = with_name class word ms in
    if text_eq class (class_name m) && text_eq word (name m) then ok m else rest

-- `name in Config.enums()`
unfoldable pub has_class : Text → List Member → Bool
has_class class [] = false
has_class class (m ∷ ms) =
    let rest = has_class class ms in if text_eq class (class_name m) then true else rest

-- `name, member = ...split(".")`, and the member.
abbrev pub member_of : List Text → Outcome Member
member_of (class ∷ word ∷ []) =
    if has_class class members then with_name class word members else raise key_error
member_of parts = raise value_error

-- `_as_enum`, of a dictionary with the key `__enum__`.
unfoldable pub as_enum : Text → Outcome Member
as_enum text = member_of (split_on (codes ".") text)

-- `ConfigEncoder.default`: what stands under `__enum__`.
unfoldable pub default : Member → Text
default m = value m
