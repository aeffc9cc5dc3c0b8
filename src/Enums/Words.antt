-- ===== src/Enums/Words.antt =====
-- Words that stand for members.
use reckon_k8s.Prelude.{◌≡◌, refl, ◌++◌}
use reckon_k8s.Outcome.{ok, raise, value_error}
use reckon_k8s.Text.{codes}
use reckon_k8s.Text.Split.{split_on}
use reckon_k8s.Failures.Provider.{FailureType}
use reckon_k8s.Main.Program.{SystemChoice}
use reckon_k8s.Systems.Family.{SystemType}
use reckon_k8s.Topology.Setup.{TopologyType}
use reckon_k8s.Workload.Provider.{ArrivalType, KeyType}
use reckon_k8s.Enums.{
  Member, system, failure, topology, arrival, key, class_name, name, value, members, with_value,
  with_name, has_class, as_enum, default,
}

-- What a member stands for as a word of the command line, as the text that the encoder writes, and as its
-- qualified name.
abbrev pub Reads : Member → Type 0
Reads m =
    (with_value (class_name m) (value m) members ≡ ok m)
    × (as_enum (default m) ≡ raise value_error)
    × (as_enum (class_name m ++ (codes "." ++ name m)) ≡ ok m)

-- Every member of the five classes is made of its value, which is the word of the command line for it, and
-- `_as_enum` reads it from its class and name; but from what the encoder writes for it, its value,
-- `_as_enum` fails with a `ValueError`.
pub as_enum-default : (m : Member) → Reads m
unfolding with_value with_name has_class as_enum default split_on
as_enum-default (system (SystemChoice.other SystemType.etcd)) = (refl, refl, refl)
as_enum-default (system (SystemChoice.other SystemType.etcd_pre_vote)) = (refl, refl, refl)
as_enum-default (system (SystemChoice.other SystemType.etcd_sbn)) = (refl, refl, refl)
as_enum-default (system (SystemChoice.other SystemType.etcd_pre_vote_sbn)) = (refl, refl, refl)
as_enum-default (system (SystemChoice.other SystemType.zookeeper)) = (refl, refl, refl)
as_enum-default (system (SystemChoice.other SystemType.zookeeper_fle)) = (refl, refl, refl)
as_enum-default (system (SystemChoice.other SystemType.ocons_paxos)) = (refl, refl, refl)
as_enum-default (system (SystemChoice.other SystemType.ocons_raft)) = (refl, refl, refl)
as_enum-default (system (SystemChoice.other SystemType.ocons_raft_prevote)) = (refl, refl, refl)
as_enum-default (system (SystemChoice.other SystemType.ocons_raft_sbn)) = (refl, refl, refl)
as_enum-default (system (SystemChoice.other SystemType.ocons_raft_prevote_sbn)) = (refl, refl, refl)
as_enum-default (system (SystemChoice.other SystemType.ocons_conspire_leader)) = (refl, refl, refl)
as_enum-default (system (SystemChoice.other SystemType.ocons_conspire_dc)) = (refl, refl, refl)
as_enum-default (system (SystemChoice.other SystemType.ocons_conspire_leader_dc)) =
    (refl, refl, refl)
as_enum-default (system SystemChoice.kubernetes) = (refl, refl, refl)
as_enum-default (failure FailureType.f_none) = (refl, refl, refl)
as_enum-default (failure FailureType.f_leader_only) = (refl, refl, refl)
as_enum-default (failure FailureType.f_leader_recovery) = (refl, refl, refl)
as_enum-default (failure FailureType.f_partial_partition) = (refl, refl, refl)
as_enum-default (failure FailureType.f_intermittent_pp) = (refl, refl, refl)
as_enum-default (failure FailureType.f_intermittent_fp) = (refl, refl, refl)
as_enum-default (failure FailureType.f_k8s_control_offline) = (refl, refl, refl)
as_enum-default (failure FailureType.f_k8s_worker_offline) = (refl, refl, refl)
as_enum-default (failure FailureType.f_k8s_region_offline) = (refl, refl, refl)
as_enum-default (failure FailureType.f_kill_n) = (refl, refl, refl)
as_enum-default (failure FailureType.stat) = (refl, refl, refl)
as_enum-default (topology TopologyType.simple) = (refl, refl, refl)
as_enum-default (topology TopologyType.simple_k8s) = (refl, refl, refl)
as_enum-default (topology TopologyType.ha_k8s) = (refl, refl, refl)
as_enum-default (topology TopologyType.ha_region_k8s) = (refl, refl, refl)
as_enum-default (topology TopologyType.wan) = (refl, refl, refl)
as_enum-default (arrival ArrivalType.uniform) = (refl, refl, refl)
as_enum-default (arrival ArrivalType.poisson) = (refl, refl, refl)
as_enum-default (key KeyType.uniform) = (refl, refl, refl)
as_enum-default (key KeyType.tptest) = (refl, refl, refl)
