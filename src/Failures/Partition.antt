-- ===== src/Failures/Partition.antt =====
-- The faults of reckon/failures/partialpartition.py and k8s_leader_region_offline.py: hosts are cut
-- off from each other by the first call, and joined again by the second.
pub mod Restore
use reckon_k8s.Prelude.{ℕ, Bool, not, ◌&&◌, List, [], ◌∷◌, ◌++◌, get_elem?, Option, none, some}
use reckon_k8s.Outcome.{Outcome, ok, raise, ◌>>=◌, or_raise, index_error, value_error}
use reckon_k8s.Cluster.{Node, same, only, others, is_control, is_worker, index_of}
use reckon_k8s.Failures.Iptables.{Iptables, World, partition_all, remove_partition}

pub data Kind : Type 0 where
  create remove : Kind

-- `xs[0]`, and other places.
abbrev pub at : List Node → ℕ → Outcome Node
at xs i = or_raise (get_elem? xs i) index_error

-- What the body of the loop of `LeaderRegionOfflineFault.initiate_partition` cuts, in its order.
unfoldable pub region_pairs : (leader assoc_worker : Node) → List Node → List (Node × Node)
region_pairs leader assoc_worker [] = []
region_pairs leader assoc_worker (u ∷ us) =
    (leader, u)
    ∷ (u, leader)
    ∷ (assoc_worker, u)
    ∷ (u, assoc_worker)
    ∷ region_pairs leader assoc_worker us

-- `[h for h in self.cluster if not h == leader and not h == assoc_worker]`
abbrev pub unreachable_nodes : (leader assoc_worker : Node) → List Node → List Node
unreachable_nodes leader assoc_worker cluster =
    only (λ h. not (same h leader) && not (same h assoc_worker)) cluster

module _ (tables : Iptables) (get_leader : List Node → World tables → Outcome Node) where
  -- `initiate_partition` of `PartitionFault`: the leader and the first host that is not the leader.
  unfoldable pub initiate_partition : List Node → World tables → Outcome (World tables)
  initiate_partition cluster w = do
    leader ← get_leader cluster w
    non_leader ← at (others leader cluster) 0
    ok (partition_all tables ((leader, non_leader) ∷ (non_leader, leader) ∷ []) w)

  -- `apply_fault` of `PartitionFault`.
  unfoldable pub apply_partition : Kind → List Node → World tables → Outcome (World tables)
  apply_partition Kind.create cluster w = initiate_partition cluster w
  apply_partition Kind.remove cluster w = ok (remove_partition tables w)

  -- `initiate_partition` of `LeaderRegionOfflineFault`: the leader and the worker with its index.
  unfoldable pub initiate_region : List Node → World tables → Outcome (World tables)
  initiate_region cluster w = do
    leader ← get_leader cluster w
    leader_index ← or_raise (index_of leader (only is_control cluster)) value_error
    assoc_worker ← at (only is_worker cluster) leader_index
    ok (
        partition_all tables
          (region_pairs leader assoc_worker (unreachable_nodes leader assoc_worker cluster)) w)

  -- `apply_fault` of `LeaderRegionOfflineFault`.
  unfoldable pub apply_region : Kind → List Node → World tables → Outcome (World tables)
  apply_region Kind.create cluster w = initiate_region cluster w
  apply_region Kind.remove cluster w = ok (remove_partition tables w)
