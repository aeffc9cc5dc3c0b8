-- ===== src/Tests/Failures.antt =====
-- The faults at concrete inputs: a cluster of a load balancer, a control plane and two workers.
use reckon_k8s.Prelude.{ℕ, suc, ◌≤◌, ◌≡◌, refl, false, List, [], ◌∷◌, some}
use reckon_k8s.Outcome.{Outcome, ok}
use reckon_k8s.Text.{Text, codes}
use reckon_k8s.Cluster.{NodeType, Node, is_control}
use reckon_k8s.Failures.Iptables.{Shared, World, partition_all, partitioned}
use reckon_k8s.Failures.Partition.{Kind, apply_partition}
use reckon_k8s.Failures.Partition.Restore.{Cut, SameChains, apply_partition_lem}
use reckon_k8s.Failures.Intermittent.{Phase, Thread, Offline, apply_fault, Steps, Step}
use reckon_k8s.Failures.Intermittent.Endless.{Ongoing, Steps-Ongoing}
use reckon_k8s.Failures.Provider.{Fault}
use reckon_k8s.Tests.{chains}

abbrev node : ℕ → Text → NodeType → Node
node id ip kind = record { id = id; name = ip; ip = ip; node_type = kind }

abbrev lb : Node
lb = node 0 (codes "10.0.0.1") NodeType.load_balancer

abbrev cp : Node
cp = node 1 (codes "10.0.0.2") NodeType.control_plane

abbrev wn1 : Node
wn1 = node 2 (codes "10.0.0.3") NodeType.worker

abbrev wn2 : Node
wn2 = node 3 (codes "10.0.0.4") NodeType.worker

abbrev cluster : List Node
cluster = lb ∷ cp ∷ wn1 ∷ wn2 ∷ []

abbrev fresh : World chains
fresh = record { chains = λ k. []; default_list = []; shared = Shared.default }

abbrev leader_of : List Node → World chains → Outcome Node
leader_of hosts w = ok cp

apply_partition_lem_example :
    (w1 w2 : World chains) × (apply_partition chains leader_of Kind.create cluster fresh ≡ ok w1)
    × Cut chains w1 cp lb
    × Cut chains w1 lb cp
    × (apply_partition chains leader_of Kind.remove cluster w1 ≡ ok w2)
    × SameChains chains fresh w2
    × (partitioned chains w2 ≡ [])
apply_partition_lem_example =
    apply_partition_lem chains leader_of cluster (wn1 ∷ wn2 ∷ []) cp lb fresh refl refl refl

abbrev asleep : Thread
asleep = record { pairs = (cp, wn1) ∷ []; phase = Phase.joined }

abbrev ongoing : Offline chains
ongoing = record {
  world = fresh;
  failure_fixed = false;
  fault_state = some false;
  threads = asleep ∷ [];
}

abbrev woken : Offline chains
woken = record {
  world = partition_all chains ((cp, wn1) ∷ []) fresh;
  failure_fixed = false;
  fault_state = some false;
  threads = record { pairs = (cp, wn1) ∷ []; phase = Phase.cut } ∷ [];
}

remove_and_wake : Steps chains is_control cluster ongoing woken
unfolding apply_fault
remove_and_wake =
    Steps.step {st' = ongoing} (Step.call Kind.remove refl)
      (Steps.step (Step.wakes {st = ongoing} [] [] asleep refl) Steps.done)

Steps-Ongoing_example : Ongoing chains is_control cluster woken × (1 ≤ 1)
Steps-Ongoing_example =
    Steps-Ongoing chains is_control cluster ongoing woken remove_and_wake (refl, (refl, tt))

abbrev one_each : Fault → ℕ → ℕ × Outcome ℕ
one_each f w = (1, ok (suc w))
