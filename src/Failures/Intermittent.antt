-- ===== src/Failures/Intermittent.antt =====
-- The faults of reckon/failures/k8s_control_offline.py, k8s_worker_offline.py, intermittent_full.py
-- and intermittent_partial.py: a thread cuts hosts off and joins them again, over and over.
pub mod Endless
use reckon_k8s.Prelude.{
  ℕ, zero, suc, ◌≡◌, Bool, true, false, List, [], ◌∷◌, ◌++◌, Option, none, some,
}
use reckon_k8s.Outcome.{Outcome, ok, raise, ◌>>=◌}
use reckon_k8s.Cluster.{Node, others, only, is_control, is_worker}
use reckon_k8s.Failures.Iptables.{Iptables, World, partition_all, remove_partition}
use reckon_k8s.Failures.Partition.{Kind, at}

-- Where a thread waits: asleep with the hosts cut off, asleep with the hosts joined, or no more.
pub data Phase : Type 0 where
  cut joined ended : Phase

-- A thread, with the pairs of hosts that the body of its loop cuts.
pub record Thread : Type 0 where
  pub pairs : List (Node × Node)
  pub phase : Phase

-- The pairs of the loop over `major_partition`.
unfoldable pub offline_pairs : (target : Node) → List Node → List (Node × Node)
offline_pairs target [] = []
offline_pairs target (m ∷ ms) = (m, target) ∷ (target, m) ∷ offline_pairs target ms

module _ (tables : Iptables) where
  -- `Shared`, the chains and the threads. `failure_fixed` and `fault_state` are events, which are
  -- set or not.
  pub record Offline : Type 0 where
    pub world : World tables
    pub failure_fixed : Bool
    pub fault_state : Option Bool
    pub threads : List Thread

  -- `while not failure_fixed.isSet()`, and the body up to the first sleep.
  abbrev pub loop_head : Bool → List (Node × Node) → World tables → World tables × Thread
  loop_head true pairs w = (w, record { pairs = pairs; phase = Phase.ended })
  loop_head false pairs w =
      (partition_all tables pairs w, record { pairs = pairs; phase = Phase.cut })

  -- A thread goes on from where it sleeps to the next sleep.
  abbrev pub wake : Bool → Thread → World tables → World tables × Thread
  wake fixed t w = elim t.phase [
    | Phase.cut ↦ (remove_partition tables w, record t { phase = Phase.joined })
    | Phase.joined ↦ loop_head fixed t.pairs w
    | Phase.ended ↦ (w, t)
  ]

  -- `initiate_failure`; `p` picks the control planes or the workers.
  unfoldable pub initiate_failure : (p : Node → Bool) → List Node → Offline → Outcome Offline
  initiate_failure p cluster st = do
    target ← at (only p cluster) 2
    let run = loop_head st.failure_fixed (offline_pairs target (others target cluster)) st.world
    ok (record st { world = run.0; fault_state = some false; threads = st.threads ++ run.1 ∷ [] })

  -- `apply_fault`: to remove the failure it names the method and does not call it.
  unfoldable pub apply_fault : (p : Node → Bool) → Kind → List Node → Offline → Outcome Offline
  apply_fault p Kind.create cluster st = initiate_failure p cluster st
  apply_fault p Kind.remove cluster st = ok st

  -- What can happen: a call of the fault, or one of the threads wakes.
  pub data Step (p : Node → Bool) (cluster : List Node) : Offline → Offline → Type 0 where
    call :
        {st st' : Offline} (kind : Kind)
        → apply_fault p kind cluster st ≡ ok st'
        → Step p cluster st st'
    wakes :
        {st : Offline} (before after : List Thread) (t : Thread)
        → st.threads ≡ before ++ t ∷ after
        → Step p cluster st (record st {
          world = (wake st.failure_fixed t st.world).0;
          threads = before ++ (wake st.failure_fixed t st.world).1 ∷ after;
        })

  pub data Steps (p : Node → Bool) (cluster : List Node) : Offline → Offline → Type 0 where
    done : {st : Offline} → Steps p cluster st st
    step :
        {st st' st'' : Offline}
        → Step p cluster st st'
        → Steps p cluster st' st''
        → Steps p cluster st st''

  module _ (get_leader : List Node → World tables → Outcome Node) where
    -- `apply_fault` of intermittent_full.py. The thread ends at its first line, which reads the
    -- attribute `self.shared` that the object does not have.
    unfoldable pub apply_full : Kind → List Node → World tables → Outcome (World tables)
    apply_full Kind.create cluster w = do
      leader ← get_leader cluster w
      non_leader ← at (others leader cluster) 0
      ok w
    apply_full Kind.remove cluster w = ok w

    -- `apply_fault` of intermittent_partial.py. The thread ends after its first partitions, where it
    -- reads the attribute `self.sleep_duration` that the object does not have.
    unfoldable pub apply_partial : Kind → List Node → World tables → Outcome (World tables)
    apply_partial Kind.create cluster w = do
      leader ← get_leader cluster w
      non_leader ← at (others leader cluster) 0
      ok (partition_all tables ((leader, non_leader) ∷ (non_leader, leader) ∷ []) w)
    apply_partial Kind.remove cluster w = ok w

module _ (tables : Iptables) where
  -- `IntermittentControlOffline` and `IntermittentWorkerOffline`, which cut off the third control
  -- plane and the third worker.
  unfoldable pub apply_control_offline :
      Kind → List Node → Offline tables → Outcome (Offline tables)
  unfolding apply_fault
  apply_control_offline = apply_fault tables is_control

  unfoldable pub apply_worker_offline : Kind → List Node → Offline tables → Outcome (Offline tables)
  unfolding apply_fault
  apply_worker_offline = apply_fault tables is_worker
