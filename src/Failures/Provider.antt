-- ===== src/Failures/Provider.antt =====
-- `get_failure_provider` of reckon/failures/__init__.py, and the faults that each provider makes.
pub mod Runs
use reckon_k8s.Prelude.{
  ℕ, suc, ◌≤◌, ◌<◌, ◌≡◌, refl, Bool, true, false, ◌||◌, not, List, [], ◌∷◌, arith, length,
  if◌then◌else◌,
}
use reckon_k8s.Outcome.{Outcome, ok, raise, ◌>>=◌, ◌>>◌, check, assertion_error}
use reckon_k8s.Failures.Partition.{Kind}

pub data FailureType : Type 0 where
  f_none f_leader_only f_leader_recovery f_partial_partition f_intermittent_pp : FailureType
  f_intermittent_fp f_k8s_control_offline f_k8s_worker_offline f_k8s_region_offline : FailureType
  f_kill_n stat : FailureType

-- The providers, with what their constructors keep.
pub data Provider : Type 0 where
  no_failure leader_failure leader_only_failure p_partition_failure : Provider
  intermittent_p_partition_failure intermittent_f_partition_failure :
      (sleep_duration : ℕ) → Provider
  intermittent_worker_offline_failure intermittent_control_offline_failure :
      (sleep_duration : ℕ) → Provider
  leader_region_offline_fault_failure : Provider
  kill_n : ℕ → Provider
  stat_fault : Provider

-- The objects in the lists that the providers make.
pub data Fault : Type 0 where
  null_fault leader_fault recovery leader_only_fault stat_fault : Fault
  partition_fault region_offline_fault : Kind → Fault
  intermittent_partial intermittent_full worker_offline control_offline :
      Kind → (sleep_duration : ℕ) → Fault
  kill_n_fault : ℕ → Fault

-- The `else` of the code is for no failure type.
unfoldable pub get_failure_provider : (mtbf n : ℕ) → FailureType → Provider
get_failure_provider mtbf n FailureType.f_none = Provider.no_failure
get_failure_provider mtbf n FailureType.f_leader_recovery = Provider.leader_failure
get_failure_provider mtbf n FailureType.f_leader_only = Provider.leader_only_failure
get_failure_provider mtbf n FailureType.f_partial_partition = Provider.p_partition_failure
get_failure_provider mtbf n FailureType.f_intermittent_pp =
    Provider.intermittent_p_partition_failure mtbf
get_failure_provider mtbf n FailureType.f_intermittent_fp =
    Provider.intermittent_f_partition_failure mtbf
get_failure_provider mtbf n FailureType.f_k8s_worker_offline =
    Provider.intermittent_worker_offline_failure mtbf
get_failure_provider mtbf n FailureType.f_k8s_control_offline =
    Provider.intermittent_control_offline_failure mtbf
get_failure_provider mtbf n FailureType.f_k8s_region_offline =
    Provider.leader_region_offline_fault_failure
get_failure_provider mtbf n FailureType.f_kill_n = Provider.kill_n n
get_failure_provider mtbf n FailureType.stat = Provider.stat_fault

-- A fault that is created, then removed, between two that do nothing.
abbrev between : (Kind → Fault) → List Fault
between f = Fault.null_fault ∷ f Kind.create ∷ f Kind.remove ∷ Fault.null_fault ∷ []

-- The faults of the Kubernetes providers, which assert in `__init__` that the system is Kubernetes.
abbrev kubernetes_only : Bool → (Kind → Fault) → Outcome (List Fault)
kubernetes_only is_kubernetes f = do check is_kubernetes assertion_error; ok (between f)

-- `get_failures` of each provider.
unfoldable pub no_failures : List Fault
no_failures = Fault.null_fault ∷ Fault.null_fault ∷ []

unfoldable pub leader_failures : List Fault
leader_failures = Fault.null_fault ∷ Fault.leader_fault ∷ Fault.recovery ∷ Fault.null_fault ∷ []

unfoldable pub leader_only_failures : List Fault
leader_only_failures = Fault.null_fault ∷ Fault.leader_only_fault ∷ Fault.null_fault ∷ []

unfoldable pub p_partition_failures : List Fault
p_partition_failures = between Fault.partition_fault

unfoldable pub intermittent_p_failures : ℕ → List Fault
intermittent_p_failures d = between (λ k. Fault.intermittent_partial k d)

unfoldable pub intermittent_f_failures : ℕ → List Fault
intermittent_f_failures d = between (λ k. Fault.intermittent_full k d)

unfoldable pub worker_offline_failures : Bool → ℕ → Outcome (List Fault)
worker_offline_failures k8s d = kubernetes_only k8s (λ k. Fault.worker_offline k d)

unfoldable pub control_offline_failures : Bool → ℕ → Outcome (List Fault)
control_offline_failures k8s d = kubernetes_only k8s (λ k. Fault.control_offline k d)

unfoldable pub region_offline_failures : Bool → Outcome (List Fault)
region_offline_failures k8s = kubernetes_only k8s Fault.region_offline_fault

unfoldable pub kill_n_failures : ℕ → List Fault
kill_n_failures n = Fault.null_fault ∷ Fault.kill_n_fault n ∷ Fault.null_fault ∷ []

unfoldable pub stat_failures : List Fault
stat_failures = Fault.null_fault ∷ Fault.stat_fault ∷ Fault.stat_fault ∷ []

-- The call of `get_failures` on what `get_failure_provider` returns.
unfoldable pub get_failures : (is_kubernetes : Bool) → Provider → Outcome (List Fault)
get_failures k8s Provider.no_failure = ok no_failures
get_failures k8s Provider.leader_failure = ok leader_failures
get_failures k8s Provider.leader_only_failure = ok leader_only_failures
get_failures k8s Provider.p_partition_failure = ok p_partition_failures
get_failures k8s (Provider.intermittent_p_partition_failure d) = ok (intermittent_p_failures d)
get_failures k8s (Provider.intermittent_f_partition_failure d) = ok (intermittent_f_failures d)
get_failures k8s (Provider.intermittent_worker_offline_failure d) = worker_offline_failures k8s d
get_failures k8s (Provider.intermittent_control_offline_failure d) = control_offline_failures k8s d
get_failures k8s Provider.leader_region_offline_fault_failure = region_offline_failures k8s
get_failures k8s (Provider.kill_n n) = ok (kill_n_failures n)
get_failures k8s Provider.stat_fault = ok stat_failures
