-- ===== src/Failures/Provider/Runs.antt =====
-- Each type of failure gives the runner what it asks for.
use reckon_k8s.Prelude.{ℕ, ◌≡◌, refl, true, List, ◌∷◌}
use reckon_k8s.Outcome.{Outcome, ok}
use reckon_k8s.Failures.Provider.{
  no_failures, leader_failures, leader_only_failures, p_partition_failures, intermittent_p_failures,
  intermittent_f_failures, worker_offline_failures, control_offline_failures,
  region_offline_failures, kill_n_failures, stat_failures, FailureType, Fault, get_failure_provider,
  get_failures,
}

pub failures_lem :
    (mtbf n : ℕ) (t : FailureType)
    → (fs : List Fault) × (get_failures true (get_failure_provider mtbf n t)
        ≡ ok (Fault.null_fault ∷ fs))
      × ((g : Fault) × (gs : List Fault) × (fs ≡ g ∷ gs))
unfolding get_failures get_failure_provider no_failures leader_failures leader_only_failures
    p_partition_failures intermittent_p_failures intermittent_f_failures worker_offline_failures
    control_offline_failures region_offline_failures kill_n_failures stat_failures
failures_lem mtbf n FailureType.f_none = (_, refl, (_, _, refl))
failures_lem mtbf n FailureType.f_leader_only = (_, refl, (_, _, refl))
failures_lem mtbf n FailureType.f_leader_recovery = (_, refl, (_, _, refl))
failures_lem mtbf n FailureType.f_partial_partition = (_, refl, (_, _, refl))
failures_lem mtbf n FailureType.f_intermittent_pp = (_, refl, (_, _, refl))
failures_lem mtbf n FailureType.f_intermittent_fp = (_, refl, (_, _, refl))
failures_lem mtbf n FailureType.f_k8s_control_offline = (_, refl, (_, _, refl))
failures_lem mtbf n FailureType.f_k8s_worker_offline = (_, refl, (_, _, refl))
failures_lem mtbf n FailureType.f_k8s_region_offline = (_, refl, (_, _, refl))
failures_lem mtbf n FailureType.f_kill_n = (_, refl, (_, _, refl))
failures_lem mtbf n FailureType.stat = (_, refl, (_, _, refl))
