-- ===== src/Runner/Execute.antt =====
-- `execute` of reckon/client_runner.py: the faults are applied at even intervals over the test.
pub mod Times
use Prim.Native.Nat.{max}
use reckon_k8s.Prelude.{
  ℕ, zero, suc, ◌+◌, ◌-◌, ◌*◌, ◌/◌, ◌≤◌, ◌<◌, ◌≡◌, refl, ap, List, [], ◌∷◌, ◌++◌, Option, some,
  length, map, drop, arith, leb, All, length-map, ◌∙◌, get_elem?,
}
use reckon_k8s.Outcome.{
  Outcome, ok, raise, check, or_raise, ◌>>=◌, ◌>>◌, assertion_error, type_error,
}
use reckon_k8s.Types.{Message}
use reckon_k8s.Runner.Preload.{Client}
use reckon_k8s.Runner.RoundRobin.{roundrobin}
use reckon_k8s.Runner.RoundRobin.Order.{
  roundrobin-columns, columns-alternate, alternate, columns, longest,
}

-- What the generator of the loop yields: a function of `fault_funcs` or of `sleep_funcs`.
pub data Job {ℓ} (Fault : Type ℓ) : Type ℓ where
  apply_fault : Fault → Job Fault
  sleep_til : ℕ → Job Fault

-- The log, which is written before a fault is applied, and how the loop ends: in a world, or with the
-- exception of a fault.
abbrev pub Ran {ℓ} : Type ℓ → Type 0 → Type ℓ
Ran Fault World = List (Fault × ℕ) × Outcome World

module _ {ℓ} {Fault : Type ℓ} where
  -- `fault_times`, from the index `i`.
  unfoldable pub fault_times : (start_time sleep_dur i : ℕ) → List Fault → List ℕ
  fault_times start_time sleep_dur i [] = []
  fault_times start_time sleep_dur i (f ∷ fs) =
      (start_time + i * sleep_dur) ∷ fault_times start_time sleep_dur (suc i) fs

  -- The loop after a fault is applied, which goes on unless the fault raises.
  abbrev pub after_call :
      {World : Type 0} → Fault × ℕ → Outcome World → (World → Ran Fault World) → Ran Fault World
  after_call entry (raise e) rest = (entry ∷ [], raise e)
  after_call entry (ok w) rest = let (log, end) = rest w in (entry ∷ log, end)

  -- The loop, from the time `now`: the log has the time at which each fault is applied. `call` gives the
  -- time that the call of a fault takes, and the world that it leaves or the exception that it raises; a
  -- sleep ends at its time, or at once when that is past.
  unfoldable pub run_jobs :
      {World : Type 0} (call : Fault → World → ℕ × Outcome World)
      → List (Job Fault)
      → (now : ℕ) → World
      → Ran Fault World
  run_jobs call [] now w = ([], ok w)
  run_jobs call (apply_fault f ∷ jobs) now w =
      after_call (f, now) (call f w).1 (λ w'. run_jobs call jobs (now + (call f w).0) w')
  run_jobs call (sleep_til x ∷ jobs) now w = run_jobs call jobs (max x now) w

  -- `roundrobin(fault_funcs, sleep_funcs)`: no sleep comes before the first fault.
  unfoldable pub jobs :
      (start_time sleep_dur : ℕ) (failures : List Fault) → Option (List (Job Fault))
  jobs start_time sleep_dur failures =
      let fault_funcs = map Job.apply_fault failures in
      let sleep_funcs = drop 1 (map Job.sleep_til (fault_times start_time sleep_dur 0 failures)) in
      roundrobin (fault_funcs ∷ sleep_funcs ∷ [])

  -- The messages sent to the clients, and what the loop comes to. Nothing takes time but the faults and the
  -- sleeps. `roundrobin` always ends, so that its `none` never occurs.
  unfoldable pub execute :
      {World : Type 0} (call : Fault → World → ℕ × Outcome World) (clients : List Client)
      (failures : List Fault) (duration start_time : ℕ) (w : World)
      → Outcome (List (Client × Message) × Ran Fault World)
  execute call clients failures duration start_time w = do
    check (leb 2 (length failures)) assertion_error
    queue ← or_raise (jobs start_time (duration / (length failures - 1)) failures) type_error
    ok (map (λ c. (c, Message.start)) clients, run_jobs call queue start_time w)
