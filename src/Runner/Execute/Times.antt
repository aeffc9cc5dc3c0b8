-- ===== src/Runner/Execute/Times.antt =====
-- When the faults are applied.
use Prim.Native.Nat.{max}
use reckon_k8s.Prelude.{
  inl, inr, ◌⊎◌, ℕ, suc, ◌+◌, ◌-◌, ◌*◌, ◌/◌, ◌≤◌, ◌<◌, ◌≡◌, refl, ap, List, [], ◌∷◌, some, length,
  map, arith, true, leb, length-map, ◌∙◌,
}
use reckon_k8s.Outcome.{Outcome, ok, raise, assertion_error}
use reckon_k8s.Types.{Message}
use reckon_k8s.Runner.Preload.{Client}
use reckon_k8s.Runner.RoundRobin.Order.{roundrobin-columns, columns-alternate, alternate}
use reckon_k8s.Runner.Execute.{Job, Ran, after_call, fault_times, run_jobs, jobs, execute}

module _ {ℓ} {Fault : Type ℓ} where
  -- The faults in order, up to the first that raises, each at its time or when the one before it is done,
  -- whichever is later; `now` is when the previous one is done.
  abbrev pub applied :
      {World : Type 0} (call : Fault → World → ℕ × Outcome World) (start sleep_dur k now : ℕ)
      → World
      → List Fault
      → Ran Fault World
  applied call start sleep_dur k now w [] = ([], ok w)
  applied call start sleep_dur k now w (f ∷ fs) =
      let at = max (start + k * sleep_dur) now in
      after_call (f, at) (call f w).1
        (λ w'. applied call start sleep_dur (suc k) (at + (call f w).0) w' fs)

  length-fault_times :
      (start dur k : ℕ) (fs : List Fault) → length (fault_times start dur k fs) ≡ length fs
  unfolding fault_times
  length-fault_times start dur k [] = refl
  length-fault_times start dur k (f ∷ fs) = ap suc (length-fault_times start dur (suc k) fs)

  run_alternate :
      {World : Type 0} (call : Fault → World → ℕ × Outcome World) (start dur k now : ℕ) (w : World)
      (f : Fault) (fs : List Fault)
      → run_jobs call
          (alternate
            (map Job.apply_fault (f ∷ fs))
            (map Job.sleep_til (fault_times start dur (suc k) fs)))
          now
          w
        ≡ after_call
            (f, now)
            (call f w).1
            (λ w'. applied call start dur (suc k) (now + (call f w).0) w' fs)
  unfolding run_jobs fault_times
  run_alternate call start dur k now w f [] = refl
  run_alternate call start dur k now w f (g ∷ fs) = ap (after_call (f, now) (call f w).1) (λ i w'.
      run_alternate call start dur (suc k) (max (start + suc k * dur) (now + (call f w).0)) w' g fs
        i)

  jobs_lem :
      (start dur : ℕ) (f g : Fault) (fs : List Fault)
      → jobs start dur (f ∷ g ∷ fs)
        ≡ some (
            alternate
              (map Job.apply_fault (f ∷ g ∷ fs))
              (map Job.sleep_til (fault_times start dur 1 (g ∷ fs))))
  unfolding jobs fault_times
  jobs_lem start dur f g fs =
      let times = fault_times start dur 1 (g ∷ fs) in
      let sleeps : List (Job Fault) = map Job.sleep_til times in
      let faults : List (Job Fault) = map Job.apply_fault (f ∷ g ∷ fs) in
      let l : length sleeps ≡ length times = length-map Job.sleep_til times in
      let m : length faults ≡ length (f ∷ g ∷ fs) = length-map Job.apply_fault (f ∷ g ∷ fs) in
      let n : length times ≡ length (g ∷ fs) = length-fault_times start dur 1 (g ∷ fs) in
      let even : length faults ≡ length sleeps + 1 = omega (arith, l, m, n) in
      roundrobin-columns (faults ∷ sleeps ∷ [])
      ∙ ap some (columns-alternate _ faults sleeps even (omega arith))

  pub execute_enough :
      {World : Type 0} (call : Fault → World → ℕ × Outcome World) (clients : List Client)
      (f g : Fault) (fs : List Fault) (duration start : ℕ) (w : World)
      → execute call clients (f ∷ g ∷ fs) duration start w
        ≡ ok (
          map (λ c. (c, Message.start)) clients,
          applied call start (duration / (length (f ∷ g ∷ fs) - 1)) 0 start w (f ∷ g ∷ fs),
        )
  unfolding execute
  execute_enough call clients f g fs duration start w =
      let sleep_dur = duration / (length (f ∷ g ∷ fs) - 1) in
      let at : max (start + 0 * sleep_dur) start ≡ start = omega arith in
      let enough : leb 2 (length (f ∷ g ∷ fs)) ≡ true = ground arith in
      rw
        (
          jobs_lem start sleep_dur f g fs,
          enough,
          run_alternate call start sleep_dur 0 start w f (g ∷ fs),
          at,
        )
        refl

  -- With two faults or more `execute` starts every client and then applies the faults in order, each once,
  -- up to the first that raises: the first at the start, each other one when its share of the duration
  -- has passed and the fault before it is done. The fault that raises is in the log, none after it is
  -- applied, and its exception ends `execute`. With fewer than two faults it fails before it sends anything.
  pub execute-applied :
      {World : Type 0} (call : Fault → World → ℕ × Outcome World) (clients : List Client)
      (failures : List Fault) (duration start : ℕ) (w : World)
      → (2 ≤ length failures)
          × (execute call clients failures duration start w
              ≡ ok (
                map (λ c. (c, Message.start)) clients,
                applied call start (duration / (length failures - 1)) 0 start w failures,
              ))
        ⊎ (length failures < 2)
          × (execute call clients failures duration start w ≡ raise assertion_error)
  unfolding execute
  execute-applied call clients [] duration start w = inr (omega arith, refl)
  execute-applied call clients (f ∷ []) duration start w = inr (omega arith, refl)
  execute-applied call clients (f ∷ g ∷ fs) duration start w =
      inl (omega arith, execute_enough call clients f g fs duration start w)
