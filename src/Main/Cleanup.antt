-- ===== src/Main/Cleanup.antt =====
-- How the program ends: which functions are called, and what the call of the program comes to.
use reckon_k8s.Prelude.{
  ◌≡◌, refl, ap, sym, ◌∙◌, inl, inr, true, false, List, [], ◌∷◌, ◌++◌, map, append-nil,
  append_assoc, Bool-cases, if◌then◌else◌,
}
use reckon_k8s.Outcome.{Exception, Outcome, ok, raise, name_error, system_exit}
use reckon_k8s.Main.{
  Tables, Event, called, stopped, tested, Parts, values, catches, prepare, settle, join_limit,
  call_all, stop_net, cleanup, finally, guarded, test, started, prepared, run_benchmark,
}

-- `except Exception` lets the exit of the program pass.
not_caught : (e : Exception) → catches e ≡ false → e ≡ system_exit
not_caught system_exit h = refl
not_caught Exception.eof_error h = cc
not_caught Exception.struct_error h = cc
not_caught Exception.unicode_error h = cc
not_caught Exception.index_error h = cc
not_caught Exception.key_error h = cc
not_caught Exception.value_error h = cc
not_caught Exception.recursion_error h = cc
not_caught Exception.called_process_error h = cc
not_caught Exception.type_error h = cc
not_caught Exception.attribute_error h = cc
not_caught Exception.assertion_error h = cc
not_caught Exception.unbound_local_error h = cc
not_caught Exception.not_supported h = cc
not_caught Exception.no_leader h = cc
not_caught Exception.name_error h = cc
not_caught Exception.docker_error h = cc
not_caught Exception.os_error h = cc

module _ {System Topology Failures Ops F Host Fault : Type 0}
    (p : Parts System Topology Failures Ops F Host Fault) where
  abbrev Log : Type 0
  Log = List (Event F Host Fault)

  -- The functions are called in order, and the network is stopped.
  abbrev pub cleaned : List F → Log
  cleaned killers = map called killers ++ stopped ∷ []

  -- The cleanup is made once more after an exception that is caught.
  abbrev pub cleaned_for : Exception → List F → Log
  cleaned_for e killers = if catches e then cleaned killers ++ cleaned killers else cleaned killers

  abbrev pub Returns : Type 0
  Returns = (log : Log) (f : F) → p.call log f ≡ ok tt

  call_all_lem :
      Returns → (fs : List F) (log : Log) → call_all p fs log ≡ (log ++ map called fs, ok tt)
  unfolding call_all
  call_all_lem r [] log = ap (λ l. (l, ok tt)) (sym (append-nil log))
  call_all_lem r (f ∷ fs) log =
      rw (r log f, call_all)
        (call_all_lem r fs (log ++ called f ∷ [])
          ∙ ap (λ l. (l, ok tt)) (append_assoc log (called f ∷ []) (map called fs)))

  cleanup_lem :
      Returns → (fs : List F) (log : Log) → cleanup p true fs log ≡ (log ++ cleaned fs, ok tt)
  cleanup_lem r fs log =
      ap (stop_net p true) (call_all_lem r fs log)
      ∙ ap (λ l. (l, ok tt)) (append_assoc log (map called fs) (stopped ∷ []))

  pub guarded-ok :
      Returns
      → (fs : List F) (log : Log) → guarded p true fs (log, ok tt) ≡ (log ++ cleaned fs, ok tt)
  unfolding guarded
  guarded-ok r fs log = ap (finally p (ok tt)) (cleanup_lem r fs log)

  guarded-raise :
      Returns
      → (fs : List F) (log : Log) (e : Exception)
      → guarded p true fs (log, raise e) ≡ (log ++ cleaned_for e fs, raise system_exit)
  unfolding guarded
  guarded-raise r fs log e = elim (Bool-cases (catches e)) [
    | inl c ↦
        rw (c, cleanup_lem r fs log, cleanup_lem r fs (log ++ cleaned fs))
          (ap (λ l. (l, raise system_exit)) (append_assoc log (cleaned fs) (cleaned fs)))
    | inr n ↦ rw (n, cleanup_lem r fs log) (ap (λ x. (log ++ cleaned fs, raise x)) (not_caught e n))
  ]

  -- The test was run, or an exception came before it.
  abbrev pub TestEnds :
      List Host
      → List Host
      → List F
      → Log × Outcome (List Fault)
      → Log × Outcome (Unit {0})
      → Type 0
  TestEnds cluster clients killers (log, raise e) r =
      r ≡ (log ++ cleaned_for e killers, raise system_exit)
  TestEnds cluster clients killers (log, ok faults) r =
      r ≡ ((log ++ tested clients cluster faults (join_limit p) ∷ []) ++ cleaned killers, ok tt)

  abbrev pub StartEnds :
      System
      → Failures
      → List Host
      → List Host
      → Outcome (Tables F)
      → Log × Outcome (Unit {0})
      → Type 0
  StartEnds system failures cluster clients (raise e) r = r ≡ (cleaned_for e [], raise system_exit)
  StartEnds system failures cluster clients (ok t) r =
      TestEnds cluster clients (values t.killers) (settle p system failures cluster t) r

  abbrev pub Ends :
      Outcome (System × Failures × List Host × List Host) → Log × Outcome (Unit {0}) → Type 0
  Ends (raise e) r = r ≡ ([], raise name_error)
  Ends (ok (system, failures, cluster, clients)) r =
      StartEnds system failures cluster clients (p.start_nodes system cluster) r

  test-TestEnds :
      Returns
      → (cluster clients : List Host) (fs : List F) (s : Log × Outcome (List Fault))
      → TestEnds cluster clients fs s (test p cluster clients fs s)
  test-TestEnds r cluster clients fs (log, raise e) = guarded-raise r fs log e
  test-TestEnds r cluster clients fs (log, ok faults) =
      guarded-ok r fs (log ++ tested clients cluster faults (join_limit p) ∷ [])

  started-StartEnds :
      Returns
      → (system : System) (failures : Failures) (cluster clients : List Host)
        (t : Outcome (Tables F))
      → StartEnds system failures cluster clients t (started p system failures cluster clients t)
  started-StartEnds r system failures cluster clients (raise e) = guarded-raise r [] [] e
  started-StartEnds r system failures cluster clients (ok t) =
      test-TestEnds r cluster clients (values t.killers) (settle p system failures cluster t)

  pub prepared_raise : (e : Exception) → prepared p (raise e) ≡ ([], raise name_error)
  unfolding guarded call_all
  prepared_raise e = elim (Bool-cases (catches e)) [ inl c ↦ rw c refl | inr n ↦ rw n refl ]

  prepared-Ends :
      Returns → (x : Outcome (System × Failures × List Host × List Host)) → Ends x (prepared p x)
  prepared-Ends r (raise e) = prepared_raise e
  prepared-Ends r (ok (system, failures, cluster, clients)) =
      started-StartEnds r system failures cluster clients (p.start_nodes system cluster)

  call_all-raise :
      (f : F) (fs : List F) (log : Log) (x : Exception)
      → p.call log f ≡ raise x
      → call_all p (f ∷ fs) log ≡ (log ++ called f ∷ [], raise x)
  unfolding call_all
  call_all-raise f fs log x e = rw (e, call_all) refl

  -- When each function returns, the program ends in one of four ways. With the test run, the functions of
  -- `killers` are called once each, in order, and the network is stopped, after which the program returns.
  -- With an exception after the start of the nodes, all this is done twice, and the program exits with an
  -- error. With an exception from the start of the nodes, the network is stopped twice, no function is
  -- called, and the program exits with an error. With one before, it fails with a `NameError`. An exit
  -- from within is not caught, and is cleaned up after once.
  pub run_benchmark-Ends : Returns → Ends (prepare p) (run_benchmark p)
  unfolding run_benchmark
  run_benchmark-Ends r = prepared-Ends r (prepare p)

  -- When an exception comes after the start of the nodes, the cleanup succeeds, and the first function
  -- fails when it is called again, the program fails with the exception of that function: the others are
  -- not called again, and the network is not stopped again.
  pub run_benchmark_killed_again :
      (system : System) (failures : Failures) (cluster clients : List Host) (t : Tables F)
      (log log' : Log) (e x : Exception) (k : F) (ks : List F)
      → prepare p ≡ ok (system, failures, cluster, clients)
      → p.start_nodes system cluster ≡ ok t
      → settle p system failures cluster t ≡ (log, raise e)
      → catches e ≡ true
      → values t.killers ≡ k ∷ ks
      → call_all p (k ∷ ks) log ≡ (log', ok tt)
      → p.call (log' ++ stopped ∷ []) k ≡ raise x
      → run_benchmark p ≡ ((log' ++ stopped ∷ []) ++ called k ∷ [], raise x)
  unfolding run_benchmark guarded
  run_benchmark_killed_again system failures cluster clients t log log' e x k ks ready runs fails
        caught killers first again =
      let second = call_all-raise k ks (log' ++ stopped ∷ []) x again in
      rw (ready, runs, fails, killers, caught, first, second) refl
