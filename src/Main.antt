-- ===== src/Main.antt =====
-- reckon/__main__.py: the start of the parts, the test in a process of its own, and the cleanup. What the
-- parts make of the arguments is a record of functions; the stop of a network is taken to return.
pub mod Cleanup
pub mod Arguments
pub mod Program
use reckon_k8s.Prelude.{
  ℕ, ◌*◌, Bool, true, false, List, [], ◌∷◌, ◌++◌, Option, none, some, map, leb, if◌then◌else◌,
}
use reckon_k8s.Outcome.{
  Exception, Outcome, ok, raise, ◌>>=◌, ◌>>◌, or_raise, key_error, name_error, system_exit,
}
use reckon_k8s.Text.{Text, codes, text_eq}
use reckon_k8s.Text.Dict.{Dict}

-- The functions that `start_nodes` returns.
pub record Tables (F : Type 0) : Type 0 where
  pub restarters : Dict F
  pub stoppers : Dict F
  pub killers : Dict F

-- What the program does: a function of a dictionary is called, the test runs in a process that is given
-- this many seconds, and the network is stopped.
pub data Event (F Host Fault : Type 0) : Type 0 where
  slept : ℕ → Event F Host Fault
  pinged : Event F Host Fault
  tested : (clients cluster : List Host) (faults : List Fault) (limit : ℕ) → Event F Host Fault
  called : F → Event F Host Fault
  stopped : Event F Host Fault
  shell : Event F Host Fault

-- The parts, for the arguments of the call. `runtime` is the variable NETSIM_RUNTIME of the environment,
-- and `call` is what a function comes to after what has happened.
pub record Parts (System Topology Failures Ops F Host Fault : Type 0) : Type 0 where
  pub get_system : Outcome System
  pub get_topology_provider : Outcome Topology
  pub get_failure_provider : Outcome Failures
  pub get_ops_provider : Outcome Ops
  pub setup : Topology → Outcome (List Host × List Host)
  pub start_nodes : System → List Host → Outcome (Tables F)
  pub get_failures : Failures → List Host → System → Dict F → Dict F → Outcome (List Fault)
  pub runtime : Option Text
  pub ping_all : Outcome (Unit {0})
  pub duration : ℕ
  pub call : List (Event F Host Fault) → F → Outcome (Unit {0})

-- `d.values()`
abbrev pub values : {F : Type 0} → Dict F → List F
values d = map (λ e. e.1) d

-- The exceptions that `except Exception` catches.
abbrev pub catches : Exception → Bool
catches system_exit = false
catches e = true

module _ {System Topology Failures Ops F Host Fault : Type 0}
    (p : Parts System Topology Failures Ops F Host Fault) where
  abbrev pub Log : Type 0
  Log = List (Event F Host Fault)

  -- The providers and the network; `topo_provider` is made and then made once more.
  unfoldable pub prepare : Outcome (System × Failures × List Host × List Host)
  prepare = do
    system ← p.get_system
    topo ← p.get_topology_provider
    failures ← p.get_failure_provider
    ops ← p.get_ops_provider
    again ← p.get_topology_provider
    (cluster, clients) ← p.setup again
    ok (system, failures, cluster, clients)

  -- `net.pingAll()`, after a wait or none.
  abbrev pub ping_after : Outcome (List Fault × Log) → Log × Outcome (List Fault)
  ping_after (raise e) = ([], raise e)
  ping_after (ok (faults, waited)) = elim p.ping_all [
    | ok u ↦ (waited ++ pinged ∷ [], ok faults)
    | raise e ↦ (waited, raise e)
  ]

  -- What is done between the start of the nodes and the test.
  unfoldable pub settle :
      System → Failures → (cluster : List Host) → Tables F → Log × Outcome (List Fault)
  settle system failures cluster t = ping_after (do
    faults ← p.get_failures failures cluster system t.restarters t.stoppers
    runtime ← or_raise p.runtime key_error
    ok (faults, if text_eq runtime (codes "containernet") then slept 60 ∷ [] else []))

  -- `max(args.duration * 10, 900)`
  abbrev pub join_limit : ℕ
  join_limit = if leb 900 (p.duration * 10) then p.duration * 10 else 900

  -- `for stopper in killers.values(): stopper()`
  unfoldable pub call_all : List F → Log → Log × Outcome (Unit {0})
  call_all [] log = (log, ok tt)
  call_all (f ∷ fs) log =
      let rest = call_all fs (log ++ called f ∷ []) in
      elim (p.call log f) [ ok u ↦ rest | raise e ↦ (log ++ called f ∷ [], raise e) ]

  -- `net.stop()`; the name `net` has a value once the network is set up.
  abbrev pub stop_net : (has_net : Bool) → Log × Outcome (Unit {0}) → Log × Outcome (Unit {0})
  stop_net has_net (log, raise e) = (log, raise e)
  stop_net true (log, ok u) = (log ++ stopped ∷ [], ok tt)
  stop_net false (log, ok u) = (log, raise name_error)

  abbrev pub cleanup : (has_net : Bool) → List F → Log → Log × Outcome (Unit {0})
  cleanup has_net killers log = stop_net has_net (call_all killers log)

  -- An exception of the `finally` block takes the place of the one before it.
  abbrev pub finally : Outcome (Unit {0}) → Log × Outcome (Unit {0}) → Log × Outcome (Unit {0})
  finally before (log, ok u) = (log, before)
  finally before (log, raise e) = (log, raise e)

  -- `sys.exit(1)`, after the cleanup of the `except` block.
  abbrev pub exit_after : Log × Outcome (Unit {0}) → Log × Outcome (Unit {0})
  exit_after (log, ok u) = (log, raise system_exit)
  exit_after (log, raise e) = (log, raise e)

  abbrev pub handled : (has_net : Bool) → List F → Exception → Log → Log × Outcome (Unit {0})
  handled has_net killers e log =
      if catches e then exit_after (cleanup has_net killers log) else (log, raise e)

  -- The `finally` block, after what came before.
  abbrev pub finally_after :
      (has_net : Bool) → List F → Log × Outcome (Unit {0}) → Log × Outcome (Unit {0})
  finally_after has_net killers (log, r) = finally r (cleanup has_net killers log)

  -- The blocks `except` and `finally`, for what the block `try` comes to.
  unfoldable pub guarded :
      (has_net : Bool) → List F → Log × Outcome (Unit {0}) → Log × Outcome (Unit {0})
  guarded has_net killers (log, ok u) = finally_after has_net killers (log, ok tt)
  guarded has_net killers (log, raise e) =
      finally_after has_net killers (handled has_net killers e log)

  abbrev pub test :
      (cluster clients : List Host) (killers : List F)
      → Log × Outcome (List Fault)
      → Log × Outcome (Unit {0})
  test cluster clients killers (log, raise e) = guarded true killers (log, raise e)
  test cluster clients killers (log, ok faults) =
      guarded true killers (log ++ tested clients cluster faults join_limit ∷ [], ok tt)

  abbrev pub started :
      System
      → Failures
      → (cluster clients : List Host) → Outcome (Tables F)
      → Log × Outcome (Unit {0})
  started system failures cluster clients (raise e) = guarded true [] ([], raise e)
  started system failures cluster clients (ok t) =
      test cluster clients (values t.killers) (settle system failures cluster t)

  abbrev pub prepared :
      Outcome (System × Failures × List Host × List Host) → Log × Outcome (Unit {0})
  prepared (raise e) = guarded false [] ([], raise e)
  prepared (ok (system, failures, cluster, clients)) =
      started system failures cluster clients (p.start_nodes system cluster)

  -- The program without the flag `-d`.
  unfoldable pub run_benchmark : Log × Outcome (Unit {0})
  run_benchmark = prepared prepare

  abbrev pub debugged : Outcome (Tables F) → Log × Outcome (Unit {0})
  debugged (raise e) = ([], raise e)
  debugged (ok t) = call_all (values t.killers) (shell ∷ [])

  -- The program with the flag `-d`: a shell on the network, and no cleanup after an exception.
  unfoldable pub debug : Log × Outcome (Unit {0})
  debug = debugged (do
    system ← p.get_system
    topo ← p.get_topology_provider
    failures ← p.get_failure_provider
    ops ← p.get_ops_provider
    (cluster, clients) ← p.setup topo
    p.start_nodes system cluster)
