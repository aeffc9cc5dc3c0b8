-- ===== src/Failures/Stop.antt =====
-- The faults that stop nodes: reckon/failures/leader.py, leader_only.py and kill_n.py. What the
-- functions in the dictionaries `stoppers` and `restarters` do is up to the system; here they are
-- the calls made, and the dictionaries are their keys.
pub mod Calls
use reckon_k8s.Prelude.{
  ℕ, zero, suc, Bool, true, false, ◌||◌, List, [], ◌∷◌, ◌++◌, Option, none, some, get_elem?,
}
use reckon_k8s.Outcome.{
  Outcome, ok, raise, ◌>>=◌, ◌>>◌, check, or_raise, key_error, index_error, attribute_error,
}
use reckon_k8s.Text.{Text, text_eq}
use reckon_k8s.Text.Dict.{has_key}
use reckon_k8s.Cluster.{Node}

pub data Call : Type 0 where
  stop restart : Text → Call

-- The part of the system that the faults use. The leader may depend on what has been stopped.
pub record System : Type 0 where
  pub get_leader : List Node → List Call → Outcome Node
  pub get_node_tag : Node → Text
  pub stoppers : List Text
  pub restarters : List Text

-- `Recovery.killed`, with the calls made.
pub record Recovery : Type 0 where
  pub calls : List Call
  pub killed : Option Node

module _ (system : System) where
  -- `self.stoppers[tag]()` and `self.restarters[tag]()`
  abbrev pub call_stopper : Text → List Call → Outcome (List Call)
  call_stopper tag calls = do
    check (has_key tag system.stoppers) key_error
    ok (calls ++ Call.stop tag ∷ [])

  abbrev pub call_restarter : Text → List Call → Outcome (List Call)
  call_restarter tag calls = do
    check (has_key tag system.restarters) key_error
    ok (calls ++ Call.restart tag ∷ [])

  -- `apply_fault` of `Fault` in leader.py.
  unfoldable pub fail_leader : List Node → Recovery → Outcome Recovery
  fail_leader cluster r = do
    leader ← system.get_leader cluster r.calls
    calls ← call_stopper (system.get_node_tag leader) r.calls
    ok (record { calls = calls; killed = some leader })

  -- `apply_fault` of `Recovery`. With no leader killed the tag of `None` is asked for.
  unfoldable pub recover : Recovery → Outcome Recovery
  recover r = do
    killed ← or_raise r.killed attribute_error
    calls ← call_restarter (system.get_node_tag killed) r.calls
    ok (record r { calls = calls })

  -- `apply_fault` of `Fault` in leader_only.py.
  unfoldable pub stop_leader : List Node → List Call → Outcome (List Call)
  stop_leader cluster calls = do
    leader ← system.get_leader cluster calls
    call_stopper (system.get_node_tag leader) calls

  -- One round of the loop of `kill_n`, for the host `cluster[i]`.
  abbrev pub kill_one : List Node → ℕ → List Call → Outcome (List Call)
  kill_one cluster i calls = do
    host ← or_raise (get_elem? cluster i) index_error
    call_stopper (system.get_node_tag host) calls

  -- `apply_fault` of kill_n.py, from the index `i`, with `n` rounds left: the calls that were made,
  -- and whether it ended well.
  unfoldable pub kill_n : (n i : ℕ) → List Node → List Call → List Call × Outcome (Unit {0})
  kill_n zero i cluster calls = (calls, ok tt)
  kill_n (suc n) i cluster calls = elim (kill_one cluster i calls) [
    | ok calls' ↦ kill_n n (suc i) cluster calls'
    | raise e ↦ (calls, raise e)
  ]
