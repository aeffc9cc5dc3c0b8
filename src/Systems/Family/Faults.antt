-- ===== src/Systems/Family/Faults.antt =====
-- The faults of reckon/failures/ that stop nodes, on the nodes that `start_nodes` has started.
use reckon_k8s.Prelude.{
  ℕ, zero, suc, ◌+◌, ◌≡◌, refl, ap, ◌∙◌, Bool, true, List, [], ◌∷◌, map, none, some, arith, All,
  All-imp, All-of_get_elem?, get_elem?, take, leb, length, if◌then◌else◌,
}
use reckon_k8s.Outcome.{Outcome, ok, raise, ◌>>=◌, or_raise, key_error, index_error}
use reckon_k8s.Text.{Text}
use reckon_k8s.Text.Dict.{get, keys, has_key-keys}
use reckon_k8s.Cluster.{Node}
use reckon_k8s.Failures.Stop.{Call, System, Recovery, fail_leader, recover, kill_n}
use reckon_k8s.Failures.Stop.Calls.{Tagged, recover-fail_leader, kill_n_lem, stops}
use reckon_k8s.Systems.Floats.{Floats}
use reckon_k8s.Systems.Screen.{Settings, Act, get_node_tag}
use reckon_k8s.Systems.Screen.Words.{killed}
use reckon_k8s.Systems.Screen.Words
use reckon_k8s.Systems.Start.{Plan, Started}
use reckon_k8s.Systems.Start.Tables.{stops_of, get-tables}
use reckon_k8s.Systems.Family.{Family, plan, start_nodes}
use reckon_k8s.Systems.Family.Nodes.{AreNamed, start_nodes_lem, plans}

-- The system that the faults see: the keys of its dictionaries, and a leader that it reports.
abbrev pub system_of : (List Node → List Call → Outcome Node) → Started → System
system_of get_leader s = record {
  get_leader = get_leader;
  get_node_tag = get_node_tag;
  stoppers = keys s.stoppers;
  restarters = keys s.restarters;
}

-- What a call of a function in a dictionary does.
abbrev pub perform : Started → Call → Outcome Act
perform s (Call.stop tag) = or_raise (get tag s.stoppers) key_error >>= λ act. act
perform s (Call.restart tag) = or_raise (get tag s.restarters) key_error >>= λ act. act

abbrev pub perform_all : Started → List Call → Outcome (List Act)
perform_all s [] = ok []
perform_all s (call ∷ calls) = do act ← perform s call; acts ← perform_all s calls; ok (act ∷ acts)

-- Each host of a list has its stopper.
abbrev HasStops : Started → List Node → Type 0
HasStops s hosts = All (λ h. get (get_node_tag h) s.stoppers ≡ some (ok (killed h))) hosts

perform_all-stops :
    (get_leader : List Node → List Call → Outcome Node) (s : Started) (n : ℕ) (hosts : List Node)
    → HasStops s hosts
    → perform_all s (stops (system_of get_leader s) (take n hosts)) ≡ ok (map killed (take n hosts))
perform_all-stops get_leader s zero hosts h = refl
perform_all-stops get_leader s (suc n) [] h = refl
perform_all-stops get_leader s (suc n) (x ∷ hosts) h =
    rw (h.0, perform_all-stops get_leader s n hosts h.1) refl

module _ {F : Type 0} (floats : Floats F) (succeeds : Text → Bool) (self : Settings F)
    (all_succeed : (c : Text) → succeeds c ≡ true) (family : Family) (cluster : List Node)
    (named : AreNamed cluster) (get_leader : List Node → List Call → Outcome Node) where
  abbrev table : ℕ → Node → Plan
  table = plans floats succeeds self all_succeed family cluster

  HasStops-cluster : (s : Started) → s.stoppers ≡ stops_of table cluster → HasStops s cluster
  HasStops-cluster s e =
      All-of_get_elem? _ cluster λ k h at. rw e ((get-tables table 0 k cluster h at named.1).1)

  -- A cluster with plain and distinct names is started by any system, and then `kill_n` of the faults
  -- quits the sessions of its first `n` hosts, in order; when there are fewer, it quits all of
  -- them and fails with an `IndexError`.
  pub kill_n-start_nodes :
      (n : ℕ)
      → (s : Started) × (start_nodes floats succeeds self family cluster ≡ ok s)
        × (perform_all s (kill_n (system_of get_leader s) n 0 cluster []).0
            ≡ ok (map killed (take n cluster)))
        × ((kill_n (system_of get_leader s) n 0 cluster []).1
            ≡ (if leb n (length cluster) then ok tt else raise index_error))
  kill_n-start_nodes n =
      let (s, e, started, r, t) =
        start_nodes_lem floats succeeds self all_succeed family cluster named in
      let has = HasStops-cluster s t in
      let tagged : Tagged (system_of get_leader s) (keys s.stoppers) cluster =
        All-imp _ _ cluster (λ h found. has_key-keys (get_node_tag h) s.stoppers found) has in
      let run = kill_n_lem (system_of get_leader s) n cluster [] tagged in
      (
        s,
        e,
        ap (λ x. perform_all s x.0) run ∙ perform_all-stops get_leader s n cluster has,
        ap (λ x. x.1) run,
      )

  -- When the leader that the started system reports is host `k` of its cluster, the fault of a leader
  -- and the recovery after it quit the session of that host and start it again with its command.
  pub recover-start_nodes :
      (k : ℕ) (leader : Node)
      → get_elem? cluster k ≡ some leader
      → get_leader cluster [] ≡ ok leader
      → (s : Started) × (start_nodes floats succeeds self family cluster ≡ ok s)
        × ((fail_leader (system_of get_leader s) cluster (record { calls = []; killed = none })
              >>= recover (system_of get_leader s)
              >>= λ r. perform_all s r.calls)
            ≡ ok (
                killed leader
                ∷ Words.started leader (plan floats succeeds self family cluster k leader).again
                ∷ []))
  recover-start_nodes k leader at reports =
      let (s, e, started, r, t) =
        start_nodes_lem floats succeeds self all_succeed family cluster named in
      let tables = get-tables table 0 k cluster leader at named.1 in
      let stop_at : get (get_node_tag leader) s.stoppers ≡ some (ok (killed leader)) =
        rw t (tables.1) in
      let first : 0 + k ≡ k = omega arith in
      let again = Words.started leader (plan floats succeeds self family cluster k leader).again in
      let restart_at : get (get_node_tag leader) s.restarters ≡ some (ok again) =
        rw r (rw first at tables.0) in
      let begin : Recovery = record { calls = []; killed = none } in
      let done =
        recover-fail_leader (system_of get_leader s) cluster begin leader reports
          (has_key-keys (get_node_tag leader) s.stoppers stop_at)
          (has_key-keys (get_node_tag leader) s.restarters restart_at) in
      (s, e, ap (λ m. m >>= λ r. perform_all s r.calls) done ∙ rw (stop_at, restart_at) refl)
