-- ===== src/Failures/Stop/Calls.antt =====
-- Which nodes are stopped and restarted.
use reckon_k8s.Prelude.{
  ℕ, zero, suc, ◌≡◌, refl, true, false, List, [], ◌∷◌, ◌++◌, none, some, get_elem?, take,
  get_elem?-append_length, leb, if◌then◌else◌, length-append, map, length, append_assoc, append-nil,
  All, arith,
}
use reckon_k8s.Outcome.{Outcome, ok, raise, ◌>>=◌, index_error}
use reckon_k8s.Text.{Text}
use reckon_k8s.Text.Dict.{has_key}
use reckon_k8s.Cluster.{Node}
use reckon_k8s.Failures.Stop.{Call, System, Recovery, fail_leader, recover, kill_n}

module _ (system : System) where
  -- Every host has its functions in a dictionary.
  abbrev pub Tagged : List Text → List Node → Type 0
  Tagged keys hosts = All (λ h. has_key (system.get_node_tag h) keys ≡ true) hosts

  -- With functions under the tag of the leader, it is stopped, and the recovery restarts that same
  -- node, whoever leads by then.
  pub recover-fail_leader :
      (cluster : List Node) (r : Recovery) (leader : Node)
      → system.get_leader cluster r.calls ≡ ok leader
      → has_key (system.get_node_tag leader) system.stoppers ≡ true
      → has_key (system.get_node_tag leader) system.restarters ≡ true
      → (fail_leader system cluster r >>= recover system)
        ≡ ok (record {
          calls =
              r.calls
              ++ Call.stop (system.get_node_tag leader)
                ∷ Call.restart (system.get_node_tag leader)
                ∷ [];
          killed = some leader;
        })
  unfolding fail_leader recover
  recover-fail_leader cluster r leader e s t = rw (e, s, t, append_assoc) refl

  abbrev pub stops : List Node → List Call
  stops hosts = map (λ h. Call.stop (system.get_node_tag h)) hosts

  abbrev pub enough : ℕ → List Node → Outcome (Unit {0})
  enough n hosts = if leb n (length hosts) then ok tt else raise index_error

  kill_from :
      (n : ℕ) (front rest : List Node) (calls : List Call)
      → Tagged system.stoppers rest
      → kill_n system n (length front) (front ++ rest) calls
        ≡ (calls ++ stops (take n rest), enough n rest)
  unfolding kill_n
  kill_from zero front rest calls h =
      let all : leb 0 (length rest) ≡ true = ground arith in rw (append-nil, all) refl
  kill_from (suc n) front [] calls h =
      let none_left : get_elem? (front ++ []) (length front) ≡ none =
        get_elem?-append_length front [] in
      let short : leb (suc n) 0 ≡ false = ground arith in
      rw (none_left, append-nil, short, kill_n) refl
  kill_from (suc n) front (x ∷ rest) calls h =
      let found : get_elem? (front ++ x ∷ rest) (length front) ≡ some x =
        get_elem?-append_length front (x ∷ rest) in
      let next : suc (length front) ≡ length (front ++ x ∷ []) =
        omega (arith, length-append front (x ∷ [])) in
      let same : enough (suc n) (x ∷ rest) ≡ enough n rest = ground arith in
      let again =
        kill_from n (front ++ x ∷ []) rest (calls ++ Call.stop (system.get_node_tag x) ∷ []) h.1 in
      rw (found, h.0, next, same, kill_n)
        (rw (append_assoc front (x ∷ []) rest, append_assoc calls) at again)

  -- With functions under the tags of all hosts, the first `n` of the cluster are stopped, in order, each by the function under its tag;
  -- when there are fewer, all of them are stopped and then the fault fails with an `IndexError`.
  pub kill_n_lem :
      (n : ℕ) (cluster : List Node) (calls : List Call)
      → Tagged system.stoppers cluster
      → kill_n system n 0 cluster calls ≡ (
        calls ++ stops (take n cluster),
        if leb n (length cluster) then ok tt else raise index_error,
      )
  kill_n_lem n cluster calls h = kill_from n [] cluster calls h
