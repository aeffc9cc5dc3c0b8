-- ===== src/Systems/Family/Nodes.antt =====
-- The nodes that `start_nodes` starts, for every system but Kubernetes.
use reckon_k8s.Prelude.{
  ℕ, suc, ◌+◌, ◌≡◌, refl, ap, ◌∙◌, Bool, true, false, List, [], ◌∷◌, ◌++◌, All,
}
use reckon_k8s.Outcome.{ok}
use reckon_k8s.Text.{Text, codes, str}
use reckon_k8s.Text.Dict.{Distinct, has_key}
use reckon_k8s.Text.Shell.{IsPlain}
use reckon_k8s.Cluster.{Node}
use reckon_k8s.Systems.Floats.{Floats}
use reckon_k8s.Systems.Screen.{Settings, Act, popen, run, write_file, get_node_tag}
use reckon_k8s.Systems.Screen.Words.{started}
use reckon_k8s.Systems.Start.{Plan, Started, nothing_started}
use reckon_k8s.Systems.Start.Tables.{tags, IsReady, all_acts, restarts_of, stops_of, start_each_lem}
use reckon_k8s.Systems.Etcd
use reckon_k8s.Systems.Zookeeper
use reckon_k8s.Systems.Ocons.Commands as Ocons
use reckon_k8s.Systems.Family.{Family, plan, start_nodes}

-- The sessions that are started among what is done.
abbrev pub sessions : List Act → List Act
sessions [] = []
sessions (popen h args ∷ acts) = popen h args ∷ sessions acts
sessions (a ∷ acts) = sessions acts

sessions-append : (xs ys : List Act) → sessions (xs ++ ys) ≡ sessions xs ++ sessions ys
sessions-append [] ys = refl
sessions-append (Act.popen h args ∷ xs) ys = ap (λ l. popen h args ∷ l) (sessions-append xs ys)
sessions-append (Act.cmd h args ∷ xs) ys = sessions-append xs ys
sessions-append (Act.client h c ∷ xs) ys = sessions-append xs ys
sessions-append (Act.run c ∷ xs) ys = sessions-append xs ys
sessions-append (Act.write_file p c ∷ xs) ys = sessions-append xs ys

-- The names that mininet gives to hosts: plain, and no two the same.
abbrev pub AreNamed : List Node → Type 0
AreNamed cluster = All (λ h. IsPlain h.name) cluster × Distinct (tags cluster)

module _ {F : Type 0} (floats : Floats F) (succeeds : Text → Bool) (self : Settings F)
    (all_succeed : (c : Text) → succeeds c ≡ true) where
  prepare-plan :
      (family : Family) (cluster : List Node) (i : ℕ) (h : Node)
      → (acts : List Act) × ((plan floats succeeds self family cluster i h).prepare ≡ ok acts)
        × (sessions acts ≡ [])
  unfolding plan Etcd.plan Zookeeper.plan Zookeeper.prepare Ocons.plan
  prepare-plan (Family.etcd path go) cluster i h = ([], refl, refl)
  prepare-plan (Family.zookeeper alg ncpr) cluster i h =
      let dir = Zookeeper.node_dir alg succeeds self h in
      let cfg_dir = dir ++ codes "/config" in
      let zoo = Zookeeper.config alg dir cluster in
      let log4j = Zookeeper.log4j_config (Zookeeper.logdir alg succeeds self h) in
      let dat = codes "mkdir -p " ++ (dir ++ codes "/data") in
      let id = codes "echo " ++ (str (i + 1) ++ (codes " > " ++ (dir ++ codes "/data/myid"))) in
      let cfg = codes "mkdir -p " ++ cfg_dir in
      let acts : List Act =
        run dat
        ∷ run id
        ∷ run cfg
        ∷ write_file (cfg_dir ++ codes "/zoo.cfg") zoo
        ∷ write_file (cfg_dir ++ codes "/log4j.properties") log4j
        ∷ [] in
      (acts, rw (all_succeed dat, all_succeed id, all_succeed cfg) refl, refl)
  prepare-plan (Family.ocons kind) cluster i h = ([], refl, refl)

  module _ (family : Family) (cluster : List Node) where
    abbrev pub plans : ℕ → Node → Plan
    plans = plan floats succeeds self family cluster

    -- The commands that the hosts are started with.
    abbrev pub first_sessions : ℕ → List Node → List Act
    first_sessions i [] = []
    first_sessions i (h ∷ hosts) = started h (plans i h).first ∷ first_sessions (suc i) hosts

    are_ready : (i : ℕ) (hosts : List Node) → IsReady plans i hosts
    are_ready i [] = tt
    are_ready i (h ∷ hosts) =
        let (acts, e, s) = prepare-plan family cluster i h in ((acts, e), are_ready (suc i) hosts)

    sessions-all_acts :
        (i : ℕ) (hosts : List Node)
        → sessions (all_acts plans i hosts (are_ready i hosts)) ≡ first_sessions i hosts
    unfolding are_ready
    sessions-all_acts i [] = refl
    sessions-all_acts i (h ∷ hosts) =
        let p = prepare-plan family cluster i h in
        sessions-append (p.0 ++ started h (plans i h).first ∷ [])
          (all_acts plans (suc i) hosts (are_ready (suc i) hosts))
        ∙ rw
            (
              sessions-append p.0 (started h (plans i h).first ∷ []),
              p.2,
              sessions-all_acts (suc i) hosts,
            )
            refl

    -- What `start_nodes` returns.
    returned : Started
    unfolding are_ready
    returned = record {
      acts = all_acts plans 0 cluster (are_ready 0 cluster);
      restarters = restarts_of plans 0 cluster;
      stoppers = stops_of plans cluster;
    }

    none_in : (hosts : List Node) → All (λ h. has_key (get_node_tag h) [] ≡ false) hosts
    none_in [] = tt
    none_in (h ∷ hosts) = (refl, none_in hosts)

    start_nodes-returned :
        AreNamed cluster → start_nodes floats succeeds self family cluster ≡ ok returned
    unfolding start_nodes returned
    start_nodes-returned named =
        start_each_lem plans 0 cluster nothing_started (are_ready 0 cluster) named.0 named.1
          (none_in cluster) (none_in cluster)

    -- For hosts with plain and distinct names, where the commands that prepare them succeed,
    -- `start_nodes` of each system returns. It has started one session for each host, in order, with the
    -- command of that host; under the tag of each host, and no other, there is a restarter that starts
    -- its session again and a stopper that quits it.
    pub start_nodes_lem :
        AreNamed cluster
        → (s : Started) × (start_nodes floats succeeds self family cluster ≡ ok s)
          × (sessions s.acts ≡ first_sessions 0 cluster)
          × (s.restarters ≡ restarts_of plans 0 cluster)
          × (s.stoppers ≡ stops_of plans cluster)
    unfolding returned
    start_nodes_lem named =
        (returned, start_nodes-returned named, sessions-all_acts 0 cluster, refl, refl)
