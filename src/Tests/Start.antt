-- ===== src/Tests/Start.antt =====
-- The systems started on a cluster of two hosts, with floating-point numbers as thousandths.
use reckon_k8s.Prelude.{
  ℕ, ◌*◌, ◌/◌, ◌≡◌, refl, Bool, true, List, [], ◌∷◌, map, none, take, leb, length, if◌then◌else◌,
}
use reckon_k8s.Outcome.{Outcome, ok, raise, ◌>>=◌, index_error}
use reckon_k8s.Text.{Text, codes, str}
use reckon_k8s.Cluster.{Node, NodeType}
use reckon_k8s.Failures.Stop.{Call, fail_leader, recover, kill_n}
use reckon_k8s.Systems.Floats.{Floats}
use reckon_k8s.Systems.Screen.{Settings, start_screen, kill_screen}
use reckon_k8s.Systems.Screen.Words.{started, killed, start_screen_lem}
use reckon_k8s.Systems.Start.{Started}
use reckon_k8s.Systems.Start.Tables.{restarts_of, stops_of}
use reckon_k8s.Systems.Ocons.Commands.{Kind}
use reckon_k8s.Systems.Family.{Family, plan, start_nodes}
use reckon_k8s.Systems.Family.Nodes.{AreNamed, start_nodes_lem, plans, sessions, first_sessions}
use reckon_k8s.Systems.Family.Faults.{
  system_of, perform_all, kill_n-start_nodes, recover-start_nodes,
}

abbrev pub h1 : Node
h1 = record { id = 1; name = codes "h1"; ip = codes "10.0.0.1"; node_type = NodeType.worker }

abbrev pub h2 : Node
h2 = record { id = 2; name = codes "h2"; ip = codes "10.0.0.2"; node_type = NodeType.worker }

abbrev thousandths : Floats ℕ
thousandths = record {
  of_ratio = λ a b. a * 1000 / b;
  times = λ a b. a * b / 1000;
  divided_by = λ a b. a * 1000 / b;
  truncated = λ a. a / 1000;
  shown = λ a. str a;
}

abbrev pub settings : Settings ℕ
settings = record {
  log_location = codes "/results/logs";
  creation_time = codes "12:00:00";
  data_dir = codes "/data";
  failure_timeout = 1000;
  delay_interval = 100;
}

abbrev always : Text → Bool
always c = true

all_succeed : (c : Text) → always c ≡ true
all_succeed c = refl

abbrev keeper : Family
keeper = Family.zookeeper 0 true

abbrev raft : Family
raft = Family.ocons Kind.raft

pair-AreNamed : AreNamed (h1 ∷ h2 ∷ [])
pair-AreNamed = (((refl, (refl, tt)), ((refl, (refl, tt)), tt)), (refl, (refl, tt)))

start_screen_lem_example :
    (start_screen h1 (codes "echo \"a b\" \\n") ≡ ok (started h1 (codes "echo \"a b\" \\n")))
    × (kill_screen h1 ≡ ok (killed h1))
start_screen_lem_example = start_screen_lem h1 (codes "echo \"a b\" \\n") pair-AreNamed.0.0

start_nodes_lem_example :
    (s : Started) × (start_nodes thousandths always settings keeper (h1 ∷ h2 ∷ []) ≡ ok s)
    × (sessions s.acts
        ≡ first_sessions thousandths always settings all_succeed keeper
            (h1 ∷ h2 ∷ [])
            0
            (h1 ∷ h2 ∷ []))
    × (s.restarters
        ≡ restarts_of
            (plans thousandths always settings all_succeed keeper (h1 ∷ h2 ∷ []))
            0
            (h1 ∷ h2 ∷ []))
    × (s.stoppers
        ≡ stops_of
            (plans thousandths always settings all_succeed keeper (h1 ∷ h2 ∷ []))
            (h1 ∷ h2 ∷ []))
start_nodes_lem_example =
    start_nodes_lem thousandths always settings all_succeed keeper (h1 ∷ h2 ∷ []) pair-AreNamed

abbrev first_leads : List Node → List Call → Outcome Node
first_leads [] calls = raise index_error
first_leads (h ∷ hosts) calls = ok h

kill_n-start_nodes_example :
    (s : Started) × (start_nodes thousandths always settings raft (h1 ∷ h2 ∷ []) ≡ ok s)
    × (perform_all s (kill_n (system_of first_leads s) 1 0 (h1 ∷ h2 ∷ []) []).0
        ≡ ok (map killed (take 1 (h1 ∷ h2 ∷ []))))
    × ((kill_n (system_of first_leads s) 1 0 (h1 ∷ h2 ∷ []) []).1
        ≡ (if leb 1 (length (h1 ∷ h2 ∷ [])) then ok tt else raise index_error))
kill_n-start_nodes_example =
    kill_n-start_nodes thousandths always settings all_succeed raft (h1 ∷ h2 ∷ []) pair-AreNamed
      first_leads 1

recover-start_nodes_example :
    (s : Started) × (start_nodes thousandths always settings raft (h1 ∷ h2 ∷ []) ≡ ok s)
    × ((fail_leader (system_of first_leads s) (h1 ∷ h2 ∷ []) (record { calls = []; killed = none })
          >>= recover (system_of first_leads s)
          >>= λ r. perform_all s r.calls)
        ≡ ok (
            killed h1
            ∷ started h1 (plan thousandths always settings raft (h1 ∷ h2 ∷ []) 0 h1).again
            ∷ []))
recover-start_nodes_example =
    recover-start_nodes thousandths always settings all_succeed raft (h1 ∷ h2 ∷ []) pair-AreNamed
      first_leads 0 h1 refl refl
