-- ===== src/Experiments/Tester.antt =====
-- scripts/tester.py: a test of a consensus system, as a call of the program, and the list of tests of
-- `conspire_paper`. The seconds of a timeout are hundredths.
use reckon_k8s.Prelude.{
  ℕ, zero, suc, Bool, true, false, not, ◌&&◌, ◌||◌, List, [], ◌∷◌, ◌++◌, map, range_from, ltb,
  if◌then◌else◌,
}
use reckon_k8s.Outcome.{Outcome, ok, ◌>>=◌, ◌>>◌, check, or_raise, called_process_error, key_error}
use reckon_k8s.Text.{Text, codes, text_eq}
use reckon_k8s.Text.Dict.{Dict, get}
use reckon_k8s.Text.Shell.{split}
use reckon_k8s.Text.Shell.Template.{flatten}
use reckon_k8s.Experiments.Params.{
  Value, text, number, minus_one, real, flag, empty_dict, merged, check_repeat, Part, says, given,
  line, joined,
}
use reckon_k8s.Experiments.Kubetester.{
  Step, run, write_config, call, popen, terminate, option, options,
}

abbrev pub default_parameters : Dict Value
default_parameters =
    (codes "system", text (codes "etcd"))
    ∷ (codes "client", text (codes "go"))
    ∷ (codes "topo", text (codes "simple"))
    ∷ (codes "failure", text (codes "none"))
    ∷ (codes "nn", number 3)
    ∷ (codes "nc", number 1)
    ∷ (codes "delay", number 20)
    ∷ (codes "loss", number 0)
    ∷ (codes "jitter", number 0)
    ∷ (codes "ncpr", text (codes "False"))
    ∷ (codes "mtbf", number 1)
    ∷ (codes "kill_n", number 0)
    ∷ (codes "write_ratio", number 1)
    ∷ (codes "rate", number 1000)
    ∷ (codes "duration", number 60)
    ∷ (codes "tag", text (codes "tag"))
    ∷ (codes "tcpdump", flag false)
    ∷ (codes "arrival_process", text (codes "uniform"))
    ∷ (codes "repeat", minus_one)
    ∷ (codes "failure_timeout", number 1)
    ∷ (codes "delay_interval", real (codes "0.1"))
    ∷ (codes "notes", empty_dict)
    ∷ []

-- The f-strings of `cmd`.
abbrev pub lines : (log_path result_path : Text) → List (List Part)
lines log_path result_path =
    (options (codes "python -m reckon ") (codes "system") (codes " ") (codes "topo")
      ++ option (codes " ") (codes "failure"))
    ∷ (options (codes "--number-nodes ") (codes "nn") (codes " --number-clients ") (codes "nc")
        ++ option (codes " --client ") (codes "client"))
    ∷ (options (codes "--link-latency ") (codes "delay") (codes " --link-loss ") (codes "loss")
        ++ option (codes " --link-jitter ") (codes "jitter"))
    ∷ option (codes "--new_client_per_request ") (codes "ncpr")
    ∷ options (codes "--mtbf ") (codes "mtbf") (codes " --kill-n ") (codes "kill_n")
    ∷ option (codes "--write-ratio ") (codes "write_ratio")
    ∷ options (codes "--rate ") (codes "rate") (codes " --duration ") (codes "duration")
    ∷ option (codes "--arrival-process ") (codes "arrival_process")
    ∷ (says (codes "--system_logs ")
        ∷ given log_path
        ∷ says (codes " --result-location ")
        ∷ given result_path
        ∷ says (codes " --data-dir=/data")
        ∷ [])
    ∷ option (codes "--failure_timeout ") (codes "failure_timeout")
    ∷ option (codes "--delay_interval ") (codes "delay_interval")
    ∷ []

-- `call_tcp_dump`
unfoldable pub call_tcp_dump : (tcpdump_path : Text) → List Text → List Step
call_tcp_dump tcpdump_path cmd =
    popen (
      codes "tcpdump"
      ∷ codes "-i"
      ∷ codes "any"
      ∷ codes "-w"
      ∷ tcpdump_path
      ∷ codes "net"
      ∷ codes "10.0.0.0/16"
      ∷ codes "-n"
      ∷ [])
    ∷ call cmd
    ∷ terminate
    ∷ []

-- Whether a value is true, as `if` tests it.
abbrev pub is_true : Value → Bool
is_true (text []) = false
is_true (text (c ∷ s)) = true
is_true (number zero) = false
is_true (number (suc n)) = true
is_true minus_one = true
is_true (real s) = not (text_eq s (codes "0.0") || text_eq s (codes "-0.0"))
is_true (flag b) = b
is_true empty_dict = false

-- `succeeds` says which commands end with the code zero.
module _ (succeeds : Text → Bool) where
  abbrev pub run_checked : Text → Outcome Step
  run_checked command = do check (succeeds command) called_process_error; ok (run command)

  -- `run_test(folder_path, config)`, with the identifier that `uuid4` gives; the code of the call is not
  -- looked at.
  unfoldable pub run_test : (folder_path uid : Text) → Dict Value → Outcome (List Step)
  run_test folder_path uid config = do
    data_gone ← run_checked (codes "rm -rf /data/*")
    net_gone ← run_checked (codes "mn -c")
    let params = merged default_parameters config
    check_repeat params
    let result_folder = folder_path ++ (codes "/" ++ (uid ++ codes "/"))
    let log_path = result_folder ++ codes "logs"
    pieces ← line params (joined (lines log_path (result_folder ++ codes "res.json")))
    results_made ← run_checked (codes "mkdir -p " ++ result_folder)
    logs_made ← run_checked (codes "mkdir -p " ++ log_path)
    args ← split (flatten pieces)
    dumps ← or_raise (get (codes "tcpdump") params) key_error
    ok (
        data_gone
        ∷ net_gone
        ∷ run (codes "pkill client")
        ∷ results_made
        ∷ logs_made
        ∷ write_config (result_folder ++ codes "config.json") params
        ∷ (if is_true dumps
            then call_tcp_dump (result_folder ++ codes "tcpdump.pcap") args
            else call args ∷ []))

-- `system in ['ocons-paxos', 'ocons-raft']`
abbrev pub is_elected : Text → Bool
is_elected system = text_eq system (codes "ocons-paxos") || text_eq system (codes "ocons-raft")

abbrev pub low_jitter_topo : Text → Dict Value
low_jitter_topo system =
    (codes "topo", text (codes "wan"))
    ∷ (codes "nn", number (if is_elected system then 3 else 4))
    ∷ (codes "delay", number 50)
    ∷ (codes "system", text system)
    ∷ (codes "client", text (codes "ocaml"))
    ∷ []

abbrev pub high_jitter_topo : Text → Dict Value
high_jitter_topo system =
    merged (low_jitter_topo system)
      ((codes "jitter", real (codes "0.1")) ∷ (codes "loss", real (codes "0.01")) ∷ [])

-- A timeout: its hundredths and its print.
abbrev pub Timeout : Type 0
Timeout = ℕ × Text

abbrev pub steady_params : Text → Timeout → ℕ → Dict Value
steady_params system (hundredths, shown) repeat =
    (codes "system", text system)
    ∷ (codes "rate", number 10000)
    ∷ (codes "failure_timeout", real shown)
    ∷ (codes "delay_interval", real (codes "0.1"))
    ∷ (codes "repeat", number repeat)
    ∷ (codes "failure", text (codes "none"))
    ∷ (codes "duration", number 60)
    ∷ []

abbrev pub leader_params : Text → Timeout → ℕ → Dict Value
leader_params system (hundredths, shown) repeat =
    (codes "system", text system)
    ∷ (codes "rate", number 10000)
    ∷ (codes "failure_timeout", real shown)
    ∷ (codes "delay_interval", real (codes "0.1"))
    ∷ (codes "repeat", number repeat)
    ∷ (codes "failure", text (codes "leader"))
    ∷ (codes "tcpdump", flag false)
    ∷ (codes "duration", number 10)
    ∷ []

abbrev pub concat_map : {A B : Type 0} → (A → List B) → List A → List B
concat_map f [] = []
concat_map f (x ∷ xs) = f x ++ concat_map f xs

-- One of the two loops of `conspire_paper`, over the product of its lists: an action is the parameters
-- that it calls `run_test` with.
unfoldable pub paper_actions :
    (params : Text → Timeout → ℕ → Dict Value) (systems : List Text) (timeouts : List Timeout)
    → (repeats : ℕ) → List (Dict Value)
paper_actions params systems timeouts repeats =
    concat_map
      (λ system.
        concat_map
          (λ topo_gen.
            concat_map
              (λ timeout.
                if is_elected system && ltb timeout.0 6
                then []
                else map (λ repeat. merged (topo_gen system) (params system timeout repeat))
                    (range_from repeats 0))
              timeouts)
          (low_jitter_topo ∷ high_jitter_topo ∷ []))
      systems

unfoldable pub conspire_paper : List (Dict Value)
conspire_paper =
    let systems = codes "ocons-raft" ∷ codes "ocons-conspire-leader" ∷ [] in
    let fd_timeouts : List Timeout = (1, codes "0.01") ∷ (3, codes "0.03") ∷ [] in
    paper_actions steady_params systems fd_timeouts 5
    ++ paper_actions leader_params systems fd_timeouts 50
