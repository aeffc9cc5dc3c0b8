-- ===== src/Experiments/Kubetester.antt =====
-- `run_test` of scripts/kubetester.py: a test of Kubernetes, as a call of the program.
pub mod Command
use reckon_k8s.Prelude.{ℕ, Bool, true, false, List, [], ◌∷◌, ◌++◌, ◌==◌}
use reckon_k8s.Outcome.{Outcome, ok, ◌>>=◌, ◌>>◌, check, called_process_error, system_exit}
use reckon_k8s.Text.{Text, codes}
use reckon_k8s.Text.Dict.{Dict}
use reckon_k8s.Text.Shell.{split}
use reckon_k8s.Text.Shell.Template.{flatten}
use reckon_k8s.Experiments.Params.{
  Value, text, number, minus_one, real, flag, empty_dict, merged, check_repeat, Part, says, param,
  param_in_quotes, given, line, joined,
}

abbrev pub default_parameters : Dict Value
default_parameters =
    (codes "system", text (codes "kubernetes"))
    ∷ (codes "client", text (codes "go"))
    ∷ (codes "topo", text (codes "simple_k8s"))
    ∷ (codes "failure", text (codes "none"))
    ∷ (codes "nn", number 3)
    ∷ (codes "nc", number 1)
    ∷ (codes "delay", number 20)
    ∷ (codes "loss", number 0)
    ∷ (codes "jitter", number 0)
    ∷ (codes "ncpr", text (codes "False"))
    ∷ (codes "mtbf", number 1)
    ∷ (codes "kill_n", number 0)
    ∷ (codes "write_ratio", number 0)
    ∷ (codes "read_ratio", number 1)
    ∷ (codes "create_ratio", number 0)
    ∷ (codes "update_ratio", number 0)
    ∷ (codes "delete_ratio", number 0)
    ∷ (codes "rate", number 100)
    ∷ (codes "duration", number 10)
    ∷ (codes "tag", text (codes "tag"))
    ∷ (codes "tcpdump", flag false)
    ∷ (codes "arrival_process", text (codes "uniform"))
    ∷ (codes "key_distrib", text (codes "uniform"))
    ∷ (codes "repeat", minus_one)
    ∷ (codes "failure_timeout", number 1)
    ∷ (codes "delay_interval", real (codes "0.1"))
    ∷ (codes "net_spec", text (codes "[]"))
    ∷ (codes "notes", empty_dict)
    ∷ (codes "variant", number 0)
    ∷ (codes "light_read", flag false)
    ∷ []

-- An option with one parameter.
abbrev pub option : Text → Text → List Part
option name key = says name ∷ param key ∷ []

abbrev pub options : Text → Text → Text → Text → List Part
options name key name' key' = says name ∷ param key ∷ says name' ∷ param key' ∷ []

-- The f-strings of `cmd`.
abbrev pub lines : (log_path result_path : Text) → List (List Part)
lines log_path result_path =
    (options (codes "python -m reckon ") (codes "system") (codes " ") (codes "topo")
      ++ option (codes " ") (codes "failure"))
    ∷ (options (codes "--number-nodes ") (codes "nn") (codes " --number-clients ") (codes "nc")
        ++ option (codes " --client ") (codes "client"))
    ∷ (options (codes "--link-latency ") (codes "delay") (codes " --link-loss ") (codes "loss")
        ++ option (codes " --link-jitter ") (codes "jitter"))
    ∷ option (codes "--new_client_per_request ") (codes "ncpr")
    ∷ options (codes "--mtbf ") (codes "mtbf") (codes " --kill-n ") (codes "kill_n")
    ∷ option (codes "--write-ratio ") (codes "write_ratio")
    ∷ option (codes "--read-ratio ") (codes "read_ratio")
    ∷ option (codes "--create-ratio ") (codes "create_ratio")
    ∷ option (codes "--update-ratio ") (codes "update_ratio")
    ∷ option (codes "--delete-ratio ") (codes "delete_ratio")
    ∷ options (codes "--rate ") (codes "rate") (codes " --duration ") (codes "duration")
    ∷ option (codes "--arrival-process ") (codes "arrival_process")
    ∷ option (codes "--key-distribution ") (codes "key_distrib")
    ∷ (says (codes "--system_logs ")
        ∷ given log_path
        ∷ says (codes " --result-location ")
        ∷ given result_path
        ∷ says (codes " --data-dir=/data")
        ∷ [])
    ∷ option (codes "--failure_timeout ") (codes "failure_timeout")
    ∷ option (codes "--delay_interval ") (codes "delay_interval")
    ∷ (says (codes "--net-spec ") ∷ param_in_quotes (codes "net_spec") ∷ [])
    ∷ option (codes "--sys_variant ") (codes "variant")
    ∷ option (codes "--light_reads ") (codes "light_read")
    ∷ []

-- `run(command, shell=True)`, the file of the parameters, `call(args)`, and the process of tcpdump.
pub data Step : Type 0 where
  run : Text → Step
  write_config : Text → Dict Value → Step
  call popen : List Text → Step
  terminate : Step

-- `succeeds` says which commands end with the code zero, `code` with which code a call ends.
module _ (succeeds : Text → Bool) (code : List Text → ℕ) where
  abbrev pub run_checked : Text → Outcome Step
  run_checked command = do check (succeeds command) called_process_error; ok (run command)

  -- `run_test(folder_path, config)`, with the identifier that `uuid4` gives.
  unfoldable pub run_test : (folder_path uid : Text) → Dict Value → Outcome (List Step)
  run_test folder_path uid config = do
    data_gone ← run_checked (codes "rm -rf /data/*")
    logs_gone ← run_checked (codes "rm -rf /results/logs/*.log.*")
    net_gone ← run_checked (codes "mn -c --switch lxbr,stp=1")
    let params = merged default_parameters config
    check_repeat params
    let result_folder = folder_path ++ (codes "/" ++ (uid ++ codes "/"))
    let log_path = result_folder ++ codes "logs"
    pieces ← line params (joined (lines log_path result_folder))
    results_made ← run_checked (codes "mkdir -p " ++ result_folder)
    logs_made ← run_checked (codes "mkdir -p " ++ log_path)
    args ← split (flatten pieces)
    check (code args == 0) system_exit
    ok (
        data_gone
        ∷ logs_gone
        ∷ net_gone
        ∷ results_made
        ∷ logs_made
        ∷ write_config (result_folder ++ codes "config.json") params
        ∷ call args
        ∷ [])
