-- ===== src/Experiments/Repro.antt =====
-- The functions of scripts/kubetester.py that repeat earlier runs: the runs that are complete, the tests
-- that are made of a folder, and the command that repeats a run. What is found on disk is a parameter.
pub mod Attempts
pub mod Skips
use reckon_k8s.Prelude.{
  ℕ, Bool, true, false, ◌&&◌, ◌||◌, not, List, [], ◌∷◌, ◌++◌, Option, none, some, ◌==◌,
  if◌then◌else◌,
}
use reckon_k8s.Outcome.{
  Outcome, ok, raise, ◌>>=◌, ◌>>◌, check, or_raise, called_process_error, key_error, system_exit,
}
use reckon_k8s.Text.{Text, codes}
use reckon_k8s.Text.Dict.{Dict, get}
use reckon_k8s.Text.Search.{occurs}
use reckon_k8s.Text.Shell.Template.{flatten}
use reckon_k8s.Topology.Setup.{LinkSpec}
use reckon_k8s.Experiments.Params.{Value, text, shown, Part, says, given, line, joined}
use reckon_k8s.Experiments.HaTopo.{ha_topo}
use reckon_k8s.Experiments.Actions.{or_zero}
use reckon_k8s.Experiments.Kubetester.{Step, run, option, options}

-- A directory of /reckon/partial: whether it is a directory with the name of a run, the seed in its
-- configuration, its subdirectories with whether they have a tcpdump.pcap, and its two files of results.
pub record Partial : Type 0 where
  pub path : Text
  pub is_run : Bool
  pub key_gen_seed : Outcome ℕ
  pub subdirs : List (Text × Bool)
  pub has_ops : Bool
  pub has_resps : Bool

-- `all_tcpdump_exist`, after the loop.
unfoldable pub all_tcpdump_exist : List (Text × Bool) → Bool
all_tcpdump_exist [] = true
all_tcpdump_exist ((subdir, has_dump) ∷ subdirs) =
    let rest = all_tcpdump_exist subdirs in
    if occurs (codes "node") subdir && not has_dump then false else rest

-- The seed of a run that is complete.
unfoldable pub seed_of : Partial → Option ℕ
seed_of p = elim p.key_gen_seed [
  | raise e ↦ none
  | ok seed ↦ if p.has_ops && (p.has_resps && all_tcpdump_exist p.subdirs) then some seed else none
]

-- What a directory adds: nothing if it is no run, and else its seed, or its path to what is removed.
abbrev pub note : (is_run : Bool) (path : Text) → Option ℕ → List ℕ × List Text → List ℕ × List Text
note false path o (seeds, removed) = (seeds, removed)
note true path none (seeds, removed) = (seeds, path ∷ removed)
note true path (some seed) (seeds, removed) = (seed ∷ seeds, removed)

-- `load_partial_completed_tests`: the seeds that it adds and the directories that it removes.
unfoldable pub load_partial_completed_tests : List Partial → List ℕ × List Text
load_partial_completed_tests [] = ([], [])
load_partial_completed_tests (p ∷ ps) =
    note p.is_run p.path (seed_of p) (load_partial_completed_tests ps)

-- `completed_test_seeds.index(seed)`, whose `ValueError` is caught.
unfoldable pub has_seed : ℕ → List ℕ → Bool
has_seed seed [] = false
has_seed seed (s ∷ seeds) = (seed == s) || has_seed seed seeds

-- A configuration that is read back: its attributes, as the f-strings show them.
pub record Config : Type 0 where
  pub key_gen_seed : ℕ
  pub attributes : Dict Value

-- The f-strings that the two commands share, from the third line on.
abbrev pub common_lines : (log_path result_path net_spec : Text) → List (List Part)
common_lines log_path result_path net_spec =
    option (codes "--new_client_per_request ") (codes "new_client_per_request")
    ∷ option (codes "--write-ratio ") (codes "write_ratio")
    ∷ option (codes "--read-ratio ") (codes "read_ratio")
    ∷ option (codes "--create-ratio ") (codes "create_ratio")
    ∷ option (codes "--update-ratio ") (codes "update_ratio")
    ∷ option (codes "--delete-ratio ") (codes "delete_ratio")
    ∷ options (codes "--rate ") (codes "rate") (codes " --duration ") (codes "duration")
    ∷ option (codes "--arrival-process ") (codes "arrival_process")
    ∷ (says (codes "--system_logs ")
        ∷ given log_path
        ∷ says (codes " --result-location ")
        ∷ given result_path
        ∷ says (codes " --data-dir=/data")
        ∷ [])
    ∷ option (codes "--failure_timeout ") (codes "failure_timeout")
    ∷ option (codes "--delay_interval ") (codes "delay_interval")
    ∷ option (codes "--key-gen-seed ") (codes "key_gen_seed")
    ∷ option (codes "--arrival-seed ") (codes "arrival_seed")
    ∷ option (codes "--payload-size ") (codes "payload_size")
    ∷ option (codes "--key-distribution ") (codes "key_distribution")
    ∷ option (codes "--max-key ") (codes "max_key")
    ∷ (says (codes "--net-spec '") ∷ given net_spec ∷ says (codes "'") ∷ [])
    ∷ []

abbrev pub edge_lines : (topo_type log_path result_path net_spec : Text) → List (List Part)
edge_lines topo_type log_path result_path net_spec =
    (says (codes "python -m reckon ")
      ∷ Part.param (codes "system_type")
      ∷ says (codes " ")
      ∷ given topo_type
      ∷ option (codes " ") (codes "failure_type"))
    ∷ (options (codes "--number-nodes ") (codes "number_nodes") (codes " --number-clients ")
          (codes "number_clients")
        ++ says (codes " --client go") ∷ [])
    ∷ (options (codes "--link-latency ") (codes "link_latency") (codes " --link-loss ")
          (codes "link_loss")
        ++ option (codes " --link-jitter ") (codes "link_jitter"))
    ∷ common_lines log_path result_path net_spec

abbrev pub pi4_lines : (log_path result_path net_spec : Text) → List (List Part)
pi4_lines log_path result_path net_spec =
    (says (codes "python -m reckon kubernetes simple_k8s none") ∷ [])
    ∷ (says (codes "--number-nodes 3 --number-clients 1 --client go") ∷ [])
    ∷ (says (codes "--link-latency 2 --link-loss 0 --link-jitter 0") ∷ [])
    ∷ common_lines log_path result_path net_spec

-- An exception in the `try` block ends the script.
abbrev pub or_exit : {A : Type 0} → Outcome A → Outcome A
or_exit (ok a) = ok a
or_exit (raise e) = raise system_exit

-- `nodes[link["node"]]`
abbrev pub node_name : Text → Outcome Text
node_name ip =
    or_raise
      (get ip (
        (codes "128.232.60.138", codes "cp")
        ∷ (codes "128.232.60.140", codes "wn")
        ∷ (codes "128.232.60.146", codes "wn2")
        ∷ (codes "128.232.60.145", codes "mc1")
        ∷ []))
      key_error

-- A link of the JSON of a configuration: the node, the delay, the loss and the jitter.
pub record LinkJson : Type 0 where
  pub node : Text
  pub delay : ℕ
  pub loss : ℕ
  pub jitter : ℕ

unfoldable pub pi4_specs : List LinkJson → Outcome (List LinkSpec)
pi4_specs [] = ok []
pi4_specs (l ∷ links) = do
  name ← node_name l.node
  rest ← pi4_specs links
  ok (
      record {
        n_from = name;
        n_to = codes "s1";
        latency_ms = some l.delay;
        loss_perc = some l.loss;
        jitter_ms = some l.jitter;
      }
      ∷ rest)

abbrev pub removed_logs : Text
removed_logs = codes "rm -rf /results/logs/*.log.*"

abbrev pub folder : (folder_path uid : Text) → Text
folder folder_path uid = folder_path ++ (codes "/" ++ (uid ++ codes "/"))

-- `succeeds` says which commands end with the code zero, `dumps` is the JSON of specifications.
module _ (succeeds : Text → Bool) (dumps : List LinkSpec → Text) where
  abbrev pub run_checked : Text → Outcome Step
  run_checked command = do check (succeeds command) called_process_error; ok (run command)

  -- The end of the `try` block, with the lines of the command.
  abbrev pub repeat_run :
      Config → (seeds : List ℕ) (result_folder : Text) → List (List Part) → Outcome (List Step)
  repeat_run config seeds result_folder lines =
      if has_seed config.key_gen_seed seeds then ok [] else (do
        pieces ← line config.attributes (joined lines)
        results_made ← run_checked (codes "mkdir -p " ++ result_folder)
        logs_made ← run_checked (codes "mkdir -p " ++ (result_folder ++ codes "logs"))
        test_run ← run_checked (flatten pieces)
        ok (results_made ∷ logs_made ∷ test_run ∷ []))

  -- `run_edge_test_from_config`, with what `Config.parse_file` returns.
  unfoldable pub run_edge_test_from_config :
      (folder_path uid : Text)
      → Outcome Config
      → (round : ℕ) (loss_round : Option ℕ) (loss_en : Bool) → (seeds : List ℕ)
      → Outcome (List Step)
  run_edge_test_from_config folder_path uid inconfig round loss_round loss_en seeds = do
    logs_gone ← run_checked removed_logs
    let result = folder folder_path uid
    steps ← or_exit (do
      config ← inconfig
      new_topo ← ha_topo dumps round loss_en (or_zero loss_round) 0
      net_spec ← or_raise (get (codes "net_spec") new_topo) key_error
      topo_type ← or_raise (get (codes "topo") new_topo) key_error
      repeat_run config seeds result
          (edge_lines (shown topo_type) (result ++ codes "logs") result (shown net_spec)))
    ok (logs_gone ∷ steps)

  -- `run_pi4_test_from_config`, with what is read of the two files.
  unfoldable pub run_pi4_test_from_config :
      (folder_path uid : Text)
      → Outcome Config
      → Outcome (List LinkJson)
      → (seeds : List ℕ) → Outcome (List Step)
  run_pi4_test_from_config folder_path uid inconfig links seeds = do
    logs_gone ← run_checked removed_logs
    let result = folder folder_path uid
    steps ← or_exit (do
      config ← inconfig
      found ← links
      net_spec ← pi4_specs found
      repeat_run config seeds result (pi4_lines (result ++ codes "logs") result (dumps net_spec)))
    ok (logs_gone ∷ steps)

-- An entry of a folder that is to be repeated.
pub record Listed : Type 0 where
  pub name : Text
  pub is_dir : Bool
  pub is_uuid : Bool
  pub files : List Text

abbrev pub has_json : List Text → Bool
has_json [] = false
has_json (f ∷ files) = occurs (codes ".json") f || has_json files

-- What an entry adds to the actions: the two paths that `run_*_test_from_config` is called with.
abbrev pub action_of : (rootdir : Text) → Listed → List (Text × Text)
action_of rootdir entry =
    let path = rootdir ++ (codes "/" ++ entry.name) in
    if entry.is_dir && entry.is_uuid
    then (if has_json entry.files
        then (path ++ codes "/config_full.json", path ++ codes "/config.json") ∷ []
        else [])
    else if occurs (codes ".json") path
    then (path, []) ∷ []
    else []

-- `kubetest_repro_edge` and `kubetest_repro_pi4`, for a folder whose path does not end with a slash.
unfoldable pub kubetest_repro : (rootdir : Text) → List Listed → List (Text × Text)
kubetest_repro rootdir [] = []
kubetest_repro rootdir (entry ∷ entries) =
    let rest = kubetest_repro rootdir entries in action_of rootdir entry ++ rest
