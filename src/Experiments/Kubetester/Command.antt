-- ===== src/Experiments/Kubetester/Command.antt =====
-- The arguments that the program is called with.
use reckon_k8s.Prelude.{
  ℕ, ◌≡◌, refl, ap, ◌∙◌, ◌==◌, Bool, true, false, List, [], ◌∷◌, ◌++◌, map, some, All, All-append,
  All-imp, append-nil, ==_iff,
}
use reckon_k8s.Outcome.{Outcome, ok}
use reckon_k8s.Text.{Text, codes}
use reckon_k8s.Text.Dict.{Dict}
use reckon_k8s.Text.Shell.{IsPlain, is_empty}
use reckon_k8s.Text.Shell.Template.{Piece, plain, enclosed, flatten, split_pieces}
use reckon_k8s.Text.Shell.Values.{split-flatten}
use reckon_k8s.Experiments.Params.{Value, merged, check_repeat, joined}
use reckon_k8s.Experiments.Params.Lines.{
  shown_at, pieces_of, params_of, HasKey, IsWord, IsQuotable, line-pieces_of, pieces_of-IsFit,
  HasKey-merged, All-HasKey,
}
use reckon_k8s.Experiments.Kubetester.{default_parameters, lines, run, write_config, call, run_test}

-- The words of the command line.
module _ (v : Text → Text) (log_path result_path : Text) where
  -- The arguments, with the values.
  abbrev pub command_args : List Text
  command_args =
      codes "python"
      ∷ codes "-m"
      ∷ codes "reckon"
      ∷ v (codes "system")
      ∷ v (codes "topo")
      ∷ v (codes "failure")
      ∷ codes "--number-nodes"
      ∷ v (codes "nn")
      ∷ codes "--number-clients"
      ∷ v (codes "nc")
      ∷ codes "--client"
      ∷ v (codes "client")
      ∷ codes "--link-latency"
      ∷ v (codes "delay")
      ∷ codes "--link-loss"
      ∷ v (codes "loss")
      ∷ codes "--link-jitter"
      ∷ v (codes "jitter")
      ∷ codes "--new_client_per_request"
      ∷ v (codes "ncpr")
      ∷ codes "--mtbf"
      ∷ v (codes "mtbf")
      ∷ codes "--kill-n"
      ∷ v (codes "kill_n")
      ∷ codes "--write-ratio"
      ∷ v (codes "write_ratio")
      ∷ codes "--read-ratio"
      ∷ v (codes "read_ratio")
      ∷ codes "--create-ratio"
      ∷ v (codes "create_ratio")
      ∷ codes "--update-ratio"
      ∷ v (codes "update_ratio")
      ∷ codes "--delete-ratio"
      ∷ v (codes "delete_ratio")
      ∷ codes "--rate"
      ∷ v (codes "rate")
      ∷ codes "--duration"
      ∷ v (codes "duration")
      ∷ codes "--arrival-process"
      ∷ v (codes "arrival_process")
      ∷ codes "--key-distribution"
      ∷ v (codes "key_distrib")
      ∷ codes "--system_logs"
      ∷ log_path
      ∷ codes "--result-location"
      ∷ result_path
      ∷ codes "--data-dir=/data"
      ∷ codes "--failure_timeout"
      ∷ v (codes "failure_timeout")
      ∷ codes "--delay_interval"
      ∷ v (codes "delay_interval")
      ∷ codes "--net-spec"
      ∷ v (codes "net_spec")
      ∷ codes "--sys_variant"
      ∷ v (codes "variant")
      ∷ codes "--light_reads"
      ∷ v (codes "light_read")
      ∷ []

  abbrev pub word : Text → List Piece
  word s = map Piece.lit s

  abbrev pub value : Text → List Piece
  value key = plain (v key) ∷ []

  abbrev command_words : List (List Piece)
  command_words =
      word (codes "python")
      ∷ word (codes "-m")
      ∷ word (codes "reckon")
      ∷ value (codes "system")
      ∷ value (codes "topo")
      ∷ value (codes "failure")
      ∷ word (codes "--number-nodes")
      ∷ value (codes "nn")
      ∷ word (codes "--number-clients")
      ∷ value (codes "nc")
      ∷ word (codes "--client")
      ∷ value (codes "client")
      ∷ word (codes "--link-latency")
      ∷ value (codes "delay")
      ∷ word (codes "--link-loss")
      ∷ value (codes "loss")
      ∷ word (codes "--link-jitter")
      ∷ value (codes "jitter")
      ∷ word (codes "--new_client_per_request")
      ∷ value (codes "ncpr")
      ∷ word (codes "--mtbf")
      ∷ value (codes "mtbf")
      ∷ word (codes "--kill-n")
      ∷ value (codes "kill_n")
      ∷ word (codes "--write-ratio")
      ∷ value (codes "write_ratio")
      ∷ word (codes "--read-ratio")
      ∷ value (codes "read_ratio")
      ∷ word (codes "--create-ratio")
      ∷ value (codes "create_ratio")
      ∷ word (codes "--update-ratio")
      ∷ value (codes "update_ratio")
      ∷ word (codes "--delete-ratio")
      ∷ value (codes "delete_ratio")
      ∷ word (codes "--rate")
      ∷ value (codes "rate")
      ∷ word (codes "--duration")
      ∷ value (codes "duration")
      ∷ word (codes "--arrival-process")
      ∷ value (codes "arrival_process")
      ∷ word (codes "--key-distribution")
      ∷ value (codes "key_distrib")
      ∷ word (codes "--system_logs")
      ∷ (plain log_path ∷ [])
      ∷ word (codes "--result-location")
      ∷ (plain result_path ∷ [])
      ∷ word (codes "--data-dir=/data")
      ∷ word (codes "--failure_timeout")
      ∷ value (codes "failure_timeout")
      ∷ word (codes "--delay_interval")
      ∷ value (codes "delay_interval")
      ∷ word (codes "--net-spec")
      ∷ (enclosed (v (codes "net_spec")) ∷ [])
      ∷ word (codes "--sys_variant")
      ∷ value (codes "variant")
      ∷ word (codes "--light_reads")
      ∷ value (codes "light_read")
      ∷ []

  split-lines :
      split_pieces (pieces_of v (joined (lines log_path result_path))) ≡ some command_words
  split-lines = refl

  flatten-words : map flatten command_words ≡ command_args
  flatten-words = simp append-nil

abbrev pub result_folder : (folder_path uid : Text) → Text
result_folder folder_path uid = folder_path ++ (codes "/" ++ (uid ++ codes "/"))

abbrev pub log_folder : (folder_path uid : Text) → Text
log_folder folder_path uid = result_folder folder_path uid ++ codes "logs"

-- The parameters that stand as words, of `lines`.
abbrev pub word_params : List Text
word_params = params_of (joined (lines [] []))

is_empty-append : (s : Text) (c : ℕ) (t : Text) → is_empty (s ++ c ∷ t) ≡ false
is_empty-append [] c t = refl
is_empty-append (d ∷ s) c t = refl

abbrev pub params_with : Dict Value → Dict Value
params_with config = merged default_parameters config

abbrev pub args_with : (folder_path uid : Text) → Dict Value → List Text
args_with folder_path uid config =
    command_args (shown_at (params_with config)) (log_folder folder_path uid)
      (result_folder folder_path uid)

result_folder-IsWord :
    (folder uid : Text) → IsPlain folder → IsPlain uid → IsWord (result_folder folder uid)
result_folder-IsWord folder uid f u = (
  All-append _ folder (codes "/" ++ (uid ++ codes "/")) f
      (refl, All-append _ uid (codes "/") u (refl, tt)),
  is_empty-append folder b'/' (uid ++ codes "/"),
)

log_folder-IsWord :
    (folder uid : Text) → IsPlain folder → IsPlain uid → IsWord (log_folder folder uid)
log_folder-IsWord folder uid f u =
    let (unspecial, full) = result_folder-IsWord folder uid f u in
    (
      All-append _ (result_folder folder uid) (codes "logs") unspecial
          (refl, (refl, (refl, (refl, tt)))),
      is_empty-append (result_folder folder uid) b'l' (codes "ogs"),
    )

module _ (succeeds : Text → Bool) (code : List Text → ℕ)
    (all_succeed : (c : Text) → succeeds c ≡ true) where
  -- For a folder and an identifier that are plain, a configuration that gives the number of the repeat, and
  -- parameters that are words of a shell, where the specification of the network has no apostrophe, the
  -- program is called with each value as one argument: the specification, with its spaces and quotes,
  -- arrives whole. This is so when all commands succeed.
  pub run_test-command :
      (folder_path uid : Text) (config : Dict Value)
      → IsPlain folder_path
      → IsPlain uid
      → check_repeat (params_with config) ≡ ok tt
      → All (λ key. IsWord (shown_at (params_with config) key)) word_params
      → IsQuotable (shown_at (params_with config) (codes "net_spec"))
      → code (args_with folder_path uid config) ≡ 0
      → run_test succeeds code folder_path uid config
        ≡ ok (
            run (codes "rm -rf /data/*")
            ∷ run (codes "rm -rf /results/logs/*.log.*")
            ∷ run (codes "mn -c --switch lxbr,stp=1")
            ∷ run (codes "mkdir -p " ++ result_folder folder_path uid)
            ∷ run (codes "mkdir -p " ++ log_folder folder_path uid)
            ∷ write_config
                (result_folder folder_path uid ++ codes "config.json")
                (params_with config)
            ∷ call (args_with folder_path uid config)
            ∷ [])
  unfolding run_test
  run_test-command folder_path uid config plain_folder plain_uid repeats words net_spec ends =
      let params = params_with config in
      let log = log_folder folder_path uid in
      let res = result_folder folder_path uid in
      let parts = joined (lines log res) in
      let keys_in : All (HasKey params) word_params =
        All-imp _ _ word_params (λ key h. HasKey-merged key default_parameters config h)
          (All-HasKey default_parameters word_params refl) in
      let spec_in : HasKey params (codes "net_spec") =
        HasKey-merged (codes "net_spec") default_parameters config refl in
      let pieces = line-pieces_of params parts keys_in (spec_in, tt) in
      let fit =
        pieces_of-IsFit (shown_at params) parts words (net_spec, tt)
          (
            log_folder-IsWord folder_path uid plain_folder plain_uid,
            (result_folder-IsWord folder_path uid plain_folder plain_uid, tt),
          ) in
      let args =
        split-flatten (pieces_of (shown_at params) parts) (command_words (shown_at params) log res)
          (split-lines (shown_at params) log res) fit
        ∙ ap Outcome.ok (flatten-words (shown_at params) log res) in
      let zero_code : (code (args_with folder_path uid config) == 0) ≡ true =
        (==_iff (code (args_with folder_path uid config)) 0).1 ends in
      rw
        (
          all_succeed (codes "rm -rf /data/*"),
          all_succeed (codes "rm -rf /results/logs/*.log.*"),
          all_succeed (codes "mn -c --switch lxbr,stp=1"),
          repeats,
          pieces,
          all_succeed (codes "mkdir -p " ++ res),
          all_succeed (codes "mkdir -p " ++ log),
          args,
          zero_code,
        )
        refl
