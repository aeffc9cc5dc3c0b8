-- ===== src/Tests/Experiments.antt =====
-- The scripts at concrete parameters.
use reckon_k8s.Prelude.{
  ℕ, ◌≡◌, refl, Bool, true, false, List, [], ◌∷◌, ◌++◌, none, some, All, arith, ◌&&◌, not,
  Bool-cases, inl, inr,
}
use reckon_k8s.Outcome.{ok}
use reckon_k8s.Text.{Text, codes, str}
use reckon_k8s.Text.Dict.{Dict}
use reckon_k8s.Text.Shell.{is_empty, is_special}
use reckon_k8s.Topology.Setup.{LinkSpec}
use reckon_k8s.Experiments.Params.{Value, text, number, merged, check_repeat}
use reckon_k8s.Experiments.Params.Lines.{IsWord, IsQuotable, shown_at}
use reckon_k8s.Experiments.Kubetester.{run, write_config, call, run_test}
use reckon_k8s.Experiments.Kubetester.Command.{
  params_with, args_with, word_params, result_folder, log_folder, run_test-command,
}
use reckon_k8s.Experiments.Repro.{Partial, Config}
use reckon_k8s.Experiments.Actions.{Found}

abbrev config : Dict Value
config =
    (codes "repeat", number 3)
    ∷ (codes "net_spec", text (codes "[{\"n_from\": \"cp\", \"n_to\": \"s1\"}]"))
    ∷ []

abbrev no_error : List Text → ℕ
no_error args = 0

abbrev works : Text → Bool
works c = true

abbrev all_plain : Text → Bool
all_plain [] = true
all_plain (c ∷ s) = not (is_special c) && all_plain s

plain_of : (s : Text) → all_plain s ≡ true → All (λ c. is_special c ≡ false) s
plain_of [] h = tt
plain_of (c ∷ s) h = elim (Bool-cases (is_special c)) [
  | inl e ↦ cc (rw e at h)
  | inr n ↦ (n, plain_of s (rw n at h))
]

abbrev all_words : Dict Value → List Text → Bool
all_words params [] = true
all_words params (k ∷ ks) =
    (all_plain (shown_at params k) && not (is_empty (shown_at params k))) && all_words params ks

words_of :
    (params : Dict Value) (ks : List Text)
    → all_words params ks ≡ true
    → All (λ k. IsWord (shown_at params k)) ks
words_of params [] h = tt
words_of params (k ∷ ks) h = elim (Bool-cases (all_plain (shown_at params k))) [
  | inr n ↦ cc (rw n at h)
  | inl p ↦ elim (Bool-cases (is_empty (shown_at params k))) [
    | inl e ↦ cc (rw (p, e) at h)
    | inr f ↦ ((plain_of (shown_at params k) p, f), words_of params ks (rw (p, f) at h))
  ]
]

config_words : All (λ k. IsWord (shown_at (params_with config) k)) word_params
unfolding merged str
config_words = words_of (params_with config) word_params refl

config_repeats : check_repeat (params_with config) ≡ ok tt
unfolding merged check_repeat
config_repeats = refl

config-IsQuotable : IsQuotable (shown_at (params_with config) (codes "net_spec"))
unfolding merged
config-IsQuotable = (ground arith, refl)

run_test-command_example :
    run_test works no_error (codes "/results/run") (codes "1f0c") config
    ≡ ok (
        run (codes "rm -rf /data/*")
        ∷ run (codes "rm -rf /results/logs/*.log.*")
        ∷ run (codes "mn -c --switch lxbr,stp=1")
        ∷ run (codes "mkdir -p " ++ result_folder (codes "/results/run") (codes "1f0c"))
        ∷ run (codes "mkdir -p " ++ log_folder (codes "/results/run") (codes "1f0c"))
        ∷ write_config
            (result_folder (codes "/results/run") (codes "1f0c") ++ codes "config.json")
            (params_with config)
        ∷ call (args_with (codes "/results/run") (codes "1f0c") config)
        ∷ [])
run_test-command_example =
    run_test-command works no_error (λ c. refl) (codes "/results/run") (codes "1f0c") config
      (plain_of (codes "/results/run") refl) (plain_of (codes "1f0c") refl) config_repeats
      config_words config-IsQuotable refl

abbrev quick : LinkSpec
quick = record {
  n_from = codes "*";
  n_to = codes "*";
  latency_ms = some 4;
  loss_perc = none;
  jitter_ms = none;
}

abbrev no_json : List LinkSpec → Text
no_json sps = codes "[]"

-- A complete run, and one without a dump of its node.
abbrev earlier_runs : List Found
earlier_runs =
    record {
      is_dir = true;
      is_uuid = true;
      has_config = true;
      subdirs = (codes "node_cp", true) ∷ (codes "logs", false) ∷ [];
      has_ops = true;
      has_resps = true;
    }
    ∷ record {
      is_dir = true;
      is_uuid = true;
      has_config = true;
      subdirs = (codes "node_cp", false) ∷ [];
      has_ops = true;
      has_resps = true;
    }
    ∷ []

abbrev found : List Partial
found =
    record {
      path = codes "/reckon/partial/1f0c";
      is_run = true;
      key_gen_seed = ok 7;
      subdirs = (codes "node_cp", true) ∷ [];
      has_ops = true;
      has_resps = true;
    }
    ∷ []

abbrev earlier : Config
earlier = record { key_gen_seed = 7; attributes = [] }
