-- ===== src/Experiments/Actions.antt =====
-- The lists of tests that `kubetest`, `kubetest_throughput` and `kubetest_withfailures` of
-- scripts/kubetester.py make. An action is the parameters that it calls `run_test` with.
pub mod Repeats
use reckon_k8s.Prelude.{
  ℕ, suc, ◌-◌, Bool, true, false, List, [], ◌∷◌, ◌++◌, Option, none, some, range_from,
  if◌then◌else◌, not, ◌&&◌,
}
use reckon_k8s.Outcome.{Outcome, ok, raise, ◌>>=◌, os_error}
use reckon_k8s.Text.{Text, codes}
use reckon_k8s.Text.Search.{occurs}
use reckon_k8s.Text.Dict.{Dict}
use reckon_k8s.Topology.Setup.{LinkSpec}
use reckon_k8s.Experiments.Params.{Value, text, number, real, flag, merged}
use reckon_k8s.Experiments.HaTopo.{ha_topo}

-- An entry of the folder of results: whether it is a directory and its name an identifier, which files it
-- has, and its own entries, each with whether it has a `tcpdump.pcap`.
pub record Found : Type 0 where
  pub is_dir : Bool
  pub is_uuid : Bool
  pub has_config : Bool
  pub subdirs : List (Text × Bool)
  pub has_ops : Bool
  pub has_resps : Bool

-- `all_tcpdump_exist`, after the loop over the entries.
unfoldable pub nodes_have_dumps : List (Text × Bool) → Bool
nodes_have_dumps [] = true
nodes_have_dumps ((subdir, has_dump) ∷ subdirs) =
    let rest = nodes_have_dumps subdirs in
    if occurs (codes "node") subdir && not has_dump then false else rest

-- `shutil.rmtree`, which fails for what is not a directory, with the number of repeats.
abbrev pub rmtree : Found → ℕ → Outcome ℕ
rmtree r low_repeat = if r.is_dir then ok low_repeat else raise os_error

-- The body of the loop over the entries. The repeats stop at zero here, where the source goes below it and
-- makes no test either.
unfoldable pub one_found : Found → ℕ → Outcome ℕ
one_found r low_repeat =
    if r.is_dir && r.is_uuid
    then (if r.has_config
        then (if r.has_ops && (r.has_resps && nodes_have_dumps r.subdirs)
            then ok (low_repeat - 1)
            else rmtree r low_repeat)
        else ok low_repeat)
    else rmtree r low_repeat

-- `low_repeat`, after the loop over the entries.
unfoldable pub repeats_left : ℕ → List Found → Outcome ℕ
repeats_left low_repeat [] = ok low_repeat
repeats_left low_repeat (r ∷ runs) = do left ← one_found r low_repeat; repeats_left left runs

abbrev pub is_some : Option ℕ → Bool
is_some none = false
is_some (some n) = true

-- `loss_variant`, which is not used where it is `None`.
abbrev pub or_zero : Option ℕ → ℕ
or_zero none = 0
or_zero (some n) = n

module _ (dumps : List LinkSpec → Text) where
  -- The topology with more parameters, for each item; the default of a parameter is computed when the
  -- action is made.
  unfoldable pub actions :
      Outcome (Dict Value) → (ℕ → Dict Value) → List ℕ → Outcome (List (Dict Value))
  actions topo more [] = ok []
  actions topo more (n ∷ ns) = do
    params ← topo
    rest ← actions topo more ns
    ok (merged params (more n) ∷ rest)

  abbrev pub steady_params : ℕ → Dict Value
  steady_params repeat =
      (codes "system", text (codes "kubernetes"))
      ∷ (codes "rate", number 20)
      ∷ (codes "failure_timeout", real (codes "0.01"))
      ∷ (codes "delay_interval", real (codes "0.1"))
      ∷ (codes "repeat", number repeat)
      ∷ (codes "failure", text (codes "none"))
      ∷ (codes "duration", number 100)
      ∷ (codes "arrival_process", text (codes "poisson"))
      ∷ []

  -- `kubetest`, with what `os.listdir` gives, which is read if `avoid_completed` is set.
  unfoldable pub kubetest :
      (topo_variant : ℕ)
      → Option ℕ
      → (avoid_completed : Bool) → Outcome (List Found)
      → Outcome (List (Dict Value))
  kubetest topo_variant loss_variant avoid_completed listing = do
    low_repeat ← (if avoid_completed then listing >>= repeats_left 250 else ok 250)
    actions (ha_topo dumps topo_variant (is_some loss_variant) (or_zero loss_variant) 0)
        steady_params (range_from low_repeat 0)

  abbrev pub throughput_params : ℕ → Dict Value
  throughput_params rate =
      (codes "system", text (codes "kubernetes"))
      ∷ (codes "rate", number rate)
      ∷ (codes "failure_timeout", real (codes "0.01"))
      ∷ (codes "delay_interval", real (codes "0.1"))
      ∷ (codes "repeat", number 1)
      ∷ (codes "failure", text (codes "none"))
      ∷ (codes "duration", number 60)
      ∷ (codes "key_distrib", text (codes "tptest"))
      ∷ (codes "ncpr", text (codes "True"))
      ∷ []

  unfoldable pub kubetest_throughput : (topo_variant : ℕ) → Outcome (List (Dict Value))
  kubetest_throughput topo_variant =
      actions (ha_topo dumps topo_variant false 0 0) throughput_params
        (5000 ∷ 6000 ∷ 7000 ∷ 8000 ∷ 9000 ∷ [])

  abbrev pub failure_params : (failure : Text) (throughput : ℕ) → ℕ → Dict Value
  failure_params failure throughput repeat =
      (codes "system", text (codes "kubernetes"))
      ∷ (codes "rate", number throughput)
      ∷ (codes "failure_timeout", real (codes "0.01"))
      ∷ (codes "delay_interval", real (codes "0.1"))
      ∷ (codes "repeat", number repeat)
      ∷ (codes "failure", text failure)
      ∷ (codes "duration", number 60)
      ∷ (codes "key_distrib", text (codes "tptest"))
      ∷ (codes "ncpr", text (codes "True"))
      ∷ (codes "mtbf", number 5)
      ∷ (codes "light_read", flag true)
      ∷ []

  unfoldable pub kubetest_withfailures :
      (topo_variant : ℕ)
      → Option ℕ
      → (failure : Text) (throughput sys_variant : ℕ) → Outcome (List (Dict Value))
  kubetest_withfailures topo_variant loss_variant failure throughput sys_variant =
      actions (ha_topo dumps topo_variant (is_some loss_variant) (or_zero loss_variant) sys_variant)
        (failure_params failure throughput) (range_from 20 0)
