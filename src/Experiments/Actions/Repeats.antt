-- ===== src/Experiments/Actions/Repeats.antt =====
-- What the actions pass to `run_test`.
use reckon_k8s.Prelude.{
  ◌&&◌, true, false, get_elem?, ℕ, zero, suc, ◌<◌, ◌≡◌, refl, Bool, List, [], ◌∷◌, map, Option,
  none, some, range_from, arith, if◌then◌else◌,
}
use reckon_k8s.Outcome.{Outcome, ok}
use reckon_k8s.Text.{Text, codes}
use reckon_k8s.Text.Dict.{Dict, get}
use reckon_k8s.Topology.Setup.{LinkSpec}
use reckon_k8s.Experiments.Params.{Value, text, number, real, merged, check_repeat}
use reckon_k8s.Experiments.HaTopo.{ha_topo, specs_of, net_spec, loss_of}
use reckon_k8s.Experiments.Actions.{
  Found, nodes_have_dumps, is_some, or_zero, actions, failure_params, kubetest_withfailures,
}
use reckon_k8s.Experiments.Kubetester.{default_parameters}

-- A run with its configuration, the files of its results, and a dump in each directory of a node.
abbrev pub is_complete : Found → Bool
is_complete r =
    r.is_dir
    && (r.is_uuid && (r.has_config && (r.has_ops && (r.has_resps && nodes_have_dumps r.subdirs))))

-- How many of the entries are complete runs.
abbrev pub completed : List Found → ℕ
completed [] = 0
completed (r ∷ runs) = let rest = completed runs in if is_complete r then suc rest else rest

abbrev pub IsDir : Found → Type 0
IsDir r = r.is_dir ≡ true

-- One of the entries is no directory.
abbrev pub HasFile : List Found → Type 0
HasFile runs = (i : ℕ) × (r : Found) × (get_elem? runs i ≡ some r) × (r.is_dir ≡ false)

-- The keys that `ha_topo` gives, and a loss variant that there is.
abbrev pub HasLoss : Option ℕ → Type 0
HasLoss none = Unit {0}
HasLoss (some n) = n < 2

abbrev pub topo_params : (name spec : Text) (sys_variant : ℕ) → Dict Value
topo_params name spec sys_variant =
    (codes "topo", text name)
    ∷ (codes "nn", number 6)
    ∷ (codes "delay", real (codes "0.2"))
    ∷ (codes "net_spec", text spec)
    ∷ (codes "variant", number sys_variant)
    ∷ []

pub ha_topo-ok :
    (dumps : List LinkSpec → Text) (topo_variant : ℕ) (loss_variant : Option ℕ) (sys_variant : ℕ)
    → topo_variant < 4
    → HasLoss loss_variant
    → (name : Text) × (spec : Text) × (ha_topo dumps topo_variant
          (is_some loss_variant)
          (or_zero loss_variant)
          sys_variant
        ≡ ok (topo_params name spec sys_variant))
unfolding ha_topo net_spec loss_of specs_of
ha_topo-ok dumps zero none s h l = (_, _, refl)
ha_topo-ok dumps (suc zero) none s h l = (_, _, refl)
ha_topo-ok dumps (suc (suc zero)) none s h l = (_, _, refl)
ha_topo-ok dumps (suc (suc (suc zero))) none s h l = (_, _, refl)
ha_topo-ok dumps zero (some zero) s h l = (_, _, refl)
ha_topo-ok dumps (suc zero) (some zero) s h l = (_, _, refl)
ha_topo-ok dumps (suc (suc zero)) (some zero) s h l = (_, _, refl)
ha_topo-ok dumps (suc (suc (suc zero))) (some zero) s h l = (_, _, refl)
ha_topo-ok dumps zero (some (suc zero)) s h l = (_, _, refl)
ha_topo-ok dumps (suc zero) (some (suc zero)) s h l = (_, _, refl)
ha_topo-ok dumps (suc (suc zero)) (some (suc zero)) s h l = (_, _, refl)
ha_topo-ok dumps (suc (suc (suc zero))) (some (suc zero)) s h l = (_, _, refl)
ha_topo-ok dumps (suc (suc (suc (suc n)))) o s h l = absurd (omega arith)
ha_topo-ok dumps n (some (suc (suc m))) s h l = absurd (omega arith)

actions-ok :
    (dumps : List LinkSpec → Text) (params : Dict Value) (more : ℕ → Dict Value) (ns : List ℕ)
    → actions dumps (ok params) more ns ≡ ok (map (λ n. merged params (more n)) ns)
unfolding actions
actions-ok dumps params more [] = refl
actions-ok dumps params more (n ∷ ns) = rw (actions-ok dumps params more ns) refl

-- A test with this number of the repeat, which `run_test` accepts.
abbrev pub IsRepeat : ℕ → Dict Value → Type 0
IsRepeat n params =
    (get (codes "repeat") params ≡ some (number n))
    × (check_repeat (merged default_parameters params) ≡ ok tt)

-- Each action has the number in its place.
abbrev pub AreRepeats : List ℕ → List (Dict Value) → Type 0
AreRepeats [] [] = Unit {0}
AreRepeats [] (a ∷ acts) = ⊥
AreRepeats (n ∷ ns) [] = ⊥
AreRepeats (n ∷ ns) (a ∷ acts) = IsRepeat n a × AreRepeats ns acts

AreRepeats-map :
    (f : ℕ → Dict Value) (ns : List ℕ) → ((n : ℕ) → IsRepeat n (f n)) → AreRepeats ns (map f ns)
AreRepeats-map f [] h = tt
AreRepeats-map f (n ∷ ns) h = (h n, AreRepeats-map f ns h)

failure-IsRepeat :
    (dumps : List LinkSpec → Text) (name spec failure : Text) (throughput sys_variant n : ℕ)
    → IsRepeat n
        (merged (topo_params name spec sys_variant) (failure_params dumps failure throughput n))
unfolding merged check_repeat
failure-IsRepeat dumps name spec failure throughput sys_variant n = (refl, refl)

module _ (dumps : List LinkSpec → Text) (topo_variant : ℕ) (loss_variant : Option ℕ)
    (known : topo_variant < 4) (has_loss : HasLoss loss_variant) where
  -- The tests that `kubetest` makes of so many repeats.
  abbrev pub Makes : ℕ → Outcome (List (Dict Value)) → Type 0
  Makes repeats r =
      (acts : List (Dict Value)) × (r ≡ ok acts) × AreRepeats (range_from repeats 0) acts

  -- Likewise `kubetest_withfailures` makes twenty tests, numbered from zero, which `run_test` accepts,
  -- whatever the failure, the rate and the variant of the system are.
  pub kubetest_withfailures-AreRepeats :
      (failure : Text) (throughput sys_variant : ℕ)
      → (acts : List (Dict Value)) × (kubetest_withfailures dumps topo_variant loss_variant failure
            throughput sys_variant
          ≡ ok acts)
        × AreRepeats (range_from 20 0) acts
  unfolding kubetest_withfailures
  kubetest_withfailures-AreRepeats failure throughput sys_variant =
      let (name, spec, e) = ha_topo-ok dumps topo_variant loss_variant sys_variant known has_loss in
      let made = λ (n : ℕ).
        merged (topo_params name spec sys_variant) (failure_params dumps failure throughput n) in
      (
        map made (range_from 20 0),
        rw e (actions-ok dumps _ (failure_params dumps failure throughput) (range_from 20 0)),
        AreRepeats-map made (range_from 20 0)
            (λ n. failure-IsRepeat dumps name spec failure throughput sys_variant n),
      )
