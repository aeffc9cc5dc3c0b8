-- ===== src/Experiments/HaTopo.antt =====
-- `ha_topo` of scripts/kubetester.py: the network of a test of Kubernetes. Round trips are numbers of
-- tenths of a millisecond, so that half of one, the latency of a link, is as many twentieths.
use reckon_k8s.Prelude.{ℕ, Bool, true, false, List, [], ◌∷◌, some, get_elem?, ◌==◌, if◌then◌else◌}
use reckon_k8s.Outcome.{Outcome, ok, ◌>>=◌, or_raise, index_error}
use reckon_k8s.Text.{Text, codes}
use reckon_k8s.Text.Dict.{Dict, put}
use reckon_k8s.Topology.Setup.{LinkSpec}
use reckon_k8s.Experiments.Params.{Value, text, number, real}

-- A value of `net_spec`: `dst` and `lat`, by variant or, where it is one number, the same for all.
pub record Entry : Type 0 where
  pub dst : Text
  pub lat : List ℕ

-- The display of a dictionary: a key that is given again keeps its place and has its last value.
abbrev pub dict_of : {A : Type 0} → List (Text × A) → Dict A → Dict A
dict_of [] d = d
dict_of ((k, v) ∷ items) d = dict_of items (put k v d)

abbrev to_s1 : Text → ℕ → ℕ → ℕ → ℕ → Text × Entry
to_s1 name a b c d = (name, record { dst = codes "s1"; lat = a ∷ b ∷ c ∷ d ∷ [] })

abbrev one : Text → Text → ℕ → Text × Entry
one name dst lat = (name, record { dst = dst; lat = lat ∷ [] })

abbrev pub star_spec : List (Text × Entry)
star_spec =
    to_s1 (codes "cp") 5 5 5 5
    ∷ to_s1 (codes "cp2") 3 3 3 830
    ∷ to_s1 (codes "cp3") 6 6 6 2260
    ∷ to_s1 (codes "lb") 6 6 6 6
    ∷ to_s1 (codes "wn") 6 850 850 850
    ∷ to_s1 (codes "wn2") 6 6 1460 1460
    ∷ to_s1 (codes "wn3") 6 2350 2350 2350
    ∷ to_s1 (codes "mc1") 2 2 2 2
    ∷ []

abbrev pub region_spec : List (Text × Entry)
region_spec =
    one (codes "cp") (codes "s2") 5
    ∷ one (codes "cp2") (codes "s3") 3
    ∷ one (codes "cp3") (codes "s4") 6
    ∷ one (codes "lb") (codes "s2") 6
    ∷ one (codes "wn") (codes "s2") 11
    ∷ one (codes "wn2") (codes "s3") 23
    ∷ one (codes "wn3") (codes "s4") 15
    ∷ one (codes "mc1") (codes "s2") 20
    ∷ one (codes "s2") (codes "s1") 2
    ∷ one (codes "s3") (codes "s1") 850
    ∷ one (codes "s4") (codes "s1") 2350
    ∷ one (codes "s3") (codes "s4") 1650
    ∷ []

unfoldable pub net_spec : (topo_variant : ℕ) → Dict Entry
net_spec topo_variant = if topo_variant == 3 then dict_of region_spec [] else dict_of star_spec []

-- `losses[loss_variant]`, or 0.
unfoldable pub loss_of : (loss_enable : Bool) (loss_variant : ℕ) → Outcome ℕ
loss_of true loss_variant = or_raise (get_elem? (0 ∷ 1 ∷ []) loss_variant) index_error
loss_of false loss_variant = ok 0

-- The loop over the links: `index` is the place of the latency.
unfoldable pub specs_of :
    (index : ℕ) → Bool → (loss_variant : ℕ) → Dict Entry → Outcome (List LinkSpec)
specs_of index loss_enable loss_variant [] = ok []
specs_of index loss_enable loss_variant ((link, e) ∷ d) = do
  latency_rtt ← or_raise (get_elem? e.lat index) index_error
  loss ← loss_of loss_enable loss_variant
  rest ← specs_of index loss_enable loss_variant d
  ok (
      record {
        n_from = link;
        n_to = e.dst;
        latency_ms = some latency_rtt;
        loss_perc = some loss;
        jitter_ms = some 0;
      }
      ∷ rest)

abbrev pub specs : (topo_variant : ℕ) → Bool → (loss_variant : ℕ) → Outcome (List LinkSpec)
specs topo_variant loss_enable loss_variant =
    specs_of (if topo_variant == 3 then 0 else topo_variant) loss_enable loss_variant
      (net_spec topo_variant)

-- `ha_topo`; `dumps` is the function of the package json.
unfoldable pub ha_topo :
    (dumps : List LinkSpec → Text) (topo_variant : ℕ) (loss_enable : Bool)
    (loss_variant sys_variant : ℕ)
    → Outcome (Dict Value)
ha_topo dumps topo_variant loss_enable loss_variant sys_variant = do
  found ← specs topo_variant loss_enable loss_variant
  ok (
      (codes "topo", text (if topo_variant == 3 then codes "ha_reg_k8s" else codes "ha_k8s"))
      ∷ (codes "nn", number 6)
      ∷ (codes "delay", real (codes "0.2"))
      ∷ (codes "net_spec", text (dumps found))
      ∷ (codes "variant", number sys_variant)
      ∷ [])
