-- ===== src/Topology/Setup/Defaults.antt =====
-- The default specification of a link, as the constructors of reckon/topologies/ compute it: that of
-- `AbstractTopologyGenerator` in reckon/reckon_types.py, and those of its subclasses, which have the same
-- text. Numbers are floating-point numbers of Python in some fixed unit; their operations are parameters.
use reckon_k8s.Prelude.{
  ℕ, ◌≡◌, refl, false, Option, none, some, ltb, ◌==◌, if◌then◌else◌, Bool-cases, inl, inr,
}
use reckon_k8s.Outcome.{Outcome, ok, raise, ◌>>=◌, type_error, value_error}
use reckon_k8s.Text.{codes}
use reckon_k8s.Topology.Setup.{LinkSpec, TopologyType}

-- The numbers 1, 2 and 100, the operations, and the square root of `math`.
pub record Reals : Type 0 where
  pub one : ℕ
  pub two : ℕ
  pub hundred : ℕ
  pub times : ℕ → ℕ → ℕ
  pub divided_by : ℕ → ℕ → ℕ
  pub minus : ℕ → ℕ → ℕ
  pub sqrt : ℕ → ℕ

-- `None if not x else f(x)`
abbrev pub unless_zero : Option ℕ → (ℕ → Outcome (Option ℕ)) → Outcome (Option ℕ)
unless_zero none f = ok none
unless_zero (some x) f = if x == 0 then ok none else f x

-- `None if x == 0 else x`
abbrev pub no_zero : Option ℕ → Option ℕ
no_zero none = none
no_zero (some x) = if x == 0 then none else some x

module _ (r : Reals) where
  -- `1 - loss / 100`
  abbrev pub survival : ℕ → ℕ
  survival loss = r.minus r.one (r.divided_by loss r.hundred)

  -- `(1 - x) * 100`
  abbrev pub lost : ℕ → ℕ
  lost x = r.times (r.minus r.one x) r.hundred

  -- `(1 - math.sqrt(1 - loss / 100)) * 100`; the root of a negative number is a `ValueError`.
  abbrev pub half_loss : ℕ → Outcome (Option ℕ)
  half_loss loss =
      if ltb r.one (r.divided_by loss r.hundred)
      then raise value_error
      else ok (some (lost (r.sqrt (survival loss))))

  -- `per_link_loss`
  abbrev pub per_link_loss : Option ℕ → Outcome (Option ℕ)
  per_link_loss link_loss = do per_link ← unless_zero link_loss half_loss; ok (no_zero per_link)

  -- `per_link_latency` of the subclasses.
  abbrev pub per_link_latency : Option ℕ → Outcome (Option ℕ)
  per_link_latency link_latency = unless_zero link_latency (λ x. ok (some (r.divided_by x r.two)))

  -- `math.sqrt(((link_jitter * link_latency) ** 2) / 2)`
  abbrev pub star_jitter : Option ℕ → ℕ → Outcome (Option ℕ)
  star_jitter none jitter = raise type_error
  star_jitter (some latency) jitter =
      let x = r.times jitter latency in ok (some (r.sqrt (r.divided_by (r.times x x) r.two)))

  -- `per_link_jitter` of the subclasses.
  abbrev pub per_link_jitter : (link_latency link_jitter : Option ℕ) → Outcome (Option ℕ)
  per_link_jitter link_latency link_jitter = unless_zero link_jitter (star_jitter link_latency)

  -- The constructor of `AbstractTopologyGenerator`.
  unfoldable pub base_spec : (link_latency link_loss link_jitter : Option ℕ) → Outcome LinkSpec
  base_spec link_latency link_loss link_jitter = do
    loss ← per_link_loss link_loss
    ok (record {
      n_from = codes "*";
      n_to = codes "*";
      latency_ms = no_zero link_latency;
      loss_perc = loss;
      jitter_ms = no_zero link_jitter;
    })

  -- The constructors of the providers.
  unfoldable pub star_spec : (link_latency link_loss link_jitter : Option ℕ) → Outcome LinkSpec
  star_spec link_latency link_loss link_jitter = do
    latency ← per_link_latency link_latency
    jitter ← per_link_jitter link_latency link_jitter
    loss ← per_link_loss link_loss
    base_spec latency loss jitter

  -- The default specification that `get_topology_provider` gives to a provider; in the call of
  -- `WanTopologyProvider` a list stands in the place of a number.
  unfoldable pub default_spec :
      TopologyType → (link_latency link_loss link_jitter : ℕ) → Outcome LinkSpec
  default_spec TopologyType.wan latency loss jitter = raise type_error
  default_spec t latency loss jitter = star_spec (some latency) (some loss) (some jitter)

  -- The arithmetic is exact at the share `x` of packets: for a loss that leaves the share x * x the root
  -- is `x`, and this loss is one, of at most 100 percent.
  pub record IsExact (x : ℕ) : Type 0 where
    pub root : r.sqrt (r.times x x) ≡ x
    pub back : survival (lost (r.times x x)) ≡ r.times x x
    pub in_range : ltb r.one (r.divided_by (lost (r.times x x)) r.hundred) ≡ false
    pub has_loss : (lost (r.times x x) == 0) ≡ false

  per_link_loss-IsExact :
      (x : ℕ)
      → IsExact x
      → (lost x == 0) ≡ false
      → per_link_loss (some (lost (r.times x x))) ≡ ok (some (lost x))
  per_link_loss-IsExact x h n = rw (h.has_loss, h.in_range, h.back, h.root, n) refl

  unless_zero-ok :
      (x : ℕ) (f : ℕ → Outcome (Option ℕ))
      → ((y : ℕ) → (o : Option ℕ) × (f y ≡ ok o))
      → (o : Option ℕ) × (unless_zero (some x) f ≡ ok o)
  unless_zero-ok x f h = elim (Bool-cases (x == 0)) [
    | inl y ↦ (none, rw y refl)
    | inr n ↦ let (o, e) = h x in (o, rw n e)
  ]

  -- The topologies whose providers can be made.
  abbrev pub IsStar : TopologyType → Type 0
  IsStar TopologyType.wan = ⊥
  IsStar t = Unit {0}

  star_spec-loss :
      (x latency jitter : ℕ)
      → IsExact x
      → IsExact (r.times x x)
      → (lost x == 0) ≡ false
      → (spec : LinkSpec) × (star_spec
            (some latency)
            (some (lost (r.times (r.times x x) (r.times x x))))
            (some jitter)
          ≡ ok spec)
        × (spec.loss_perc ≡ some (lost x))
  unfolding star_spec base_spec
  star_spec-loss x latency jitter h k n =
      let (l, halved) =
        unless_zero-ok latency (λ y. ok (some (r.divided_by y r.two))) (λ y. (_, refl)) in
      let (j, spread) = unless_zero-ok jitter (star_jitter (some latency)) (λ y. (_, refl)) in
      let spec : LinkSpec = record {
        n_from = codes "*";
        n_to = codes "*";
        latency_ms = no_zero l;
        loss_perc = some (lost x);
        jitter_ms = no_zero j;
      } in
      (
        spec,
        rw
            (
              halved,
              spread,
              per_link_loss-IsExact (r.times x x) k h.has_loss,
              per_link_loss-IsExact x h n,
            )
            refl,
        refl,
      )

  -- Where the arithmetic is exact, a loss that leaves the fourth power of a share x of the packets gives
  -- every link the loss that leaves x: the two links between hosts of a star leave the square of x, not
  -- the fourth power that is asked for.
  pub default_spec-loss :
      (t : TopologyType) (x latency jitter : ℕ)
      → IsStar t
      → IsExact x
      → IsExact (r.times x x)
      → (lost x == 0) ≡ false
      → (spec : LinkSpec) × (default_spec t latency
            (lost (r.times (r.times x x) (r.times x x)))
            jitter
          ≡ ok spec)
        × (spec.loss_perc ≡ some (lost x))
  unfolding default_spec
  default_spec-loss TopologyType.wan x latency jitter star h k n = absurd star
  default_spec-loss TopologyType.simple x latency jitter star h k n =
      star_spec-loss x latency jitter h k n
  default_spec-loss TopologyType.simple_k8s x latency jitter star h k n =
      star_spec-loss x latency jitter h k n
  default_spec-loss TopologyType.ha_k8s x latency jitter star h k n =
      star_spec-loss x latency jitter h k n
  default_spec-loss TopologyType.ha_region_k8s x latency jitter star h k n =
      star_spec-loss x latency jitter h k n
