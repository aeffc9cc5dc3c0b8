-- ===== src/Systems/Ocons/Pings/Summaries.antt =====
-- The closest host by what `ping` prints.
use mathlib.Core.Path.{subst}
use reckon_k8s.Prelude.{
  ℕ, zero, suc, ◌≡◌, refl, ap, ◌∙◌, sym, List, [], ◌∷◌, ◌++◌, map, Option, none, some, All,
  get_elem?, append-nil,
}
use reckon_k8s.Outcome.{ok}
use reckon_k8s.Text.{Text, codes}
use reckon_k8s.Cluster.{Node}
use reckon_k8s.Systems.Ocons.{min_latency}
use reckon_k8s.Systems.Ocons.Choices.{AtMost, min_latency_lem}
use reckon_k8s.Systems.Ocons.Pings.{Decimal, ping_cmd, average_at, await_latency, closest_host}
use reckon_k8s.Systems.Ocons.Pings.Patterns.{
  IsDecimal, shown, NoSlash, Follows, slashed-shown, decimal-shown, await_latency-Follows,
}

-- What `ping` prints at its end, after a text without a slash: the lowest, the average and the highest time
-- and their deviation.
pub record Summary : Type 0 where
  pub before : Text
  pub low : Decimal
  pub average : Decimal
  pub high : Decimal
  pub mdev : Decimal
  pub rest : Text

-- Four decimals with slashes between them.
abbrev times_of : Summary → Text
times_of p =
    shown p.low
    ++ b'/' ∷ (shown p.average ++ b'/' ∷ (shown p.high ++ b'/' ∷ (shown p.mdev ++ p.rest)))

abbrev pub printed : Summary → Text
printed p = p.before ++ (codes "rtt min/avg/max/mdev = " ++ times_of p)

pub record IsSummary (p : Summary) : Type 0 where
  pub no_slash : NoSlash p.before
  pub low : IsDecimal p.low
  pub average : IsDecimal p.average
  pub high : IsDecimal p.high
  pub mdev : IsDecimal p.mdev

module _ (float : Decimal → ℕ) where
  times-none : (p : Summary) → IsSummary p → average_at float (times_of p) ≡ some (float p.average)
  times-none p h =
      rw
        (
          slashed-shown p.low _ h.low,
          slashed-shown p.average _ h.average,
          slashed-shown p.high _ h.high,
          decimal-shown p.mdev p.rest h.mdev,
        )
        refl

  await_latency-here :
      (s : Text) (n : ℕ) → average_at float s ≡ some n → await_latency float s ≡ some n
  unfolding await_latency
  await_latency-here [] n e = e
  await_latency-here (c ∷ s) n e = rw e refl

  heading :
      (t : Text)
      → await_latency float (codes "rtt min/avg/max/mdev = " ++ t) ≡ await_latency float t
  unfolding await_latency
  heading t = refl

  await_latency-printed :
      (p : Summary) → IsSummary p → await_latency float (printed p) ≡ some (float p.average)
  await_latency-printed p h =
      await_latency-Follows float p.before _ h.no_slash (Follows.other b'r' _ refl refl refl)
      ∙ heading (times_of p)
      ∙ await_latency-here (times_of p) (float p.average) (times-none p h)

  -- What a ping prints: a summary, or a text without a slash when no host has answered.
  abbrev pub Matches : Option Summary → Text → Type 0
  Matches none out = NoSlash out
  Matches (some p) out = (out ≡ printed p) × IsSummary p

  abbrev pub latency : Option Summary → Option ℕ
  latency none = none
  latency (some p) = some (float p.average)

  await_latency-Matches :
      (o : Option Summary) (out : Text) → Matches o out → await_latency float out ≡ latency o
  unfolding await_latency
  await_latency-Matches none out h =
      ap (await_latency float) (sym (append-nil out))
      ∙ await_latency-Follows float out [] h Follows.nothing
  await_latency-Matches (some p) out h = ap (await_latency float) h.0 ∙ await_latency-printed p h.1

get_elem?-of_map :
    {A B : Type 0} (f : A → B) (xs : List A) (i : ℕ) (b : B)
    → get_elem? (map f xs) i ≡ some b
    → (x : A) × (get_elem? xs i ≡ some x) × (f x ≡ b)
get_elem?-of_map f [] i b e = cc
get_elem?-of_map f (x ∷ xs) zero b e = (x, refl, cc)
get_elem?-of_map f (x ∷ xs) (suc i) b e = get_elem?-of_map f xs i b e

All-of_map :
    {A B : Type 0} (P : B → Type 0) (f : A → B) (xs : List A)
    → All P (map f xs)
    → All (λ x. P (f x)) xs
All-of_map P f [] h = tt
All-of_map P f (x ∷ xs) h = (h.0, All-of_map P f xs h.1)

module _ (float : Decimal → ℕ) (out : Text → Text) (pings : Node → Option Summary) where
  abbrev pub IsPinged : Node → Type 0
  IsPinged h = Matches float (pings h) (out (ping_cmd h))

  abbrev measured : Node → Text × Option ℕ
  measured h = (h.ip, latency float (pings h))

  latencies :
      (cluster : List Node)
      → All IsPinged cluster
      → map (λ h. (h.ip, await_latency float (out (ping_cmd h)))) cluster ≡ map measured cluster
  latencies [] h = refl
  latencies (x ∷ cluster) h =
      rw (await_latency-Matches float (pings x) _ h.0, latencies cluster h.1) refl

  -- When each ping prints a summary or nothing with a slash, the address of a host of the cluster is chosen;
  -- if any host has answered, it has, with an average that is not above that of any other one that has.
  pub closest_host-printed :
      (first : Node) (others : List Node)
      → All IsPinged (first ∷ others)
      → (h : Node) × (k : ℕ) × (closest_host float out (first ∷ others) ≡ ok (measured h))
        × (get_elem? (first ∷ others) k ≡ some h)
        × All (λ g. AtMost (latency float (pings h)) (latency float (pings g))) (first ∷ others)
  unfolding closest_host
  closest_host-printed first others h =
      let cluster = first ∷ others in
      let (best, i, found, at, all) = min_latency_lem (measured first) (map measured others) in
      let (node, there, same) = get_elem?-of_map measured cluster i best at in
      (
        node,
        i,
        ap min_latency (latencies cluster h) ∙ found ∙ ap ok (sym same),
        there,
        subst (λ (b : Text × Option ℕ). All (λ g. AtMost b.1 (measured g).1) cluster) (sym same)
            (All-of_map (λ x. AtMost best.1 x.1) measured cluster all),
      )
