-- ===== src/Systems/Ocons/Pings.antt =====
-- `OConsConspireDC.min_latency` of reckon/systems/ocons/__init__.py, which pings the hosts of a cluster
-- and reads the average of what `ping` prints. Prints are taken to be ASCII; what `ping` prints and the
-- number that a decimal stands for are parameters.
pub mod Patterns
pub mod Summaries
use reckon_k8s.Prelude.{ℕ, ◌==◌, Bool, List, [], ◌∷◌, ◌++◌, map, Option, none, some, if◌then◌else◌}
use reckon_k8s.Outcome.{Outcome}
use reckon_k8s.Text.{Text, codes}
use reckon_k8s.Text.Decimal.{is_digit}
use reckon_k8s.Cluster.{Node}
use reckon_k8s.Systems.Ocons.{min_latency}
use reckon_k8s.Systems.Ocons.Logs.{digits_of, or_else}

-- What follows the digits at the start of a text.
abbrev pub drop_digits : Text → Text
drop_digits [] = []
drop_digits (c ∷ s) = let rest = drop_digits s in if is_digit c then rest else c ∷ s

abbrev pub after_char : ℕ → Text → Option Text
after_char d [] = none
after_char d (c ∷ s) = if c == d then some s else none

-- A decimal: the digits before and after the point.
abbrev pub Decimal : Type 0
Decimal = Text × Text

abbrev pub decimal_of : Text → Option Text → Option (Decimal × Text)
decimal_of [] rest = none
decimal_of (d ∷ ds) none = none
decimal_of (d ∷ ds) (some rest) = some ((d ∷ ds, digits_of rest), drop_digits rest)

-- `\d+\.\d*` at the start of a text, and what follows.
abbrev pub decimal : Text → Option (Decimal × Text)
decimal s = decimal_of (digits_of s) (after_char b'.' (drop_digits s))

abbrev pub with_rest : Decimal → Option Text → Option (Decimal × Text)
with_rest d none = none
with_rest d (some rest) = some (d, rest)

-- `/`, after a decimal.
abbrev pub slashed : Option (Decimal × Text) → Option (Decimal × Text)
slashed none = none
slashed (some (d, rest)) = with_rest d (after_char b'/' rest)

abbrev pub and_then : {A B : Type 0} → Option A → (A → Option B) → Option B
and_then none f = none
and_then (some a) f = f a

-- `f"ping {h2.IP()} -c 5 -i 0.2 -q"`
abbrev pub ping_cmd : Node → Text
ping_cmd host = codes "ping " ++ (host.ip ++ codes " -c 5 -i 0.2 -q")

-- `float`
module _ (float : Decimal → ℕ) where
  -- The pattern of `await_latency` at the start of a text.
  abbrev pub average_at : Text → Option ℕ
  average_at s = and_then (slashed (decimal s)) λ (low, s1).
      and_then (slashed (decimal s1)) λ (average, s2).
        and_then (slashed (decimal s2))
          λ (high, s3). and_then (decimal s3) λ (mdev, s4). some (float average)

  -- `await_latency`, of the output.
  unfoldable pub await_latency : Text → Option ℕ
  await_latency [] = none
  await_latency (c ∷ s) = let rest = await_latency s in or_else (average_at (c ∷ s)) rest

  -- The closest host, with its latency, for a cluster whose addresses are distinct; `out` is what a
  -- command prints on the client.
  unfoldable pub closest_host : (out : Text → Text) → List Node → Outcome (Text × Option ℕ)
  closest_host out cluster =
      min_latency (map (λ h. (h.ip, await_latency (out (ping_cmd h)))) cluster)
