-- ===== src/Tests/Systems.antt =====
-- The choices of the systems at concrete inputs.
use reckon_k8s.Prelude.{
  ◌++◌, arith, ℕ, ◌==◌, if◌then◌else◌, ◌≡◌, refl, ◌⊎◌, List, [], ◌∷◌, Option, none, some, get_elem?,
  All,
}
use reckon_k8s.Outcome.{ok, raise, index_error}
use reckon_k8s.Text.{Text, codes, text_eq}
use reckon_k8s.Cluster.{Node, NodeType}
use reckon_k8s.Systems.Ocons.Logs.{leader}
use reckon_k8s.Systems.Ocons.Logs.Entries.{Entry}
use reckon_k8s.Systems.Ocons.Logs.Entries
use reckon_k8s.Systems.Ocons.Choices.{AtMost}
use reckon_k8s.Systems.Ocons.Pings.{Decimal, ping_cmd, closest_host}
use reckon_k8s.Systems.Ocons.Pings.Summaries.{Summary, printed, latency, closest_host-printed}
use reckon_k8s.Text.Decimal.{read}
use reckon_k8s.Systems.Ocons.Logs.Terms.{HasLed, NoneAfter, leader-printed}
use reckon_k8s.Tests.Start.{settings}

abbrev first : Node
first = record { id = 0; name = codes "h1"; ip = codes "10.0.0.1"; node_type = NodeType.worker }

abbrev second : Node
second = record { id = 1; name = codes "h2"; ip = codes "10.0.0.2"; node_type = NodeType.worker }

abbrev hosts : List Node
hosts = first ∷ second ∷ []

-- The first host has led the terms 2 and 9, the second one the term 5.
abbrev history : Node → List Entry
history h =
    if h.id == 0
    then record { before = codes "a "; term = 2; rest = [] }
      ∷ record { before = codes "b "; term = 9; rest = codes " ok" }
      ∷ []
    else record { before = []; term = 5; rest = [] } ∷ []

abbrev log_of : Node → Text → Text
log_of h cmd = Entries.printed (history h)

leader-printed_example :
    All (λ h. NoneAfter 0 (history h)) hosts × (leader settings log_of hosts ≡ raise index_error)
    ⊎ ((h : Node) × (t : ℕ) × (k : ℕ) × (leader settings log_of hosts ≡ ok (h, t))
        × (get_elem? hosts k ≡ some h)
        × HasLed t (history h)
        × All (λ g. NoneAfter t (history g)) hosts)
leader-printed_example = leader-printed settings log_of history hosts (
  (
    refl,
    (
      record {
        no_l = (refl, (refl, tt));
        ends = refl;
        before_unbroken = (refl, (refl, tt));
        rest_unbroken = tt;
      },
      (
        record {
          no_l = (refl, (refl, tt));
          ends = refl;
          before_unbroken = (refl, (refl, tt));
          rest_unbroken = (refl, (refl, (refl, tt)));
        },
        tt,
      ),
    ),
  ),
  ((refl, (record { no_l = tt; ends = refl; before_unbroken = tt; rest_unbroken = tt }, tt)), tt),
)

-- The second host answers in 0.35 ms on average, and the first one does not.
abbrev answer : Summary
answer = record {
  before = codes "0% loss\n";
  low = (codes "0", codes "31");
  average = (codes "0", codes "35");
  high = (codes "0", codes "50");
  mdev = (codes "0", codes "02");
  rest = codes " ms\n";
}

abbrev ping_of : Node → Option Summary
ping_of h = if h.id == 0 then none else some answer

abbrev ping_out : Text → Text
ping_out cmd = if text_eq cmd (ping_cmd second) then printed answer else []

-- The number of hundredths of a decimal with two digits after its point.
abbrev hundredths : Decimal → ℕ
hundredths d = read 0 (d.0 ++ d.1)

closest_host-printed_example :
    (h : Node) × (k : ℕ) × (closest_host hundredths ping_out hosts
      ≡ ok (h.ip, latency hundredths (ping_of h)))
    × (get_elem? hosts k ≡ some h)
    × All (λ g. AtMost (latency hundredths (ping_of h)) (latency hundredths (ping_of g))) hosts
closest_host-printed_example =
    closest_host-printed hundredths ping_out ping_of first (second ∷ []) (
      tt,
      (
        (
          refl,
          record {
            no_slash = (refl, (refl, (refl, (refl, (refl, (refl, (refl, (refl, tt))))))));
            low = (omega arith, (refl, tt), (refl, (refl, tt)));
            average = (omega arith, (refl, tt), (refl, (refl, tt)));
            high = (omega arith, (refl, tt), (refl, (refl, tt)));
            mdev = (omega arith, (refl, tt), (refl, (refl, tt)));
          },
        ),
        tt,
      ),
    )
