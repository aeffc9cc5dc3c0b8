-- ===== src/Systems/Ocons.antt =====
-- Choices that reckon/systems/ocons/__init__.py makes: the closest host and the leader. The
-- latencies and the terms are read of what `ping` prints in Pings, and of the logs in Logs.
pub mod Choices
pub mod Commands
pub mod Logs
pub mod Pings
use reckon_k8s.Prelude.{
  ℕ, suc, Bool, true, false, List, [], ◌∷◌, Option, none, some, leb, ltb, ◌==◌, if◌then◌else◌,
}
use reckon_k8s.Outcome.{Outcome, ok, raise, index_error}
use reckon_k8s.Text.{Text}
use reckon_k8s.Cluster.{Node}

-- The body of the loop of `min_latency`: the closest host so far and the next one.
unfoldable pub closer : Text × Option ℕ → Text × Option ℕ → Text × Option ℕ
closer best (ip, none) = best
closer (min_ip, none) (ip, some latency) = (ip, some latency)
closer (min_ip, some min_latency) (ip, some latency) =
    if leb latency min_latency then (ip, some latency) else (min_ip, some min_latency)

unfoldable pub closest : Text × Option ℕ → List (Text × Option ℕ) → Text × Option ℕ
closest best [] = best
closest best (x ∷ xs) = closest (closer best x) xs

-- `OConsConspireDC.min_latency`, on the latencies of the hosts in the order of the cluster, whose
-- addresses are distinct.
unfoldable pub min_latency : List (Text × Option ℕ) → Outcome (Text × Option ℕ)
min_latency [] = raise index_error
min_latency (first ∷ rest) = ok (closest first (first ∷ rest))

-- `[(host, term) for host, term in terms if term]`, which also drops the term zero.
unfoldable pub with_term : List (Node × Option ℕ) → List (Node × ℕ)
with_term [] = []
with_term ((host, none) ∷ rest) = with_term rest
with_term ((host, some term) ∷ rest) =
    let others = with_term rest in if term == 0 then others else (host, term) ∷ others

-- The loop of `get_leader`, and its body.
unfoldable pub later : Node × ℕ → Node × ℕ → Node × ℕ
later (max_host, max_term) (host, term) =
    if ltb max_term term then (host, term) else (max_host, max_term)

unfoldable pub latest : Node × ℕ → List (Node × ℕ) → Node × ℕ
latest best [] = best
latest best (x ∷ xs) = latest (later best x) xs

-- `terms[0]`, and the loop.
unfoldable pub choose : List (Node × ℕ) → Outcome (Node × ℕ)
choose [] = raise index_error
choose (first ∷ rest) = ok (latest first (first ∷ rest))

-- `Ocons.get_leader`, with the term of the leader.
unfoldable pub get_leader : List (Node × Option ℕ) → Outcome (Node × ℕ)
get_leader terms = choose (with_term terms)
