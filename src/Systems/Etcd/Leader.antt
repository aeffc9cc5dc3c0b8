-- ===== src/Systems/Etcd/Leader.antt =====
-- `parse_resp` and `get_leader` of reckon/systems/etcd/__init__.py.
pub mod Statuses
pub mod Found
use reckon_k8s.Prelude.{
  ℕ, Bool, true, false, List, [], ◌∷◌, Option, none, some, get_elem?, if◌then◌else◌,
}
use reckon_k8s.Outcome.{Outcome, ok, raise, or_raise, ◌>>=◌, index_error, value_error}
use reckon_k8s.Text.{Text, codes, text_eq}
use reckon_k8s.Text.Split.{split_on, strip, last_of, but_last}
use reckon_k8s.Cluster.{Node}

abbrev pub first_of : List Text → Text
first_of [] = []
first_of (x ∷ xs) = x

-- `endpoint_ip`, of the first field of a line.
unfoldable pub endpoint_ip : Text → Text
endpoint_ip field = first_of (split_on (codes ":") (last_of [] (split_on (codes "://") field)))

-- The loop of `parse_resp`; a line without five fields raises.
unfoldable pub find_endpoint : List Text → Outcome (Option Text)
find_endpoint [] = ok none
find_endpoint (endpoint ∷ rest) =
    let found = find_endpoint rest in
    let fields = split_on (codes ",") endpoint in
    or_raise (get_elem? fields 4) index_error >>= λ field.
    if text_eq (strip field) (codes "true")
    then ok (some (endpoint_ip (first_of fields)))
    else found

unfoldable pub parse_resp : Text → Outcome (Option Text)
parse_resp resp = find_endpoint (but_last (split_on (codes "\n") resp))

-- `cluster[ips.index(ip)]`
abbrev pub host_with : Text → List Node → Outcome Node
host_with ip [] = raise value_error
host_with ip (h ∷ hosts) = let rest = host_with ip hosts in if text_eq ip h.ip then ok h else rest

-- What is tried on a host, from what it replies.
unfoldable pub leader_from : List Node → Text → Outcome Node
leader_from cluster resp = do
  ip ← parse_resp resp
  known ← or_raise ip value_error
  host_with known cluster

abbrev pub or_next : Outcome Node → Option Node → Option Node
or_next (ok leader) rest = some leader
or_next (raise e) rest = rest

-- The loop of `get_leader`: an exception goes on to the next host, and after the last `None` is
-- returned.
unfoldable pub ask_each : (reply : Node → Text) → List Node → List Node → Option Node
ask_each reply cluster [] = none
ask_each reply cluster (h ∷ hosts) =
    let rest = ask_each reply cluster hosts in or_next (leader_from cluster (reply h)) rest

unfoldable pub get_leader : (reply : Node → Text) → List Node → Option Node
get_leader reply cluster = ask_each reply cluster cluster
