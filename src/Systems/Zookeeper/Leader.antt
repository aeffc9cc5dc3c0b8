-- ===== src/Systems/Zookeeper/Leader.antt =====
-- `get_leader` of reckon/systems/zookeeper/__init__.py: the first host that says that it leads.
use reckon_k8s.Prelude.{
  ◌≡◌, refl, ap, ◌⊎◌, inl, inr, List, [], ◌∷◌, ◌++◌, All, Bool-cases, if◌then◌else◌,
}
use reckon_k8s.Outcome.{Outcome, ok, raise, no_leader}
use reckon_k8s.Text.{Text, codes}
use reckon_k8s.Text.Search.{occurs, Within, occurs-Within, not-Within}
use reckon_k8s.Cluster.{Node}

abbrev pub mode : Text
mode = codes "Mode: leader"

-- `get_leader`, on what the hosts reply to `echo stat | nc localhost 2379 | grep Mode`.
unfoldable pub get_leader : (reply : Node → Text) → List Node → Outcome Node
get_leader reply [] = raise no_leader
get_leader reply (h ∷ hosts) =
    let rest = get_leader reply hosts in if occurs mode (reply h) then ok h else rest

-- The host is the first of the cluster that says that it leads.
abbrev pub IsFirst : (Node → Text) → List Node → Node → Type 0
IsFirst reply cluster h =
    (front rest : List Node) × (cluster ≡ front ++ h ∷ rest)
    × Within mode (reply h)
    × All (λ x. ¬ Within mode (reply x)) front

-- For all replies, the call returns the first host whose reply has `Mode: leader` in it; where there is no
-- such host it raises.
pub get_leader-IsFirst :
    (reply : Node → Text) (cluster : List Node)
    → ((h : Node) × (get_leader reply cluster ≡ ok h) × IsFirst reply cluster h)
      ⊎ ((get_leader reply cluster ≡ raise no_leader) × All (λ x. ¬ Within mode (reply x)) cluster)
unfolding get_leader
get_leader-IsFirst reply [] = inr (refl, tt)
get_leader-IsFirst reply (h ∷ hosts) = elim (Bool-cases (occurs mode (reply h))) [
  | inl y ↦ inl (h, rw y refl, ([], hosts, refl, occurs-Within mode (reply h) y, tt))
  | inr n ↦
      let silent = not-Within mode (reply h) n in
      elim (get_leader-IsFirst reply hosts) [
        | inl (k, e, (front, rest, at, leads, before)) ↦
            inl (k, rw n e, (h ∷ front, rest, ap (λ l. h ∷ l) at, leads, (silent, before)))
        | inr (e, all) ↦ inr (rw n e, (silent, all))
      ]
]
