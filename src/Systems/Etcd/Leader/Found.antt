-- ===== src/Systems/Etcd/Leader/Found.antt =====
-- The leader that `get_leader` finds.
use reckon_k8s.Prelude.{
  sym, ℕ, zero, suc, ◌≡◌, refl, ap, ◌∙◌, true, false, List, [], ◌∷◌, ◌++◌, map, some, get_elem?,
  All,
}
use reckon_k8s.Outcome.{Outcome, ok, raise, value_error}
use reckon_k8s.Text.{Text, text_eq}
use reckon_k8s.Text.Decimal.{text_eq_iff}
use reckon_k8s.Text.Dict.{Distinct, absent-map, text_eq_comm}
use reckon_k8s.Text.Split.{split_on}
use reckon_k8s.Cluster.{Node}
use reckon_k8s.Systems.Etcd.Leader.{
  find_endpoint, parse_resp, host_with, leader_from, ask_each, get_leader,
}
use reckon_k8s.Systems.Etcd.Leader.Statuses.{
  Status, IsPrintable, printed, leader_ip, parse_resp-printed,
}

host_with-found :
    (cluster : List Node) (k : ℕ) (leader : Node)
    → get_elem? cluster k ≡ some leader
    → Distinct (map (λ h. h.ip) cluster)
    → host_with leader.ip cluster ≡ ok leader
host_with-found [] k leader at d = cc
host_with-found (h ∷ cluster) zero leader at d =
    let e : h ≡ leader = cc in
    let same : text_eq leader.ip h.ip ≡ true =
      (text_eq_iff leader.ip h.ip).1 (ap (λ x. x.ip) (sym e)) in
    rw same (ap Outcome.ok e)
host_with-found (h ∷ cluster) (suc k) leader at d =
    let other : text_eq leader.ip h.ip ≡ false =
      text_eq_comm leader.ip h.ip ∙ absent-map (λ x. x.ip) h.ip k cluster leader at d.0 in
    rw other (host_with-found cluster k leader at d.1)

silent : (cluster : List Node) → leader_from cluster [] ≡ raise value_error
unfolding leader_from parse_resp split_on find_endpoint
silent cluster = refl

ask_each-front :
    (reply : Node → Text) (cluster front hosts : List Node)
    → All (λ d. reply d ≡ []) front
    → ask_each reply cluster (front ++ hosts) ≡ ask_each reply cluster hosts
unfolding ask_each
ask_each-front reply cluster [] hosts h = refl
ask_each-front reply cluster (d ∷ front) hosts h =
    rw (h.0, silent cluster) (ask_each-front reply cluster front hosts h.1)

-- In a cluster with distinct addresses, when the hosts before `h` give no reply and `h` replies with
-- the statuses, `get_leader` returns the host whose status is the first that leads.
pub get_leader-printed :
    (reply : Node → Text) (front rest : List Node) (h : Node) (ss : List Status) (k : ℕ)
    (leader : Node)
    → All (λ d. reply d ≡ []) front
    → reply h ≡ printed ss
    → All IsPrintable ss
    → leader_ip ss ≡ some leader.ip
    → get_elem? (front ++ h ∷ rest) k ≡ some leader
    → Distinct (map (λ d. d.ip) (front ++ h ∷ rest))
    → get_leader reply (front ++ h ∷ rest) ≡ some leader
unfolding get_leader
get_leader-printed reply front rest h ss k leader down answer printable leads at distinct =
    let cluster = front ++ h ∷ rest in
    let found : leader_from cluster (reply h) ≡ ok leader = rw answer (
      unfold leader_from in
      rw (parse_resp-printed ss printable, leads) (host_with-found cluster k leader at distinct)) in
    ask_each-front reply cluster front (h ∷ rest) down ∙ unfold ask_each in rw found refl
