-- ===== src/Topology/KuberNet/Attributes.antt =====
-- `setKubeAttrs` of reckon/reckon_types.py: what a node of a cluster gets of its place. The attributes
-- that are only passed on (`volume`, `node_img` and `docker_vols`) are left out.
pub mod Numbers
use reckon_k8s.Prelude.{
  ℕ, ◌+◌, ◌-◌, ◌==◌, Bool, true, false, ◌&&◌, List, [], ◌∷◌, ◌++◌, Option, none, some,
  if◌then◌else◌,
}
use reckon_k8s.Prelude.Int.{ℤ, pos, sub_ℕ, pos_part, neg_part}
use reckon_k8s.Outcome.{Outcome, ok, raise, ◌>>=◌, value_error}
use reckon_k8s.Text.{Text, codes}
use reckon_k8s.Text.Decimal.{read, is_digit}
use reckon_k8s.Text.Split.{split_on, last_of}
use reckon_k8s.Cluster.{NodeType}
use reckon_k8s.Topology.KuberNet.{KubeNode}

-- The attributes of a node; one that is not set is `none`.
pub record Attributes : Type 0 where
  pub k8s_name : Text
  pub ip_addr : Text
  pub node_type : NodeType
  pub endpoint : Option Text
  pub worker_num : Option ℤ
  pub is_control : Bool

abbrev pub all_digits : Text → Bool
all_digits [] = true
all_digits (c ∷ s) = is_digit c && all_digits s

abbrev pub unsigned : Text → Outcome ℕ
unsigned [] = raise value_error
unsigned (c ∷ s) = if all_digits (c ∷ s) then ok (read 0 (c ∷ s)) else raise value_error

-- `int(s)`, of digits with a minus sign or none.
abbrev pub as_int : Text → Outcome ℤ
as_int [] = raise value_error
as_int (c ∷ s) =
    if c == b'-' then (do n ← unsigned s; ok (sub_ℕ 0 n)) else (do n ← unsigned (c ∷ s); ok (pos n))

-- `ip_addr.split(".")[-1]`
abbrev pub last_part : List Text → Text
last_part [] = []
last_part (x ∷ xs) = last_of x xs

unfoldable pub set_kube_attrs : NodeType → (name ip_addr : Text) → Outcome Attributes
set_kube_attrs NodeType.worker name ip_addr = do
  last_ip ← as_int (last_part (split_on (codes ".") ip_addr))
  ok (record {
    k8s_name = name;
    ip_addr = ip_addr;
    node_type = NodeType.worker;
    endpoint = none;
    worker_num = some (sub_ℕ (255 + neg_part last_ip) (pos_part last_ip));
    is_control = false;
  })
set_kube_attrs type name ip_addr = ok (record {
  k8s_name = name;
  ip_addr = ip_addr;
  node_type = type;
  endpoint = some (ip_addr ++ codes ":6443");
  worker_num = none;
  is_control = true;
})

-- The calls of `setKubeAttrs` by `createCluster`.
unfoldable pub set_all : List KubeNode → Outcome (List Attributes)
set_all [] = ok []
set_all (n ∷ ns) = do
  attrs ← set_kube_attrs n.node_type n.name n.ip_addr
  rest ← set_all ns
  ok (attrs ∷ rest)
