-- ===== src/Cluster.antt =====
-- The hosts of a cluster, as the faults and the systems see them (reckon/reckon_types.py): a host is
-- an object, so that two hosts are equal when they are the same one; `id` tells them apart.
use reckon_k8s.Prelude.{
  ℕ, Bool, true, false, List, [], ◌∷◌, ◌==◌, not, if◌then◌else◌, Option, none, some, zero, suc,
}
use reckon_k8s.Text.{Text}

pub data NodeType : Type 0 where
  control_plane worker load_balancer : NodeType

pub record Node : Type 0 where
  pub id : ℕ
  pub name : Text
  pub ip : Text
  pub node_type : NodeType

-- `h == leader`
abbrev pub same : Node → Node → Bool
same a b = a.id == b.id

abbrev pub is_control : Node → Bool
is_control n = elim n.node_type [ NodeType.control_plane ↦ true | _ ↦ false ]

abbrev pub is_worker : Node → Bool
is_worker n = elim n.node_type [ NodeType.worker ↦ true | _ ↦ false ]

-- `[h for h in cluster if p(h)]`
abbrev pub only : (Node → Bool) → List Node → List Node
only p [] = []
only p (h ∷ hs) = if p h then h ∷ only p hs else only p hs

-- `[h for h in cluster if not h == x]`
abbrev pub others : Node → List Node → List Node
others x hs = only (λ h. not (same h x)) hs

-- `hs.index(x)`; with no such item it raises.
abbrev pub index_of : Node → List Node → Option ℕ
index_of x [] = none
index_of x (h ∷ hs) =
    let rest = index_of x hs in
    if same h x then some zero else elim rest [ none ↦ none | some i ↦ some (suc i) ]
