-- ===== src/Systems/Kubernetes/Bootstrap.antt =====
-- Which node makes the cluster, and which functions stop, remove and restart each node.
use reckon_k8s.Prelude.{
  ℕ, suc, ◌≡◌, Bool, true, false, not, ◌&&◌, List, [], ◌∷◌, ◌++◌, map, if◌then◌else◌,
}
use reckon_k8s.Text.{Text, codes}
use reckon_k8s.Text.Dict.{Dict}
use reckon_k8s.Cluster.{Node, NodeType, is_control}
use reckon_k8s.Systems.Screen.{get_node_tag}
use reckon_k8s.Systems.Start.Tables.{IsNew}
use reckon_k8s.Systems.Kubernetes.{
  Command, Handler, pause, terminate, restart, prepare, Templates, Started, start_cmd, logged,
  start_node,
}

-- The command of a node that joins the cluster.
abbrev pub join_cmd : Node → Text
join_cmd node = elim node.node_type [
  | NodeType.load_balancer ↦ codes "haproxy -W -D -f /usr/local/etc/haproxy/haproxy.cfg"
  | _ ↦ codes "source /kind/startwn.sh"
]

-- A node that does not make the cluster.
abbrev pub Joins : Bool → Node → Type 0
Joins bootstrapped h = (is_control h && not bootstrapped) ≡ false

-- A table with a function for each node.
abbrev pub tagged : (Node → Handler) → List Node → Dict Handler
tagged f hosts = map (λ h. (get_node_tag h, f h)) hosts

-- What is run on a node: the commands that prepare it, and the one that starts it.
pub record Launch : Type 0 where
  pub node : Node
  pub before : List Command
  pub command : Text

abbrev pub ran : List Launch → List Command
ran [] = []
ran (l ∷ launches) = (l.before ++ record { node = l.node; text = l.command } ∷ []) ++ ran launches

abbrev pub restarts : List Launch → Dict Handler
restarts launches = map (λ l. (get_node_tag l.node, restart l.node)) launches

module _ (templates : Templates) (time : Text) (cluster : List Node) (endpoint : Text) where
  abbrev pub joining : ℕ → List Node → List Launch
  joining i [] = []
  joining i (h ∷ hosts) =
      record {
        node = h;
        before = prepare templates time cluster endpoint i h true;
        command = logged templates time cluster endpoint i h (join_cmd h);
      }
      ∷ joining (suc i) hosts

  abbrev pub making : ℕ → Node → Launch
  making i h = record {
    node = h;
    before = prepare templates time cluster endpoint i h false;
    command = logged templates time cluster endpoint i h (codes "source /kind/startcp.sh");
  }

  -- The dictionaries grow by these.
  abbrev Grows : Started → Started → Dict Handler → List Node → Bool → Type 0
  Grows s s' table hosts b =
      (s'.restarters ≡ s.restarters ++ table)
      × (s'.stoppers ≡ s.stoppers ++ tagged Handler.pause hosts)
      × (s'.killers ≡ s.killers ++ tagged Handler.terminate hosts)
      × (s'.bootstrapped ≡ b)

  abbrev AllNew : Started → List Node → Type 0
  AllNew s hosts = IsNew s.restarters hosts × IsNew s.stoppers hosts × IsNew s.killers hosts

  abbrev started : ℕ → Node → Started → Started
  started i h s = start_node templates time cluster endpoint i h s

  -- What is run on the nodes, when the cluster is made or not.
  abbrev launches : ℕ → List Node → Bool → List Launch
  launches i [] b = []
  launches i (h ∷ hosts) b =
      record {
        node = h;
        before = prepare templates time cluster endpoint i h b;
        command =
            logged templates time cluster endpoint i h
              (start_cmd templates time cluster endpoint h b);
      }
      ∷ launches (suc i) hosts (if is_control h then true else b)
