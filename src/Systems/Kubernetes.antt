-- ===== src/Systems/Kubernetes.antt =====
-- `start_nodes` of reckon/systems/kubernetes/__init__.py: what is run on each node of the cluster. The
-- files that the package yaml makes are parameters.
pub mod Bootstrap
pub mod Client
pub mod Leader
use reckon_k8s.Prelude.{ℕ, suc, Bool, true, false, List, [], ◌∷◌, ◌++◌, if◌then◌else◌, not, ◌&&◌}
use reckon_k8s.Outcome.{Outcome, ok, raise, ◌>>=◌, index_error, attribute_error}
use reckon_k8s.Text.{Text, codes, str}
use reckon_k8s.Text.Dict.{Dict, put}
use reckon_k8s.Cluster.{Node, NodeType, is_control}
use reckon_k8s.Systems.Screen.{get_node_tag}

-- A command on a node, and the functions in the dictionaries. The one that restarts a node is given the
-- command that starts it as well, which its body does not use.
pub record Command : Type 0 where
  pub node : Node
  pub text : Text

pub data Handler : Type 0 where
  pause terminate restart : Node → Handler

-- The files: `haproxy` is the template, `kubeadm endpoint node` and `cni endpoint` are dumped.
pub record Templates : Type 0 where
  pub haproxy : Text
  pub kubeadm : Text → Node → Text
  pub cni : Text → Text

pub record Started : Type 0 where
  pub commands : List Command
  pub restarters : Dict Handler
  pub stoppers : Dict Handler
  pub killers : Dict Handler
  pub bootstrapped : Bool

abbrev pub nothing_started : Started
nothing_started = record {
  commands = [];
  restarters = [];
  stoppers = [];
  killers = [];
  bootstrapped = false;
}

-- `kubecluster[0].endpoint`, which workers do not have.
unfoldable pub api_endpoint : List Node → Outcome Text
api_endpoint [] = raise index_error
api_endpoint (first ∷ rest) = elim first.node_type [
  | NodeType.worker ↦ raise attribute_error
  | _ ↦ ok (first.ip ++ codes ":6443")
]

-- The lines of the control planes in the configuration of the load balancer.
unfoldable pub servers : List Node → Text
servers [] = []
servers (node ∷ nodes) =
    let rest = servers nodes in
    if is_control node
    then codes "  server "
      ++ (node.name
          ++ (codes " "
              ++ (node.ip
                  ++ (codes
                        ":6443 check check-ssl verify none resolvers docker resolve-prefer ipv4\n"
                      ++ rest))))
    else rest

abbrev pub log_dir : ℕ → Text
log_dir i = codes "/results/logs/node_" ++ str i

module _ (templates : Templates) (creation_time : Text) (cluster : List Node)
    (endpoint : Text) where
  -- What is run on a node before it is started.
  unfoldable pub prepare : ℕ → Node → Bool → List Command
  prepare i node bootstrapped = elim node.node_type [
    | NodeType.load_balancer ↦
        record {
          node = node;
          text =
              codes "cat > /usr/local/etc/haproxy/haproxy.cfg << EOF\n"
              ++ (templates.haproxy ++ (codes "\n" ++ (servers cluster ++ codes "\nEOF")));
        }
        ∷ record { node = node; text = codes "mkdir -p " ++ log_dir i }
        ∷ []
    | other ↦
        record {
          node = node;
          text =
              codes "echo '" ++ (templates.kubeadm endpoint node ++ codes "' > /kind/kubeadm.conf");
        }
        ∷ record { node = node; text = codes "mkdir -p " ++ log_dir i }
        ∷ (if is_control node && not bootstrapped
            then record {
              node = node;
              text =
                  codes "echo '"
                  ++ (templates.cni endpoint ++ codes "' > /kind/manifests/patched-cni.conf");
            }
              ∷ []
            else [])
  ]

  -- `start_cmd`, without its logging: the first control plane makes the cluster, and the others join it.
  unfoldable pub start_cmd : Node → (bootstrapped : Bool) → Text
  start_cmd node bootstrapped = elim node.node_type [
    | NodeType.load_balancer ↦ codes "haproxy -W -D -f /usr/local/etc/haproxy/haproxy.cfg"
    | NodeType.control_plane ↦
        if bootstrapped then codes "source /kind/startwn.sh" else codes "source /kind/startcp.sh"
    | NodeType.worker ↦ codes "source /kind/startwn.sh"
  ]

  -- `add_stderr_logging` and `add_stdout_logging` with `verbose`.
  abbrev pub logged : ℕ → Node → Text → Text
  logged i node command =
      let log =
        log_dir i
        ++ (codes "/" ++ (creation_time ++ (codes "_" ++ (get_node_tag node ++ codes ".log")))) in
      command
      ++ (codes " 2> " ++ (log ++ (codes ".err" ++ (codes " | tee " ++ (log ++ codes ".out")))))

  -- The body of the loop, for the node at the index `i`.
  abbrev pub start_node : ℕ → Node → Started → Started
  start_node i node s =
      let tag = get_node_tag node in
      let command = logged i node (start_cmd node s.bootstrapped) in
      record {
        commands =
            s.commands
            ++ (prepare i node s.bootstrapped ++ record { node = node; text = command } ∷ []);
        restarters = put tag (restart node) s.restarters;
        stoppers = put tag (pause node) s.stoppers;
        killers = put tag (terminate node) s.killers;
        bootstrapped = if is_control node then true else s.bootstrapped;
      }

  unfoldable pub start_each : ℕ → List Node → Started → Started
  start_each i [] s = s
  start_each i (node ∷ nodes) s = start_each (suc i) nodes (start_node i node s)

unfoldable pub start_nodes : Templates → (creation_time : Text) → List Node → Outcome Started
start_nodes templates creation_time cluster = do
  endpoint ← api_endpoint cluster
  ok (start_each templates creation_time cluster endpoint 0 cluster nothing_started)
