-- ===== src/Systems/Etcd.antt =====
-- reckon/systems/etcd/__init__.py: the commands that start the nodes and the clients of etcd.
pub mod Leader
use reckon_k8s.Prelude.{
  ℕ, Bool, true, false, List, [], ◌∷◌, ◌++◌, map, Option, none, some, if◌then◌else◌,
}
use reckon_k8s.Outcome.{Outcome, ok, raise, not_supported}
use reckon_k8s.Text.{Text, codes, str, join, text_eq}
use reckon_k8s.Cluster.{Node}
use reckon_k8s.Systems.Floats.{Floats}
use reckon_k8s.Systems.Screen.{
  Settings, get_node_tag, get_client_tag, add_stderr_logging, add_stdout_logging, Act,
}
use reckon_k8s.Systems.Start.{Plan}

-- `Go` and `GoTracer`, which differ in the path.
pub record Go : Type 0 where
  pub client_path : Text
  pub ncpr : Bool

abbrev pub shown_bool : Bool → Text
shown_bool true = codes "True"
shown_bool false = codes "False"

unfoldable pub cmd : Go → (ips : List Text) → (client_id : Text) → Text
cmd self ips client_id =
    self.client_path
    ++ (codes " --targets="
        ++ (join (codes ",") (map (λ ip. codes "http://" ++ (ip ++ codes ":2379")) ips)
            ++ (codes " --id=" ++ (client_id ++ (codes " --ncpr=" ++ shown_bool self.ncpr)))))

-- `get_client`, on the arguments `client` and `new_client_per_request`.
unfoldable pub get_client : Option Text → Bool → Outcome Go
get_client none ncpr =
    ok (record { client_path = codes "reckon/systems/etcd/clients/go/client"; ncpr = ncpr })
get_client (some c) ncpr =
    if text_eq c (codes "go")
    then ok (record { client_path = codes "reckon/systems/etcd/clients/go/client"; ncpr = ncpr })
    else if text_eq c (codes "go-tracer")
    then ok
        (record { client_path = codes "reckon/systems/etcd/clients/go-tracer/client"; ncpr = ncpr })
    else raise not_supported

-- `cluster_str`
unfoldable pub cluster_str : List Node → Text
cluster_str cluster =
    join (codes ",")
      (map (λ h. get_node_tag h ++ (codes "=http://" ++ (h.ip ++ codes ":2380"))) cluster)

module _ {F : Type 0} (floats : Floats F) (binary_path : Text) (self : Settings F) where
  -- `start_cmd(cluster_state)`, for a host of the cluster.
  unfoldable pub start_cmd : List Node → Node → Text → Text
  start_cmd cluster host cluster_state =
      let tag = get_node_tag host in
      let thousand = floats.of_ratio 1000 1 in
      let ten = floats.of_ratio 10 1 in
      let election_timeout = floats.times self.failure_timeout thousand in
      let heartbeat_interval = floats.divided_by election_timeout ten in
      let etcd_cmd = join (codes " ") (
        binary_path
        ∷ (codes "--data-dir=" ++ (self.data_dir ++ (codes "/" ++ tag)))
        ∷ (codes "--name " ++ tag)
        ∷ (codes "--initial-advertise-peer-urls http://" ++ (host.ip ++ codes ":2380"))
        ∷ (codes "--listen-peer-urls http://" ++ (host.ip ++ codes ":2380"))
        ∷ codes "--listen-client-urls http://0.0.0.0:2379"
        ∷ (codes "--advertise-client-urls http://" ++ (host.ip ++ codes ":2379"))
        ∷ (codes "--initial-cluster " ++ cluster_str cluster)
        ∷ codes "--initial-cluster-token reckon_cluster"
        ∷ (codes "--initial-cluster-state " ++ cluster_state)
        ∷ (codes "--heartbeat-interval=" ++ str (floats.truncated heartbeat_interval))
        ∷ (codes "--election-timeout=" ++ str (floats.truncated election_timeout))
        ∷ []) in
      let log = tag ++ codes ".log" in
      add_stdout_logging self (add_stderr_logging self etcd_cmd log) log false

  -- What the loop of `start_nodes` does for a host.
  unfoldable pub plan : List Node → ℕ → Node → Plan
  plan cluster i host = record {
    prepare = ok [];
    first = start_cmd cluster host (codes "new");
    again = start_cmd cluster host (codes "existing");
  }
