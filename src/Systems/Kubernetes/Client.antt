-- ===== src/Systems/Kubernetes/Client.antt =====
-- The client of reckon/systems/kubernetes/__init__.py and its start. Its pipes are those of
-- `Runner.Preload.Client`.
use reckon_k8s.Prelude.{Bool, ◌++◌, Option, none, some, if◌then◌else◌}
use reckon_k8s.Outcome.{Outcome, ok, raise, not_supported}
use reckon_k8s.Text.{Text, codes, text_eq}
use reckon_k8s.Cluster.{Node}
use reckon_k8s.Systems.Screen.{get_client_tag}
use reckon_k8s.Systems.Etcd.{shown_bool}

pub record Go : Type 0 where
  pub ncpr : Bool
  pub light_reads : Bool

-- `Go.cmd`, which does not use the addresses.
unfoldable pub cmd : Go → (client_id : Text) → Text
cmd go client_id =
    codes "/root/reckon/systems/kubernetes/clients/simple/client --id="
    ++ (client_id
        ++ (codes " --ncpr="
            ++ (shown_bool go.ncpr
                ++ (codes " --kubeconfig=/files/kubefiles/config --light_reads="
                    ++ shown_bool go.light_reads))))

-- `get_client`, on the arguments `client`, `new_client_per_request` and `light_reads`.
unfoldable pub get_client : Option Text → (ncpr light_reads : Bool) → Outcome Go
get_client none ncpr light_reads = ok (record { ncpr = ncpr; light_reads = light_reads })
get_client (some c) ncpr light_reads =
    if text_eq c (codes "go")
    then ok (record { ncpr = ncpr; light_reads = light_reads })
    else raise not_supported

-- The command that `start_client` runs on a client, with its logging.
unfoldable pub start_client : (creation_time : Text) → Go → Node → (client_id : Text) → Text
start_client creation_time go host client_id =
    cmd go client_id
    ++ (codes " 2> /results/logs/"
        ++ (creation_time ++ (codes "_" ++ (get_client_tag host ++ codes ".log.err"))))
