-- ===== src/Tests/KubeNode.antt =====
-- A worker with one link that is paused and restarted.
use reckon_k8s.Prelude.{◌≡◌, List, Option, refl, true, [], ◌∷◌, none, some}
use reckon_k8s.Outcome.{ok, raise, docker_error}
use reckon_k8s.Text.{Text, codes}
use reckon_k8s.Text.Dict.{Dict}
use reckon_k8s.Topology.KubeNode.{Image, Link, KubeLink, Container, State, pause, restart}
use reckon_k8s.Topology.KubeNode.Cycle.{cycled, refused, restart-pause_again}

abbrev given : Dict (Option Text)
given =
    (codes "delay", some (codes "5ms"))
    ∷ (codes "loss", some (codes "1"))
    ∷ (codes "jitter", none)
    ∷ []

abbrev kind_node : Image
kind_node = record { dimage = codes "kindnode"; dcmd = codes "init"; volumes = []; tmpfs = [] }

abbrev to_switch : Link
to_switch = record {
  intf1 = record { node = 7; node_name = codes "wn"; ip = codes "10.0.0.254"; params = given };
  intf2 = record { node = 1; node_name = codes "s1"; ip = codes ""; params = given };
}

abbrev worker_state : State
worker_state = record {
  self = record {
    id = 7;
    name = codes "wn";
    ip_addr = codes "10.0.0.254";
    image = kind_node;
    running = true;
    kube_links = none;
  };
  container = Container.runs;
  cluster = 5 ∷ 7 ∷ 9 ∷ [];
  calls = [];
}

abbrev kept : List KubeLink
kept =
    record {
      n_from = codes "wn";
      n_to = codes "s1";
      ip_addr_from = codes "10.0.0.254";
      ip_addr_to = codes "";
      delay = some (codes "5ms");
      loss = some (codes "1");
      jitter = none;
    }
    ∷ []

abbrev after_one : State
after_one =
    cycled (to_switch ∷ []) kept 11 worker_state (5 ∷ []) (9 ∷ []) refl refl refl refl (refl, tt)

restart-pause_again_example :
    let again = (restart 11 (pause (to_switch ∷ []) worker_state).0).0 in
    (pause (to_switch ∷ []) again ≡ (after_one, ok tt))
    × (restart 13 (pause (to_switch ∷ []) again).0 ≡ (
      refused
          (to_switch ∷ [])
          kept
          11
          worker_state
          (5 ∷ [])
          (9 ∷ [])
          refl
          refl
          refl
          refl
          (refl, tt),
      raise docker_error,
    ))
restart-pause_again_example =
    restart-pause_again (to_switch ∷ []) kept 11 worker_state (5 ∷ []) (9 ∷ []) refl refl refl refl
      (refl, tt) (to_switch ∷ []) 13
