-- ===== src/Systems/Start.antt =====
-- The loop of `start_nodes` that reckon/systems/etcd/__init__.py, reckon/systems/zookeeper/__init__.py
-- and reckon/systems/ocons/__init__.py share: each host is prepared and started in a screen, and the
-- functions that stop and restart it go into dictionaries under its tag.
pub mod Tables
use reckon_k8s.Prelude.{ℕ, suc, List, [], ◌∷◌, ◌++◌}
use reckon_k8s.Outcome.{Outcome, ok, ◌>>=◌}
use reckon_k8s.Text.{Text}
use reckon_k8s.Text.Dict.{Dict, put}
use reckon_k8s.Cluster.{Node}
use reckon_k8s.Systems.Screen.{Act, get_node_tag, start_screen, kill_screen}

-- What a system does for one host: what it prepares, the command that the host is started with and
-- the one that it is restarted with.
pub record Plan : Type 0 where
  pub prepare : Outcome (List Act)
  pub first : Text
  pub again : Text

-- What has been done so far, and the dictionaries. A function without arguments is the outcome of a
-- call of it.
pub record Started : Type 0 where
  pub acts : List Act
  pub restarters : Dict (Outcome Act)
  pub stoppers : Dict (Outcome Act)

abbrev pub nothing_started : Started
nothing_started = record { acts = []; restarters = []; stoppers = [] }

-- The body of the loop.
abbrev pub start_node : Plan → Node → Started → Outcome Started
start_node plan host s = do
  prepared ← plan.prepare
  act ← start_screen host plan.first
  ok (record {
    acts = s.acts ++ (prepared ++ act ∷ []);
    restarters = put (get_node_tag host) (start_screen host plan.again) s.restarters;
    stoppers = put (get_node_tag host) (kill_screen host) s.stoppers;
  })

unfoldable pub start_each : (ℕ → Node → Plan) → ℕ → List Node → Started → Outcome Started
start_each plan i [] s = ok s
start_each plan i (host ∷ hosts) s = do
  s' ← start_node (plan i host) host s
  start_each plan (suc i) hosts s'
