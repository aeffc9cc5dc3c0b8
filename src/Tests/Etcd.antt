-- ===== src/Tests/Etcd.antt =====
-- The leader that etcd reports, at concrete statuses.
use reckon_k8s.Prelude.{◌≡◌, refl, true, false, [], ◌∷◌, ◌++◌, some, All, arith}
use reckon_k8s.Text.{Text, codes}
use reckon_k8s.Cluster.{Node}
use reckon_k8s.Systems.Etcd.Leader.{get_leader}
use reckon_k8s.Systems.Etcd.Leader.Statuses.{Status, IsPrintable, printed}
use reckon_k8s.Systems.Etcd.Leader.Found.{get_leader-printed}
use reckon_k8s.Tests.Start.{h1, h2}

abbrev follower : Status
follower = record {
  ip = codes "10.0.0.1";
  id = codes "8211f1d0f64f3269";
  version = codes "3.4.0";
  db_size = codes "20 kB";
  is_leader = false;
  more = codes " false, 2, 9";
}

abbrev leader : Status
leader = record follower { ip = codes "10.0.0.2"; is_leader = true }

printable : All IsPrintable (follower ∷ leader ∷ [])
printable = (
  record {
    ip_colon = ground arith;
    ip_comma = ground arith;
    id_comma = ground arith;
    version_comma = ground arith;
    db_size_comma = ground arith;
    ip_newline = ground arith;
    id_newline = ground arith;
    version_newline = ground arith;
    db_size_newline = ground arith;
    more_newline = ground arith;
  },
  (
    record {
      ip_colon = ground arith;
      ip_comma = ground arith;
      id_comma = ground arith;
      version_comma = ground arith;
      db_size_comma = ground arith;
      ip_newline = ground arith;
      id_newline = ground arith;
      version_newline = ground arith;
      db_size_newline = ground arith;
      more_newline = ground arith;
    },
    tt,
  ),
)

abbrev second_answers : Node → Text
second_answers h = printed (follower ∷ leader ∷ [])

get_leader-printed_example : get_leader second_answers ([] ++ h1 ∷ h2 ∷ []) ≡ some h2
get_leader-printed_example =
    get_leader-printed second_answers [] (h2 ∷ []) h1 (follower ∷ leader ∷ []) 1 h2 tt refl
      printable refl refl (refl, (refl, tt))
