-- ===== src/Tests/Kubernetes.antt =====
-- Runs of the systems that start Kubernetes.
use reckon_k8s.Prelude.{◌++◌}
use reckon_k8s.Text.{codes}
use reckon_k8s.Cluster.{Node, NodeType}
use reckon_k8s.Systems.Kubernetes.{Templates}

abbrev balancer : Node
balancer = record {
  node_type = NodeType.load_balancer;
  ip = codes "10.0.0.1";
  name = codes "lb";
  id = 0;
}

abbrev first : Node
first = record {
  node_type = NodeType.control_plane;
  ip = codes "10.0.0.2";
  name = codes "cp1";
  id = 1;
}

abbrev second : Node
second = record {
  node_type = NodeType.control_plane;
  ip = codes "10.0.0.3";
  name = codes "cp2";
  id = 2;
}

abbrev last : Node
last = record { node_type = NodeType.worker; ip = codes "10.0.0.4"; name = codes "w1"; id = 3 }

-- Files that name the endpoint only.
abbrev files : Templates
files = record {
  haproxy = codes "listen";
  kubeadm = λ endpoint node. endpoint ++ node.ip;
  cni = λ endpoint. endpoint;
}
