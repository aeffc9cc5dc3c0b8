-- ===== src/Systems/Kubernetes/Leader.antt =====
-- `get_leader`, `_parse_resp`, `prepare_test_start` and `handle_test_end` of
-- reckon/systems/kubernetes/__init__.py. What etcd replies is a parameter.
use reckon_k8s.Prelude.{
  ℕ, suc, ◌≡◌, ap, All, Bool-cases, inl, inr, true, List, [], ◌∷◌, ◌++◌, Option, none, some, ◌==◌,
  get_elem?, if◌then◌else◌,
}
use reckon_k8s.Outcome.{Exception, Outcome, ok, raise, or_raise, ◌>>=◌, index_error, key_error}
use reckon_k8s.Text.{Text, codes, text_eq}
use reckon_k8s.Text.Dict.{Dict, put, get}
use reckon_k8s.Text.Split.{split_on, strip, but_last}
use reckon_k8s.Cluster.{Node, is_control}
use reckon_k8s.Systems.Etcd.Leader.{find_endpoint}
use reckon_k8s.Systems.Kubernetes.{Command, log_dir}

abbrev pub but_first : List Text → List Text
but_first [] = []
but_first (x ∷ xs) = xs

-- `_parse_resp`, of the lines `[1:-1]`.
unfoldable pub parse_resp : Text → Outcome (Option Text)
parse_resp resp = find_endpoint (but_last (but_first (split_on (codes "\n") resp)))

-- `endpoint_to_node`
unfoldable pub endpoint_to_node : List Node → Dict Node → Dict Node
endpoint_to_node [] d = d
endpoint_to_node (node ∷ nodes) d =
    endpoint_to_node nodes (if is_control node then put node.ip node d else d)

-- `endpoint_str`, before the comma at its end is removed.
unfoldable pub endpoint_str : List Node → Text
endpoint_str [] = []
endpoint_str (node ∷ nodes) =
    let rest = endpoint_str nodes in
    if is_control node then codes "https://" ++ (node.ip ++ (codes ":2379," ++ rest)) else rest

-- `s.removesuffix(",")`
abbrev pub without_comma : Text → Text
without_comma [] = []
without_comma (c ∷ []) = if c == 44 then [] else c ∷ []
without_comma (c ∷ d ∷ s) = c ∷ without_comma (d ∷ s)

unfoldable pub status_cmd : List Node → Text
status_cmd cluster =
    codes "ETCDCTL_API=3 etcdctl --endpoints="
    ++ (without_comma (endpoint_str cluster)
        ++ codes
            " --cacert=/etc/kubernetes/pki/etcd/ca.crt --cert=/etc/kubernetes/pki/etcd/server.crt --key=/etc/kubernetes/pki/etcd/server.key endpoint status")

-- `get_leader`, where `reply` is what a node replies to a command.
unfoldable pub get_leader : (reply : Node → Text → Text) → List Node → Outcome Node
get_leader reply cluster = do
  first_cp ← or_raise (get_elem? cluster 1) index_error
  leader_ip ← parse_resp (strip (reply first_cp (status_cmd cluster)))
  known ← or_raise leader_ip key_error
  or_raise (get known (endpoint_to_node cluster [])) key_error

-- The commands of `prepare_test_start`, from the index `i`.
unfoldable pub prepare_test_start : ℕ → List Node → List Command
prepare_test_start i [] = []
prepare_test_start i (c ∷ cluster) =
    record { node = c; text = codes "tcpdump -i any -w " ++ (log_dir i ++ codes "/tcpdump.pcap") }
    ∷ prepare_test_start (suc i) cluster

-- The commands of `handle_test_end` on the nodes, from the index `i`.
unfoldable pub handle_test_end : ℕ → List Node → List Command
handle_test_end i [] = []
handle_test_end i (node ∷ cluster) =
    record { node = node; text = codes "pkill -15 tcpdump" }
    ∷ record { node = node; text = codes "while pkill -0 tcpdump 2> /dev/null; do sleep 1; done;" }
    ∷ ((if is_control node
          then record {
            node = node;
            text =
                codes "cp -r /var/log/pods/kube-system_etcd-cp* "
                ++ (log_dir i ++ codes "/etcd_logs");
          }
            ∷ []
          else [])
        ++ handle_test_end (suc i) cluster)

-- Every node under a name in the dictionary is a control plane.
abbrev HasControls : Dict Node → Type 0
HasControls d = All (λ e. is_control e.1 ≡ true) d

put-HasControls :
    (t : Text) (h : Node) (d : Dict Node)
    → is_control h ≡ true
    → HasControls d
    → HasControls (put t h d)
put-HasControls t h [] c all = (c, tt)
put-HasControls t h ((k, v) ∷ d) c all = elim (Bool-cases (text_eq t k)) [
  | inl y ↦ rw y (c, all.1)
  | inr n ↦ rw n (all.0, put-HasControls t h d c all.1)
]

endpoint_to_node-HasControls :
    (nodes : List Node) (d : Dict Node) → HasControls d → HasControls (endpoint_to_node nodes d)
unfolding endpoint_to_node
endpoint_to_node-HasControls [] d all = all
endpoint_to_node-HasControls (h ∷ nodes) d all = elim (Bool-cases (is_control h)) [
  | inl y ↦
      rw y (endpoint_to_node-HasControls nodes (put h.ip h d) (put-HasControls h.ip h d y all))
  | inr n ↦ rw n (endpoint_to_node-HasControls nodes d all)
]

get-HasControls :
    (t : Text) (d : Dict Node) (h : Node) → HasControls d → get t d ≡ some h → is_control h ≡ true
get-HasControls t [] h all e = cc
get-HasControls t ((k, v) ∷ d) h all e = elim (Bool-cases (text_eq t k)) [
  | inl y ↦ let same : some v ≡ some h = rw y at e in let at : v ≡ h = cc in rw at at all.0
  | inr n ↦ get-HasControls t d h all.1 (rw n at e)
]

or_raise-some :
    {A : Type 0} (x : Option A) (e : Exception) (a : A) → or_raise x e ≡ ok a → x ≡ some a
or_raise-some none e a h = cc
or_raise-some (some b) e a h = let same : b ≡ a = cc in ap some same

-- What is found under the address that was parsed is in the dictionary.
found-HasControls :
    (d : Dict Node) (h : Node) (ip : Outcome (Option Text))
    → HasControls d
    → (ip >>= λ i. or_raise i key_error >>= λ k. or_raise (get k d) key_error) ≡ ok h
    → is_control h ≡ true
found-HasControls d h (raise x) all e = cc
found-HasControls d h (ok none) all e = cc
found-HasControls d h (ok (some k)) all e =
    get-HasControls k d h all (or_raise-some (get k d) key_error h e)

-- The node that `get_leader` returns is a control plane.
get_leader-is_control :
    (reply : Node → Text → Text) (cluster : List Node) (h : Node)
    → get_leader reply cluster ≡ ok h
    → is_control h ≡ true
unfolding get_leader
get_leader-is_control reply [] h e = cc
get_leader-is_control reply (a ∷ []) h e = cc
get_leader-is_control reply (a ∷ cp ∷ nodes) h e =
    let cluster = a ∷ cp ∷ nodes in
    found-HasControls (endpoint_to_node cluster []) h
      (parse_resp (strip (reply cp (status_cmd cluster))))
      (endpoint_to_node-HasControls cluster [] tt) e
