-- ===== src/Topology/KuberNet/Entries.antt =====
-- The entries of the nodes, as the loops of `createCluster` make them.
use reckon_k8s.Prelude.{
  ℕ, zero, suc, ◌+◌, ◌<◌, ◌≡◌, refl, ap, ◌∙◌, true, ◌&&◌, List, [], ◌∷◌, ◌++◌, map, range_from, ltb,
  append-nil, append_assoc, arith, lt→ltb,
}
use reckon_k8s.Outcome.{ok}
use reckon_k8s.Topology.KuberNet.{
  KuberNet, control_info, worker_info, add_control_plane, add_worker_node, add_control_planes,
  add_worker_nodes,
}

pub map_append :
    {A B : Type 0} (f : A → B) (xs ys : List A) → map f (xs ++ ys) ≡ map f xs ++ map f ys
map_append f [] ys = refl
map_append f (x ∷ xs) ys = ap (λ l. f x ∷ l) (map_append f xs ys)

pub add_control_planes_lem :
    (n : ℕ) (net : KuberNet)
    → add_control_planes n net ≡ record net {
      cp_num = net.cp_num + n;
      host_num = net.host_num + n;
      control_planes = net.control_planes ++ map control_info (range_from n net.cp_num);
    }
unfolding add_control_planes add_control_plane
add_control_planes_lem zero net = ground (arith, append-nil net.control_planes)
add_control_planes_lem (suc n) net =
    let one_more : net.cp_num + 1 ≡ suc net.cp_num = omega arith in
    let two : net.cp_num + 1 + n ≡ net.cp_num + suc n = omega arith in
    let three : net.host_num + 1 + n ≡ net.host_num + suc n = omega arith in
    add_control_planes_lem n (add_control_plane net) ∙ rw (two, three, one_more, append_assoc) refl

pub add_worker_nodes_lem :
    (n : ℕ) (net : KuberNet)
    → 0 < net.cp_num
    → net.cp_num < 254
    → add_worker_nodes n net
      ≡ ok (record net {
        worker_num = net.worker_num + n;
        host_num = net.host_num + n;
        workers = net.workers ++ map worker_info (range_from n net.worker_num);
      })
unfolding add_worker_nodes add_worker_node
add_worker_nodes_lem zero net lo hi = ground (arith, append-nil net.workers)
add_worker_nodes_lem (suc n) net lo hi =
    let room : ltb 0 net.cp_num && ltb net.cp_num 254 ≡ true =
      rw (lt→ltb _ _ lo, lt→ltb _ _ hi) refl in
    let one_more : net.worker_num + 1 ≡ suc net.worker_num = omega arith in
    let two : net.worker_num + 1 + n ≡ net.worker_num + suc n = omega arith in
    let three : net.host_num + 1 + n ≡ net.host_num + suc n = omega arith in
    let more = record net {
      worker_num = net.worker_num + 1;
      host_num = net.host_num + 1;
      workers = net.workers ++ worker_info net.worker_num ∷ [];
    } in
    rw (lt→ltb _ _ lo, lt→ltb _ _ hi)
      (add_worker_nodes_lem n more lo hi ∙ rw (two, three, one_more, append_assoc) refl)
