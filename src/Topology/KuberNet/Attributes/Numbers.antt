-- ===== src/Topology/KuberNet/Attributes/Numbers.antt =====
-- The attributes of the nodes of a new cluster.
use reckon_k8s.Prelude.{
  map-map, ℕ, zero, suc, ◌+◌, ◌-◌, ◌<◌, ◌==◌, ◌≡◌, refl, ap, ◌∙◌, true, false, List, [], ◌∷◌, ◌++◌,
  map, range_from, Option, none, some, All, All-imp, ltb, leb, if◌then◌else◌, arith, Bool-cases,
  inl, inr, length,
}
use reckon_k8s.Prelude.Int.{ℤ, pos, sub_ℕ, pos_part, neg_part}
use reckon_k8s.Outcome.{Outcome, ok, raise, ◌>>=◌}
use reckon_k8s.Text.{Text, codes, str}
use reckon_k8s.Text.Decimal.{read, read-str, is_digit, str-is_digit, length-str_pos}
use reckon_k8s.Text.Split.{split_on, split_on-none, last_of, Lacks}
use reckon_k8s.Cluster.{NodeType}
use reckon_k8s.Topology.KuberNet.{KubeNode, numbered, address, from_the_top, create_cluster}
use reckon_k8s.Topology.KuberNet.Entries.{map_append}
use reckon_k8s.Topology.KuberNet.Cluster.{place, places, create_cluster_lem}
use reckon_k8s.Topology.KuberNet.Attributes.{
  Attributes, all_digits, unsigned, as_int, last_part, set_kube_attrs, set_all,
}

abbrev set_places : List (NodeType × Text × Text) → Outcome (List Attributes)
set_places [] = ok []
set_places ((type, name, ip_addr) ∷ ps) = do
  attrs ← set_kube_attrs type name ip_addr
  rest ← set_places ps
  ok (attrs ∷ rest)

set_all-places : (ns : List KubeNode) → set_all ns ≡ set_places (map place ns)
unfolding set_all
set_all-places [] = refl
set_all-places (n ∷ ns) = rw (set_all-places ns) refl

-- The lists of two calls, joined.
abbrev both : Outcome (List Attributes) → Outcome (List Attributes) → Outcome (List Attributes)
both m q = do xs ← m; ys ← q; ok (xs ++ ys)

both-cons :
    (o : Outcome Attributes) (m q : Outcome (List Attributes))
    → (do a ← o; rest ← both m q; ok (a ∷ rest)) ≡ both (do a ← o; rest ← m; ok (a ∷ rest)) q
both-cons (raise e) m q = refl
both-cons (ok a) (raise e) q = refl
both-cons (ok a) (ok xs) (raise e) = refl
both-cons (ok a) (ok xs) (ok ys) = refl

both-nil : (q : Outcome (List Attributes)) → q ≡ both (ok []) q
both-nil (raise e) = refl
both-nil (ok ys) = refl

set_places-append :
    (ps qs : List (NodeType × Text × Text))
    → set_places (ps ++ qs) ≡ both (set_places ps) (set_places qs)
set_places-append [] qs = both-nil (set_places qs)
set_places-append ((type, name, ip_addr) ∷ ps) qs =
    rw (set_places-append ps qs)
      (both-cons (set_kube_attrs type name ip_addr) (set_places ps) (set_places qs))

set_places-map_range :
    (f : ℕ → NodeType × Text × Text) (g : ℕ → Attributes) (count low : ℕ)
    → ((k : ℕ) → set_kube_attrs (f k).0 (f k).1 (f k).2 ≡ ok (g k))
    → set_places (map f (range_from count low)) ≡ ok (map g (range_from count low))
set_places-map_range f g zero low h = refl
set_places-map_range f g (suc count) low h =
    rw (h low, set_places-map_range f g count (suc low) h) refl

all_digits-All : (s : Text) → All (λ c. is_digit c ≡ true) s → all_digits s ≡ true
all_digits-All [] h = refl
all_digits-All (c ∷ s) h = rw (h.0, all_digits-All s h.1) refl

unsigned-full : (s : Text) → 0 < length s → all_digits s ≡ true → unsigned s ≡ ok (read 0 s)
unsigned-full [] h d = absurd (omega arith)
unsigned-full (c ∷ s) h d = rw d refl

unsigned-str : (n : ℕ) → unsigned (str n) ≡ ok n
unsigned-str n =
    unsigned-full (str n) (length-str_pos n) (all_digits-All (str n) (str-is_digit n))
    ∙ ap ok (read-str n)

digit_no_minus : (c : ℕ) → is_digit c ≡ true → (c == b'-') ≡ false
digit_no_minus c h = ground arith

digit_no_dot : (c : ℕ) → is_digit c ≡ true → (b'.' == c) ≡ false
digit_no_dot c h = ground arith

as_int-digits :
    (s : Text) (n : ℕ) → All (λ c. is_digit c ≡ true) s → unsigned s ≡ ok n → as_int s ≡ ok (pos n)
as_int-digits [] n h e = cc
as_int-digits (c ∷ s) n h e = rw (digit_no_minus c h.0, e) refl

-- The number of a worker, from its address.
as_int-from_the_top :
    (n : ℕ)
    → (z : ℤ) × (as_int (from_the_top n) ≡ ok z) × (sub_ℕ (255 + neg_part z) (pos_part z) ≡ pos n)
as_int-from_the_top n = elim (Bool-cases (leb n 255)) [
  | inl small ↦ (
    pos (255 - n),
    rw small (as_int-digits (str (255 - n)) (255 - n) (str-is_digit _) (unsigned-str (255 - n))),
    ground arith,
  )
  | inr large ↦ (sub_ℕ 0 (n - 255), rw (large, unsigned-str (n - 255)) refl, ground arith)
]

Lacks-str : (n : ℕ) → Lacks b'.' (str n)
Lacks-str n = All-imp _ _ (str n) digit_no_dot (str-is_digit n)

Lacks-from_the_top : (n : ℕ) → Lacks b'.' (from_the_top n)
Lacks-from_the_top n = elim (Bool-cases (leb n 255)) [
  | inl small ↦ rw small (Lacks-str (255 - n))
  | inr large ↦ rw large (refl, Lacks-str (n - 255))
]

split-address :
    (s : Text) → Lacks b'.' s → last_part (split_on (codes ".") (codes "10.0.0." ++ s)) ≡ s
unfolding split_on
split-address s h = ap (last_of (codes "0")) (split_on-none b'.' s h)

-- The attributes of a control plane or of the load balancer, and those of the worker that is made when
-- there are `k`.
abbrev server_attributes : NodeType → Text → (n : ℕ) → Attributes
server_attributes type name n = record {
  k8s_name = name;
  ip_addr = address n;
  node_type = type;
  endpoint = some (address n ++ codes ":6443");
  worker_num = none;
  is_control = true;
}

abbrev worker_attributes : ℕ → Attributes
worker_attributes k = record {
  k8s_name = numbered (codes "wn") k;
  ip_addr = codes "10.0.0." ++ from_the_top (k + 1);
  node_type = NodeType.worker;
  endpoint = none;
  worker_num = some (pos (k + 1));
  is_control = false;
}

set_kube_attrs-worker :
    (k : ℕ)
    → set_kube_attrs NodeType.worker
        (numbered (codes "wn") k)
        (codes "10.0.0." ++ from_the_top (k + 1))
      ≡ ok (worker_attributes k)
unfolding set_kube_attrs
set_kube_attrs-worker k =
    let (z, read, back) = as_int-from_the_top (k + 1) in
    rw (split-address (from_the_top (k + 1)) (Lacks-from_the_top (k + 1)), read, back) refl

abbrev control_attributes : ℕ → Attributes
control_attributes k = server_attributes NodeType.control_plane (numbered (codes "cp") k) (k + 1)

abbrev control_place : ℕ → NodeType × Text × Text
control_place k = (NodeType.control_plane, numbered (codes "cp") k, address (k + 1))

abbrev worker_place : ℕ → NodeType × Text × Text
worker_place k = (NodeType.worker, numbered (codes "wn") k, codes "10.0.0." ++ from_the_top (k + 1))

abbrev all_attributes : (workers control : ℕ) → List Attributes
all_attributes workers control =
    (if ltb 1 control
      then server_attributes NodeType.load_balancer (codes "lb") (control + 1) ∷ []
      else [])
    ++ (map control_attributes (range_from control 0)
        ++ map worker_attributes (range_from workers 0))

set_places-places :
    (workers control : ℕ)
    → set_places (places workers control) ≡ ok (all_attributes workers control)
unfolding set_kube_attrs
set_places-places workers control =
    let controls = set_places-map_range control_place control_attributes control 0 (λ k. refl) in
    let workers_set =
      set_places-map_range worker_place worker_attributes workers 0 set_kube_attrs-worker in
    let nodes_set =
      set_places-append (map control_place (range_from control 0))
        (map worker_place (range_from workers 0))
      ∙ (λ i. both (controls i) (workers_set i)) in
    elim (Bool-cases (ltb 1 control)) [
      | inl many ↦ rw (many, nodes_set) refl
      | inr one ↦ rw (one, nodes_set) refl
    ]

-- The name of a node, the number of a worker and the endpoint of another node.
abbrev pub numbers : Attributes → Text × Option ℤ × Option Text
numbers a = (a.k8s_name, a.worker_num, a.endpoint)

abbrev pub all_numbers : (workers control : ℕ) → List (Text × Option ℤ × Option Text)
all_numbers workers control =
    (if ltb 1 control
      then (codes "lb", none, some (address (control + 1) ++ codes ":6443")) ∷ []
      else [])
    ++ (map (λ k. (numbered (codes "cp") k, none, some (address (k + 1) ++ codes ":6443")))
          (range_from control 0)
        ++ map (λ k. (numbered (codes "wn") k, some (pos (k + 1)), none)) (range_from workers 0))

numbers-all :
    (workers control : ℕ)
    → map numbers (all_attributes workers control) ≡ all_numbers workers control
numbers-all workers control =
    let nodes =
      map_append numbers (map control_attributes (range_from control 0))
        (map worker_attributes (range_from workers 0))
      ∙ (λ i.
          map-map control_attributes numbers (range_from control 0) i
          ++ map-map worker_attributes numbers (range_from workers 0) i) in
    elim (Bool-cases (ltb 1 control)) [
      | inl many ↦
          rw many
            (ap (λ l. (codes "lb", none, some (address (control + 1) ++ codes ":6443")) ∷ l) nodes)
      | inr one ↦ rw one nodes
    ]

-- A cluster with 1 to 253 control planes is created and each of its nodes is given its attributes: the
-- worker at k has the number k + 1, which is read back from the end of its address, however many workers
-- there are, and the load balancer and the control planes have the port 6443 of their address as their
-- endpoint.
pub set_all-create_cluster :
    (workers control : ℕ)
    → 0 < control
    → control < 254
    → (nodes : List KubeNode) × (attrs : List Attributes) × (create_cluster workers control
        ≡ ok nodes)
      × (set_all nodes ≡ ok attrs)
      × (map numbers attrs ≡ all_numbers workers control)
set_all-create_cluster workers control lo hi =
    let (nodes, made, at) = create_cluster_lem workers control lo hi in
    (
      nodes,
      all_attributes workers control,
      made,
      set_all-places nodes ∙ ap set_places at ∙ set_places-places workers control,
      numbers-all workers control,
    )
