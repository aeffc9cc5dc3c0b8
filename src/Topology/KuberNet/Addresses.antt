-- ===== src/Topology/KuberNet/Addresses.antt =====
-- The addresses of the nodes of a cluster.
use reckon_k8s.Prelude.{
  map-map, ℕ, zero, suc, ◌+◌, ◌-◌, ◌≤◌, ◌<◌, ◌==◌, ◌≡◌, refl, ap, sym, ◌∙◌, true, false, List, [],
  ◌∷◌, ◌++◌, map, drop, ==_iff, range_from, All, All-append, ltb, leb, if◌then◌else◌, arith,
  Bool-cases, inl, inr,
}
use reckon_k8s.Outcome.{ok}
use reckon_k8s.Text.{Text, codes, str, text_eq}
use reckon_k8s.Text.Decimal.{text_eq_iff, str-injective}
use reckon_k8s.Text.Dict.{Distinct, has_key}
use reckon_k8s.Cluster.{NodeType}
use reckon_k8s.Topology.KuberNet.{KubeNode, numbered, address, from_the_top, create_cluster}
use reckon_k8s.Topology.KuberNet.Cluster.{place, places, create_cluster_lem}
use reckon_k8s.Topology.KuberNet.Entries.{map_append}

abbrev pub IsOther : ℕ → ℕ → Type 0
IsOther a b = (a == b) ≡ false

-- No number stands twice in the list.
abbrev pub AllOther : List ℕ → Type 0
AllOther [] = Unit {0}
AllOther (n ∷ ns) = All (IsOther n) ns × AllOther ns

-- The last number of the address of each node, in the order of the cluster.
abbrev pub octets : (workers control : ℕ) → List ℕ
octets workers control =
    (if ltb 1 control then (control + 1) ∷ [] else [])
    ++ (map (λ k. k + 1) (range_from control 0) ++ map (λ k. 255 - (k + 1)) (range_from workers 0))

All-map_range {κ} :
    (P : ℕ → Type κ) (f : ℕ → ℕ) (count low : ℕ)
    → ((k : ℕ) → low ≤ k → k < low + count → P (f k))
    → All P (map f (range_from count low))
All-map_range P f zero low h = tt
All-map_range P f (suc count) low h = (
  h low (omega arith) (omega arith),
  All-map_range P f count (suc low) (λ k a b. h k (omega arith) (omega arith)),
)

AllOther-map_range :
    (f : ℕ → ℕ) (count low : ℕ)
    → ((j k : ℕ) → low ≤ j → j < k → k < low + count → IsOther (f j) (f k))
    → AllOther (map f (range_from count low))
AllOther-map_range f zero low h = tt
AllOther-map_range f (suc count) low h = (
  All-map_range _ f count (suc low) (λ k a b. h low k (omega arith) (omega arith) (omega arith)),
  AllOther-map_range f count (suc low) (λ j k a b c. h j k (omega arith) b (omega arith)),
)

AllOther-append :
    (xs ys : List ℕ)
    → AllOther xs
    → AllOther ys
    → All (λ x. All (IsOther x) ys) xs
    → AllOther (xs ++ ys)
AllOther-append [] ys h k o = k
AllOther-append (x ∷ xs) ys h k o =
    (All-append (IsOther x) xs ys h.0 o.0, AllOther-append xs ys h.1 k o.1)

text_eq-address : (a b : ℕ) → IsOther a b → text_eq (address a) (address b) ≡ false
text_eq-address a b h = elim (Bool-cases (text_eq (address a) (address b))) [
  | inl e ↦
      let same : address a ≡ address b = (text_eq_iff (address a) (address b)).0 e in
      let digits : str a ≡ str b = ap (drop 7) same in
      let at : (a == b) ≡ true = (==_iff a b).1 (str-injective a b digits) in cc
  | inr n ↦ n
]

has_key-address :
    (n : ℕ) (ns : List ℕ) → All (IsOther n) ns → has_key (address n) (map address ns) ≡ false
has_key-address n [] h = refl
has_key-address n (m ∷ ns) h = rw (text_eq-address n m h.0, has_key-address n ns h.1) refl

AllOther-Distinct : (ns : List ℕ) → AllOther ns → Distinct (map address ns)
AllOther-Distinct [] h = tt
AllOther-Distinct (n ∷ ns) h = (has_key-address n ns h.0, AllOther-Distinct ns h.1)

abbrev ip_of : NodeType × Text × Text → Text
ip_of p = p.2

-- How many nodes a cluster has, with its load balancer.
abbrev pub node_count : (workers control : ℕ) → ℕ
node_count workers control = (if ltb 1 control then 1 else 0) + (control + workers)

abbrev pub IsHostNumber : ℕ → Type 0
IsHostNumber n = (1 ≤ n) × (n ≤ 254)

-- Distinct numbers from 1 to 254.
abbrev pub AreHostNumbers : List ℕ → Type 0
AreHostNumbers ns = AllOther ns × All IsHostNumber ns

module _ (workers control : ℕ) (few : node_count workers control ≤ 254) where
  small : control + workers ≤ 254
  small = omega arith

  controls : List ℕ
  controls = map (λ k. k + 1) (range_from control 0)

  from_top : List ℕ
  from_top = map (λ k. 255 - (k + 1)) (range_from workers 0)

  nodes-AllOther : AllOther (controls ++ from_top)
  unfolding controls from_top
  nodes-AllOther =
      AllOther-append controls from_top
        (AllOther-map_range (λ k. k + 1) control 0 (λ j k a b c. ground arith))
        (AllOther-map_range (λ k. 255 - (k + 1)) workers 0 (λ j k a b c. ground (arith, small)))
        (All-map_range _ (λ k. k + 1) control 0
          λ j a b.
            All-map_range (IsOther (j + 1)) (λ k. 255 - (k + 1)) workers 0
              λ k c d. ground (arith, small))

  nodes-IsHostNumber : All IsHostNumber (controls ++ from_top)
  unfolding controls from_top
  nodes-IsHostNumber =
      All-append _ controls from_top
        (All-map_range IsHostNumber (λ k. k + 1) control 0 λ k a b. omega (arith, small))
        (All-map_range IsHostNumber (λ k. 255 - (k + 1)) workers 0 λ k a b. omega (arith, small))

  -- The load balancer has the number after those of the control planes.
  balancer-IsOther :
      1 + (control + workers) ≤ 254 → All (IsOther (control + 1)) (controls ++ from_top)
  unfolding controls from_top
  balancer-IsOther h =
      All-append _ controls from_top
        (All-map_range (IsOther (control + 1)) (λ k. k + 1) control 0 λ k a b. ground arith)
        (All-map_range (IsOther (control + 1)) (λ k. 255 - (k + 1)) workers 0 λ k a b. ground arith)

  octets-AreHostNumbers : AreHostNumbers (octets workers control)
  unfolding controls from_top
  octets-AreHostNumbers = elim (Bool-cases (ltb 1 control)) [
    | inl many ↦
        let room : 1 + (control + workers) ≤ 254 = rw many at few in
        rw many ((balancer-IsOther room, nodes-AllOther), (omega arith, nodes-IsHostNumber))
    | inr one ↦ rw one (nodes-AllOther, nodes-IsHostNumber)
  ]

  worker_addresses :
      (count low : ℕ)
      → low + count ≤ 254
      → map (λ k. codes "10.0.0." ++ from_the_top (k + 1)) (range_from count low)
        ≡ map address (map (λ k. 255 - (k + 1)) (range_from count low))
  worker_addresses zero low h = refl
  worker_addresses (suc count) low h =
      let fits : leb (low + 1) 255 ≡ true = ground arith in
      rw (fits, worker_addresses count (suc low) (omega arith)) refl

  nodes_places :
      map ip_of (
        map
          (λ k. (NodeType.control_plane, numbered (codes "cp") k, address (k + 1)))
          (range_from control 0)
        ++ map
            (λ k.
              (NodeType.worker, numbered (codes "wn") k, codes "10.0.0." ++ from_the_top (k + 1)))
            (range_from workers 0))
      ≡ map address (controls ++ from_top)
  unfolding controls from_top
  nodes_places =
      let ws = worker_addresses workers 0 (omega (arith, small)) in
      simp (map_append, map-map)
        (ap (λ l. map (λ k. address (k + 1)) (range_from control 0) ++ l)
          (ws ∙ map-map (λ k. 255 - (k + 1)) address (range_from workers 0)))

  -- The addresses of the places of the nodes.
  places-octets : map ip_of (places workers control) ≡ map address (octets workers control)
  unfolding controls from_top
  places-octets = elim (Bool-cases (ltb 1 control)) [
    | inl many ↦ rw many (ap (λ l. address (control + 1) ∷ l) nodes_places)
    | inr one ↦ rw one nodes_places
  ]

  -- Of a cluster with a control plane and at most 254 nodes, its load balancer counted, the nodes have the
  -- addresses 10.0.0.n for distinct numbers n from 1 to 254, so that no two have the same address.
  pub create_cluster_addresses :
      0 < control
      → (nodes : List KubeNode) × (ns : List ℕ) × (create_cluster workers control ≡ ok nodes)
        × (map (λ n. n.ip_addr) nodes ≡ map address ns)
        × AreHostNumbers ns
        × Distinct (map (λ n. n.ip_addr) nodes)
  create_cluster_addresses lo =
      let (nodes, made, at) = create_cluster_lem workers control lo (ground arith) in
      let same : map (λ n. n.ip_addr) nodes ≡ map address (octets workers control) =
        sym (map-map place ip_of nodes) ∙ ap (map ip_of) at ∙ places-octets in
      let numbers = octets-AreHostNumbers in
      (nodes, octets workers control, made, same, numbers, rw same (AllOther-Distinct _ numbers.0))
