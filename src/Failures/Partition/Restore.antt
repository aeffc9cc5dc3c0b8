-- ===== src/Failures/Partition/Restore.antt =====
-- The partitions cut the hosts that they should, and are taken back.
use reckon_k8s.Prelude.{
  ℕ, ◌≡◌, refl, ap, ◌∙◌, Bool, true, false, ◌||◌, List, [], ◌∷◌, All, All-imp, if◌then◌else◌, ◌==◌,
  Bool-cases, inl, inr, arith,
}
use reckon_k8s.Outcome.{Outcome, ok}
use reckon_k8s.Text.{Text, text_eq}
use reckon_k8s.Cluster.{Node, same, others}
use reckon_k8s.Failures.Iptables.{Iptables, World, partition_all, remove_partition, partitioned}
use reckon_k8s.Failures.Iptables.Heal.{heal_lem, partition_all_lem, blocked}
use reckon_k8s.Failures.Partition.{Kind, initiate_partition, apply_partition}

abbrev pub has : Text → List Text → Bool
has ip [] = false
has ip (x ∷ xs) = text_eq ip x || has ip xs

text_eq_refl : (t : Text) → text_eq t t ≡ true
text_eq_refl [] = refl
text_eq_refl (c ∷ t) = ground (arith, text_eq_refl t)

or_true : (b : Bool) → (b || true) ≡ true
or_true true = refl
or_true false = refl

has-blocked_keep :
    (ip : Text) (k : ℕ) (ps : List (Node × Node)) (rules : List Text)
    → has ip rules ≡ true
    → has ip (blocked k ps rules) ≡ true
has-blocked_keep ip k [] rules h = h
has-blocked_keep ip k ((a, b) ∷ ps) rules h = elim (Bool-cases (a.id == k)) [
  | inl same ↦ rw same (has-blocked_keep ip k ps (b.ip ∷ rules) (rw h (or_true _)))
  | inr other ↦ rw other (has-blocked_keep ip k ps rules h)
]

self_eq : (n : ℕ) → (n == n) ≡ true
self_eq n = ground arith

has-blocked :
    (ps : List (Node × Node)) (rules : ℕ → List Text)
    → All (λ p. has p.1.ip (blocked p.0.id ps (rules p.0.id)) ≡ true) ps
has-blocked [] rules = tt
has-blocked ((a, b) ∷ ps) rules = (
  rw (self_eq a.id)
      (has-blocked_keep b.ip a.id ps (b.ip ∷ rules a.id) (rw (text_eq_refl b.ip) refl)),
  has-blocked ps (λ k. if a.id == k then b.ip ∷ rules k else rules k),
)

module _ (tables : Iptables) where
  open tables use {output}

  -- What `a` sends to `b` is dropped.
  abbrev pub Cut : World tables → Node → Node → Type 0
  Cut w a b = has b.ip (output w.chains a.id) ≡ true

  -- The chains of all hosts are what they were.
  abbrev pub SameChains : World tables → World tables → Type 0
  SameChains w w' = (k : ℕ) → output w'.chains k ≡ output w.chains k

  pub Cut-All :
      (ps : List (Node × Node)) (w : World tables)
      → All (λ p. Cut (partition_all tables ps w) p.0 p.1) ps
  Cut-All ps w =
      All-imp _ _ ps (λ p h. ap (has p.1.ip) (partition_all_lem tables ps w p.0.id).0 ∙ h)
        (has-blocked ps (λ k. output w.chains k))

  restored :
      (ps : List (Node × Node)) (w : World tables)
      → partitioned tables w ≡ []
      → SameChains w (remove_partition tables (partition_all tables ps w))
  restored ps w none_yet k = heal_lem tables ps w k ∙ rw none_yet refl

  module _ (get_leader : List Node → World tables → Outcome Node) where
    -- With a leader and another host, the first call of the fault cuts the leader and the first
    -- other host off from each other; after the second, the chains of all hosts are what they were,
    -- if the list of partitioned hosts was empty.
    pub apply_partition_lem :
        (cluster rest : List Node) (leader non_leader : Node) (w : World tables)
        → get_leader cluster w ≡ ok leader
        → others leader cluster ≡ non_leader ∷ rest
        → partitioned tables w ≡ []
        → (w1 w2 : World tables) × (apply_partition tables get_leader Kind.create cluster w ≡ ok w1)
          × Cut w1 leader non_leader
          × Cut w1 non_leader leader
          × (apply_partition tables get_leader Kind.remove cluster w1 ≡ ok w2)
          × SameChains w w2
          × (partitioned tables w2 ≡ [])
    unfolding apply_partition initiate_partition remove_partition
    apply_partition_lem cluster rest leader non_leader w e f none_yet =
        let ps : List (Node × Node) = (leader, non_leader) ∷ (non_leader, leader) ∷ [] in
        let w1 = partition_all tables ps w in
        let cuts = Cut-All ps w in
        (
          w1,
          remove_partition tables w1,
          rw (e, f) refl,
          cuts.0,
          cuts.1.0,
          refl,
          restored ps w none_yet,
          refl,
        )
