-- ===== src/Failures/Iptables/Heal.antt =====
-- What partitions do to the chains, and that healing takes them back.
use reckon_k8s.Prelude.{
  ℕ, zero, suc, ◌+◌, ◌≡◌, refl, sym, ◌∙◌, ap, List, [], ◌∷◌, ◌++◌, drop, map, arith, ◌==◌,
  if◌then◌else◌, append-nil, append_assoc, Bool-cases, inl, inr,
}
use reckon_k8s.Text.{Text}
use reckon_k8s.Cluster.{Node}
use reckon_k8s.Failures.Iptables.{
  Iptables, Shared, World, partitioned, append, partition, partition_all, delete_all,
  remove_partition,
}

drop-nil {ℓ} : {A : Type ℓ} (n : ℕ) → drop {A = A} n [] ≡ []
drop-nil zero = refl
drop-nil (suc n) = refl

drop_add {ℓ} : {A : Type ℓ} (c m n : ℕ) (xs : List A) → c ≡ m + n → drop c xs ≡ drop n (drop m xs)
drop_add c zero n xs e = let same : c ≡ n = omega arith in rw same refl
drop_add zero (suc m) n xs e = absurd (omega arith)
drop_add (suc c) (suc m) n [] e = sym (drop-nil n)
drop_add (suc c) (suc m) n (x ∷ xs) e = drop_add c m n xs (omega arith)

-- How often a host is in a list.
abbrev pub count : ℕ → List Node → ℕ
count k [] = 0
count k (h ∷ hs) = if h.id == k then suc (count k hs) else count k hs

count-append : (k : ℕ) (xs ys : List Node) → count k (xs ++ ys) ≡ count k xs + count k ys
count-append k [] ys = omega arith
count-append k (x ∷ xs) ys = ground (arith, count-append k xs ys)

drop-count :
    (h : Node) (hs : List Node) (rules : List Text) (k : ℕ)
    → drop (count k hs) (if h.id == k then drop 1 rules else rules) ≡ drop (count k (h ∷ hs)) rules
drop-count h hs rules k = elim (Bool-cases (h.id == k)) [
  | inl same ↦ rw same (sym (drop_add (suc (count k hs)) 1 (count k hs) rules (omega arith)))
  | inr other ↦ rw other refl
]

-- The rules that partitions put before those of `rules` in the chain of a host, the last one first.
abbrev pub blocked : ℕ → List (Node × Node) → List Text → List Text
blocked k [] rules = rules
blocked k ((h, r) ∷ ps) rules = blocked k ps (if h.id == k then r.ip ∷ rules else rules)

abbrev pub hosts : List (Node × Node) → List Node
hosts ps = map (λ p. p.0) ps

drop-blocked :
    (k : ℕ) (ps : List (Node × Node)) (rules : List Text)
    → drop (count k (hosts ps)) (blocked k ps rules) ≡ rules
drop-blocked k [] rules = refl
drop-blocked k ((h, r) ∷ ps) rules = elim (Bool-cases (h.id == k)) [
  | inl same ↦
      rw
        (
          same,
          drop_add (suc (count k (hosts ps))) (count k (hosts ps)) 1 _ (omega arith),
          drop-blocked k ps (r.ip ∷ rules),
        )
        refl
  | inr other ↦ rw (other, drop-blocked k ps rules) refl
]

module _ (tables : Iptables) where
  open tables use {State, output, insert, delete_first}

  partitioned-append :
      (h : Node) (w : World tables)
      → (partitioned tables (append tables h w) ≡ partitioned tables w ++ h ∷ [])
        × ((append tables h w).chains ≡ w.chains)
  partitioned-append h w = at w.shared
    where
      at :
          (sh : Shared)
          → (partitioned tables (append tables h (record w { shared = sh }))
              ≡ partitioned tables (record w { shared = sh }) ++ h ∷ [])
            × ((append tables h (record w { shared = sh })).chains ≡ w.chains)
      at Shared.default = (refl, refl)
      at (Shared.own hs) = (refl, refl)

  -- Partitions put rules in front of the chains, and note the hosts.
  pub partition_all_lem :
      (ps : List (Node × Node)) (w : World tables) (k : ℕ)
      → (output (partition_all tables ps w).chains k ≡ blocked k ps (output w.chains k))
        × (partitioned tables (partition_all tables ps w) ≡ partitioned tables w ++ hosts ps)
  unfolding partition_all
  partition_all_lem [] w k = (refl, sym (append-nil _))
  partition_all_lem ((h, r) ∷ ps) w k =
      let w' = partition tables (h, r) w in
      let (rules, noted) = partition_all_lem ps w' k in
      let (appended, kept) =
        partitioned-append h (record w { chains = insert h.id r.ip w.chains }) in
      (
        rules
            ∙ ap (blocked k ps)
                (ap (λ c. output c k) kept ∙ tables.output-insert h.id k r.ip w.chains),
        noted ∙ rw (appended, append_assoc) refl,
      )

  output-delete_all :
      (hs : List Node) (s : State) (k : ℕ)
      → output (delete_all tables hs s) k ≡ drop (count k hs) (output s k)
  unfolding delete_all
  output-delete_all [] s k = refl
  output-delete_all (h ∷ hs) s k =
      output-delete_all hs (delete_first h.id s) k
      ∙ ap (drop (count k hs)) (tables.output-delete_first h.id k s)
      ∙ drop-count h hs (output s k) k

  -- Healing after partitions leaves in each chain what was there before, but for one rule for each
  -- time that the list `partitioned` named the host already.
  pub heal_lem :
      (ps : List (Node × Node)) (w : World tables) (k : ℕ)
      → output (remove_partition tables (partition_all tables ps w)).chains k
        ≡ drop (count k (partitioned tables w)) (output w.chains k)
  unfolding remove_partition
  heal_lem ps w k =
      let (rules, noted) = partition_all_lem ps w k in
      let before = partitioned tables w in
      let n = count k before in
      let m = count k (hosts ps) in
      let total : count k (before ++ hosts ps) ≡ m + n =
        omega (arith, count-append k before (hosts ps)) in
      let chain = output (partition_all tables ps w).chains k in
      output-delete_all _ _ k
      ∙ ap (λ l. drop (count k l) chain) noted
      ∙ ap (drop (count k (before ++ hosts ps))) rules
      ∙ drop_add (count k (before ++ hosts ps)) m n _ total
      ∙ ap (drop n) (drop-blocked k ps _)
