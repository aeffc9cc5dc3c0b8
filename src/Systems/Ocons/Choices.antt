-- ===== src/Systems/Ocons/Choices.antt =====
-- The choices are the best ones.
use reckon_k8s.Prelude.{
  sym, ap, ◌∙◌, ℕ, suc, ◌≤◌, ◌≡◌, refl, ◌⊎◌, inl, inr, List, [], ◌∷◌, Option, none, some, All, leb,
  ltb, arith, Bool-cases, get_elem?,
}
use reckon_k8s.Outcome.{ok, raise, index_error}
use reckon_k8s.Text.{Text}
use reckon_k8s.Cluster.{Node}
use reckon_k8s.Systems.Ocons.{
  closer, later, closest, min_latency, with_term, latest, choose, get_leader,
}

-- The first latency is known and not above the second one, where that is known.
abbrev pub AtMost : Option ℕ → Option ℕ → Type 0
AtMost m none = Unit
AtMost none (some v) = ⊥
AtMost (some m) (some v) = m ≤ v

AtMost-trans : (a b c : Option ℕ) → AtMost a b → AtMost b c → AtMost a c
AtMost-trans a b none h k = tt
AtMost-trans a none (some c) h k = absurd k
AtMost-trans none (some b) (some c) h k = h
AtMost-trans (some a) (some b) (some c) h k = omega arith

AtMost-refl : (a : Option ℕ) → AtMost a a
AtMost-refl none = tt
AtMost-refl (some a) = omega arith

closer_lem :
    (best x : Text × Option ℕ)
    → AtMost (closer best x).1 best.1
      × AtMost (closer best x).1 x.1
      × ((closer best x ≡ best) ⊎ (closer best x ≡ x))
unfolding closer
closer_lem (m, l) (ip, none) = (AtMost-refl l, tt, inl refl)
closer_lem (m, none) (ip, some l) = (tt, omega arith, inr refl)
closer_lem (m, some ml) (ip, some l) = elim (Bool-cases (leb l ml)) [
  | inl near ↦ rw near (ground arith, omega arith, inr refl)
  | inr far ↦ rw far (omega arith, ground arith, inl refl)
]

-- One of the items, or the one before them.
abbrev pub From {ℓ} : {A : Type ℓ} → A → List A → A → Type ℓ
From best xs a = (a ≡ best) ⊎ ((i : ℕ) × (get_elem? xs i ≡ some a))

From-step {ℓ} :
    {A : Type ℓ} (best x next a : A) (xs : List A)
    → (next ≡ best) ⊎ (next ≡ x)
    → From next xs a
    → From best (x ∷ xs) a
From-step best x next a xs h (inr (i, at)) = inr (suc i, at)
From-step best x next a xs (inl e) (inl f) = inl (f ∙ e)
From-step best x next a xs (inr e) (inl f) = inr (0, ap some (sym (f ∙ e)))

get_elem?-From {ℓ} :
    {A : Type ℓ} (x : A) (xs : List A) (a : A)
    → From x (x ∷ xs) a
    → (i : ℕ) × (get_elem? (x ∷ xs) i ≡ some a)
get_elem?-From x xs a (inl e) = (0, ap some (sym e))
get_elem?-From x xs a (inr p) = p

closest_lem :
    (best : Text × Option ℕ) (xs : List (Text × Option ℕ))
    → AtMost (closest best xs).1 best.1
      × All (λ x. AtMost (closest best xs).1 x.1) xs
      × From best xs (closest best xs)
unfolding closest
closest_lem best [] = (AtMost-refl best.1, tt, inl refl)
closest_lem best (x ∷ xs) =
    let (below, all, from) = closest_lem (closer best x) xs in
    let (near, nearer, which) = closer_lem best x in
    let last = (closest (closer best x) xs).1 in
    (
      AtMost-trans last (closer best x).1 best.1 below near,
      (AtMost-trans last (closer best x).1 x.1 below nearer, all),
      From-step best x (closer best x) (closest (closer best x) xs) xs which from,
    )

-- The host that a client is to use is one of a cluster that is not empty; if any host has answered, it has,
-- with a latency that is not above that of any other host that has answered.
pub min_latency_lem :
    (first : Text × Option ℕ) (rest : List (Text × Option ℕ))
    → (best : Text × Option ℕ) × (i : ℕ) × (min_latency (first ∷ rest) ≡ ok best)
      × (get_elem? (first ∷ rest) i ≡ some best)
      × All (λ x. AtMost best.1 x.1) (first ∷ rest)
unfolding min_latency
min_latency_lem first rest =
    let (below, all, from) = closest_lem first (first ∷ rest) in
    let (i, at) = get_elem?-From first rest _ from in
    (closest first (first ∷ rest), i, refl, at, all)

later_lem :
    (best x : Node × ℕ)
    → (best.1 ≤ (later best x).1)
      × (x.1 ≤ (later best x).1)
      × ((later best x ≡ best) ⊎ (later best x ≡ x))
unfolding later
later_lem (h, t) (g, u) = elim (Bool-cases (ltb t u)) [
  | inl new ↦ rw new (ground arith, omega arith, inr refl)
  | inr old ↦ rw old (omega arith, ground arith, inl refl)
]

latest_lem :
    (best : Node × ℕ) (xs : List (Node × ℕ))
    → (best.1 ≤ (latest best xs).1)
      × All (λ x. x.1 ≤ (latest best xs).1) xs
      × From best xs (latest best xs)
unfolding latest
latest_lem best [] = (omega arith, tt, inl refl)
latest_lem best (x ∷ xs) =
    let (above, all, from) = latest_lem (later best x) xs in
    let (up, over, which) = later_lem best x in
    (
      omega (arith, above, up),
      (omega (arith, above, over), all),
      From-step best x (later best x) (latest (later best x) xs) xs which from,
    )

choose_lem :
    (l : List (Node × ℕ))
    → (l ≡ []) × (choose l ≡ raise index_error)
      ⊎ ((best : Node × ℕ) × (i : ℕ) × (choose l ≡ ok best)
          × (get_elem? l i ≡ some best)
          × All (λ x. x.1 ≤ best.1) l)
unfolding choose
choose_lem [] = inl (refl, refl)
choose_lem (x ∷ xs) =
    let (above, all, from) = latest_lem x (x ∷ xs) in
    let (i, found) = get_elem?-From x xs _ from in inr (latest x (x ∷ xs), i, refl, found, all)

-- With a host that has led a term above zero, the leader is one of these hosts, and no other has led
-- a later term; without any, the call fails with an IndexError.
pub get_leader_lem :
    (terms : List (Node × Option ℕ))
    → (with_term terms ≡ []) × (get_leader terms ≡ raise index_error)
      ⊎ ((best : Node × ℕ) × (i : ℕ) × (get_leader terms ≡ ok best)
          × (get_elem? (with_term terms) i ≡ some best)
          × All (λ x. x.1 ≤ best.1) (with_term terms))
unfolding get_leader
get_leader_lem terms = choose_lem (with_term terms)
