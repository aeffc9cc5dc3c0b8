-- ===== src/Systems/Ocons/Logs/Terms.antt =====
-- The leader that is found in logs that are printed of the terms that hosts have led.
use reckon_k8s.Prelude.{
  ℕ, zero, suc, ◌≤◌, ◌==◌, ◌≡◌, refl, ap, ◌∙◌, sym, List, [], ◌∷◌, map, Option, none, some, All,
  All-imp, ltb, arith, Bool-cases, inl, inr, ◌⊎◌, get_elem?,
}
use reckon_k8s.Outcome.{ok, raise, index_error}
use reckon_k8s.Text.{Text}
use reckon_k8s.Cluster.{Node}
use reckon_k8s.Systems.Screen.{Settings}
use reckon_k8s.Systems.Ocons.{get_leader, with_term}
use reckon_k8s.Systems.Ocons.Choices.{get_leader_lem}
use reckon_k8s.Systems.Ocons.Logs.{later_term, last_term, get_leader_term, grep_cmd, leader}
use reckon_k8s.Systems.Ocons.Logs.Entries.{
  Entry, IsLine, printed, printed_line, search_term-line, lines_from-printed,
}

-- The last term among entries, and one before.
abbrev pub last_of : Option ℕ → List Entry → Option ℕ
last_of m [] = m
last_of m (e ∷ es) = last_of (later_term m (some e.term)) es

last_term-printed :
    (m : Option ℕ) (es : List Entry)
    → All IsLine es
    → last_term m (map printed_line es) ≡ last_of m es
unfolding last_term
last_term-printed m [] h = refl
last_term-printed m (e ∷ es) h =
    rw (search_term-line e.before e.term e.rest h.0.no_l h.0.ends, last_term)
      (last_term-printed (later_term m (some e.term)) es h.1)

get_leader_term-printed :
    (es : List Entry) → All IsLine es → get_leader_term (printed es) ≡ last_of none es
unfolding get_leader_term
get_leader_term-printed es h = rw (lines_from-printed es h) (last_term-printed none es h)

-- No entry has a later term.
abbrev pub NoneAfter : ℕ → List Entry → Type 0
NoneAfter t es = All (λ e. e.term ≤ t) es

-- One of the entries has the term.
abbrev pub HasLed : ℕ → List Entry → Type 0
HasLed t es = (i : ℕ) × (e : Entry) × (get_elem? es i ≡ some e) × (e.term ≡ t)

HasLed-here : (t : ℕ) (e : Entry) (es : List Entry) → (t ≡ e.term) ⊎ HasLed t es → HasLed t (e ∷ es)
HasLed-here t e es (inl h) = (0, e, refl, sym h)
HasLed-here t e es (inr (i, f, at, h)) = (suc i, f, at, h)

HasLed-later :
    (m t : ℕ) (e : Entry) (es : List Entry) → (t ≡ m) ⊎ HasLed t es → (t ≡ m) ⊎ HasLed t (e ∷ es)
HasLed-later m t e es (inl h) = inl h
HasLed-later m t e es (inr (i, f, at, h)) = inr (suc i, f, at, h)

last_of-some :
    (m : ℕ) (es : List Entry)
    → (t : ℕ) × (last_of (some m) es ≡ some t) × (m ≤ t) × NoneAfter t es × ((t ≡ m) ⊎ HasLed t es)
last_of-some m [] = (m, refl, omega arith, tt, inl refl)
last_of-some m (e ∷ es) = elim (Bool-cases (ltb m e.term)) [
  | inl new ↦
      let (t, at, above, all, from) = last_of-some e.term es in
      (t, rw new at, ground (arith, above), (above, all), inr (HasLed-here t e es from))
  | inr old ↦
      let (t, at, above, all, from) = last_of-some m es in
      (t, rw old at, above, (ground (arith, above), all), HasLed-later m t e es from)
]

-- What `get_leader_term` finds: no term in a log without entries, and else the last one.
abbrev pub IsLast : Option ℕ → List Entry → Type 0
IsLast none es = es ≡ []
IsLast (some t) es = NoneAfter t es × HasLed t es

last_of-IsLast : (es : List Entry) → IsLast (last_of none es) es
last_of-IsLast [] = refl
last_of-IsLast (e ∷ es) =
    let (t, at, above, all, from) = last_of-some e.term es in
    rw at ((above, all), HasLed-here t e es from)

module _ {F : Type 0} (self : Settings F) (reply : Node → Text → Text)
    (history : Node → List Entry) where
  -- The log of each host is printed of its history.
  abbrev pub IsLogged : Node → Type 0
  IsLogged h = (reply h (grep_cmd self h) ≡ printed (history h)) × All IsLine (history h)

  abbrev last_terms : List Node → List (Node × Option ℕ)
  last_terms cluster = map (λ h. (h, last_of none (history h))) cluster

  leader_terms :
      (cluster : List Node)
      → All IsLogged cluster
      → map (λ h. (h, get_leader_term (reply h (grep_cmd self h)))) cluster ≡ last_terms cluster
  leader_terms [] h = refl
  leader_terms (x ∷ cluster) h =
      rw (h.0.0, get_leader_term-printed (history x) h.0.1, leader_terms cluster h.1) refl

  -- A host of the cluster that has led the term.
  abbrev Led : List Node → Node × ℕ → Type 0
  Led cluster best = (k : ℕ) × (get_elem? cluster k ≡ some best.0) × HasLed best.1 (history best.0)

  Led-here :
      (x : Node) (t : ℕ) (cluster : List Node) (best : Node × ℕ)
      → HasLed t (history x)
      → ◌≡◌ {A = Option (Node × ℕ)} (some (x, t)) (some best)
      → Led (x ∷ cluster) best
  Led-here x t cluster best led e = let same : best ≡ (x, t) = cc in rw same (0, refl, led)

  Led-later :
      (x : Node) (cluster : List Node) (best : Node × ℕ) → Led cluster best → Led (x ∷ cluster) best
  Led-later x cluster best (k, at, led) = (suc k, at, led)

  -- From the hosts with a term back to the cluster.
  with_term-Led_first :
      (x : Node) (o : Option ℕ) (cluster : List Node) (best : Node × ℕ)
      → IsLast o (history x)
      → ((i : ℕ) → get_elem? (with_term (last_terms cluster)) i ≡ some best → Led cluster best)
      → (i : ℕ) → get_elem? (with_term ((x, o) ∷ last_terms cluster)) i ≡ some best
      → Led (x ∷ cluster) best
  unfolding with_term
  with_term-Led_first x none cluster best l ih i e = Led-later x cluster best (ih i e)
  with_term-Led_first x (some t) cluster best l ih zero e = elim (Bool-cases (t == 0)) [
    | inl y ↦ Led-later x cluster best (ih 0 (rw y at e))
    | inr n ↦ Led-here x t cluster best l.1 (rw n at e)
  ]
  with_term-Led_first x (some t) cluster best l ih (suc i) e = elim (Bool-cases (t == 0)) [
    | inl y ↦ Led-later x cluster best (ih (suc i) (rw y at e))
    | inr n ↦ Led-later x cluster best (ih i (rw n at e))
  ]

  with_term-Led :
      (cluster : List Node) (best : Node × ℕ) (i : ℕ)
      → get_elem? (with_term (last_terms cluster)) i ≡ some best
      → Led cluster best
  unfolding with_term
  with_term-Led [] best i e = cc
  with_term-Led (x ∷ cluster) best i e =
      with_term-Led_first x (last_of none (history x)) cluster best (last_of-IsLast (history x))
        (with_term-Led cluster best) i e

  NoneAfter-first :
      (t : ℕ) (x : Node) (o : Option ℕ) (rest : List (Node × Option ℕ))
      → IsLast o (history x)
      → All (λ y. y.1 ≤ t) (with_term ((x, o) ∷ rest))
      → NoneAfter t (history x) × All (λ y. y.1 ≤ t) (with_term rest)
  unfolding with_term
  NoneAfter-first t x none rest l h = (rw l tt, h)
  NoneAfter-first t x (some m) rest l h = elim (Bool-cases (m == 0)) [
    | inl y ↦ (All-imp _ _ (history x) (λ e b. ground (arith, b)) l.0, rw y at h)
    | inr n ↦
        let all : (m ≤ t) × All (λ y. y.1 ≤ t) (with_term rest) = rw n at h in
        (All-imp _ _ (history x) (λ e b. omega (arith, b, all.0)) l.0, all.1)
  ]

  with_term-NoneAfter :
      (t : ℕ) (cluster : List Node)
      → All (λ x. x.1 ≤ t) (with_term (last_terms cluster))
      → All (λ h. NoneAfter t (history h)) cluster
  with_term-NoneAfter t [] h = tt
  with_term-NoneAfter t (x ∷ cluster) h =
      let (here, others) =
        NoneAfter-first t x (last_of none (history x)) (last_terms cluster)
          (last_of-IsLast (history x)) h in
      (here, with_term-NoneAfter t cluster others)

  -- When what `grep` finds in the log of each host is printed of the terms that it has led, one on a line,
  -- with no letter l, small or capital, before the phrase and a number that no digit follows, the leader is
  -- a host that has led a term, such that no host has led a later one. Where no host has led a term above
  -- zero, the call fails with an IndexError.
  pub leader-printed :
      (cluster : List Node)
      → All IsLogged cluster
      → All (λ h. NoneAfter 0 (history h)) cluster × (leader self reply cluster ≡ raise index_error)
        ⊎ ((h : Node) × (t : ℕ) × (k : ℕ) × (leader self reply cluster ≡ ok (h, t))
            × (get_elem? cluster k ≡ some h)
            × HasLed t (history h)
            × All (λ g. NoneAfter t (history g)) cluster)
  unfolding leader
  leader-printed cluster logged =
      let same = leader_terms cluster logged in
      elim (get_leader_lem (last_terms cluster)) [
        | inl (empty, fails) ↦
            inl (with_term-NoneAfter 0 cluster (rw empty tt), ap get_leader same ∙ fails)
        | inr (best, i, found, at, all) ↦
            let (k, there, led) = with_term-Led cluster best i at in
            inr (
              best.0,
              best.1,
              k,
              ap get_leader same ∙ found,
              there,
              led,
              with_term-NoneAfter best.1 cluster all,
            )
      ]
