-- ===== src/Runner/Collate/Heard.antt =====
-- Which clients `collate` of reckon/client_runner.py still listens to.
use reckon_k8s.Prelude.{
  ap, ℕ, zero, suc, ◌+◌, ◌≤◌, ◌<◌, ◌≡◌, refl, sym, ◌∙◌, inl, inr, Bool, true, false, not, ◌||◌,
  ◌&&◌, ◌==◌, ==_iff, List, [], ◌∷◌, arith, Bool-cases, ltb, leb, range_from, if◌then◌else◌, ◌≢◌,
}
use reckon_k8s.Outcome.{ok}
use reckon_k8s.Types.{Message}
use reckon_k8s.Runner.Collate.{Arrival, is_among, unregister}

-- Of `n` clients, those listened to are the ones that have not finished; `gone` are the ones that have.
abbrev pub is_heard : (n : ℕ) (gone : List ℕ) → ℕ → Bool
is_heard n gone i = ltb i n && not (is_among i gone)

-- The clients that send `finished`, and those before.
abbrev pub finishers : List ℕ → List Arrival → List ℕ
finishers gone [] = gone
finishers gone ((i, ok Message.finished) ∷ xs) = finishers (i ∷ gone) xs
finishers gone (a ∷ xs) = finishers gone xs

-- How many of the clients `0` to `n - 1` are not among these.
abbrev pub unfinished : ℕ → List ℕ → ℕ
unfinished zero gone = 0
unfinished (suc k) gone = let rest = unfinished k gone in if is_among k gone then rest else suc rest

pub unfinished-cons_le : (n i : ℕ) (gone : List ℕ) → unfinished n (i ∷ gone) ≤ unfinished n gone
unfinished-cons_le zero i gone = omega arith
unfinished-cons_le (suc k) i gone =
    let h = unfinished-cons_le k i gone in
    elim (Bool-cases (k == i)) [
      | inl y ↦ elim (Bool-cases (is_among k gone)) [
        | inl g ↦ rw (y, g) (omega (arith, h))
        | inr g ↦ rw (y, g) (omega (arith, h))
      ]
      | inr n ↦ elim (Bool-cases (is_among k gone)) [
        | inl g ↦ rw (n, g) (omega (arith, h))
        | inr g ↦ rw (n, g) (omega (arith, h))
      ]
    ]

pub unfinished-known :
    (n i : ℕ) (gone : List ℕ)
    → is_heard n gone i ≡ false
    → (m : ℕ) → m ≤ n
    → unfinished m (i ∷ gone) ≡ unfinished m gone
unfinished-known n i gone h zero le = refl
unfinished-known n i gone h (suc k) le =
    let rest = unfinished-known n i gone h k (omega arith) in
    elim (Bool-cases (k == i)) [
      | inl y ↦
          let at : k ≡ i = (==_iff k i).0 y in
          let below : ltb i n ≡ true = ground arith in
          elim (Bool-cases (is_among i gone)) [
            | inl g ↦
                let same : is_among k gone ≡ true = ap (λ j. is_among j gone) at ∙ g in
                rw (y, same, rest) refl
            | inr g ↦ cc (rw (below, g) at h)
          ]
      | inr n' ↦ rw (n', rest) refl
    ]

unfinished-new :
    (n i : ℕ) (gone : List ℕ)
    → is_among i gone ≡ false
    → (n ≤ i → unfinished n (i ∷ gone) ≡ unfinished n gone)
      × (i < n → suc (unfinished n (i ∷ gone)) ≡ unfinished n gone)
unfinished-new zero i gone g = (λ h. refl, λ h. absurd (omega arith))
unfinished-new (suc k) i gone g = elim (Bool-cases (k == i)) [
  | inl y ↦
      let at : k ≡ i = (==_iff k i).0 y in
      let new : is_among k gone ≡ false = ap (λ j. is_among j gone) at ∙ g in
      let rest = (unfinished-new k i gone g).0 (omega arith) in
      (λ h. absurd (omega arith), λ h. rw (y, new, rest) refl)
  | inr n ↦
      let other : k ≢ i = ground arith in
      (
        λ h. let rest = (unfinished-new k i gone g).0 (omega arith) in rw (n, rest) refl,
        λ h.
            let rest = (unfinished-new k i gone g).1 (ground arith) in
            rw n (elim (Bool-cases (is_among k gone)) [
              | inl a ↦ rw a rest
              | inr a ↦ rw a (ap suc rest)
            ]),
      )
]

is_among-unregister :
    (i j : ℕ) (reg : List ℕ) → is_among j (unregister i reg) ≡ (is_among j reg && not (j == i))
is_among-unregister i j [] = refl
is_among-unregister i j (k ∷ reg) =
    let rest = is_among-unregister i j reg in
    elim (Bool-cases (k == i)) [
      | inl y ↦
          let at : k ≡ i = (==_iff k i).0 y in
          let same : (j == k) ≡ (j == i) = ap (λ m. j == m) at in
          rw (y, same, rest) (absorbed (j == i) (is_among j reg))
      | inr n ↦ elim (Bool-cases (j == k)) [
        | inl a ↦
            let at : j ≡ k = (==_iff j k).0 a in
            let other : (j == i) ≡ false = ap (λ m. m == i) at ∙ n in rw (n, a, other) refl
        | inr a ↦ rw (n, a) rest
      ]
    ]
  where
    absorbed : (b c : Bool) → (c && not b) ≡ ((b || c) && not b)
    absorbed true true = refl
    absorbed true false = refl
    absorbed false true = refl
    absorbed false false = refl

is_heard-cons :
    (n i j : ℕ) (gone : List ℕ) → is_heard n (i ∷ gone) j ≡ (is_heard n gone j && not (j == i))
is_heard-cons n i j gone = moved (ltb j n) (j == i) (is_among j gone)
  where
    moved : (a b c : Bool) → (a && not (b || c)) ≡ ((a && not c) && not b)
    moved true true true = refl
    moved true true false = refl
    moved true false true = refl
    moved true false false = refl
    moved false true true = refl
    moved false true false = refl
    moved false false true = refl
    moved false false false = refl

and_true : (b : Bool) → (b && true) ≡ b
and_true true = refl
and_true false = refl

-- That a client which is not listened to has finished makes no difference.
pub is_heard-known :
    (n i : ℕ) (gone : List ℕ)
    → is_heard n gone i ≡ false
    → (j : ℕ) → is_heard n (i ∷ gone) j ≡ is_heard n gone j
is_heard-known n i gone h j = is_heard-cons n i j gone ∙ elim (Bool-cases (j == i)) [
  | inl y ↦
      let at : j ≡ i = (==_iff j i).0 y in
      let same : is_heard n gone j ≡ false = ap (is_heard n gone) at ∙ h in rw same refl
  | inr a ↦ rw a (and_true (is_heard n gone j))
]

is_among-done :
    (n : ℕ) (gone : List ℕ) → unfinished n gone ≡ 0 → (i : ℕ) → i < n → is_among i gone ≡ true
is_among-done zero gone e i lt = absurd (omega arith)
is_among-done (suc k) gone e i lt = elim (Bool-cases (is_among k gone)) [
  | inr a ↦ let one : suc (unfinished k gone) ≡ 0 = rw a at e in absurd (omega arith)
  | inl a ↦
      let rest : unfinished k gone ≡ 0 = rw a at e in
      elim (Bool-cases (i == k)) [
        | inl y ↦ let at : i ≡ k = (==_iff i k).0 y in ap (λ m. is_among m gone) at ∙ a
        | inr b ↦ is_among-done k gone rest i (ground arith)
      ]
]

pub is_heard-done :
    (n : ℕ) (gone : List ℕ) → unfinished n gone ≡ 0 → (i : ℕ) → is_heard n gone i ≡ false
is_heard-done n gone e i = elim (Bool-cases (ltb i n)) [
  | inl y ↦ let lt : i < n = ground arith in rw (y, is_among-done n gone e i lt) refl
  | inr a ↦ rw a refl
]

-- The clients that are registered are the ones that are listened to.
abbrev pub Agrees : List ℕ → ℕ → List ℕ → Type 0
Agrees reg n gone = (j : ℕ) → is_among j reg ≡ is_heard n gone j

pub Agrees-unregister :
    (reg : List ℕ) (n i : ℕ) (gone : List ℕ)
    → Agrees reg n gone
    → Agrees (unregister i reg) n (i ∷ gone)
Agrees-unregister reg n i gone h j =
    is_among-unregister i j reg ∙ ap (λ b. b && not (j == i)) (h j) ∙ sym (is_heard-cons n i j gone)

pub heard-new :
    (n i : ℕ) (gone : List ℕ)
    → is_heard n gone i ≡ true
    → suc (unfinished n (i ∷ gone)) ≡ unfinished n gone
heard-new n i gone h = elim (Bool-cases (ltb i n)) [
  | inr a ↦ cc (rw a at h)
  | inl below ↦ elim (Bool-cases (is_among i gone)) [
    | inl g ↦ cc (rw (below, g) at h)
    | inr g ↦ (unfinished-new n i gone g).1 (ground arith)
  ]
]

pub is_among-range_from : (n k j : ℕ) → is_among j (range_from n k) ≡ (leb k j && ltb j (k + n))
is_among-range_from zero k j = ground arith
is_among-range_from (suc n) k j =
    let rest = is_among-range_from n (suc k) j in rw rest (ground arith)

pub unfinished-none : (n : ℕ) → unfinished n [] ≡ n
unfinished-none zero = refl
unfinished-none (suc n) = ap suc (unfinished-none n)
