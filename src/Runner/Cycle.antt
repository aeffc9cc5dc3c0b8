-- ===== src/Runner/Cycle.antt =====
-- `zip(xs, itertools.cycle(ys))`, by which requests are handed out to the clients.
use mathlib.Core.Option
use native.Mathlib.Nat.{zero-mod, mod-eq_of_lt, add-mod_left}
use reckon_k8s.Prelude.{
  ◌∙◌, ℕ, zero, suc, ◌+◌, ◌%◌, ◌≤◌, ◌<◌, ◌≡◌, refl, ap, List, [], ◌∷◌, some, length, get_elem?,
  drop, arith,
}

module _ {A B : Type 0} where
  -- `rest` is what is left of the current turn of the cycle. A cycle of nothing ends at once.
  unfoldable pub zip_from : List A → (ys rest : List B) → List (A × B)
  zip_from [] ys rest = []
  zip_from (x ∷ xs) ys (y ∷ rest) = (x, y) ∷ zip_from xs ys rest
  zip_from (x ∷ xs) (y ∷ ys) [] = (x, y) ∷ zip_from xs (y ∷ ys) ys
  zip_from (x ∷ xs) [] [] = []

  unfoldable pub zip_cycle : List A → List B → List (A × B)
  unfolding zip_from
  zip_cycle xs ys = zip_from xs ys ys

module _ {B : Type 0} where
  drop-eq-cons :
      (k : ℕ) (ys rest : List B) (y : B)
      → y ∷ rest ≡ drop k ys
      → (get_elem? ys k ≡ some y) × (rest ≡ drop (suc k) ys) × (k < length ys)
  drop-eq-cons zero [] rest y e = cc
  drop-eq-cons zero (z ∷ ys) rest y e = (cc, cc, omega arith)
  drop-eq-cons (suc k) [] rest y e = cc
  drop-eq-cons (suc k) (z ∷ ys) rest y e =
      let (at_k, tail, lt) = drop-eq-cons k ys rest y e in (at_k, tail, omega arith)

  drop-eq-nil : (k : ℕ) (ys : List B) → [] ≡ drop k ys → length ys ≤ k
  drop-eq-nil k [] e = omega arith
  drop-eq-nil zero (z ∷ ys) e = cc
  drop-eq-nil (suc k) (z ∷ ys) e = omega (arith, drop-eq-nil k ys e)

turn_over : (n k i : ℕ) → k ≡ n → (k + i) % n ≡ i % n
turn_over n k i e = rw e (add-mod_left n i)

whole_turn :
    {B : Type 0} (k : ℕ) (z : B) (ys : List B)
    → [] ≡ drop k (z ∷ ys)
    → k ≤ length (z ∷ ys)
    → k ≡ length (z ∷ ys)
whole_turn k z ys e h = omega (arith, drop-eq-nil k (z ∷ ys) e)

module _ {A B : Type 0} where
  -- The item at `i`, where the cycle has come to `k`.
  get_elem?-zip_from :
      (xs : List A) (ys rest : List B) (k i : ℕ) (x : A)
      → get_elem? xs i ≡ some x
      → 0 < length ys
      → rest ≡ drop k ys
      → k ≤ length ys
      → (y : B) × (get_elem? ys ((k + i) % length ys) ≡ some y)
        × (get_elem? (zip_from xs ys rest) i ≡ some (x, y))
  unfolding zip_from
  get_elem?-zip_from [] ys rest k i x e pos er h = cc
  get_elem?-zip_from (x' ∷ xs) [] rest k i x e pos er h = absurd (omega arith)
  get_elem?-zip_from (x' ∷ xs) (z ∷ ys) [] k zero x e pos er h =
      let whole : (k + 0) % length (z ∷ ys) ≡ 0 =
        turn_over (length (z ∷ ys)) k 0 (whole_turn k z ys er h) ∙ zero-mod (length (z ∷ ys)) in
      (z, rw whole refl, ap (λ o. Option.map (λ a. (a, z)) o) e)
  get_elem?-zip_from (x' ∷ xs) (z ∷ ys) [] k (suc i) x e pos er h =
      let (y, ey, ez) = get_elem?-zip_from xs (z ∷ ys) ys 1 i x e pos refl (omega arith) in
      let turn : (k + suc i) % length (z ∷ ys) ≡ (1 + i) % length (z ∷ ys) =
        turn_over (length (z ∷ ys)) k (suc i) (whole_turn k z ys er h)
        ∙ ap (λ n. n % length (z ∷ ys)) (omega arith) in
      (y, rw turn ey, ez)
  get_elem?-zip_from (x' ∷ xs) (z ∷ ys) (y ∷ rest) k zero x e pos er h =
      let (at_k, tail, lt) = drop-eq-cons k (z ∷ ys) rest y er in
      let here : (k + 0) % length (z ∷ ys) ≡ k =
        ap (λ n. n % length (z ∷ ys)) (omega arith) ∙ mod-eq_of_lt lt in
      (y, rw here at_k, ap (λ o. Option.map (λ a. (a, y)) o) e)
  get_elem?-zip_from (x' ∷ xs) (z ∷ ys) (y ∷ rest) k (suc i) x e pos er h =
      let (at_k, tail, lt) = drop-eq-cons k (z ∷ ys) rest y er in
      let (y', ey, ez) = get_elem?-zip_from xs (z ∷ ys) rest (suc k) i x e pos tail lt in
      let turn : (k + suc i) % length (z ∷ ys) ≡ (suc k + i) % length (z ∷ ys) =
        ap (λ n. n % length (z ∷ ys)) (omega arith) in
      (y', rw turn ey, ez)

  -- A cycle that is not empty hands out its items in turn: the i-th item of `xs` goes with the (i mod n)-th of the
  -- `n` items of the cycle.
  pub get_elem?-zip_cycle :
      (xs : List A) (ys : List B) (i : ℕ) (x : A)
      → get_elem? xs i ≡ some x
      → 0 < length ys
      → (y : B) × (get_elem? ys (i % length ys) ≡ some y)
        × (get_elem? (zip_cycle xs ys) i ≡ some (x, y))
  unfolding zip_cycle
  get_elem?-zip_cycle xs ys i x e h =
      let (y, ey, ez) = get_elem?-zip_from xs ys ys 0 i x e h refl (omega arith) in
      let same : 0 + i ≡ i = omega arith in (y, rw same at ey, ez)
