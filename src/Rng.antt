-- ===== src/Rng.antt =====
-- `numpy.random.Generator`, which is not part of the repository: its operations are parameters, and
-- its documented ranges are hypotheses. `random` is a double of [0, 1), a multiple of 2 ^ -53.
use mathlib.Core.Path.{subst}
use reckon_k8s.Prelude.{Bool-cases, inl, inr, ltb→lt, ℕ, ◌^◌, ◌<◌, ◌≡◌, length}
use reckon_k8s.Prelude.Int.{ℤ, pos, negsuc, ◌≤ℤ◌, ◌<ℤ◌, ltb_ℤ}
use native.Mathlib.Omega.{arith}
use reckon_k8s.Text.{Text}
use reckon_k8s.Outcome.{Outcome, ok, check, ◌>>◌, value_error}

-- The unit of probabilities: `random` and the ratios are numbers of 2 ^ -53.
abbrev pub one : ℕ
one = 2 ^ 53

pub record Rng : Type 1 where
  pub State : Type 0
  pub random : State → ℕ × State
  pub random-lt-one : (s : State) → (random s).0 < one
  pub integers : (low high : ℤ) → State → ℤ × State
  pub integers_bounds :
      (low high : ℤ) (s : State)
      → low <ℤ high
      → (low ≤ℤ (integers low high s).0) × ((integers low high s).0 <ℤ high)
  pub choice : (alphabet : Text) (size : ℕ) → State → Text × State
  pub length-choice :
      (alphabet : Text) (size : ℕ) (s : State) → length (choice alphabet size s).0 ≡ size

module _ (rng : Rng) where
  open rng use {State, integers}

  -- `integers(low, high)` raises where `low >= high`.
  abbrev pub draw : (low high : ℤ) → State → Outcome (ℤ × State)
  draw low high s = do check (ltb_ℤ low high) value_error; ok (integers low high s)

  -- A draw from a range that is not empty succeeds, and lies in it.
  pub draw_in :
      (low high : ℤ) (s : State)
      → low <ℤ high
      → (k : ℤ) × (s' : State) × (draw low high s ≡ ok (k, s')) × (low ≤ℤ k) × (k <ℤ high)
  draw_in low high s h =
      let (lo, hi) = rng.integers_bounds low high s h in
      ((integers low high s).0, (integers low high s).1, ground arith, lo, hi)

  -- Whatever is drawn lies in the range.
  pub draw_bounds :
      (low high : ℤ) (s s' : State) (k : ℤ)
      → draw low high s ≡ ok (k, s')
      → (low ≤ℤ k) × (k <ℤ high)
  draw_bounds low high s s' k e = elim (Bool-cases (ltb_ℤ low high)) [
    | inl room ↦
        let (lo, hi) = rng.integers_bounds low high s (ltb→lt _ _ room) in
        let same : (integers low high s).0 ≡ k = cc in
        subst (λ n. (low ≤ℤ n) × (n <ℤ high)) same (lo, hi)
    | inr none_left ↦ cc
  ]

  -- So an index is drawn for a list that is not empty.
  pub draw_index :
      (n : ℕ) (s : State)
      → 0 < n
      → (k : ℕ) × (s' : State) × (draw (pos 0) (pos n) s ≡ ok (pos k, s')) × (k < n)
  draw_index n s h = at_index (draw_in (pos 0) (pos n) s (omega arith))
    where
      at_index :
          (k : ℤ) × (s' : State) × (draw (pos 0) (pos n) s ≡ ok (k, s'))
            × (pos 0 ≤ℤ k)
            × (k <ℤ pos n)
          → (k : ℕ) × (s' : State) × (draw (pos 0) (pos n) s ≡ ok (pos k, s')) × (k < n)
      at_index (pos k, s', e, lo, hi) = (k, s', e, omega arith)
      at_index (negsuc k, s', e, lo, hi) = absurd (omega arith)
