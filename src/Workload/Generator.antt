-- ===== src/Workload/Generator.antt =====
-- A Python generator items a step: `step` runs to the next `yield`. `generate` takes its first items.
use reckon_k8s.Prelude.{ℕ, zero, suc, ◌≡◌, refl, ap, List, [], ◌∷◌, length, All}
use reckon_k8s.Outcome.{Outcome, ok, ◌>>=◌}

module _ {ℓ κ} {S : Type ℓ} {A : Type κ} (step : S → Outcome (A × S)) where
  unfoldable pub generate : ℕ → S → Outcome (List A × S)
  generate zero s = ok ([], s)
  generate (suc n) s = do (a, s') ← step s; (items, s'') ← generate n s'; ok (a ∷ items, s'')

  -- The first items all come, and a property of the items that an invariant of the state ensures
  -- holds of each.
  pub generate_inv {μ ν} :
      (P : S → Type μ) (Q : A → Type ν)
      → ((s : S) → P s → (a : A) × (s' : S) × (step s ≡ ok (a, s')) × P s' × Q a)
      → (n : ℕ) (s : S) → P s
      → (items : List A) × (s' : S) × (generate n s ≡ ok (items, s'))
        × P s'
        × (length items ≡ n)
        × All Q items
  unfolding generate
  generate_inv P Q keep zero s p = ([], s, refl, p, refl, tt)
  generate_inv P Q keep (suc n) s p =
      let (a, s', e, p', q) = keep s p in
      let (items, s'', e', p'', l, qs) = generate_inv P Q keep n s' p' in
      (a ∷ items, s'', rw (e, e') refl, p'', ap suc l, (q, qs))
