-- ===== src/Workload/Emits.antt =====
-- The items that a generator yields on the way from one state to another.
use reckon_k8s.Prelude.{◌≡◌, refl, List, [], ◌∷◌, ◌++◌, length}
use reckon_k8s.Outcome.{Outcome, ok}
use reckon_k8s.Workload.Generator.{generate}

module _ {A S : Type 0} (step : S → Outcome (A × S)) where
  pub data Emits : S → List A → S → Type 0 where
    done : {s : S} → Emits s [] s
    more :
        {s s' s'' : S} {a : A} {items : List A}
        → step s ≡ ok (a, s')
        → Emits s' items s''
        → Emits s (a ∷ items) s''

module _ {A S : Type 0} {step : S → Outcome (A × S)} where
  pub Emits-append :
      {s s' s'' : S} {xs ys : List A}
      → Emits step s xs s'
      → Emits step s' ys s''
      → Emits step s (xs ++ ys) s''
  Emits-append Emits.done e = e
  Emits-append (Emits.more h d) e = Emits.more h (Emits-append d e)

  pub generate-Emits :
      {s s' : S} {xs : List A} → Emits step s xs s' → generate step (length xs) s ≡ ok (xs, s')
  unfolding generate
  generate-Emits Emits.done = refl
  generate-Emits (Emits.more h d) = rw (h, generate-Emits d) refl
