-- ===== src/Runner/RoundRobin.antt =====
-- `roundrobin` of reckon/client_runner.py, the recipe that takes turns between iterables.
pub mod Order
use reckon_k8s.Prelude.{ℕ, zero, suc, ◌+◌, List, [], ◌∷◌, ◌++◌, Option, none, some, length, take}

module _ {ℓ} {A : Type ℓ} where
  abbrev pub yield_then : A → Option (List A) → Option (List A)
  yield_then x none = none
  yield_then x (some xs) = some (x ∷ xs)

  -- `nexts` is the cycle of iterators, from the one whose turn it is; an iterator is the list of the
  -- items that it has left. `active` is `num_active`. An empty cycle would spin: no fuel suffices.
  pub turns : ℕ → ℕ → List (List A) → Option (List A)
  turns fuel zero nexts = some []
  turns zero (suc active) nexts = none
  turns (suc fuel) (suc active) [] = none
  turns (suc fuel) (suc active) ([] ∷ nexts) = turns fuel active (take active (nexts ++ [] ∷ []))
  turns (suc fuel) (suc active) ((x ∷ xs) ∷ nexts) =
      yield_then x (turns fuel (suc active) (nexts ++ xs ∷ []))

  -- The number of `next()` calls that the loop makes: one for each item and one for each end.
  abbrev pub calls : List (List A) → ℕ
  calls [] = 0
  calls (xs ∷ its) = length xs + 1 + calls its

  unfoldable pub roundrobin : List (List A) → Option (List A)
  unfolding turns
  roundrobin iterables = turns (calls iterables) (length iterables) iterables
