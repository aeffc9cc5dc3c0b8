-- ===== src/Experiments/Repro/Skips.antt =====
-- Which runs are repeated.
use reckon_k8s.Prelude.{ℕ, ◌≡◌, true, List, some, get_elem?}
use reckon_k8s.Text.{Text}
use reckon_k8s.Experiments.Repro.{Partial, seed_of, load_partial_completed_tests}

-- A run with this seed is complete.
abbrev pub IsDone : ℕ → List Partial → Type 0
IsDone seed ps =
    (i : ℕ) × (p : Partial) × (get_elem? ps i ≡ some p)
    × (p.is_run ≡ true)
    × (seed_of p ≡ some seed)

abbrev seeds_of : List Partial → List ℕ
seeds_of ps = (load_partial_completed_tests ps).0
