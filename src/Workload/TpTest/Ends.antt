-- ===== src/Workload/TpTest/Ends.antt =====
-- The recursion of `_gen_op_kind` of reckon/workload/tptest_crud.py ends.
use reckon_k8s.Prelude.{
  ℕ, zero, suc, ◌<◌, ◌≡◌, refl, ◌⊎◌, inl, inr, Bool-cases, ltb, lt→ltb, List, [], ◌∷◌, none, some,
  true, get_elem?, All,
}
use reckon_k8s.Outcome.{Outcome, ok, raise, index_error}
use reckon_k8s.Workload.Deployments.Requests.{OpKind}
use reckon_k8s.Workload.TpTest.{Timer, Clock, gen_within, gen_op_kind, advance}

-- Every phase makes at least one request.
abbrev pub ArePositive : List Timer → Type 0
ArePositive timers = All (λ t. 0 < t.cnt) timers

-- An operation is made, or no phase is left.
abbrev pub Ends : Outcome (OpKind × Clock) → Type 0
Ends r = ((made : OpKind × Clock) × (r ≡ ok made)) ⊎ (r ≡ raise index_error)

-- The phase at an index, if there is one.
phase_at :
    (timers : List Timer) (i : ℕ)
    → ArePositive timers
    → ((t : Timer) × (get_elem? timers i ≡ some t) × (0 < t.cnt)) ⊎ (get_elem? timers i ≡ none)
phase_at [] i h = inr refl
phase_at (t ∷ timers) zero h = inl (t, refl, h.0)
phase_at (t ∷ timers) (suc i) h = phase_at timers i h.1

-- At the start of a phase.
gen_within-Ends :
    (timers : List Timer) (depth : ℕ) (c : Clock)
    → ArePositive timers
    → c.op_count ≡ 0
    → Ends (gen_within (suc depth) timers c)
unfolding gen_within
gen_within-Ends timers depth c h zero_count = elim (phase_at timers c.op_index h) [
  | inl (t, at, positive) ↦
      let more : ltb c.op_count t.cnt ≡ true = rw zero_count (lt→ltb _ _ positive) in
      inl ((t.op, record c { op_count = suc c.op_count }), rw (at, more, gen_within) refl)
  | inr past ↦ inr (rw (past, gen_within) refl)
]

-- Two levels are enough.
two_levels-Ends :
    (timers : List Timer) (depth : ℕ) (c : Clock)
    → ArePositive timers
    → Ends (gen_within (suc (suc depth)) timers c)
unfolding gen_within
two_levels-Ends timers depth c h = elim (phase_at timers c.op_index h) [
  | inr past ↦ inr (rw (past, gen_within) refl)
  | inl (t, at, positive) ↦ elim (Bool-cases (ltb c.op_count t.cnt)) [
    | inl more ↦
        inl ((t.op, record c { op_count = suc c.op_count }), rw (at, more, gen_within) refl)
    | inr over ↦ rw (at, over, gen_within) (gen_within-Ends timers depth (advance t c) h refl)
  ]
]

-- When every phase has a count above zero, `_gen_op_kind` ends from every clock, and within the limit of
-- the recursion: it makes an operation, or fails with an IndexError since no phase is left.
pub gen_op_kind-Ends :
    (timers : List Timer) (c : Clock) → ArePositive timers → Ends (gen_op_kind timers c)
unfolding gen_op_kind
gen_op_kind-Ends timers c h = two_levels-Ends timers 998 c h
