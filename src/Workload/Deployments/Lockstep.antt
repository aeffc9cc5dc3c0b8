-- ===== src/Workload/Deployments/Lockstep.antt =====
-- The generator that timed_crud.py and tptest_crud.py have in common: a clock says the kind of the
-- next operation, and the loop body serves it. The requests follow the clock step by step.
use reckon_k8s.Prelude.{ℕ, ◌<◌, ◌≡◌, refl, Bool, List, [], ◌∷◌, length, ◌≢◌, All}
use reckon_k8s.Prelude.Int.{ℤ}
use reckon_k8s.Outcome.{Outcome, ok, raise, Exception, ◌>>=◌, first_value}
use reckon_k8s.Types.{Payload}
use reckon_k8s.Rng.{Rng}
use reckon_k8s.Workload.Emits.{Emits}
use reckon_k8s.Workload.Deployments.{Files, Table}
use reckon_k8s.Workload.Deployments.Requests.{OpKind, Deltas, Serves, serve, Draws, serve-Serves}

pub record Crud (rng : Rng) (Clock : Type 0) : Type 0 where
  pub max_key : ℕ
  pub keys : Table
  pub clock : Clock
  pub state : rng.State

-- Each payload serves the kind that stands in its place.
abbrev pub ServesAll : Files → Deltas → Table → List OpKind → List Payload → Type 0
ServesAll files D keys [] [] = Unit
ServesAll files D keys (k ∷ ks) (p ∷ ps) = Serves files D keys k p × ServesAll files D keys ks ps
ServesAll files D keys [] (p ∷ ps) = ⊥
ServesAll files D keys (k ∷ ks) [] = ⊥

module _ {Clock : Type 0} (gen_op_kind : Clock → Outcome (OpKind × Clock))
    (count : Clock → Clock) where
  -- The kind of an operation, with the increment of `_op_count` that the loop body makes.
  abbrev pub tick : Clock → Outcome (OpKind × Clock)
  tick c = do (kind, c') ← gen_op_kind c; ok (kind, count c')

module _ (rng : Rng) (files : Files) (delta : Bool → rng.State → Outcome (ℤ × rng.State))
    {Clock : Type 0} (gen_op_kind : Clock → Outcome (OpKind × Clock)) (count : Clock → Clock) where
  unfoldable pub crud_next : Crud rng Clock → Outcome (Payload × Crud rng Clock)
  crud_next g = do
    (kind, clock) ← gen_op_kind g.clock
    (p, keys, s) ← serve rng files delta kind g.keys g.state
    ok (p, record g { keys = keys; clock = count clock; state = s })

  crud_next_lem :
      {D : Deltas} (g : Crud rng Clock) {kind : OpKind} {c : Clock}
      → Draws rng files delta D
      → 0 < length g.keys
      → kind ≢ OpKind.create
      → tick gen_op_kind count g.clock ≡ ok (kind, c)
      → (p : Payload) × (s : rng.State) × (crud_next g ≡ ok (p, record g { clock = c; state = s }))
        × Serves files D g.keys kind p
  unfolding crud_next
  crud_next_lem g {kind} {c} draws h ne e =
      let (a, same, drawn) = first_value _ (gen_op_kind g.clock) e in
      let is_kind : a.0 ≡ kind = cc in
      let is_clock : count a.1 ≡ c = cc in
      let (p, s, served, sv) = serve-Serves rng files delta kind g.keys g.state draws h ne in
      (p, s, rw (drawn, is_kind, served, is_clock) refl, sv)

  -- The requests are of the kinds that the clock tells, on the same table.
  pub requests-follow :
      {D : Deltas} {c c' : Clock} {ks : List OpKind} (s : rng.State) (max_key : ℕ) (keys : Table)
      → Draws rng files delta D
      → 0 < length keys
      → All (λ k. k ≢ OpKind.create) ks
      → Emits (tick gen_op_kind count) c ks c'
      → (ps : List Payload) × (s' : rng.State) × Emits crud_next
          (record { max_key = max_key; keys = keys; clock = c; state = s })
          ps
          (record { max_key = max_key; keys = keys; clock = c'; state = s' })
        × ServesAll files D keys ks ps
  requests-follow s max_key keys draws h ne Emits.done = ([], s, Emits.done, tt)
  requests-follow {c = c} s max_key keys draws h ne (Emits.more e d) =
      let (p, s₁, served, sv) =
        crud_next_lem (record { max_key = max_key; keys = keys; clock = c; state = s }) draws h ne.0
          e in
      let (ps, s₂, d', svs) = requests-follow s₁ max_key keys draws h ne.1 d in
      (p ∷ ps, s₂, Emits.more served d', (sv, svs))

  -- Where the clock raises, so does the generator.
  pub requests-end :
      (g : Crud rng Clock) {e : Exception} → gen_op_kind g.clock ≡ raise e → crud_next g ≡ raise e
  unfolding crud_next
  requests-end g h = rw h refl
