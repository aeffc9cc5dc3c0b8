-- ===== src/Workload/Timed/Requests.antt =====
-- The requests of reckon/workload/timed_crud.py.
use reckon_k8s.Prelude.{
  ℕ, ◌+◌, ◌/◌, ◌<◌, ◌≡◌, ◌≢◌, true, false, List, [], ◌∷◌, replicate, length, All, All-append,
  All-replicate, arith,
}
use reckon_k8s.Prelude.Int.{◌≤ℤ◌, pos, negsuc, int_laws}
use reckon_k8s.Outcome.{ok, raise, index_error}
use reckon_k8s.Types.{Payload}
use reckon_k8s.Rng.{Rng, draw_in}
use reckon_k8s.Workload.Emits.{generate-Emits}
use reckon_k8s.Workload.Generator.{generate}
use reckon_k8s.Workload.Deployments.{Files, Table}
use reckon_k8s.Workload.Deployments.Requests.{OpKind, Deltas, Draws}
use reckon_k8s.Workload.Deployments.Lockstep.{Crud, ServesAll, requests-follow, requests-end}
use reckon_k8s.Workload.Timed.Phases.{schedule, schedule-Ends}
use reckon_k8s.Workload.Timed.{
  Timer, Clock, op_timers, gen_op_kind, count_op, start, gen_replica_delta, next,
}

-- A scaling up adds one to three replicas, and a scaling down removes exactly two.
abbrev pub IsDelta : Deltas
IsDelta true n = (pos 1 ≤ℤ n) × (n ≤ℤ pos 3)
IsDelta false n = n ≡ negsuc 1

gen_replica_delta-Draws :
    (rng : Rng) (files : Files) → Draws rng files (gen_replica_delta rng files) IsDelta
unfolding gen_replica_delta
gen_replica_delta-Draws rng files true s =
    let (k, s', e, lo, hi) = draw_in rng (pos 1) (pos 4) s (omega arith) in
    (k, s', e, (lo, omega arith))
gen_replica_delta-Draws rng files false s =
    let (k, s', e, lo, hi) = draw_in rng (negsuc 1) (negsuc 0) s (omega arith) in
    (k, s', e, omega int_laws)

schedule-All : (P : OpKind → Type 0) (ts : List Timer) → All (λ t. P t.op) ts → All P (schedule ts)
schedule-All P [] h = tt
schedule-All P (t ∷ ts) h =
    All-append P (replicate ((t.cnt + 1) / 2) t.op) (schedule ts) (All-replicate P _ t.op h.0)
      (schedule-All P ts h.1)

schedule-not_create : All (λ k. k ≢ OpKind.create) (schedule op_timers)
schedule-not_create = schedule-All (λ k. k ≢ OpKind.create) op_timers (grind arith)

abbrev pub first : (rng : Rng) → (max_key : ℕ) → Table → rng.State → Crud rng Clock
first rng max_key keys s = record { max_key = max_key; keys = keys; clock = start; state = s }

-- With a deployment in the table, the generator makes exactly the requests of the schedule, in its
-- order, each about a deployment of the table: where the schedule says a read, an update whose text
-- is that of a delta of one to three for a scaling up and of exactly minus two for a scaling down, or a
-- deletion, the request is that one. The schedule has half of each phase's count, rounded up. The
-- request after the last raises IndexError.
pub next-timed_schedule :
    (rng : Rng) (files : Files) (max_key : ℕ) (keys : Table) (s : rng.State)
    → 0 < length keys
    → (ps : List Payload) × (g' : Crud rng Clock) × (generate
          (next rng files)
          (length ps)
          (first rng max_key keys s)
        ≡ ok (ps, g'))
      × ServesAll files IsDelta keys (schedule op_timers) ps
      × (next rng files g' ≡ raise index_error)
unfolding next
next-timed_schedule rng files max_key keys s h =
    let (c', ticked, end) = schedule-Ends op_timers in
    let (ps, s', emitted, served) =
      requests-follow rng files (gen_replica_delta rng files) (gen_op_kind op_timers) count_op s
        max_key keys (gen_replica_delta-Draws rng files) h schedule-not_create ticked in
    (
      ps,
      record { max_key = max_key; keys = keys; clock = c'; state = s' },
      generate-Emits emitted,
      served,
      requests-end rng files (gen_replica_delta rng files) (gen_op_kind op_timers) count_op _ end,
    )
