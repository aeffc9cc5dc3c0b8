-- ===== src/Workload/TpTest/Requests.antt =====
-- The requests of reckon/workload/tptest_crud.py, and how many there are of each kind.
use reckon_k8s.Prelude.{
  true, false, ℕ, zero, suc, ◌+◌, ◌*◌, ◌<◌, ◌≡◌, refl, ◌≢◌, List, [], ◌∷◌, ◌++◌, replicate, length,
  All, All-append, All-replicate, arith,
}
use reckon_k8s.Prelude.Int.{pos, negsuc}
use reckon_k8s.Outcome.{ok, raise, index_error}
use reckon_k8s.Types.{Payload}
use reckon_k8s.Rng.{Rng}
use reckon_k8s.Workload.Emits.{generate-Emits}
use reckon_k8s.Workload.Generator.{generate}
use reckon_k8s.Workload.Deployments.{Files, Table}
use reckon_k8s.Workload.Deployments.Requests.{OpKind, Deltas, Draws}
use reckon_k8s.Workload.Deployments.Lockstep.{Crud, ServesAll, requests-follow, requests-end}
use reckon_k8s.Workload.TpTest.{
  Clock, op_timers, gen_op_kind, count_op, start, gen_replica_delta, next,
}
use reckon_k8s.Workload.TpTest.Loop.{tail_of_pass, pass, passes, schedule, ticks, schedule-Emits}

-- The sum of a number for each operation.
abbrev pub total : (OpKind → ℕ) → List OpKind → ℕ
total f [] = 0
total f (k ∷ ks) = f k + total f ks

abbrev pub ups : OpKind → ℕ
ups OpKind.scale_up = 1
ups _ = 0

abbrev pub downs : OpKind → ℕ
downs OpKind.scale_down = 1
downs _ = 0

abbrev pub reads : OpKind → ℕ
reads OpKind.read = 1
reads _ = 0

total-append : (f : OpKind → ℕ) (ks js : List OpKind) → total f (ks ++ js) ≡ total f ks + total f js
total-append f [] js = omega arith
total-append f (k ∷ ks) js = omega (arith, total-append f ks js)

total-replicate : (f : OpKind → ℕ) (n : ℕ) (k : OpKind) → total f (replicate n k) ≡ n * f k
total-replicate f zero k = omega arith
total-replicate f (suc n) k = grind (arith, total-replicate f n k)

total-passes : (f : OpKind → ℕ) (n : ℕ) → total f (passes n) ≡ n * total f pass
total-passes f zero = omega arith
total-passes f (suc n) = grind (arith, total-append f pass (passes n), total-passes f n)

total-schedule :
    (f : OpKind → ℕ) (rps : ℕ)
    → total f (schedule rps)
      ≡ rps * 3 * f OpKind.read
        + rps * 6 * total f pass
        + total f tail_of_pass
        + f OpKind.delete
        + rps * 100 * f OpKind.read
total-schedule f rps = omega (
  arith,
  total-append f (replicate (rps * 3) OpKind.read)
      (passes (rps * 6) ++ (tail_of_pass ++ (OpKind.delete ∷ replicate (rps * 100) OpKind.read))),
  total-append f (passes (rps * 6))
      (tail_of_pass ++ (OpKind.delete ∷ replicate (rps * 100) OpKind.read)),
  total-append f tail_of_pass (OpKind.delete ∷ replicate (rps * 100) OpKind.read),
  total-replicate f (rps * 3) OpKind.read,
  total-replicate f (rps * 100) OpKind.read,
  total-passes f (rps * 6),
)

-- The clock of a test with a positive rate makes operations until `_gen_op_kind` raises IndexError:
-- six scale-ups for each request a second, one scale-down more than scale-ups, and two reads after
-- each scaling inside the loop, 127 for each request a second and four more in all.
pub ticks_balance :
    (rps : ℕ)
    → 0 < rps
    → (ks : List OpKind) × (c' : Clock) × (generate (ticks rps) (length ks) start ≡ ok (ks, c'))
      × (gen_op_kind (op_timers rps) c' ≡ raise index_error)
      × (total ups ks ≡ rps * 6)
      × (total downs ks ≡ rps * 6 + 1)
      × (total reads ks ≡ rps * 127 + 4)
ticks_balance rps h =
    let (c', em, end) = schedule-Emits rps h in
    (
      schedule rps,
      c',
      generate-Emits em,
      end,
      omega (arith, total-schedule ups rps),
      omega (arith, total-schedule downs rps),
      omega (arith, total-schedule reads rps),
    )

-- A scaling up adds one replica, and a scaling down removes one.
abbrev pub IsDelta : Deltas
IsDelta true n = n ≡ pos 1
IsDelta false n = n ≡ negsuc 0

gen_replica_delta-Draws :
    (rng : Rng) (files : Files) → Draws rng files (gen_replica_delta rng files) IsDelta
unfolding gen_replica_delta
gen_replica_delta-Draws rng files true s = (_, s, refl, refl)
gen_replica_delta-Draws rng files false s = (_, s, refl, refl)

abbrev IsNotCreate : OpKind → Type 0
IsNotCreate k = k ≢ OpKind.create

passes-IsNotCreate : (n : ℕ) → All IsNotCreate (passes n)
passes-IsNotCreate zero = tt
passes-IsNotCreate (suc n) = grind (arith, passes-IsNotCreate n)

schedule-IsNotCreate : (rps : ℕ) → All IsNotCreate (schedule rps)
schedule-IsNotCreate rps =
    let padding = All-replicate IsNotCreate (rps * 100) OpKind.read (grind arith) in
    let rest : All IsNotCreate
        (tail_of_pass ++ (OpKind.delete ∷ replicate (rps * 100) OpKind.read)) =
      grind (arith, padding) in
    All-append IsNotCreate (replicate (rps * 3) OpKind.read) _
      (All-replicate IsNotCreate (rps * 3) OpKind.read (grind arith))
      (All-append IsNotCreate (passes (rps * 6)) _ (passes-IsNotCreate (rps * 6)) rest)

abbrev pub first : (rng : Rng) → (max_key : ℕ) → Table → rng.State → Crud rng Clock
first rng max_key keys s = record { max_key = max_key; keys = keys; clock = start; state = s }

-- With a deployment in the table and a positive rate, the generator makes exactly the requests of
-- the schedule, in its order, each about a deployment of the table: where the schedule says a read,
-- an update whose text is that of the delta one for a scaling up and minus one for a scaling down, or
-- a deletion, the request is that one. The schedule has the opening reads, the passes of the loop, one incomplete pass, the deletion and
-- the padding, with half of each phase's count. The request after the last raises IndexError.
pub next-loop_schedule :
    (rng : Rng) (files : Files) (rps max_key : ℕ) (keys : Table) (s : rng.State)
    → 0 < rps
    → 0 < length keys
    → (ps : List Payload) × (g' : Crud rng Clock) × (generate
          (next rng files rps)
          (length ps)
          (first rng max_key keys s)
        ≡ ok (ps, g'))
      × ServesAll files IsDelta keys (schedule rps) ps
      × (next rng files rps g' ≡ raise index_error)
unfolding next
next-loop_schedule rng files rps max_key keys s hr h =
    let (c', ticked, end) = schedule-Emits rps hr in
    let (ps, s', emitted, served) =
      requests-follow rng files (gen_replica_delta rng files) (gen_op_kind (op_timers rps)) count_op
        s max_key keys (gen_replica_delta-Draws rng files) h (schedule-IsNotCreate rps) ticked in
    (
      ps,
      record { max_key = max_key; keys = keys; clock = c'; state = s' },
      generate-Emits emitted,
      served,
      requests-end rng files (gen_replica_delta rng files) (gen_op_kind (op_timers rps)) count_op _
          end,
    )
