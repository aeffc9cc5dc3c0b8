-- ===== src/Workload/Timed.antt =====
-- `TimedCRUD` of reckon/workload/timed_crud.py: phases of requests, by a table of counts.
pub mod Phases
pub mod Requests
use reckon_k8s.Prelude.{ℕ, suc, ◌+◌, ◌*◌, Bool, List, [], ◌∷◌, drop, ltb, if◌then◌else◌}
use reckon_k8s.Prelude.Int.{ℤ, pos, negsuc}
use reckon_k8s.Outcome.{Outcome, ok, raise, index_error}
use reckon_k8s.Types.{Payload}
use reckon_k8s.Rng.{Rng, draw}
use reckon_k8s.Workload.Deployments.{Files}
use reckon_k8s.Workload.Deployments.Requests.{OpKind}
use reckon_k8s.Workload.Deployments.Lockstep.{Crud, crud_next}

pub record Timer : Type 0 where
  pub op : OpKind
  pub cnt : ℕ

-- `_op_count` and `_op_index`.
pub record Clock : Type 0 where
  pub op_count : ℕ
  pub op_index : ℕ

abbrev timer : OpKind → ℕ → Timer
timer op cnt = record { op = op; cnt = cnt }

abbrev pub req_per_sec : ℕ
req_per_sec = 20

-- `_op_timers`
abbrev pub op_timers : List Timer
op_timers =
    timer OpKind.read (req_per_sec * 15)
    ∷ timer OpKind.scale_up 1
    ∷ timer OpKind.read (req_per_sec * 10)
    ∷ timer OpKind.scale_down 1
    ∷ timer OpKind.read (req_per_sec * 10)
    ∷ timer OpKind.scale_up 1
    ∷ timer OpKind.read (req_per_sec * 10)
    ∷ timer OpKind.scale_down 1
    ∷ timer OpKind.read (req_per_sec * 10)
    ∷ timer OpKind.scale_up 1
    ∷ timer OpKind.read (req_per_sec * 10)
    ∷ timer OpKind.delete 1
    ∷ timer OpKind.read (req_per_sec * 200)
    ∷ []

-- `_gen_op_kind` on the entries from `_op_index` on.
gen_from : List Timer → Clock → Outcome (OpKind × Clock)
gen_from [] c = raise index_error
gen_from (t ∷ ts) c =
    let rest = gen_from ts (record { op_count = 0; op_index = suc c.op_index }) in
    if ltb c.op_count t.cnt then ok (t.op, record c { op_count = suc c.op_count }) else rest

unfoldable pub gen_op_kind : List Timer → Clock → Outcome (OpKind × Clock)
unfolding gen_from
gen_op_kind timers c = gen_from (drop c.op_index timers) c

-- The `self._op_count += 1` of the loop body.
abbrev pub count_op : Clock → Clock
count_op c = record c { op_count = suc c.op_count }

abbrev pub start : Clock
start = record { op_count = 0; op_index = 0 }

module _ (rng : Rng) (files : Files) where
  open rng use {State}

  unfoldable pub gen_replica_delta : Bool → State → Outcome (ℤ × State)
  gen_replica_delta up s =
      draw rng (if up then pos 1 else negsuc 1) (if up then pos 4 else negsuc 0) s

  -- One round of the generator `workload`.
  unfoldable pub next : Crud rng Clock → Outcome (Payload × Crud rng Clock)
  next = crud_next rng files gen_replica_delta (gen_op_kind op_timers) count_op
