-- ===== src/Workload/TpTest.antt =====
-- `TPTestCRUD` of reckon/workload/tptest_crud.py: phases of requests, some of them in a loop.
pub mod Loop
pub mod Ends
pub mod Requests
use reckon_k8s.Prelude.{
  ℕ, zero, suc, ◌+◌, ◌*◌, Bool, true, false, not, ◌&&◌, List, [], ◌∷◌, none, some, get_elem?, ltb,
  if◌then◌else◌,
}
use reckon_k8s.Prelude.Int.{ℤ, pos, negsuc}
use reckon_k8s.Outcome.{Outcome, ok, raise, index_error, recursion_error}
use reckon_k8s.Types.{Payload}
use reckon_k8s.Rng.{Rng}
use reckon_k8s.Workload.Deployments.{Files}
use reckon_k8s.Workload.Deployments.Requests.{OpKind}
use reckon_k8s.Workload.Deployments.Lockstep.{Crud, crud_next}

-- An entry of `_op_timers`; a key that the entry lacks is `false` or zero.
pub record Timer : Type 0 where
  pub op : OpKind
  pub cnt : ℕ
  pub loop_start : Bool
  pub loop_cnt : ℕ
  pub loop_end : Bool

-- `_op_count`, `_op_index`, `_looping`, `_loop_idx` and `_loop_counter`.
pub record Clock : Type 0 where
  pub op_count : ℕ
  pub op_index : ℕ
  pub looping : Bool
  pub loop_idx : ℕ
  pub loop_counter : ℤ

abbrev timer : OpKind → ℕ → Timer
timer op cnt = record { op = op; cnt = cnt; loop_start = false; loop_cnt = 0; loop_end = false }

-- `_op_timers`, for a whole number of requests a second.
abbrev pub op_timers : ℕ → List Timer
op_timers req_per_sec =
    timer OpKind.read (req_per_sec * 6)
    ∷ record (timer OpKind.scale_up 1) { loop_start = true; loop_cnt = req_per_sec * 6 }
    ∷ timer OpKind.read 4
    ∷ timer OpKind.scale_down 1
    ∷ record (timer OpKind.read 4) { loop_end = true }
    ∷ timer OpKind.delete 1
    ∷ timer OpKind.read (req_per_sec * 200)
    ∷ []

abbrev decrement : ℤ → ℤ
decrement (pos zero) = negsuc 0
decrement (pos (suc n)) = pos n
decrement (negsuc n) = negsuc (suc n)

-- `n <= 0`
abbrev is_nonpositive : ℤ → Bool
is_nonpositive (pos zero) = true
is_nonpositive (pos (suc n)) = false
is_nonpositive (negsuc n) = true

-- The first `if` of the `else` branch: the loop is entered.
enter_loop : Timer → Clock → Clock
enter_loop t c =
    if t.loop_start && not c.looping
    then record c { looping = true; loop_idx = c.op_index; loop_counter = pos t.loop_cnt }
    else c

-- `self._op_index = self._loop_idx`, and the `if` after it, where the counter is down to zero.
back_to_start : Clock → Clock
back_to_start c =
    if is_nonpositive c.loop_counter
    then record c { op_index = suc c.loop_idx; looping = false }
    else record c { op_index = c.loop_idx }

-- The second `if`, and its `else`.
leave_phase : Timer → Clock → Clock
unfolding back_to_start
leave_phase t c =
    if t.loop_end && c.looping
    then back_to_start (record c { loop_counter = decrement c.loop_counter })
    else record c { op_index = suc c.op_index }

advance : Timer → Clock → Clock
unfolding enter_loop leave_phase
advance t c = record (leave_phase t (enter_loop t c)) { op_count = 0 }

-- `_gen_op_kind`, which calls itself; Python stops a recursion that is too deep.
gen_within : ℕ → List Timer → Clock → Outcome (OpKind × Clock)
unfolding advance
gen_within zero timers c = raise recursion_error
gen_within (suc depth) timers c = elim (get_elem? timers c.op_index) [
  | none ↦ raise index_error
  | some t ↦
      let rest = gen_within depth timers (advance t c) in
      if ltb c.op_count t.cnt then ok (t.op, record c { op_count = suc c.op_count }) else rest
]

abbrev recursion_limit : ℕ
recursion_limit = 1000

unfoldable pub gen_op_kind : List Timer → Clock → Outcome (OpKind × Clock)
unfolding gen_within
gen_op_kind timers c = gen_within recursion_limit timers c

-- The `self._op_count += 1` of the loop body.
abbrev pub count_op : Clock → Clock
count_op c = record c { op_count = suc c.op_count }

abbrev pub start : Clock
start = record { op_count = 0; op_index = 0; looping = false; loop_idx = 0; loop_counter = pos 0 }

module _ (rng : Rng) (files : Files) where
  open rng use {State}

  unfoldable pub gen_replica_delta : Bool → State → Outcome (ℤ × State)
  gen_replica_delta up s = ok (if up then pos 1 else negsuc 0, s)

  -- One round of the generator `workload`.
  unfoldable pub next : ℕ → Crud rng Clock → Outcome (Payload × Crud rng Clock)
  next req_per_sec =
      crud_next rng files gen_replica_delta (gen_op_kind (op_timers req_per_sec)) count_op
