-- ===== src/Workload/TpTest/Loop.antt =====
-- Which operations the phases and the loop of reckon/workload/tptest_crud.py make.
use mathlib.Core.Path.{subst}
use reckon_k8s.Prelude.{
  ℕ, zero, suc, ◌+◌, ◌-◌, ◌*◌, ◌≤◌, ◌<◌, ◌≡◌, refl, sym, Bool, true, false, List, [], ◌∷◌, ◌++◌,
  some, get_elem?, replicate, ltb, arith, lt→ltb, append_assoc,
}
use reckon_k8s.Prelude.Int.{ℤ, pos}
use reckon_k8s.Outcome.{Outcome, ok, raise, index_error}
use reckon_k8s.Workload.Emits.{Emits, Emits-append}
use reckon_k8s.Workload.Deployments.Requests.{OpKind}
use reckon_k8s.Workload.Deployments.Lockstep.{tick}
use reckon_k8s.Workload.TpTest.{Timer, Clock, op_timers, gen_within, gen_op_kind, count_op, start}

ltb_irrefl : (n : ℕ) → ltb n n ≡ false
ltb_irrefl n = ground arith

-- One pass of the loop as it is run, with half of the counts of its phases.
abbrev pub tail_of_pass : List OpKind
tail_of_pass = OpKind.read ∷ OpKind.read ∷ OpKind.scale_down ∷ OpKind.read ∷ OpKind.read ∷ []

abbrev pub pass : List OpKind
pass = OpKind.scale_up ∷ tail_of_pass

abbrev pub passes : ℕ → List OpKind
passes zero = []
passes (suc n) = pass ++ passes n

-- The loop runs as often as its counter says, and then once more from its second phase on.
abbrev pub schedule : ℕ → List OpKind
schedule rps =
    replicate (rps * 3) OpKind.read
    ++ (passes (rps * 6) ++ (tail_of_pass ++ (OpKind.delete ∷ replicate (rps * 100) OpKind.read)))

abbrev pub ticks : ℕ → Clock → Outcome (OpKind × Clock)
ticks rps = tick (gen_op_kind (op_timers rps)) count_op

clock : ℕ → ℕ → Bool → ℕ → ℤ → Clock
clock count index looping idx counter = record {
  op_count = count;
  op_index = index;
  looping = looping;
  loop_idx = idx;
  loop_counter = counter;
}

-- Two levels of `_gen_op_kind` are enough at every step; `depth` is what else the limit allows.
module _ (depth rps : ℕ) where
  abbrev steps : Clock → Outcome (OpKind × Clock)
  steps = tick (gen_within (suc (suc depth)) (op_timers rps)) count_op

  -- The requests of a phase, as long as its count is not reached.
  phase :
      (k n m i : ℕ) (l : Bool) (idx : ℕ) (c : ℤ) (t : Timer)
      → get_elem? (op_timers rps) i ≡ some t
      → m ≡ n + 2 * k
      → m ≤ t.cnt
      → Emits steps (clock n i l idx c) (replicate k t.op) (clock m i l idx c)
  unfolding clock gen_within
  phase zero n m i l idx c t e g h = let same : m ≡ n = omega arith in rw same Emits.done
  phase (suc k) n m i l idx c t e g h =
      Emits.more {s' = clock (suc (suc n)) i l idx c} (rw (e, lt→ltb n t.cnt (omega arith)) refl)
        (phase k (suc (suc n)) m i l idx c t e (omega arith) h)

  rest_of_pass :
      (l : Bool) (c : ℤ)
      → Emits steps
          (clock 2 2 l 1 c)
          (OpKind.read ∷ OpKind.scale_down ∷ OpKind.read ∷ OpKind.read ∷ [])
          (clock 4 4 l 1 c)
  unfolding clock gen_within
  rest_of_pass l c = Emits.more {s' = clock 4 2 l 1 c} refl (
      Emits.more {s' = clock 2 3 l 1 c} refl (
        Emits.more {s' = clock 2 4 l 1 c} refl (Emits.more {s' = clock 4 4 l 1 c} refl Emits.done)))

  -- The first pass sets the counter.
  first_pass :
      0 < rps
      → Emits steps (clock (rps * 6) 0 false 0 (pos 0)) pass (clock 4 4 true 1 (pos (rps * 6)))
  unfolding clock gen_within
  first_pass h =
      Emits.more {s' = clock 2 1 false 0 (pos 0)} (rw (ltb_irrefl (rps * 6)) refl) (
        Emits.more {s' = clock 2 2 true 1 (pos (rps * 6))} refl (rest_of_pass true (pos (rps * 6))))

  -- The other passes, and the requests that follow the last decrement of the counter.
  last_passes :
      (n : ℕ)
      → Emits steps
          (clock 4 4 true 1 (pos (suc n)))
          (passes n ++ tail_of_pass)
          (clock 4 4 false 1 (pos 0))
  unfolding clock gen_within
  last_passes zero = Emits.more {s' = clock 2 2 false 1 (pos 0)} refl (rest_of_pass false (pos 0))
  last_passes (suc n) = Emits.more {s' = clock 2 1 true 1 (pos (suc n))} refl (
      Emits.more {s' = clock 2 2 true 1 (pos (suc n))} refl
        (Emits-append (rest_of_pass true (pos (suc n))) (last_passes n)))

  -- The deletion, and the padding after it.
  ending :
      (k : ℕ)
      → rps * 100 ≡ suc k
      → Emits steps
          (clock 4 4 false 1 (pos 0))
          (OpKind.delete ∷ replicate (rps * 100) OpKind.read)
          (clock (rps * 200) 6 false 1 (pos 0))
  unfolding clock gen_within
  ending k e =
      let padding = phase k 2 (rps * 200) 6 false 1 (pos 0) _ refl (omega arith) (omega arith) in
      let first : steps (clock 2 5 false 1 (pos 0)) ≡ ok (OpKind.read, clock 2 6 false 1 (pos 0)) =
        rw (lt→ltb 0 (rps * 200) (omega arith)) refl in
      Emits.more {s' = clock 2 5 false 1 (pos 0)} refl
        (rw e (Emits.more {s' = clock 2 6 false 1 (pos 0)} first padding))

  loop_and_ending :
      (n k : ℕ)
      → rps * 6 ≡ suc n
      → rps * 100 ≡ suc k
      → Emits steps
          (clock (rps * 6) 0 false 0 (pos 0))
          (passes (suc n) ++ (tail_of_pass ++ (OpKind.delete ∷ replicate (rps * 100) OpKind.read)))
          (clock (rps * 200) 6 false 1 (pos 0))
  loop_and_ending n k e e' =
      let later = rw append_assoc at (Emits-append (last_passes n) (ending k e')) in
      Emits-append (first_pass (omega arith)) (
        subst
          (λ c.
            Emits steps (clock 4 4 true 1 (pos c))
              (passes n ++ (tail_of_pass ++ (OpKind.delete ∷ replicate (rps * 100) OpKind.read)))
              (clock (rps * 200) 6 false 1 (pos 0)))
          (sym e) later)

  steps-schedule :
      0 < rps
      → Emits steps (clock 0 0 false 0 (pos 0)) (schedule rps) (clock (rps * 200) 6 false 1 (pos 0))
  steps-schedule h =
      let e : rps * 6 ≡ suc (rps * 6 - 1) = omega arith in
      Emits-append
        (phase (rps * 3) 0 (rps * 6) 0 false 0 (pos 0) _ refl (omega arith) (omega arith))
        (subst
          (λ m.
            Emits steps (clock (rps * 6) 0 false 0 (pos 0))
              (passes m ++ (tail_of_pass ++ (OpKind.delete ∷ replicate (rps * 100) OpKind.read)))
              (clock (rps * 200) 6 false 1 (pos 0)))
          (sym e) (loop_and_ending (rps * 6 - 1) (rps * 100 - 1) e (omega arith)))

  steps_end :
      gen_within (suc (suc depth)) (op_timers rps) (clock (rps * 200) 6 false 1 (pos 0))
      ≡ raise index_error
  unfolding clock gen_within
  steps_end = rw (ltb_irrefl (rps * 200)) refl

-- From the start the clock tells the schedule, and then `_gen_op_kind` runs off its table.
pub schedule-Emits :
    (rps : ℕ)
    → 0 < rps
    → (c' : Clock) × Emits (ticks rps) start (schedule rps) c'
      × (gen_op_kind (op_timers rps) c' ≡ raise index_error)
unfolding clock gen_op_kind
schedule-Emits rps h =
    (clock (rps * 200) 6 false 1 (pos 0), steps-schedule 998 rps h, steps_end 998 rps)
