-- ===== src/Failures/Intermittent/Endless.antt =====
-- How long the intermittent faults last.
use mathlib.Core.Path.{subst}
use reckon_k8s.Prelude.{
  ◌≤◌, ◌≡◌, refl, sym, ap, Bool, true, false, List, [], ◌∷◌, ◌++◌, All, All-append, All-append_inv,
  length, length-append, arith,
}
use reckon_k8s.Outcome.{Outcome, ok, first_value, ok-injective}
use reckon_k8s.Cluster.{Node, others, only}
use reckon_k8s.Failures.Iptables.{Iptables, World, partition_all}
use reckon_k8s.Failures.Partition.{Kind, at}
use reckon_k8s.Failures.Partition.Restore.{Cut, Cut-All}
use reckon_k8s.Failures.Intermittent.{
  Phase, Thread, Offline, wake, initiate_failure, apply_fault, Step, Steps, apply_full,
  apply_partial,
}

abbrev pub is_running : Phase → Bool
is_running Phase.ended = false
is_running ph = true

-- A thread that has not ended.
abbrev pub Runs : Thread → Type 0
Runs t = is_running t.phase ≡ true

module _ (tables : Iptables) (p : Node → Bool) (cluster : List Node) where
  -- Every thread runs, and no event says that the failure is fixed.
  abbrev pub Ongoing : Offline tables → Type 0
  Ongoing st = (st.failure_fixed ≡ false) × All Runs st.threads

  wake-Runs :
      (t : Thread) (fixed : Bool) (w : World tables)
      → fixed ≡ false
      → Runs t
      → Runs (wake tables fixed t w).1
  wake-Runs t fixed w e h = at t.phase h
    where
      at :
          (ph : Phase)
          → is_running ph ≡ true
          → Runs (wake tables fixed (record t { phase = ph }) w).1
      at Phase.cut r = refl
      at Phase.joined r = rw e refl
      at Phase.ended r = r

  Step-Ongoing :
      (st st' : Offline tables)
      → Step tables p cluster st st'
      → Ongoing st
      → Ongoing st' × (length st.threads ≤ length st'.threads)
  unfolding apply_fault initiate_failure
  Step-Ongoing st st' (Step.call Kind.create e) (off, run) =
      let (target, made, got) = first_value _ (at (only p cluster) 2) e in
      subst (λ s. Ongoing s × (length st.threads ≤ length s.threads)) (ok-injective made)
        (
          (off, All-append Runs st.threads _ run (rw off refl, tt)),
          omega (arith, length-append st.threads _),
        )
  Step-Ongoing st st' (Step.call Kind.remove e) (off, run) =
      subst (λ s. Ongoing s × (length st.threads ≤ length s.threads)) (ok-injective e)
        ((off, run), omega arith)
  Step-Ongoing st st' (Step.wakes before after t e) (off, run) =
      let (front, back) = All-append_inv Runs before (t ∷ after) (subst (All Runs) e run) in
      let woken = (wake tables st.failure_fixed t st.world).1 in
      let same : length st.threads ≡ length (before ++ t ∷ after) = ap length e in
      (
        (
          off,
          All-append Runs before (woken ∷ after) front
              (wake-Runs t st.failure_fixed st.world off back.0, back.1),
        ),
        omega (arith, same, length-append before (t ∷ after), length-append before (woken ∷ after)),
      )

  -- As long as the event `failure_fixed` is not set and all threads run, they never end: whatever
  -- calls of the fault and sleeps follow, the call that is to remove the failure included, the event
  -- stays unset, every thread goes on with its loop, and there are no fewer of them.
  pub Steps-Ongoing :
      (st st' : Offline tables)
      → Steps tables p cluster st st'
      → Ongoing st
      → Ongoing st' × (length st.threads ≤ length st'.threads)
  Steps-Ongoing st st' Steps.done h = (h, omega arith)
  Steps-Ongoing st st'' (Steps.step {st' = st'} s more) h =
      let (h', le) = Step-Ongoing st st' s h in
      let (h'', le') = Steps-Ongoing st' st'' more h' in (h'', omega (arith, le, le'))

module _ (tables : Iptables) (get_leader : List Node → World tables → Outcome Node) where
  -- The faults of intermittent_full.py change no chain and note no host, whatever is asked of them.
  pub apply_full_lem :
      (kind : Kind) (cluster : List Node) (w w' : World tables)
      → apply_full tables get_leader kind cluster w ≡ ok w'
      → w' ≡ w
  unfolding apply_full
  apply_full_lem Kind.create cluster w w' e =
      let (leader, rest, got) = first_value _ (get_leader cluster w) e in
      let (non_leader, made, found) = first_value _ (at (others leader cluster) 0) rest in
      sym (ok-injective made)
  apply_full_lem Kind.remove cluster w w' e = sym (ok-injective e)

  -- With a leader and another host the faults of intermittent_partial.py cut the two off from each
  -- other, and they are still cut off after the call that is to remove the failure.
  pub apply_partial_lem :
      (cluster rest : List Node) (leader non_leader : Node) (w : World tables)
      → get_leader cluster w ≡ ok leader
      → others leader cluster ≡ non_leader ∷ rest
      → (w1 w2 : World tables) × (apply_partial tables get_leader Kind.create cluster w ≡ ok w1)
        × (apply_partial tables get_leader Kind.remove cluster w1 ≡ ok w2)
        × Cut tables w2 leader non_leader
        × Cut tables w2 non_leader leader
  unfolding apply_partial
  apply_partial_lem cluster rest leader non_leader w e f =
      let ps : List (Node × Node) = (leader, non_leader) ∷ (non_leader, leader) ∷ [] in
      let w1 = partition_all tables ps w in
      let cuts = Cut-All tables ps w in (w1, w1, rw (e, f) refl, refl, cuts.0, cuts.1.0)
