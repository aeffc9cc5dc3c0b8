-- ===== src/Workload/Timed/Phases.antt =====
-- How many requests each phase of reckon/workload/timed_crud.py makes.
use reckon_k8s.Prelude.{
  ℕ, zero, suc, ◌+◌, ◌-◌, ◌/◌, ◌≡◌, refl, sym, ap, inl, inr, false, List, [], ◌∷◌, ◌++◌, drop,
  replicate, ltb, arith, Bool-cases,
}
use reckon_k8s.Outcome.{Outcome, ok, raise, index_error}
use reckon_k8s.Workload.Emits.{Emits}
use reckon_k8s.Workload.Deployments.Requests.{OpKind}
use reckon_k8s.Workload.Deployments.Lockstep.{tick}
use reckon_k8s.Workload.Timed.{Timer, Clock, gen_from, gen_op_kind, count_op, start}

-- The kinds that phases make, with half of each count, rounded up: `_op_count` grows by two for each
-- request, once in `_gen_op_kind` and once in `workload`.
abbrev pub schedule : List Timer → List OpKind
schedule [] = []
schedule (t ∷ ts) = replicate ((t.cnt + 1) / 2) t.op ++ schedule ts

-- What is left of the schedule when `count` is reached in the first phase.
abbrev left : List Timer → ℕ → List OpKind
left [] count = []
left (t ∷ ts) count = replicate ((t.cnt + 1 - count) / 2) t.op ++ schedule ts

left-zero : (ts : List Timer) → left ts 0 ≡ schedule ts
left-zero [] = refl
left-zero (t ∷ ts) = ap (λ n. replicate n t.op ++ schedule ts) (omega arith)

clock : ℕ → ℕ → Clock
clock count index = record { op_count = count; op_index = index }

-- What `gen_from` comes to, by what is left: it fails where nothing is left, or gives the first kind
-- that is left, and what follows that kind is left then.
data Gives (ts : List Timer) (count index : ℕ) : Type 0 where
  fails :
      left ts count ≡ []
      → gen_from ts (clock count index) ≡ raise index_error
      → Gives ts count index
  gives :
      (op : OpKind) (count' d : ℕ)
      → gen_from ts (clock count index) ≡ ok (op, clock count' (index + d))
      → left ts count ≡ op ∷ left (drop d ts) (suc count')
      → Gives ts count index

skip :
    (t : Timer) (ts : List Timer) (count index : ℕ)
    → ltb count t.cnt ≡ false
    → Gives ts 0 (suc index)
    → Gives (t ∷ ts) count index
unfolding gen_from clock
skip t ts count index e (fails none_left f) =
    let spent : (t.cnt + 1 - count) / 2 ≡ 0 = ground arith in
    fails (rw (spent, ← left-zero ts) none_left) (rw e f)
skip t ts count index e (gives op count' d f l) =
    let spent : (t.cnt + 1 - count) / 2 ≡ 0 = ground arith in
    let step : suc index + d ≡ index + suc d = omega arith in
    gives op count' (suc d) (rw (e, f, step) refl) (rw (spent, ← left-zero ts) l)

gen_from-Gives : (ts : List Timer) (count index : ℕ) → Gives ts count index
unfolding gen_from clock
gen_from-Gives [] count index = fails refl refl
gen_from-Gives (t ∷ ts) count index = elim (Bool-cases (ltb count t.cnt)) [
  | inl e ↦
      let two : (t.cnt + 1 - count) / 2 ≡ suc ((t.cnt + 1 - suc (suc count)) / 2) = ground arith in
      let here : index ≡ index + 0 = omega arith in
      gives t.op (suc count) 0 (rw e (ap (λ i. ok (t.op, clock (suc count) i)) here)) (rw two refl)
  | inr e ↦ skip t ts count index e (gen_from-Gives ts 0 (suc index))
]

drop-nil : {A : Type 0} (d : ℕ) → drop {A = A} d [] ≡ []
drop-nil zero = refl
drop-nil (suc d) = refl

drop-drop : {A : Type 0} (n i d : ℕ) (xs : List A) → n ≡ i + d → drop n xs ≡ drop d (drop i xs)
drop-drop n zero d xs e = ap (λ k. drop k xs) (omega arith)
drop-drop zero (suc i) d xs e = absurd (omega arith)
drop-drop (suc n) (suc i) d [] e = sym (drop-nil d)
drop-drop (suc n) (suc i) d (x ∷ xs) e = drop-drop n i d xs (omega arith)

-- The clock of the timers `ts`.
abbrev pub ticks : List Timer → Clock → Outcome (OpKind × Clock)
ticks ts = tick (gen_op_kind ts) count_op

Ends : List Timer → Clock → List OpKind → Type 0
Ends ts c ks = (c' : Clock) × Emits (ticks ts) c ks c' × (gen_op_kind ts c' ≡ raise index_error)

ticks-gives :
    (ts : List Timer) (c : Clock) {c' : Clock} {op : OpKind}
    → gen_op_kind ts c ≡ ok (op, c')
    → ticks ts c ≡ ok (op, count_op c')
ticks-gives ts c e = rw e refl

emits_left :
    (ts : List Timer) (ks : List OpKind) (count index : ℕ)
    → left (drop index ts) count ≡ ks
    → Ends ts (clock count index) ks
unfolding Ends gen_op_kind clock
emits_left ts [] count index e = elim (gen_from-Gives (drop index ts) count index) [
  | fails l f ↦ (clock count index, Emits.done, f)
  | gives op count' d f l ↦ cc
]
emits_left ts (k ∷ ks) count index e = elim (gen_from-Gives (drop index ts) count index) [
  | fails l f ↦ cc
  | gives op count' d f l ↦
      let same : op ≡ k = cc in
      let (c', em, end) =
        emits_left ts ks (suc count') (index + d)
          (rw (drop-drop (index + d) index d ts refl) (cc)) in
      (c', Emits.more (ticks-gives ts (clock count index) (rw (← same) f)) em, end)
]

-- From the start the clock tells the schedule, and then `_gen_op_kind` runs off its table.
pub schedule-Ends :
    (ts : List Timer)
    → (c' : Clock) × Emits (ticks ts) start (schedule ts) c'
      × (gen_op_kind ts c' ≡ raise index_error)
unfolding Ends clock
schedule-Ends ts = emits_left ts (schedule ts) 0 0 (left-zero ts)
