-- ===== src/Tests/Workload.antt =====
-- The workloads at concrete inputs.
use reckon_k8s.Prelude.{
  true, ℕ, get_elem?, some, ◌%◌, refl, suc, ◌*◌, ◌≡◌, List, [], ◌∷◌, length, All, arith,
}
use reckon_k8s.Outcome.{ok, raise, index_error}
use reckon_k8s.Text.{codes}
use reckon_k8s.Types.{Payload}
use reckon_k8s.Workload.Generator.{generate}
use reckon_k8s.Workload.Deployments.{Table}
use reckon_k8s.Workload.Deployments.Lockstep.{Crud, ServesAll}
use reckon_k8s.Workload.Uniform
use reckon_k8s.Workload.Uniform.Keys
use reckon_k8s.Workload.Timed
use reckon_k8s.Workload.Timed.Phases
use reckon_k8s.Workload.Timed.Requests as TimedRequests
use reckon_k8s.Workload.TpTest
use reckon_k8s.Workload.TpTest.Loop
use reckon_k8s.Workload.TpTest.Ends as LoopEnds
use reckon_k8s.Prelude.Int.{pos}
use reckon_k8s.Workload.TpTest.Requests as LoopRequests
use reckon_k8s.Workload.Provider.{ArrivalType}
use reckon_k8s.Workload.Provider.Arrivals.{
  Exponential, arrival_time, arrival_times, timed_workload, Ascending, get_elem?-timed_workload,
}
use reckon_k8s.Runner.Preload.{Client}
use reckon_k8s.Tests.{lowest_rng, plain_files}

abbrev one_deployment : Table
one_deployment = (codes "dep-rc-0", codes "default") ∷ []

next-timed_schedule_example :
    (ps : List Payload) × (g' : Crud lowest_rng Timed.Clock) × (generate
        (Timed.next lowest_rng plain_files)
        (length ps)
        (TimedRequests.first lowest_rng 1 one_deployment 0)
      ≡ ok (ps, g'))
    × ServesAll plain_files TimedRequests.IsDelta one_deployment
        (Phases.schedule Timed.op_timers)
        ps
    × (Timed.next lowest_rng plain_files g' ≡ raise index_error)
next-timed_schedule_example =
    TimedRequests.next-timed_schedule lowest_rng plain_files 1 one_deployment 0 (omega arith)

next-loop_schedule_example :
    (ps : List Payload) × (g' : Crud lowest_rng TpTest.Clock) × (generate
        (TpTest.next lowest_rng plain_files 2)
        (length ps)
        (LoopRequests.first lowest_rng 1 one_deployment 0)
      ≡ ok (ps, g'))
    × ServesAll plain_files LoopRequests.IsDelta one_deployment (Loop.schedule 2) ps
    × (TpTest.next lowest_rng plain_files 2 g' ≡ raise index_error)
next-loop_schedule_example =
    LoopRequests.next-loop_schedule lowest_rng plain_files 2 1 one_deployment 0 (omega arith)
      (omega arith)

abbrev keys_of_nine : Uniform.UniformKeys lowest_rng
keys_of_nine = record { write_ratio = 1; max_key = 9; payload_size = 3; state = 0 }

generate-IsRequest_example :
    (ps : List Payload) × (g' : Uniform.UniformKeys lowest_rng) × (generate
        (Uniform.next lowest_rng)
        5
        keys_of_nine
      ≡ ok (ps, g'))
    × (length ps ≡ 5)
    × All (Keys.IsRequest 9 3) ps
generate-IsRequest_example = Keys.generate-IsRequest lowest_rng 5 keys_of_nine

-- Each draw is its number times the period.
abbrev growing : Exponential
growing = record { State = ℕ; exponential = λ period s. (s * period, suc s) }

abbrev clients : List Client
clients = record { id = codes "0" } ∷ record { id = codes "1" } ∷ []

abbrev reads : List Payload
reads = Payload.read (codes "k") ∷ Payload.read (codes "l") ∷ Payload.read (codes "k") ∷ []

get_elem?-timed_workload_example :
    (length (timed_workload growing ArrivalType.poisson clients 5 1 reads) ≡ 3)
    × ((c : Client) × (get_elem? clients (2 % length clients) ≡ some c)
        × (get_elem? (timed_workload growing ArrivalType.poisson clients 5 1 reads) 2
            ≡ some (
              c,
              record {
                payload = Payload.read (codes "k");
                time = arrival_time growing ArrivalType.poisson 5 2 1;
              },
            )))
    × Ascending growing 0 (arrival_times growing ArrivalType.poisson 5 (length reads) 1)
get_elem?-timed_workload_example =
    get_elem?-timed_workload growing ArrivalType.poisson clients 5 1 reads 2
      (Payload.read (codes "k")) refl (omega arith)

-- At the end of the last phase of the loop.
abbrev over : TpTest.Clock
over = record { op_count = 4; op_index = 4; looping = true; loop_idx = 1; loop_counter = pos 1 }

gen_op_kind-Ends_example : LoopEnds.Ends (TpTest.gen_op_kind (TpTest.op_timers 5) over)
gen_op_kind-Ends_example = LoopEnds.gen_op_kind-Ends (TpTest.op_timers 5) over (
  omega arith,
  (omega arith, (omega arith, (omega arith, (omega arith, (omega arith, (omega arith, tt)))))),
)
