-- ===== src/Tests/Steps.antt =====
-- A whole test with two clients and three faults.
use reckon_k8s.Prelude.{
  ◌==◌, sym, ap, ◌∙◌, ℕ, ◌≡◌, refl, List, [], ◌∷◌, ◌++◌, Option, none, some, true, false, map,
  arith, if◌then◌else◌,
}
use reckon_k8s.Outcome.{Outcome, ok, raise, index_error}
use reckon_k8s.Text.{Text, codes, str}
use reckon_k8s.Types.{Operation, Message, Payload, Response, OperationKind}
use reckon_k8s.Runner.Cycle.{zip_cycle}
use reckon_k8s.Runner.Preload.{Client}
use reckon_k8s.Runner.Preload.Requests.{due, prereq_entry, request_entry, last_client}
use reckon_k8s.Runner.Collate.{Arrival, all_ready}
use reckon_k8s.Runner.Collate.Gathered.{gathered}
use reckon_k8s.Runner.Steps.{Workload, done, after, of_wait, Tested, Files, run_test}
use reckon_k8s.Runner.Steps.Whole.{numbered, tested, run_test_lem}
use reckon_k8s.Runner.Steps.Sessions.{to, given, asked, to-run_test}

abbrev read_at : ℕ → Operation
read_at time = record { payload = Payload.read (codes "1"); time = time }

abbrev reads : Workload
reads = record {
  prerequisites = read_at 0 ∷ [];
  workload = λ clients. map (λ c. (c, read_at 4)) clients;
}

abbrev answer : Response
answer = record {
  t_submitted = 1;
  t_result = 2;
  result = codes "Success";
  op_kind = OperationKind.read;
  clientid = codes "1";
  other = [];
}

-- The second client is the first to be ready.
abbrev order : List ℕ
order = 1 ∷ 0 ∷ []

abbrev replies : List Arrival
replies = (0, ok Message.finished) ∷ (1, ok (Message.result answer)) ∷ (1, ok Message.finished) ∷ []

abbrev hosts : List Text
hosts = codes "h1" ∷ codes "h2" ∷ []

abbrev start_named : Text → Text → Outcome Client
start_named h id = ok (record { id = id })

-- The second fault raises.
abbrev call : ℕ → ℕ → ℕ × Outcome ℕ
call f w = (0, if f == 20 then raise index_error else ok f)

abbrev faults : List ℕ
faults = 10 ∷ 20 ∷ 30 ∷ []

abbrev ended_with : Client → List Response → Files × Tested ℕ ℕ
ended_with rc resps = (
  record {
    test_resps = none ∷ map Option.some resps;
    test_ops =
        map prereq_entry (zip_cycle reads.prerequisites (numbered 0 2))
        ++ map (request_entry rc) (due 60 (reads.workload (numbered 0 2)));
  },
  tested call faults 60 1000 5 (numbered 0 2) reads resps rc,
)

run_test_lem_example :
    (rc : Client) × (last_client none (zip_cycle reads.prerequisites (numbered 0 2)) ≡ some rc)
    × (run_test start_named none hosts reads call faults 60 1000 5 (all_ready order ++ replies)
        ≡ after (of_wait (gathered 2 replies)) (λ resps. done (ended_with rc resps)))
run_test_lem_example =
    run_test_lem call faults 60 1000 5 start_named none hosts reads order replies (λ h id. refl)
      (omega arith) (λ e. cc) (λ e. cc) refl

abbrev done_with : Files × Tested ℕ ℕ
done_with = ended_with (record { id = str 0 }) (answer ∷ [])

the_test :
    (rc : Client) × (last_client none (zip_cycle reads.prerequisites (numbered 0 2)) ≡ some rc)
    × (run_test start_named none hosts reads call faults 60 1000 5 (all_ready order ++ replies)
        ≡ done (ended_with rc (answer ∷ [])))
the_test =
    run_test_lem call faults 60 1000 5 start_named none hosts reads order replies (λ h id. refl)
      (omega arith) (λ e. cc) (λ e. cc) refl

some-injective : {a b : Client} → some a ≡ some b → a ≡ b
some-injective e = cc

ended :
    run_test start_named none hosts reads call faults 60 1000 5 (all_ready order ++ replies)
    ≡ done done_with
unfolding zip_cycle
ended =
    let (rc, last, e) = the_test in
    e ∙ ap (λ c. done (ended_with c (answer ∷ []))) (some-injective (sym last))

to-run_test_example :
    to (str 1) done_with.1.sent
    ≡ map
        (λ op. Message.preload true op)
        (given (str 1) (zip_cycle reads.prerequisites (numbered 0 2)))
      ++ (map
            (λ op. Message.preload false op)
            (asked (str 1) (due 60 (reads.workload (numbered 0 2))))
          ++ Message.finalise ∷ Message.start ∷ [])
to-run_test_example =
    to-run_test call faults 60 1000 5 start_named none hosts reads order replies 1 done_with.0
      done_with.1 (λ h id. refl) (omega arith) (λ e. cc) (λ e. cc) refl (omega arith) ended
