-- ===== src/Runner/Steps/Whole.antt =====
-- A whole test, from the clients that are started to the files that are written.
use reckon_k8s.Prelude.{
  sym, ℕ, zero, suc, ◌≡◌, ◌≢◌, refl, ap, ◌∙◌, true, List, [], ◌∷◌, ◌++◌, Option, none, some, leb,
  length, map, ◌≤◌, arith, range_from, inl, inr, ◌-◌, ◌/◌,
}
use reckon_k8s.Outcome.{Outcome, ok}
use reckon_k8s.Text.{Text, str}
use reckon_k8s.Types.{Message, Response}
use reckon_k8s.Runner.Cycle.{zip_cycle}
use reckon_k8s.Runner.Preload.{Client, finalise_all}
use reckon_k8s.Runner.Preload.Requests.{
  due, prereq_message, request_message, prereq_entry, request_entry, last_client, preload_lem,
}
use reckon_k8s.Runner.Collate.{Arrival, all_ready, ready_returns}
use reckon_k8s.Runner.Collate.Gathered.{gathered, collate-gathered}
use reckon_k8s.Runner.Execute.Times.{applied, execute-applied}
use reckon_k8s.Runner.Steps.{
  Run, done, failed, waiting, after, of_wait, Workload, Tested, test_steps, start_clients,
  write_results, run_test,
}

-- The messages that a test sends to its clients.
abbrev pub conversation : List Client → Workload → (duration : ℕ) → List (Client × Message)
conversation clients w duration =
    ((map prereq_message (zip_cycle w.prerequisites clients)
        ++ map request_message (due duration (w.workload clients)))
      ++ finalise_all clients)
    ++ map (λ c. (c, Message.start)) clients

-- The clients `0`, `1` and so on.
abbrev pub numbered : ℕ → ℕ → List Client
numbered i n = map (λ k. record { id = str k }) (range_from n i)

module _ {ℓ} {Fault : Type ℓ} {World : Type 0} (call : Fault → World → ℕ × Outcome World)
    (failures : List Fault) (duration start_time : ℕ) (world : World) where
  -- What a test comes to with these clients, when `collate` returns `resps`; `rc` is the client that the log
  -- names for every request.
  abbrev pub tested :
      List Client → Workload → (resps : List Response) → (rc : Client) → Tested Fault World
  tested clients w resps rc =
      let thread =
        applied call start_time (duration / (length failures - 1)) 0 start_time world failures in
      record {
        resps = resps;
        req_log =
            map prereq_entry (zip_cycle w.prerequisites clients)
            ++ map (request_entry rc) (due duration (w.workload clients));
        sent = conversation clients w duration;
        fault_log = thread.0;
        thread_end = thread.1;
      }

  test_steps_lem :
      (clients : List Client) (w : Workload) (order : List ℕ) (rest : List Arrival)
      → 2 ≤ length failures
      → w.prerequisites ≢ []
      → clients ≢ []
      → length order ≡ length clients
      → (rc : Client) × (last_client none (zip_cycle w.prerequisites clients) ≡ some rc)
        × (test_steps call clients w failures duration start_time world (all_ready order ++ rest)
            ≡ after
                (of_wait (gathered (length clients) rest))
                (λ resps. done (tested clients w resps rc)))
  unfolding test_steps
  test_steps_lem clients w order rest two prereqs some_client count =
      let (rc, last, pre) =
        preload_lem w.prerequisites clients (w.workload clients) duration prereqs some_client in
      let answered = rw count at (ready_returns order rest) in
      let enough : leb 2 (length failures) ≡ true = ground arith in
      let ran = execute-applied call clients failures duration start_time world in
      elim ran [
        | inl (le, e) ↦
            (rc, last, rw (enough, pre, answered, e, collate-gathered (length clients) rest) refl)
        | inr (lt, e) ↦ absurd (omega arith)
      ]

module _ {Host : Type 0} (start_client : Host → Text → Outcome Client) where
  start_clients_lem :
      (i : ℕ) (hosts : List Host)
      → ((h : Host) (id : Text) → start_client h id ≡ ok (record { id = id }))
      → start_clients start_client i hosts ≡ ok (numbered i (length hosts))
  unfolding start_clients
  start_clients_lem i [] starts = refl
  start_clients_lem i (h ∷ hosts) starts =
      rw (starts h (str i), start_clients_lem (suc i) hosts starts) refl

numbered-ne-nil : {A : Type 0} (xs : List A) → xs ≢ [] → numbered 0 (length xs) ≢ []
numbered-ne-nil [] h = λ e. h refl
numbered-ne-nil (x ∷ xs) h = λ e. cc

after-after {ℓ κ μ} :
    {A : Type ℓ} {B : Type κ} {C : Type μ} (m : Run A) (f : A → B) (g : B → Run C)
    → after (after m (λ a. done (f a))) g ≡ after m (λ a. g (f a))
after-after (done a) f g = refl
after-after (failed e) f g = refl
after-after waiting f g = refl

pub length-numbered : (i n : ℕ) → length (numbered i n) ≡ n
length-numbered i zero = refl
length-numbered i (suc n) = ap suc (length-numbered (suc i) n)

-- A system whose clients start with the identifiers that they are given is tested with two faults
-- or more, a prerequisite and a host. When its clients all send `ready`, in any order, and `rest` comes of
-- them after that, the test fails with the exception of the first `recv` that raises for a client which
-- has not sent `finished` before. Else, when every client has sent `finished` and the thread that applies
-- the faults has ended, the test ends, and it writes the result of the preparation, followed by the
-- results that each client sent before its `finished`, in the order of their arrival, and the log of all
-- operations; each client `0`, `1` and so on has been sent its operations, `finalise` and `start`, and the
-- faults have been applied at their times, up to the first that raises, whose exception ends the thread
-- but not the test. Else the test waits.
pub run_test_lem {ℓ} :
    {Fault : Type ℓ} {World Host : Type 0} (call : Fault → World → ℕ × Outcome World)
    (failures : List Fault) (duration start_time : ℕ) (world : World)
    (start_client : Host → Text → Outcome Client) (pre_res : Option Response) (hosts : List Host)
    (w : Workload) (order : List ℕ) (rest : List Arrival)
    → ((h : Host) (id : Text) → start_client h id ≡ ok (record { id = id }))
    → 2 ≤ length failures
    → w.prerequisites ≢ []
    → hosts ≢ []
    → length order ≡ length hosts
    → let clients = numbered 0 (length hosts) in
      (rc : Client) × (last_client none (zip_cycle w.prerequisites clients) ≡ some rc)
      × (run_test start_client pre_res hosts w call failures duration start_time world
            (all_ready order ++ rest)
          ≡ after (of_wait (gathered (length hosts) rest)) (λ resps. done (
            record {
              test_resps = pre_res ∷ map Option.some resps;
              test_ops =
                  map prereq_entry (zip_cycle w.prerequisites clients)
                  ++ map (request_entry rc) (due duration (w.workload clients));
            },
            tested call failures duration start_time world clients w resps rc,
          )))
unfolding run_test
run_test_lem call failures duration start_time world start_client pre_res hosts w order rest starts
      two prereqs some_host all =
    let clients = numbered 0 (length hosts) in
    let count : length clients ≡ length hosts = length-numbered 0 (length hosts) in
    let (rc, last, e) =
      test_steps_lem call failures duration start_time world clients w order rest two prereqs
        (numbered-ne-nil hosts some_host) (all ∙ sym count) in
    (
      rc,
      last,
      rw (start_clients_lem start_client 0 hosts starts) (
          ap (λ t. after t (write_results pre_res)) (rw count at e)
          ∙ after-after (of_wait (gathered (length hosts) rest))
              (λ resps. tested call failures duration start_time world clients w resps rc)
              (write_results pre_res)),
    )
