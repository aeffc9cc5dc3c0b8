-- ===== src/Runner/Steps.antt =====
-- `test_steps` and `run_test` of reckon/client_runner.py: a whole test. Its threads are one sequence:
-- `execute` does not read what the clients send, and `collate` sends nothing.
pub mod Whole
pub mod Sessions
use reckon_k8s.Prelude.{
  ℕ, suc, Bool, true, false, List, [], ◌∷◌, ◌++◌, Option, none, some, leb, length, map, range_from,
}
use reckon_k8s.Outcome.{Outcome, ok, raise, Exception, check, assertion_error, ◌>>=◌}
use reckon_k8s.Text.{Text, str}
use reckon_k8s.Types.{Operation, Message, Response}
use reckon_k8s.Runner.Preload.{Client, Entry, preload}
use reckon_k8s.Runner.Collate.{Wait, Arrival, ready, collate}
use reckon_k8s.Runner.Execute.{Ran, execute}

-- A test ends, fails, or waits for a message that has not come.
pub data Run {ℓ} (A : Type ℓ) : Type ℓ where
  done : A → Run A
  failed : Exception → Run A
  waiting : Run A

abbrev pub after {ℓ κ} : {A : Type ℓ} {B : Type κ} → Run A → (A → Run B) → Run B
after (done a) f = f a
after (failed e) f = failed e
after waiting f = waiting

abbrev pub of_outcome {ℓ} : {A : Type ℓ} → Outcome A → Run A
of_outcome (ok a) = done a
of_outcome (raise e) = failed e

-- An exception fails the test.
abbrev pub of_wait : {A : Type 0} → Wait A → Run A
of_wait (Wait.returns a) = done a
of_wait (Wait.fails e) = failed e
of_wait Wait.waits = waiting

-- `AbstractWorkload`: the operations are handed out to the clients that `test_steps` sets.
pub record Workload : Type 0 where
  pub prerequisites : List Operation
  pub workload : List Client → List (Client × Operation)

-- What `test_steps` returns, with the messages sent, the log of the faults and how the thread of `execute`
-- ends.
pub record Tested {ℓ} (Fault : Type ℓ) (World : Type 0) : Type ℓ where
  pub resps : List Response
  pub req_log : List Entry
  pub sent : List (Client × Message)
  pub fault_log : List (Fault × ℕ)
  pub thread_end : Outcome World

-- The thread of `execute`: an exception ends the thread and not the test.
abbrev pub in_thread {ℓ} :
    {Fault : Type ℓ} {World : Type 0}
    → Outcome (List (Client × Message) × Ran Fault World)
    → List (Client × Message) × Ran Fault World
in_thread (ok x) = x
in_thread (raise e) = ([], ([], raise e))

module _ {ℓ} {Fault : Type ℓ} {World : Type 0} where
  -- `arrivals` is what comes of the clients in the order in which the selectors pick them, and every call
  -- of a fault ends. The test ends once `collate` has returned and the thread has been joined.
  unfoldable pub test_steps :
      (call : Fault → World → ℕ × Outcome World)
      → List Client
      → Workload
      → (failures : List Fault) (duration start_time : ℕ) → World
      → (arrivals : List Arrival) → Run (Tested Fault World)
  test_steps call clients w failures duration start_time world arrivals =
      after (of_outcome (check (leb 2 (length failures)) assertion_error)) λ _.
        after (of_outcome (preload w.prerequisites clients (w.workload clients) duration)) λ p.
          after (of_wait (ready (length clients) arrivals)) λ rest.
            let thread = in_thread (execute call clients failures duration start_time world) in
            let n = length clients in
            after (of_wait (collate (range_from n 0) n rest [])) λ resps. done (record {
              resps = resps;
              req_log = p.1;
              sent = p.2 ++ thread.0;
              fault_log = thread.1.0;
              thread_end = thread.1.1;
            })

module _ {Host : Type 0} (start_client : Host → Text → Outcome Client) where
  -- `[system.start_client(client, str(client_id), cluster) for client_id, client in enumerate(...)]`
  unfoldable pub start_clients : ℕ → List Host → Outcome (List Client)
  start_clients i [] = ok []
  start_clients i (h ∷ hosts) = do
    c ← start_client h (str i)
    cs ← start_clients (suc i) hosts
    ok (c ∷ cs)

-- What `run_test` writes: the file of the results, into which `insert(0, pre_res)` has put what
-- the preparation returned, and the file of the operations; with what was done.
pub record Files : Type 0 where
  pub test_resps : List (Option Response)
  pub test_ops : List Entry

abbrev pub write_results {ℓ} :
    {Fault : Type ℓ} {World : Type 0}
    → Option Response
    → Tested Fault World
    → Run (Files × Tested Fault World)
write_results pre_res t =
    done (record { test_resps = pre_res ∷ map Option.some t.resps; test_ops = t.req_log }, t)

module _ {ℓ} {Fault : Type ℓ} {World Host : Type 0}
    (start_client : Host → Text → Outcome Client) where
  -- `prepare_test_start` returns `pre_res`.
  unfoldable pub run_test :
      (pre_res : Option Response)
      → List Host
      → Workload
      → (call : Fault → World → ℕ × Outcome World)
      → (failures : List Fault) (duration start_time : ℕ) → World
      → (arrivals : List Arrival) → Run (Files × Tested Fault World)
  run_test pre_res hosts w call failures duration start_time world arrivals =
      after (of_outcome (start_clients start_client 0 hosts)) λ clients.
        after (test_steps call clients w failures duration start_time world arrivals)
          (write_results pre_res)
