-- ===== src/Runner/Preload.antt =====
-- `preload` of reckon/client_runner.py: the requests are sent to the clients before the test starts.
pub mod Requests
use reckon_k8s.Prelude.{
  ℕ, suc, Bool, true, false, List, [], ◌∷◌, ◌++◌, Option, none, some, leb, map,
}
use reckon_k8s.Outcome.{Outcome, ok, raise, ◌>>=◌, unbound_local_error}
use reckon_k8s.Text.{Text}
use reckon_k8s.Types.{Operation, Message}
use reckon_k8s.Runner.Cycle.{zip_cycle}

-- A client, by the identifier that it was started with.
pub record Client : Type 0 where
  pub id : Text

-- An entry of `ops_log`.
pub record Entry : Type 0 where
  pub operation : Operation
  pub is_prereq : Bool
  pub client : Text

-- The local variables, and the messages sent so far. `rcclient` is unbound before the first loop
-- has assigned it.
pub record Preloading : Type 0 where
  pub sent : List (Client × Message)
  pub ops_log : List Entry
  pub rcclient : Option Client
  pub total_reqs : ℕ

abbrev pub begin : Preloading
begin = record { sent = []; ops_log = []; rcclient = none; total_reqs = 0 }

-- The body of the first loop.
abbrev send_prereq : Operation × Client → Preloading → Preloading
send_prereq (op, client) st = record {
  sent = st.sent ++ (client, Message.preload true op) ∷ [];
  ops_log = st.ops_log ++ record { operation = op; is_prereq = true; client = client.id } ∷ [];
  rcclient = some client;
  total_reqs = st.total_reqs;
}

pub send_prereqs : List (Operation × Client) → Preloading → Preloading
send_prereqs [] st = st
send_prereqs (x ∷ xs) st = send_prereqs xs (send_prereq x st)

-- The body of the second loop: the log names `rcclient`, which the first loop has left.
abbrev pub send_request : Client × Operation → Client → Preloading → Preloading
send_request (client, op) rcclient st = record st {
  sent = st.sent ++ (client, Message.preload false op) ∷ [];
  ops_log = st.ops_log ++ record { operation = op; is_prereq = false; client = rcclient.id } ∷ [];
  total_reqs = suc st.total_reqs;
}

-- The second loop, on what the iterator `workload` yields; it ends at the first operation that is
-- not due before the end of the test.
pub send_requests : (duration : ℕ) → List (Client × Operation) → Preloading → Outcome Preloading
send_requests duration [] st = ok st
send_requests duration ((client, op) ∷ rest) st = elim (leb duration op.time) [
  | true ↦ ok st
  | false ↦ elim st.rcclient [
    | none ↦ raise unbound_local_error
    | some rcclient ↦ send_requests duration rest (send_request (client, op) rcclient st)
  ]
]

abbrev pub finalise_all : List Client → List (Client × Message)
finalise_all clients = map (λ c. (c, Message.finalise)) clients

-- `preload(ops_provider, duration)`: the count of requests, the log and the messages sent.
pub preload :
    (prerequisites : List Operation) (clients : List Client) (workload : List (Client × Operation))
    (duration : ℕ)
    → Outcome (ℕ × List Entry × List (Client × Message))
preload prerequisites clients workload duration = do
  st ← send_requests duration workload (send_prereqs (zip_cycle prerequisites clients) begin)
  ok (st.total_reqs, st.ops_log, st.sent ++ finalise_all clients)
