-- ===== src/Tests/Runner.antt =====
-- The runner and the pipes at concrete inputs.
use reckon_k8s.Prelude.{
  ℕ, suc, range_from, ◌-◌, ◌/◌, ◌≤◌, ◌<◌, ◌≡◌, refl, ◌⊎◌, List, [], ◌∷◌, ◌++◌, map, none, some,
  length, arith, ◌==◌, if◌then◌else◌,
}
use reckon_k8s.Outcome.{
  Outcome, Exception, ok, raise, index_error, eof_error, value_error, assertion_error,
}
use reckon_k8s.Text.{Text, codes}
use reckon_k8s.Types.{Payload, Operation, Message, Response, OperationKind}
use reckon_k8s.Wire.{Stream, Codec, recv}
use reckon_k8s.Wire.Messages.{send_all, recv_all, messages_roundtrip}
use reckon_k8s.Runner.RoundRobin.{roundrobin}
use reckon_k8s.Runner.RoundRobin.Order.{columns, longest, roundrobin-columns}
use reckon_k8s.Runner.Cycle.{zip_cycle}
use reckon_k8s.Runner.Preload.{Client, preload, finalise_all}
use reckon_k8s.Runner.Preload.Requests.{
  due, last_client, prereq_entry, request_entry, prereq_message, request_message, preload_lem,
}
use reckon_k8s.Runner.Collate.{Wait, Arrival, collate}
use reckon_k8s.Runner.Collate.Heard.{finishers, unfinished}
use reckon_k8s.Runner.Collate.Gathered.{responses, failure, collate_returns}
use reckon_k8s.Runner.Execute.{execute}
use reckon_k8s.Runner.Execute.Times.{applied, execute-applied}

-- A codec of two messages.
abbrev two_letters : Codec
two_letters = record {
  json = λ m. elim m [ Message.ready ↦ codes "r" | Message.finished ↦ codes "f" | _ ↦ [] ];
  parse_raw = λ s. elim s [
    | [] ↦ raise value_error
    | ◌∷◌ c rest ↦ if c == b'r' then ok Message.ready else ok Message.finished
  ];
}

messages_roundtrip_example :
    (s : Stream) × (s' : Stream) × (send_all two_letters (Message.ready ∷ Message.finished ∷ []) []
      ≡ ok s)
    × (recv_all two_letters 2 s ≡ ok (Message.ready ∷ Message.finished ∷ [], s'))
    × (recv two_letters s' ≡ raise eof_error)
messages_roundtrip_example =
    messages_roundtrip two_letters (Message.ready ∷ Message.finished ∷ [])
      ((refl, (omega arith, tt), omega arith), ((refl, (omega arith, tt), omega arith), tt))

roundrobin-columns_example :
    roundrobin (codes "ABC" ∷ codes "D" ∷ codes "EF" ∷ [])
    ≡ some (
        columns
          (longest (codes "ABC" ∷ codes "D" ∷ codes "EF" ∷ []))
          (codes "ABC" ∷ codes "D" ∷ codes "EF" ∷ []))
roundrobin-columns_example = roundrobin-columns (codes "ABC" ∷ codes "D" ∷ codes "EF" ∷ [])

abbrev numbers : List ℕ
numbers = 5 ∷ 6 ∷ 7 ∷ []

abbrev client : Text → Client
client id = record { id = id }

abbrev reading : ℕ → Operation
reading time = record { payload = Payload.read (codes "1"); time = time }

abbrev clients : List Client
clients = client (codes "0") ∷ client (codes "1") ∷ []

abbrev requests : List (Client × Operation)
requests = (client (codes "1"), reading 3) ∷ (client (codes "0"), reading 12) ∷ []

preload_lem_example :
    (rc : Client) × (last_client none (zip_cycle (reading 0 ∷ []) clients) ≡ some rc)
    × (preload (reading 0 ∷ []) clients requests 10
        ≡ ok (
          length (due 10 requests),
          map prereq_entry (zip_cycle (reading 0 ∷ []) clients)
              ++ map (request_entry rc) (due 10 requests),
          (map prereq_message (zip_cycle (reading 0 ∷ []) clients)
                ++ map request_message (due 10 requests))
              ++ finalise_all clients,
        ))
preload_lem_example = preload_lem (reading 0 ∷ []) clients requests 10 (λ e. cc) (λ e. cc)

abbrev response : Response
response = record {
  t_submitted = 1;
  t_result = 2;
  result = codes "Success";
  op_kind = OperationKind.read;
  clientid = codes "0";
  other = [];
}

-- Client 1 finishes twice, and the pipe of client 0 ends after it has finished.
abbrev arrivals : List Arrival
arrivals =
    (1, ok (Message.result response))
    ∷ (1, ok Message.finished)
    ∷ (1, ok Message.finished)
    ∷ (0, ok Message.finished)
    ∷ (0, raise eof_error)
    ∷ []

collate_returns_example :
    ((e : Exception) × (failure 2 [] arrivals ≡ some e)
      × (collate (range_from 2 0) 2 arrivals [] ≡ Wait.fails e))
    ⊎ ((failure 2 [] arrivals ≡ none)
        × (unfinished 2 (finishers [] arrivals) ≡ 0)
        × (collate (range_from 2 0) 2 arrivals [] ≡ Wait.returns (responses 2 [] arrivals)))
    ⊎ ((failure 2 [] arrivals ≡ none)
        × (0 < unfinished 2 (finishers [] arrivals))
        × (collate (range_from 2 0) 2 arrivals [] ≡ Wait.waits))
collate_returns_example = collate_returns 2 arrivals

-- Faults are numbers here, which say how long they take; the fault 3 raises.
abbrev faults : List ℕ
faults = 0 ∷ 3 ∷ 1 ∷ []

abbrev call : ℕ → ℕ → ℕ × Outcome ℕ
call f w = (f, if f == 3 then raise index_error else ok (suc w))

execute-applied_example :
    (2 ≤ length faults)
      × (execute call clients faults 10 100 0
          ≡ ok (
            map (λ c. (c, Message.start)) clients,
            applied call 100 (10 / (length faults - 1)) 0 100 0 faults,
          ))
    ⊎ (length faults < 2) × (execute call clients faults 10 100 0 ≡ raise assertion_error)
execute-applied_example = execute-applied call clients faults 10 100 0
