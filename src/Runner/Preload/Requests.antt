-- ===== src/Runner/Preload/Requests.antt =====
-- Which requests are sent, to whom, and what the log of them says.
use reckon_k8s.Prelude.{
  ℕ, ◌+◌, ◌≡◌, refl, true, false, List, [], ◌∷◌, ◌++◌, Option, none, some, leb, map, length, arith,
  append_assoc, append-nil, Bool-cases, inl, inr, ◌≢◌, if◌then◌else◌,
}
use reckon_k8s.Outcome.{ok, raise, unbound_local_error}
use reckon_k8s.Types.{Operation, Message}
use reckon_k8s.Runner.Cycle.{zip_cycle, zip_from}
use reckon_k8s.Runner.Preload.{
  Client, Entry, Preloading, begin, send_prereqs, send_request, send_requests, finalise_all,
  preload,
}

-- The operations that are due before the end of the test: those before the first that is not.
abbrev pub due : (duration : ℕ) → List (Client × Operation) → List (Client × Operation)
due duration [] = []
due duration ((c, op) ∷ rest) = if leb duration op.time then [] else (c, op) ∷ due duration rest

abbrev pub prereq_message : Operation × Client → Client × Message
prereq_message (op, c) = (c, Message.preload true op)

abbrev pub request_message : Client × Operation → Client × Message
request_message (c, op) = (c, Message.preload false op)

abbrev pub prereq_entry : Operation × Client → Entry
prereq_entry (op, c) = record { operation = op; is_prereq = true; client = c.id }

abbrev pub request_entry : Client → Client × Operation → Entry
request_entry logged (c, op) = record { operation = op; is_prereq = false; client = logged.id }

-- The client of the last pair.
abbrev pub last_client : Option Client → List (Operation × Client) → Option Client
last_client o [] = o
last_client o ((op, c) ∷ xs) = last_client (some c) xs

send_prereqs_lem :
    (xs : List (Operation × Client)) (st : Preloading)
    → send_prereqs xs st ≡ record {
      sent = st.sent ++ map prereq_message xs;
      ops_log = st.ops_log ++ map prereq_entry xs;
      rcclient = last_client st.rcclient xs;
      total_reqs = st.total_reqs;
    }
unfolding send_prereqs
send_prereqs_lem [] st = simp append-nil
send_prereqs_lem ((op, c) ∷ xs) st = simp (send_prereqs_lem xs, append_assoc)

send_requests_lem :
    (duration : ℕ) (w : List (Client × Operation)) (rc : Client) (st : Preloading)
    → st.rcclient ≡ some rc
    → send_requests duration w st
      ≡ ok (record {
        sent = st.sent ++ map request_message (due duration w);
        ops_log = st.ops_log ++ map (request_entry rc) (due duration w);
        rcclient = some rc;
        total_reqs = st.total_reqs + length (due duration w);
      })
unfolding send_requests
send_requests_lem duration [] rc st e = ground (arith, append-nil st.sent, append-nil st.ops_log)
send_requests_lem duration ((c, op) ∷ w) rc st e = elim (Bool-cases (leb duration op.time)) [
  | inl late ↦ rw late (ground (arith, append-nil st.sent, append-nil st.ops_log))
  | inr early ↦
      rw (early, e)
        (ground (
          arith,
          send_requests_lem duration w rc (send_request (c, op) rc st) e,
          append_assoc st.sent (request_message (c, op) ∷ [])
              (map request_message (due duration w)),
          append_assoc st.ops_log (request_entry rc (c, op) ∷ [])
              (map (request_entry rc) (due duration w)),
        ))
]

send_requests_unbound :
    (duration : ℕ) (w : List (Client × Operation)) (st : Preloading)
    → st.rcclient ≡ none
    → due duration w ≢ []
    → send_requests duration w st ≡ raise unbound_local_error
unfolding send_requests
send_requests_unbound duration [] st e h = absurd (h refl)
send_requests_unbound duration ((c, op) ∷ w) st e h = elim (Bool-cases (leb duration op.time)) [
  | inl late ↦ absurd (h (rw late refl))
  | inr early ↦ rw (early, e, send_requests) refl
]

last_client-some :
    (c : Client) (xs : List (Operation × Client))
    → (rc : Client) × (last_client (some c) xs ≡ some rc)
last_client-some c [] = (c, refl)
last_client-some c ((op, d) ∷ xs) = last_client-some d xs

-- The variables after the first loop.
abbrev after_prereqs : List (Operation × Client) → Preloading
after_prereqs handed = record {
  sent = map prereq_message handed;
  ops_log = map prereq_entry handed;
  rcclient = last_client none handed;
  total_reqs = 0;
}

-- With a prerequisite and a client, `preload` sends the prerequisites to the clients in turn, then
-- the requests that are due before the end of the test, each to its client, then `finalise` to all,
-- and counts the requests. The log has the same operations in the same order, but it names one
-- client for every request: the one that got the last prerequisite.
pub preload_lem :
    (prerequisites : List Operation) (clients : List Client) (w : List (Client × Operation))
    (duration : ℕ)
    → prerequisites ≢ []
    → clients ≢ []
    → let handed = zip_cycle prerequisites clients in
      let requests = due duration w in
      (rc : Client) × (last_client none handed ≡ some rc)
      × (preload prerequisites clients w duration
          ≡ ok (
            length requests,
            map prereq_entry handed ++ map (request_entry rc) requests,
            (map prereq_message handed ++ map request_message requests) ++ finalise_all clients,
          ))
unfolding preload zip_cycle
preload_lem [] clients w duration hp hc = absurd (hp refl)
preload_lem (op ∷ ops) [] w duration hp hc = absurd (hc refl)
preload_lem (op ∷ ops) (c ∷ cs) w duration hp hc =
    let (rc, e) = last_client-some c (zip_from ops (c ∷ cs) cs) in
    (
      rc,
      e,
      rw
          (
            send_prereqs_lem ((op, c) ∷ zip_from ops (c ∷ cs) cs) begin,
            send_requests_lem duration w rc (after_prereqs ((op, c) ∷ zip_from ops (c ∷ cs) cs)) e,
          )
          (ground arith),
    )

-- Without a prerequisite the first request that is due fails: the log names a variable that no
-- statement has assigned.
pub preload_unbound :
    (clients : List Client) (w : List (Client × Operation)) (duration : ℕ)
    → due duration w ≢ []
    → preload [] clients w duration ≡ raise unbound_local_error
unfolding preload zip_cycle send_prereqs
preload_unbound clients w duration h = rw (send_requests_unbound duration w begin refl h) refl
