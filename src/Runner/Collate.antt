-- ===== src/Runner/Collate.antt =====
-- `ready` and `collate` of reckon/client_runner.py: what the clients send back is gathered.
pub mod Heard
pub mod Gathered
use reckon_k8s.Prelude.{
  ℕ, zero, suc, ◌≡◌, refl, Bool, true, false, ◌||◌, ◌==◌, List, [], ◌∷◌, ◌++◌, length,
  if◌then◌else◌,
}
use reckon_k8s.Outcome.{Outcome, ok, raise, Exception, assertion_error}
use reckon_k8s.Types.{Message, Response}

-- A loop over arrivals: it ends, it raises, or it waits for a message that has not come.
pub data Wait (A : Type 0) : Type 0 where
  returns : A → Wait A
  fails : Exception → Wait A
  waits : Wait A

-- What a selector picks next: the index of a client, and what `recv` of that client comes to, which
-- raises EOFError where the pipe has ended. The selectors pick the pipes in any order, so that the
-- arrivals are one sequence; no pipe is picked that is not registered.
abbrev pub Arrival : Type 0
Arrival = ℕ × Outcome Message

-- `ready`: one message from as many arrivals as there are clients, each of which is to be `ready`.
-- No client is unregistered here.
unfoldable pub ready : (clients : ℕ) → List Arrival → Wait (List Arrival)
ready zero arrivals = returns arrivals
ready (suc n) [] = waits
ready (suc n) ((i, raise e) ∷ arrivals) = fails e
ready (suc n) ((i, ok Message.ready) ∷ arrivals) = ready n arrivals
ready (suc n) ((i, ok m) ∷ arrivals) = fails assertion_error

abbrev pub is_among : ℕ → List ℕ → Bool
is_among i [] = false
is_among i (j ∷ js) = i == j || is_among i js

-- `unregister_selector`
abbrev pub unregister : ℕ → List ℕ → List ℕ
unregister i [] = []
unregister i (j ∷ js) = let rest = unregister i js in if j == i then rest else j ∷ rest

-- `collate`, with the clients that are registered and the responses so far. What comes of a client
-- that is not registered is not picked.
unfoldable pub collate :
    (registered : List ℕ) (remaining_clients : ℕ)
    → List Arrival
    → List Response
    → Wait (List Response)
collate registered zero arrivals resps = returns resps
collate registered (suc n) [] resps = waits
collate registered (suc n) ((i, raise e) ∷ arrivals) resps =
    let unread = collate registered (suc n) arrivals resps in
    if is_among i registered then fails e else unread
collate registered (suc n) ((i, ok Message.finished) ∷ arrivals) resps =
    let unread = collate registered (suc n) arrivals resps in
    let ended = collate (unregister i registered) n arrivals resps in
    if is_among i registered then ended else unread
collate registered (suc n) ((i, ok (Message.result r)) ∷ arrivals) resps =
    let unread = collate registered (suc n) arrivals resps in
    let kept = collate registered (suc n) arrivals (resps ++ r ∷ []) in
    if is_among i registered then kept else unread
collate registered (suc n) ((i, ok m) ∷ arrivals) resps = collate registered (suc n) arrivals resps

-- These clients, in this order, are picked with the message `ready`.
abbrev pub all_ready : List ℕ → List Arrival
all_ready [] = []
all_ready (i ∷ order) = (i, ok Message.ready) ∷ all_ready order

-- `ready` returns when each message that it reads, as many as there are clients, is `ready`; what comes
-- after them is not read.
pub ready_returns :
    (order : List ℕ) (rest : List Arrival)
    → ready (length order) (all_ready order ++ rest) ≡ returns rest
unfolding ready
ready_returns [] rest = refl
ready_returns (i ∷ order) rest = ready_returns order rest
