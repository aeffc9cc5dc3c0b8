-- ===== src/Runner/Steps/Sessions.antt =====
-- What one client sees of a test.
use reckon_k8s.Prelude.{
  sym, ◌≢◌, Option, ℕ, zero, suc, ◌+◌, ◌≡◌, refl, ap, ◌∙◌, true, false, List, [], ◌∷◌, ◌++◌, map,
  length, ◌<◌, ◌≤◌, arith, if◌then◌else◌, Bool-cases, ◌==◌, ==_iff, inl, inr, append_assoc,
}
use reckon_k8s.Text.{Text, str, text_eq}
use reckon_k8s.Text.Decimal.{str-injective, text_eq_iff}
use reckon_k8s.Text.Dict.{text_eq_comm}
use reckon_k8s.Types.{Operation, Message, Response}
use reckon_k8s.Outcome.{Outcome, ok}
use reckon_k8s.Runner.Collate.{Wait, Arrival, all_ready}
use reckon_k8s.Runner.Collate.Gathered.{gathered}
use reckon_k8s.Runner.Cycle.{zip_cycle}
use reckon_k8s.Runner.Preload.{Client, finalise_all}
use reckon_k8s.Runner.Preload.Requests.{due, prereq_message, request_message}
use reckon_k8s.Runner.Steps.{Workload, done, after, of_wait, Tested, Files, run_test}
use reckon_k8s.Runner.Steps.Whole.{conversation, numbered, run_test_lem}

-- The messages to the client with this identifier.
abbrev pub to : Text → List (Client × Message) → List Message
to id [] = []
to id ((c, m) ∷ sent) = let rest = to id sent in if text_eq id c.id then m ∷ rest else rest

-- The prerequisites and the requests that are handed to that client.
abbrev pub given : Text → List (Operation × Client) → List Operation
given id [] = []
given id ((op, c) ∷ xs) = let rest = given id xs in if text_eq id c.id then op ∷ rest else rest

abbrev pub asked : Text → List (Client × Operation) → List Operation
asked id [] = []
asked id ((c, op) ∷ xs) = let rest = asked id xs in if text_eq id c.id then op ∷ rest else rest

to-append : (id : Text) (xs ys : List (Client × Message)) → to id (xs ++ ys) ≡ to id xs ++ to id ys
to-append id [] ys = refl
to-append id ((c, m) ∷ xs) ys = elim (Bool-cases (text_eq id c.id)) [
  | inl e ↦ rw e (ap (λ l. m ∷ l) (to-append id xs ys))
  | inr n ↦ rw n (to-append id xs ys)
]

to-prereqs :
    (id : Text) (xs : List (Operation × Client))
    → to id (map prereq_message xs) ≡ map (λ op. Message.preload true op) (given id xs)
to-prereqs id [] = refl
to-prereqs id ((op, c) ∷ xs) = elim (Bool-cases (text_eq id c.id)) [
  | inl e ↦ rw e (ap (λ l. Message.preload true op ∷ l) (to-prereqs id xs))
  | inr n ↦ rw n (to-prereqs id xs)
]

to-requests :
    (id : Text) (xs : List (Client × Operation))
    → to id (map request_message xs) ≡ map (λ op. Message.preload false op) (asked id xs)
to-requests id [] = refl
to-requests id ((c, op) ∷ xs) = elim (Bool-cases (text_eq id c.id)) [
  | inl e ↦ rw e (ap (λ l. Message.preload false op ∷ l) (to-requests id xs))
  | inr n ↦ rw n (to-requests id xs)
]

str-ne : (k j : ℕ) → k < j → text_eq (str k) (str j) ≡ false
str-ne k j h = elim (Bool-cases (text_eq (str k) (str j))) [
  | inl e ↦
      let same : k ≡ j = str-injective k j ((text_eq_iff (str k) (str j)).0 e) in
      absurd (omega arith)
  | inr n ↦ n
]

abbrev to_all : Message → List Client → List (Client × Message)
to_all m clients = map (λ c. (c, m)) clients

to-later : (m : Message) (k i n : ℕ) → k < i → to (str k) (to_all m (numbered i n)) ≡ []
to-later m k i zero h = refl
to-later m k i (suc n) h = rw (str-ne k i h) (to-later m k (suc i) n (omega arith))

to-each :
    (m : Message) (k i n : ℕ) → i ≤ k → k < i + n → to (str k) (to_all m (numbered i n)) ≡ m ∷ []
to-each m k i zero low high = absurd (omega arith)
to-each m k i (suc n) low high = elim (Bool-cases (k == i)) [
  | inl e ↦
      let at : k ≡ i = (==_iff k i).0 e in
      let same : text_eq (str k) (str i) ≡ true = (text_eq_iff (str k) (str i)).1 (ap str at) in
      rw same (ap (λ l. m ∷ l) (to-later m k (suc i) n (omega arith)))
  | inr n' ↦
      let above : i < k = ground arith in
      let other : text_eq (str k) (str i) ≡ false =
        text_eq_comm (str k) (str i) ∙ str-ne i k above in
      rw other (to-each m k (suc i) n (omega arith) (omega arith))
]

-- Each of the clients `0` to `n - 1` is sent first the prerequisites and then the requests that are
-- handed to it, each in order, then `finalise` once and then `start` once, and nothing else.
pub to-conversation :
    (n k : ℕ) (w : Workload) (duration : ℕ)
    → k < n
    → to (str k) (conversation (numbered 0 n) w duration)
      ≡ map
          (λ op. Message.preload true op)
          (given (str k) (zip_cycle w.prerequisites (numbered 0 n)))
        ++ (map
              (λ op. Message.preload false op)
              (asked (str k) (due duration (w.workload (numbered 0 n))))
            ++ Message.finalise ∷ Message.start ∷ [])
to-conversation n k w duration h =
    let clients = numbered 0 n in
    let handed = zip_cycle w.prerequisites clients in
    let requests = due duration (w.workload clients) in
    rw
      (
        to-append (str k)
            ((map prereq_message handed ++ map request_message requests) ++ finalise_all clients),
        to-append (str k) (map prereq_message handed ++ map request_message requests),
        to-append (str k) (map prereq_message handed),
        to-prereqs (str k) handed,
        to-requests (str k) requests,
        to-each Message.finalise k 0 n (omega arith) (omega arith),
        to-each Message.start k 0 n (omega arith) (omega arith),
      )
      (simp append_assoc)

done-injective {ℓ} : {A : Type ℓ} {a b : A} → done a ≡ done b → a ≡ b
done-injective e = cc

after-done {ℓ} :
    {X : Type 0} {A : Type ℓ} (m : Wait X) (f : X → A) (y : A)
    → after (of_wait m) (λ x. done (f x)) ≡ done y
    → (x : X) × (f x ≡ y)
after-done (Wait.returns x) f y e = (x, done-injective e)
after-done (Wait.fails exc) f y e = cc
after-done Wait.waits f y e = cc

-- When a test ends, with two faults or more, a prerequisite and a host, and with clients that start
-- with the identifiers that they are given and answer `ready`, then client `k` has been sent first the
-- prerequisites and then the requests that are handed to it, each in order, then `finalise` once and
-- then `start` once, and nothing else.
pub to-run_test {ℓ} :
    {Fault : Type ℓ} {World Host : Type 0} (call : Fault → World → ℕ × Outcome World)
    (failures : List Fault) (duration start_time : ℕ) (world : World)
    (start_client : Host → Text → Outcome Client) (pre_res : Option Response) (hosts : List Host)
    (w : Workload) (order : List ℕ) (rest : List Arrival) (k : ℕ) (files : Files)
    (t : Tested Fault World)
    → ((h : Host) (id : Text) → start_client h id ≡ ok (record { id = id }))
    → 2 ≤ length failures
    → w.prerequisites ≢ []
    → hosts ≢ []
    → length order ≡ length hosts
    → k < length hosts
    → run_test start_client pre_res hosts w call failures duration start_time world
        (all_ready order ++ rest)
      ≡ done (files, t)
    → to (str k) t.sent
      ≡ map
          (λ op. Message.preload true op)
          (given (str k) (zip_cycle w.prerequisites (numbered 0 (length hosts))))
        ++ (map
              (λ op. Message.preload false op)
              (asked (str k) (due duration (w.workload (numbered 0 (length hosts)))))
            ++ Message.finalise ∷ Message.start ∷ [])
to-run_test call failures duration start_time world start_client pre_res hosts w order rest k files
      t starts two prereqs some_host all at ended =
    let (rc, last, e) =
      run_test_lem call failures duration start_time world start_client pre_res hosts w order rest
        starts two prereqs some_host all in
    let (resps, same) = after-done (gathered (length hosts) rest) _ (files, t) (sym e ∙ ended) in
    ap (λ x. to (str k) x.1.sent) (sym same) ∙ to-conversation (length hosts) k w duration at
