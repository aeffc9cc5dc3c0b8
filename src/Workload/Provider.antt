-- ===== src/Workload/Provider.antt =====
-- `Workload` and the providers of reckon/workload/__init__.py: requests get a time and a client.
pub mod Times
pub mod Arrivals
use reckon_k8s.Prelude.{ℕ, zero, suc, ◌+◌, ◌*◌, Bool, true, false, List, [], ◌∷◌, map}
use reckon_k8s.Outcome.{Outcome, ok, raise, ◌>>=◌, attribute_error, not_supported}
use reckon_k8s.Types.{Payload, Operation}
use reckon_k8s.Runner.Preload.{Client}
use reckon_k8s.Runner.Cycle.{zip_cycle}

pub data KeyType : Type 0 where
  uniform tptest : KeyType

pub data KeyProvider : Type 0 where
  timed_crud uniform_keys tptest_crud : KeyProvider

-- `get_key_provider`. For another system than Kubernetes the arguments of `UniformKeys` read the
-- attribute `args.system`, which is never set.
unfoldable pub get_key_provider : (is_kubernetes : Bool) → KeyType → Outcome KeyProvider
get_key_provider true KeyType.uniform = ok KeyProvider.timed_crud
get_key_provider false KeyType.uniform = raise attribute_error
get_key_provider true KeyType.tptest = ok KeyProvider.tptest_crud
get_key_provider false KeyType.tptest = raise not_supported

pub data ArrivalType : Type 0 where
  uniform poisson : ArrivalType

-- `get_arrival_provider`, whose last branch is for no `ArrivalType`.
unfoldable pub get_arrival_provider : ArrivalType → Outcome ArrivalType
get_arrival_provider a = ok a

-- `get_ops_provider`
unfoldable pub get_ops_provider :
    (is_kubernetes : Bool) → KeyType → ArrivalType → Outcome (KeyProvider × ArrivalType)
get_ops_provider k8s key arrival = do
  keys ← get_key_provider k8s key
  proc ← get_arrival_provider arrival
  ok (keys, proc)

-- `map(lambda op: t.Operation(time=0, payload=op), ...)`
unfoldable pub prerequisites : List Payload → List Operation
prerequisites ps = map (λ p. record { payload = p; time = 0 }) ps

-- `arrival_times` of `UniformArrival`, with what `map` makes of it and the requests; `period` is
-- `1 / self._rate`.
unfoldable pub operations : (period i : ℕ) → List Payload → List Operation
operations period i [] = []
operations period i (p ∷ ps) =
    record { payload = p; time = i * period } ∷ operations period (suc i) ps

abbrev pub swap : Operation × Client → Client × Operation
swap (op, c) = (c, op)

-- `Workload.workload`
unfoldable pub workload : List Client → (period : ℕ) → List Payload → List (Client × Operation)
workload clients period ps = map swap (zip_cycle (operations period 0 ps) clients)
