-- ===== src/Workload/Provider/Arrivals.antt =====
-- The arrival processes of reckon/workload/uniform.py and reckon/workload/poisson.py, and the requests
-- that `Workload.workload` makes at the times of either.
use reckon_k8s.Prelude.{
  ℕ, zero, suc, ◌+◌, ◌*◌, ◌%◌, ◌≤◌, ◌<◌, ◌≡◌, refl, ap, ◌∙◌, List, [], ◌∷◌, map, length, length-map,
  arith, some, get_elem?,
}
use reckon_k8s.Types.{Payload, Operation}
use reckon_k8s.Runner.Preload.{Client}
use reckon_k8s.Runner.Cycle.{zip_cycle, zip_from, get_elem?-zip_cycle}
use reckon_k8s.Workload.Provider.{ArrivalType, swap}
use reckon_k8s.Workload.Provider.Times.{get_elem?-map}

-- `numpy.random.Generator.exponential`, which draws a number that is not negative.
pub record Exponential : Type 1 where
  pub State : Type 0
  pub exponential : (period : ℕ) → State → ℕ × State

-- The first `n` of `arrival_times` of `UniformArrival`, from the index `i` on.
unfoldable pub uniform_times : (period n i : ℕ) → List ℕ
uniform_times period zero i = []
uniform_times period (suc n) i = (i * period) ∷ uniform_times period n (suc i)

-- `map(lambda op, time: ..., operations, arrival_times)`
unfoldable pub at_times : List Payload → List ℕ → List Operation
at_times [] times = []
at_times (p ∷ ps) [] = []
at_times (p ∷ ps) (t ∷ times) = record { payload = p; time = t } ∷ at_times ps times

module _ (rng : Exponential) where
  -- The first `n` of `arrival_times` of `PoissonArrival`, from `curr` on.
  unfoldable pub poisson_times : (period n curr : ℕ) → rng.State → List ℕ
  poisson_times period zero curr s = []
  poisson_times period (suc n) curr s =
      let gap = rng.exponential period s in curr ∷ poisson_times period n (curr + gap.0) gap.1

  abbrev pub arrival_times : ArrivalType → (period n : ℕ) → rng.State → List ℕ
  arrival_times ArrivalType.uniform period n s = uniform_times period n 0
  arrival_times ArrivalType.poisson period n s = poisson_times period n 0 s

  -- `Workload.workload`, for the requests `ps`.
  unfoldable pub timed_workload :
      ArrivalType
      → List Client
      → (period : ℕ) → rng.State
      → List Payload
      → List (Client × Operation)
  timed_workload arrival clients period s ps =
      map swap (zip_cycle (at_times ps (arrival_times arrival period (length ps) s)) clients)

  -- Times that do not go down, the first not before `low`.
  abbrev pub Ascending : (low : ℕ) → List ℕ → Type 0
  Ascending low [] = Unit {0}
  Ascending low (t ∷ times) = (low ≤ t) × Ascending t times

  poisson_times-Ascending :
      (period n low curr : ℕ) (s : rng.State)
      → low ≤ curr
      → Ascending low (poisson_times period n curr s)
  unfolding poisson_times
  poisson_times-Ascending period zero low curr s h = tt
  poisson_times-Ascending period (suc n) low curr s h =
      (h, poisson_times-Ascending period n curr _ _ (omega arith))

  uniform_times-Ascending :
      (period n low i : ℕ) → low ≤ i * period → Ascending low (uniform_times period n i)
  unfolding uniform_times
  uniform_times-Ascending period zero low i h = tt
  uniform_times-Ascending period (suc n) low i h =
      (h, uniform_times-Ascending period n (i * period) (suc i) (omega arith))

  arrival_times-Ascending :
      (arrival : ArrivalType) (period n : ℕ) (s : rng.State)
      → Ascending 0 (arrival_times arrival period n s)
  arrival_times-Ascending ArrivalType.uniform period n s =
      uniform_times-Ascending period n 0 0 (omega arith)
  arrival_times-Ascending ArrivalType.poisson period n s =
      poisson_times-Ascending period n 0 0 s (omega arith)

  length-uniform_times : (period n i : ℕ) → length (uniform_times period n i) ≡ n
  unfolding uniform_times
  length-uniform_times period zero i = refl
  length-uniform_times period (suc n) i = ap suc (length-uniform_times period n (suc i))

  length-poisson_times :
      (period n curr : ℕ) (s : rng.State) → length (poisson_times period n curr s) ≡ n
  unfolding poisson_times
  length-poisson_times period zero curr s = refl
  length-poisson_times period (suc n) curr s = ap suc (length-poisson_times period n _ _)

  length-arrival_times :
      (arrival : ArrivalType) (period n : ℕ) (s : rng.State)
      → length (arrival_times arrival period n s) ≡ n
  length-arrival_times ArrivalType.uniform period n s = length-uniform_times period n 0
  length-arrival_times ArrivalType.poisson period n s = length-poisson_times period n 0 s

  -- The sum of the first `i` draws.
  abbrev pub drawn : (period i : ℕ) → rng.State → ℕ
  drawn period zero s = 0
  drawn period (suc i) s = let gap = rng.exponential period s in gap.0 + drawn period i gap.1

  -- When request `i` is made, counted from zero.
  abbrev pub arrival_time : ArrivalType → (period i : ℕ) → rng.State → ℕ
  arrival_time ArrivalType.uniform period i s = i * period
  arrival_time ArrivalType.poisson period i s = drawn period i s

  get_elem?-uniform_times :
      (period n k i : ℕ) → i < n → get_elem? (uniform_times period n k) i ≡ some ((k + i) * period)
  unfolding uniform_times
  get_elem?-uniform_times period zero k i h = absurd (omega arith)
  get_elem?-uniform_times period (suc n) k zero h =
      let same : k ≡ k + 0 = omega arith in ap (λ j. some (j * period)) same
  get_elem?-uniform_times period (suc n) k (suc i) h =
      let same : suc k + i ≡ k + suc i = omega arith in
      rw same at (get_elem?-uniform_times period n (suc k) i (omega arith))

  get_elem?-poisson_times :
      (period n curr i : ℕ) (s : rng.State)
      → i < n
      → get_elem? (poisson_times period n curr s) i ≡ some (curr + drawn period i s)
  unfolding poisson_times
  get_elem?-poisson_times period zero curr i s h = absurd (omega arith)
  get_elem?-poisson_times period (suc n) curr zero s h =
      let same : curr ≡ curr + 0 = omega arith in ap some same
  get_elem?-poisson_times period (suc n) curr (suc i) s h =
      let gap = rng.exponential period s in
      get_elem?-poisson_times period n (curr + gap.0) i gap.1 (omega arith) ∙ ap some (omega arith)

  get_elem?-arrival_times :
      (arrival : ArrivalType) (period n i : ℕ) (s : rng.State)
      → i < n
      → get_elem? (arrival_times arrival period n s) i ≡ some (arrival_time arrival period i s)
  get_elem?-arrival_times ArrivalType.uniform period n i s h =
      get_elem?-uniform_times period n 0 i h ∙ ap some (grind arith)
  get_elem?-arrival_times ArrivalType.poisson period n i s h =
      get_elem?-poisson_times period n 0 i s h ∙ ap some (omega arith)

  get_elem?-in_range :
      {A : Type 0} (xs : List A) (i : ℕ) {x : A} → get_elem? xs i ≡ some x → i < length xs
  get_elem?-in_range [] i e = cc
  get_elem?-in_range (y ∷ xs) zero e = omega arith
  get_elem?-in_range (y ∷ xs) (suc i) e = let h = get_elem?-in_range xs i e in omega arith

  get_elem?-at_times :
      (ps : List Payload) (times : List ℕ) (i : ℕ) (p : Payload) (t : ℕ)
      → get_elem? ps i ≡ some p
      → get_elem? times i ≡ some t
      → get_elem? (at_times ps times) i ≡ some (record { payload = p; time = t })
  unfolding at_times
  get_elem?-at_times [] times i p t e d = cc
  get_elem?-at_times (q ∷ ps) [] i p t e d = cc
  get_elem?-at_times (q ∷ ps) (u ∷ times) zero p t e d = cc
  get_elem?-at_times (q ∷ ps) (u ∷ times) (suc i) p t e d = get_elem?-at_times ps times i p t e d

  length-at_times :
      (ps : List Payload) (times : List ℕ)
      → length times ≡ length ps
      → length (at_times ps times) ≡ length ps
  unfolding at_times
  length-at_times [] times h = refl
  length-at_times (p ∷ ps) [] h = absurd (omega arith)
  length-at_times (p ∷ ps) (t ∷ times) h = ap suc (length-at_times ps times (omega arith))

  length-zip_from :
      {A B : Type 0} (xs : List A) (ys rest : List B)
      → 0 < length ys
      → length (zip_from xs ys rest) ≡ length xs
  unfolding zip_from
  length-zip_from [] ys rest h = refl
  length-zip_from (x ∷ xs) ys (y ∷ rest) h = ap suc (length-zip_from xs ys rest h)
  length-zip_from (x ∷ xs) (y ∷ ys) [] h = ap suc (length-zip_from xs (y ∷ ys) ys h)
  length-zip_from (x ∷ xs) [] [] h = absurd (omega arith)

  -- When there are `n` clients, one at least, as many requests are handed out as the generator made; the
  -- one at `i` is handed to client `i` modulo `n` and made at its time of the arrival process, which is `i`
  -- periods after the start for the uniform process, and the sum of the first `i` draws for the Poisson
  -- process. For both processes the times never go down.
  pub get_elem?-timed_workload :
      (arrival : ArrivalType) (clients : List Client) (period : ℕ) (s : rng.State)
      (ps : List Payload) (i : ℕ) (p : Payload)
      → get_elem? ps i ≡ some p
      → 0 < length clients
      → (length (timed_workload arrival clients period s ps) ≡ length ps)
        × ((c : Client) × (get_elem? clients (i % length clients) ≡ some c)
            × (get_elem? (timed_workload arrival clients period s ps) i
                ≡ some (c, record { payload = p; time = arrival_time arrival period i s })))
        × Ascending 0 (arrival_times arrival period (length ps) s)
  unfolding timed_workload zip_cycle
  get_elem?-timed_workload arrival clients period s ps i p e h =
      let times = arrival_times arrival period (length ps) s in
      let ops = at_times ps times in
      let size = length-arrival_times arrival period (length ps) s in
      let here =
        get_elem?-arrival_times arrival period (length ps) i s (get_elem?-in_range ps i e) in
      let (c, turn, handed) =
        get_elem?-zip_cycle ops clients i _ (get_elem?-at_times ps times i p _ e here) h in
      (
        length-map swap (zip_cycle ops clients)
            ∙ length-zip_from ops clients clients h
            ∙ length-at_times ps times size,
        (c, turn, get_elem?-map swap (zip_cycle ops clients) i _ handed),
        arrival_times-Ascending arrival period (length ps) s,
      )
