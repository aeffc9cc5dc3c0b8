-- ===== src/Workload/Provider/Times.antt =====
-- When and by which client each request is made.
use reckon_k8s.Prelude.{
  ℕ, zero, suc, ◌+◌, ◌*◌, ◌%◌, ◌<◌, ◌≡◌, refl, List, [], ◌∷◌, map, length, get_elem?, some, arith,
}
use reckon_k8s.Types.{Payload}
use reckon_k8s.Runner.Preload.{Client}
use reckon_k8s.Runner.Cycle.{zip_cycle, get_elem?-zip_cycle}
use reckon_k8s.Workload.Provider.{operations, swap, workload}

pub get_elem?-map :
    {A B : Type 0} (f : A → B) (xs : List A) (i : ℕ) (x : A)
    → get_elem? xs i ≡ some x
    → get_elem? (map f xs) i ≡ some (f x)
get_elem?-map f [] i x e = cc
get_elem?-map f (y ∷ xs) zero x e = cc
get_elem?-map f (y ∷ xs) (suc i) x e = get_elem?-map f xs i x e

get_elem?-operations :
    (period k i : ℕ) (ps : List Payload) (p : Payload)
    → get_elem? ps i ≡ some p
    → get_elem? (operations period k ps) i ≡ some (record { payload = p; time = (k + i) * period })
unfolding operations
get_elem?-operations period k i [] p e = cc
get_elem?-operations period k zero (q ∷ ps) p e =
    let same : k ≡ k + 0 = omega arith in let payload : q ≡ p = cc in rw (payload, ← same) refl
get_elem?-operations period k (suc i) (q ∷ ps) p e =
    let same : suc k + i ≡ k + suc i = omega arith in
    rw same at (get_elem?-operations period (suc k) i ps p e)

-- With `n` clients, the request at `i` is made `i` periods after the start, by client `i` modulo `n`.
pub get_elem?-workload :
    (clients : List Client) (period i : ℕ) (ps : List Payload) (p : Payload)
    → get_elem? ps i ≡ some p
    → 0 < length clients
    → (c : Client) × (get_elem? clients (i % length clients) ≡ some c)
      × (get_elem? (workload clients period ps) i
          ≡ some (c, record { payload = p; time = i * period }))
unfolding workload
get_elem?-workload clients period i ps p e h =
    let here : 0 + i ≡ i = omega arith in
    let timed : get_elem? (operations period 0 ps) i
        ≡ some (record { payload = p; time = i * period }) =
      rw here at (get_elem?-operations period 0 i ps p e) in
    let (c, turn, handed) = get_elem?-zip_cycle (operations period 0 ps) clients i _ timed h in
    (c, turn, get_elem?-map swap (zip_cycle (operations period 0 ps) clients) i _ handed)
