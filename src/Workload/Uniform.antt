-- ===== src/Workload/Uniform.antt =====
-- `UniformKeys` of reckon/workload/uniform.py: reads and writes of uniformly drawn numeric keys.
pub mod Keys
use reckon_k8s.Prelude.{
  range_from, ℕ, zero, suc, ◌+◌, ◌<◌, Bool, List, [], ◌∷◌, map, length, ltb, if◌then◌else◌,
}
use reckon_k8s.Prelude.Int.{ℤ, pos, pos_part}
use reckon_k8s.Outcome.{Outcome, ok, ◌>>=◌}
use reckon_k8s.Text.{Text, codes, str, zfill}
use reckon_k8s.Types.{Payload}
use reckon_k8s.Rng.{Rng, draw}

abbrev pub alphabet : Text
alphabet = codes "abcdefghijklmnopqrstuvwxyz"

pub new_key : (max_key i : ℕ) → Text
new_key max_key i = zfill (str i) (length (str max_key))

unfoldable pub prerequisites : (max_key : ℕ) → List Payload
prerequisites max_key = map (λ k. Payload.write (new_key max_key k) []) (range_from (max_key + 1) 0)

module _ (rng : Rng) where
  open rng use {State, random, choice}

  pub record UniformKeys : Type 0 where
    pub write_ratio : ℕ
    pub max_key : ℕ
    pub payload_size : ℕ
    pub state : State

  abbrev rand_key : ℕ → State → Outcome (Text × State)
  rand_key max_key s = do
    (k, s') ← draw rng (pos 0) (pos (max_key + 1)) s
    ok (new_key max_key (pos_part k), s')

  -- One round of the generator `workload`. The condition of the conditional expression is drawn
  -- first, and then the arguments of the constructor in their order.
  pub next : UniformKeys → Outcome (Payload × UniformKeys)
  next g =
      let (drawn, s) = random g.state in
      if ltb drawn g.write_ratio
      then (do
        (k, s') ← rand_key g.max_key s
        let value = choice alphabet g.payload_size s'
        ok (Payload.write k value.0, record g { state = value.1 }))
      else (do (k, s') ← rand_key g.max_key s; ok (Payload.read k, record g { state = s' }))
