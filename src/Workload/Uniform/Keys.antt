-- ===== src/Workload/Uniform/Keys.antt =====
-- The keys of reckon/workload/uniform.py: their length, and which keys are used.
use reckon_k8s.Prelude.{
  get_elem?-map_range, ℕ, ◌+◌, ◌≤◌, ◌<◌, ◌≡◌, refl, sym, ap, ◌∙◌, inl, inr, List, [], some, arith,
  length, get_elem?, ltb, All, Bool-cases,
}
use reckon_k8s.Outcome.{ok}
use reckon_k8s.Text.{Text, str}
use reckon_k8s.Text.Decimal.{read, read-str, read-zfill, length-zfill, length-str_mono}
use reckon_k8s.Types.{Payload, key_of}
use reckon_k8s.Rng.{Rng, draw_index}
use reckon_k8s.Workload.Generator.{generate, generate_inv}
use reckon_k8s.Workload.Uniform.{alphabet, new_key, prerequisites, UniformKeys, next}

-- The key of a number up to `max_key` has as many characters as the number `max_key`.
pub length-new_key :
    (max_key i : ℕ) → i ≤ max_key → length (new_key max_key i) ≡ length (str max_key)
unfolding new_key
length-new_key m i h = length-zfill (str i) (length (str m)) (length-str_mono i m h)

read-new_key : (max_key i : ℕ) → read 0 (new_key max_key i) ≡ i
unfolding new_key
read-new_key m i = read-zfill (str i) (length (str m)) ∙ read-str i

-- The numbers of two equal keys are equal.
pub new_key-injective : (max_key i j : ℕ) → new_key max_key i ≡ new_key max_key j → i ≡ j
new_key-injective m i j e = sym (read-new_key m i) ∙ ap (read 0) e ∙ read-new_key m j

get_elem?-prerequisites :
    (max_key i : ℕ)
    → i ≤ max_key
    → get_elem? (prerequisites max_key) i ≡ some (Payload.write (new_key max_key i) [])
unfolding prerequisites
get_elem?-prerequisites m i h =
    get_elem?-map_range (λ k. Payload.write (new_key m k) []) (m + 1) 0 i (omega arith)
    ∙ ap (λ k. some (Payload.write (new_key m k) [])) (omega arith)

-- Before the test the keys of 0 to `max_key` are written, each once: two prerequisites with the same
-- key are the same.
pub prerequisites_distinct :
    (max_key i j : ℕ) {p q : Payload}
    → i ≤ max_key
    → j ≤ max_key
    → get_elem? (prerequisites max_key) i ≡ some p
    → get_elem? (prerequisites max_key) j ≡ some q
    → key_of p ≡ key_of q
    → i ≡ j
prerequisites_distinct m i j {p} {q} hi hj ei ej e =
    new_key-injective m i j (cc (get_elem?-prerequisites m i hi, get_elem?-prerequisites m j hj))

-- A key that the prerequisites have written.
abbrev pub IsPrepared : (max_key : ℕ) → Text → Type 0
IsPrepared m k =
    (i : ℕ) × (i ≤ m)
    × (k ≡ new_key m i)
    × (get_elem? (prerequisites m) i ≡ some (Payload.write k []))

new_key-IsPrepared : (m n i : ℕ) → n ≡ m → i < n + 1 → IsPrepared m (new_key n i)
new_key-IsPrepared m n i e h =
    rw e (i, omega arith, refl, get_elem?-prerequisites m i (omega arith))

-- A request is a read or a write of a key that the prerequisites have written, and what a write
-- stores has the given size.
abbrev pub IsRequest : (max_key payload_size : ℕ) → Payload → Type 0
IsRequest m size (Payload.write k v) = IsPrepared m k × (length v ≡ size)
IsRequest m size (Payload.read k) = IsPrepared m k
IsRequest m size _ = ⊥

module _ (rng : Rng) (m size : ℕ) where
  abbrev HasSize : UniformKeys rng → Type 0
  HasSize g = (g.max_key ≡ m) × (g.payload_size ≡ size)

  next_lem :
      (g : UniformKeys rng)
      → HasSize g
      → (p : Payload) × (g' : UniformKeys rng) × (next rng g ≡ ok (p, g'))
        × HasSize g'
        × IsRequest m size p
  unfolding next
  next_lem g (em, es) =
      let (drawn, s) = rng.random g.state in
      let (k, s', e, k_lt) = draw_index rng (g.max_key + 1) s (omega arith) in
      let known = new_key-IsPrepared m g.max_key k em k_lt in
      let value = rng.choice alphabet g.payload_size s' in
      elim (Bool-cases (ltb drawn g.write_ratio)) [
        | inl w ↦ (
          Payload.write (new_key g.max_key k) value.0,
          record g { state = value.1 },
          rw (w, e) refl,
          (em, es),
          (known, rng.length-choice alphabet g.payload_size s' ∙ es),
        )
        | inr r ↦ (
          Payload.read (new_key g.max_key k),
          record g { state = s' },
          rw (r, e) refl,
          (em, es),
          known,
        )
      ]

-- The generator of uniform keys never fails, and each request that it makes reads or writes a key
-- that the prerequisites have written; a value that it writes has the payload size.
pub generate-IsRequest :
    (rng : Rng) (n : ℕ) (g : UniformKeys rng)
    → (ps : List Payload) × (g' : UniformKeys rng) × (generate (next rng) n g ≡ ok (ps, g'))
      × (length ps ≡ n)
      × All (IsRequest g.max_key g.payload_size) ps
generate-IsRequest rng n g =
    let (ps, g', e, kept, l, q) =
      generate_inv (next rng) (HasSize rng g.max_key g.payload_size)
        (IsRequest g.max_key g.payload_size) (next_lem rng g.max_key g.payload_size) n g
        (refl, refl) in
    (ps, g', e, l, q)
