-- ===== src/Workload/Deployments/Requests.antt =====
-- One request, once its kind is known: the branches of the loop bodies of timed_crud.py and
-- tptest_crud.py.
use reckon_k8s.Prelude.{
  ℕ, ◌<◌, ◌≡◌, refl, ◌≢◌, get_elem?-of_lt, Bool, true, false, some, length, get_elem?,
}
use reckon_k8s.Prelude.Int.{ℤ}
use reckon_k8s.Outcome.{Outcome, ok, ◌>>=◌}
use reckon_k8s.Text.{Text}
use reckon_k8s.Types.{OperationKind, Payload}
use reckon_k8s.Rng.{Rng, draw_index}
use reckon_k8s.Workload.Deployments.{Files, Table, create_deployment, testdep, full_name, rand_key}

-- The codes "c", "r", "u-u", "u-d" and "d" of the phases.
pub data OpKind : Type 0 where
  create read scale_up scale_down delete : OpKind

abbrev pub operation_kind : OpKind → OperationKind
operation_kind OpKind.create = OperationKind.create
operation_kind OpKind.read = OperationKind.read
operation_kind OpKind.scale_up = OperationKind.update
operation_kind OpKind.scale_down = OperationKind.update
operation_kind OpKind.delete = OperationKind.delete

-- The names of the table.
abbrev pub Names : Table → Text → Type 0
Names keys name =
    (i : ℕ) × (entry : Text × Text) × (get_elem? keys i ≡ some entry) × (name ≡ full_name entry)

-- Which replica deltas a scaling up (`true`) and a scaling down may have.
abbrev pub Deltas : Type 1
Deltas = Bool → ℤ → Type 0

-- A scaling of a deployment of the table by an allowed delta.
abbrev pub Scales : Files → Deltas → Table → Bool → Payload → Type 0
Scales files D keys up p =
    (name : Text) × (n : ℤ) × Names keys name
    × D up n
    × (p ≡ Payload.update name (files.replica_delta n))

-- The payload is the request of this kind, about a deployment of the table unless it creates one.
abbrev pub Serves : Files → Deltas → Table → OpKind → Payload → Type 0
Serves files D keys OpKind.create p = (k v : Text) × (p ≡ Payload.create k v)
Serves files D keys OpKind.read p = (name : Text) × Names keys name × (p ≡ Payload.read name)
Serves files D keys OpKind.scale_up p = Scales files D keys true p
Serves files D keys OpKind.scale_down p = Scales files D keys false p
Serves files D keys OpKind.delete p = (name : Text) × Names keys name × (p ≡ Payload.delete name)

module _ (rng : Rng) (files : Files) (delta : Bool → rng.State → Outcome (ℤ × rng.State)) where
  open rng use {State}

  abbrev update_by : Bool → Table → State → Outcome (Payload × Table × State)
  update_by up keys s = do
    (entry, s') ← rand_key rng keys s
    (n, s'') ← delta up s'
    ok (Payload.update (full_name entry) (files.replica_delta n), keys, s'')

  unfoldable pub serve : OpKind → Table → State → Outcome (Payload × Table × State)
  serve OpKind.create keys s = do
    (p, keys') ← create_deployment files (length keys) testdep keys
    ok (p, keys', s)
  serve OpKind.read keys s = do
    (entry, s') ← rand_key rng keys s
    ok (Payload.read (full_name entry), keys, s')
  serve OpKind.scale_up keys s = update_by true keys s
  serve OpKind.scale_down keys s = update_by false keys s
  serve OpKind.delete keys s = do
    (entry, s') ← rand_key rng keys s
    ok (Payload.delete (full_name entry), keys, s')

-- An entry of a table that is not empty is drawn.
pub rand_key_lem :
    (rng : Rng) (keys : Table) (s : rng.State)
    → 0 < length keys
    → (entry : Text × Text) × (s' : rng.State) × (rand_key rng keys s ≡ ok (entry, s'))
      × Names keys (full_name entry)
unfolding rand_key
rand_key_lem rng keys s h =
    let (i, s', e, i_lt) = draw_index rng (length keys) s h in
    let (entry, at_i) = get_elem?-of_lt keys i i_lt in
    (entry, s', rw (e, at_i) refl, (i, entry, at_i, refl))

module _ (rng : Rng) (files : Files) (delta : Bool → rng.State → Outcome (ℤ × rng.State)) where
  open rng use {State}

  -- An allowed replica delta is always drawn.
  abbrev pub Draws : Deltas → Type 0
  Draws D = (up : Bool) (s : State) → (n : ℤ) × (s' : State) × (delta up s ≡ ok (n, s')) × D up n

  abbrev Served : Deltas → OpKind → Table → State → Type 0
  Served D kind keys s =
      (p : Payload) × (s' : State) × (serve rng files delta kind keys s ≡ ok (p, keys, s'))
      × Serves files D keys kind p

  update_by_lem :
      {D : Deltas} (up : Bool) (keys : Table) (s : State)
      → Draws D
      → 0 < length keys
      → (p : Payload) × (s' : State) × (update_by rng files delta up keys s ≡ ok (p, keys, s'))
        × Scales files D keys up p
  update_by_lem up keys s draws h =
      let (entry, s', drawn, known) = rand_key_lem rng keys s h in
      let (n, s'', moved, allowed) = draws up s' in
      (
        Payload.update (full_name entry) (files.replica_delta n),
        s'',
        rw (drawn, moved) refl,
        (full_name entry, n, known, allowed, refl),
      )

  -- With a deployment in the table every request but a creation succeeds, is the one of its kind,
  -- names a deployment of the table and leaves the table alone.
  pub serve-Serves :
      {D : Deltas} (kind : OpKind) (keys : Table) (s : State)
      → Draws D
      → 0 < length keys
      → kind ≢ OpKind.create
      → Served D kind keys s
  unfolding serve
  serve-Serves OpKind.create keys s draws h ne = absurd (ne refl)
  serve-Serves OpKind.read keys s draws h ne =
      let (entry, s', drawn, known) = rand_key_lem rng keys s h in
      (Payload.read (full_name entry), s', rw drawn refl, (full_name entry, known, refl))
  serve-Serves OpKind.scale_up keys s draws h ne = update_by_lem true keys s draws h
  serve-Serves OpKind.scale_down keys s draws h ne = update_by_lem false keys s draws h
  serve-Serves OpKind.delete keys s draws h ne =
      let (entry, s', drawn, known) = rand_key_lem rng keys s h in
      (Payload.delete (full_name entry), s', rw drawn refl, (full_name entry, known, refl))
