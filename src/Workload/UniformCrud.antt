-- ===== src/Workload/UniformCrud.antt =====
-- `UniformCRUD` of reckon/workload/uniform_crud.py: requests of four kinds, by their ratios.
pub mod Deletes
use reckon_k8s.Prelude.{
  ℕ, zero, suc, ◌+◌, Bool, true, false, ◌&&◌, ◌||◌, List, [], ◌∷◌, length, ltb, leb, ◌==◌,
  if◌then◌else◌,
}
use reckon_k8s.Prelude.Int.{ℤ, pos}
use reckon_k8s.Outcome.{Outcome, ok, raise, ◌>>=◌, ◌>>◌, check, assertion_error, recursion_error}
use reckon_k8s.Text.{Text, codes}
use reckon_k8s.Types.{Payload}
use reckon_k8s.Rng.{Rng, one, draw}
use reckon_k8s.Workload.Deployments.{Files, Table, create_deployment, testdep, full_name, rand_key}

-- The numbers 0 to 3 of the code.
pub data Kind : Type 0 where
  create read update delete : Kind

-- `_op_ratio`, in units of 2 ^ -53.
pub record Ratios : Type 0 where
  pub create_ratio : ℕ
  pub read_ratio : ℕ
  pub update_ratio : ℕ
  pub delete_ratio : ℕ

module _ (rng : Rng) where
  pub record UniformCrud : Type 0 where
    pub op_ratio : Ratios
    pub max_key : ℕ
    pub keys : Table
    pub op_count : ℕ
    pub state : rng.State

-- `__init__`
unfoldable pub new : (rng : Rng) → Ratios → ℕ → rng.State → Outcome (UniformCrud rng)
new rng r max_key seed = do
  check (r.create_ratio + r.read_ratio + r.update_ratio + r.delete_ratio == one) assertion_error
  ok (record { op_ratio = r; max_key = max_key; keys = []; op_count = 0; state = seed })

-- `cum <= rand <= (self._op_ratio[i] + cum)`
abbrev pub within : (cum ratio rand : ℕ) → Bool
within cum ratio rand = leb cum rand && leb rand (ratio + cum)

-- The loop of `_gen_op_kind`.
unfoldable pub kind_of : Ratios → ℕ → Kind
kind_of r rand =
    if within 0 r.create_ratio rand
    then Kind.create
    else if within r.create_ratio r.read_ratio rand
    then Kind.read
    else if within (r.create_ratio + r.read_ratio) r.update_ratio rand
    then Kind.update
    else Kind.delete

abbrev pub testdep_v2 : Text
testdep_v2 = codes "/root/reckon/systems/kubernetes/testdep_v2.json"

-- Whether `_gen_op_kind_withchecks` draws again.
unfoldable pub is_blocked : Kind → (op_count keys : ℕ) → Bool
is_blocked Kind.delete op_count keys = keys == 0 || ltb op_count 700
is_blocked Kind.update op_count keys = keys == 0
is_blocked k op_count keys = false

module _ (rng : Rng) (files : Files) where
  open rng use {State, random}

  -- `_gen_op_kind_withchecks`, with the levels that the recursion limit leaves.
  unfoldable pub gen_op_kind_withchecks : ℕ → UniformCrud rng → State → Outcome (Kind × State)
  gen_op_kind_withchecks zero g s = raise recursion_error
  gen_op_kind_withchecks (suc depth) g s =
      let (rand, s') = random s in
      let kind = kind_of g.op_ratio rand in
      let again = gen_op_kind_withchecks depth g s' in
      if is_blocked kind g.op_count (length g.keys) then again else ok (kind, s')

  -- `self._rng.integers(1, 5)`
  unfoldable pub replica_delta : State → Outcome (ℤ × State)
  replica_delta s = draw rng (pos 1) (pos 5) s

  -- The branches of the loop body of `workload`.
  unfoldable pub serve : Kind → UniformCrud rng → State → Outcome (Payload × UniformCrud rng)
  serve Kind.create g s = do
    (p, keys) ←
        create_deployment files (length g.keys)
          (if g.op_ratio.delete_ratio == 0 then testdep else testdep_v2) g.keys
    ok (p, record g { keys = keys; op_count = suc g.op_count; state = s })
  serve Kind.read g s = do
    (entry, s') ← rand_key rng g.keys s
    ok (Payload.read (full_name entry), record g { op_count = suc g.op_count; state = s' })
  serve Kind.update g s = do
    (entry, s') ← rand_key rng g.keys s
    (n, s'') ← replica_delta s'
    ok (
      Payload.update (full_name entry) (files.replica_delta n),
      record g { op_count = suc g.op_count; state = s'' },
    )
  serve Kind.delete g s = do
    (entry, s') ← rand_key rng g.keys s
    ok (Payload.delete (full_name entry), record g { op_count = suc g.op_count; state = s' })

  -- One round of the generator `workload`.
  unfoldable pub next : ℕ → UniformCrud rng → Outcome (Payload × UniformCrud rng)
  next recursion_limit g = do
    (kind, s) ← gen_op_kind_withchecks recursion_limit g g.state
    serve kind g s
