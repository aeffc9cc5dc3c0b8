-- ===== src/Workload/Deployments.antt =====
-- What the generators of reckon/workload/timed_crud.py, tptest_crud.py and uniform_crud.py share
-- word for word: the table of deployments and the requests about them.
pub mod Requests
pub mod Lockstep
use reckon_k8s.Prelude.{
  ℕ, zero, suc, ◌+◌, ◌-◌, Bool, true, false, List, [], ◌∷◌, ◌++◌, Option, none, some, length, leb,
  get_elem?, if◌then◌else◌,
}
use reckon_k8s.Prelude.Int.{ℤ, pos, negsuc}
use reckon_k8s.Outcome.{Outcome, ok, ◌>>=◌, or_raise, index_error}
use reckon_k8s.Text.{Text, codes, str}
use reckon_k8s.Types.{Payload}
use reckon_k8s.Rng.{Rng, draw}

-- The file system and the `json` module. `namespace` is `metadata["namespace"]` of a deployment
-- file, with `none` for the two values that the code tests for `None`; `replica_delta` is the text
-- of `{"replicaDelta": n}`.
pub record Files : Type 0 where
  pub namespace : (depfile : Text) → Outcome (Option Text)
  pub replica_delta : ℤ → Text

-- `self._keys`: the name of a deployment and its namespace.
abbrev pub Table : Type 0
Table = List (Text × Text)

-- `xs[i]`, where a negative index counts from the end.
abbrev pub item_at : {A : Type 0} → List A → ℤ → Option A
item_at xs (pos i) = get_elem? xs i
item_at xs (negsuc i) = if leb (suc i) (length xs) then get_elem? xs (length xs - suc i) else none

-- The key that `_new_key` returns; the caller appends it to the table.
pub new_key : ℕ → Text
new_key i = codes "dep-rc-" ++ str i

abbrev pub default_namespace : Text
default_namespace = codes "default"

abbrev pub namespace_or_default : Option Text → Text
namespace_or_default none = default_namespace
namespace_or_default (some ns) = ns

-- `_gen_create_deployment`
unfoldable pub create_deployment : Files → ℕ → Text → Table → Outcome (Payload × Table)
create_deployment files i depfile keys = do
  ns ← files.namespace depfile
  ok (Payload.create (new_key i) depfile, keys ++ (new_key i, namespace_or_default ns) ∷ [])

-- `[self._gen_create_deployment(k, depfile) for k in range(max_key)]`, from `k` on.
pub create_deployments : Files → Text → (count k : ℕ) → Table → Outcome (List Payload × Table)
create_deployments files depfile zero k keys = ok ([], keys)
create_deployments files depfile (suc count) k keys = do
  (dep, keys') ← create_deployment files k depfile keys
  (deps, keys'') ← create_deployments files depfile count (suc k) keys'
  ok (dep ∷ deps, keys'')

abbrev pub testdep : Text
testdep = codes "/root/reckon/systems/kubernetes/testdep.json"

pub prerequisites : Files → (max_key : ℕ) → Table → Outcome (List Payload × Table)
unfolding create_deployments
prerequisites files max_key keys = do
  (deps, keys') ← create_deployments files testdep max_key 0 keys
  ok (Payload.create (codes "namespace") (codes "reckon-ns") ∷ deps, keys')

-- `f"{ns}:{dep}"`
abbrev pub full_name : Text × Text → Text
full_name (dep, ns) = ns ++ (codes ":" ++ dep)

module _ (rng : Rng) where
  open rng use {State}

  -- `_rand_key`
  pub rand_key : Table → State → Outcome ((Text × Text) × State)
  rand_key keys s = do
    (i, s') ← draw rng (pos 0) (pos (length keys)) s
    entry ← or_raise (item_at keys i) index_error
    ok (entry, s')
