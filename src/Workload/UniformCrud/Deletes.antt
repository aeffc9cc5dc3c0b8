-- ===== src/Workload/UniformCrud/Deletes.antt =====
-- When reckon/workload/uniform_crud.py deletes, and that it makes requests.
use mathlib.Core.Path.{subst}
use reckon_k8s.Prelude.{
  ℕ, zero, suc, ◌≤◌, ◌<◌, ◌≡◌, refl, false, [], ◌∷◌, ◌++◌, length, ◌==◌, if◌then◌else◌, Option,
  arith, Bool-cases, inl, inr,
}
use reckon_k8s.Prelude.Int.{ℤ, pos}
use reckon_k8s.Outcome.{ok}
use reckon_k8s.Text.{Text}
use reckon_k8s.Types.{Payload}
use reckon_k8s.Rng.{Rng, draw_in}
use reckon_k8s.Workload.Deployments.{
  Files, Table, new_key, create_deployment, namespace_or_default, testdep, full_name,
}
use reckon_k8s.Workload.Deployments.Requests.{Names, rand_key_lem}
use reckon_k8s.Workload.UniformCrud.{
  Kind, UniformCrud, kind_of, is_blocked, gen_op_kind_withchecks, replica_delta, serve, next,
  testdep_v2,
}

unblocked_delete :
    (op_count keys : ℕ)
    → is_blocked Kind.delete op_count keys ≡ false
    → (700 ≤ op_count) × (0 < keys)
unfolding is_blocked
unblocked_delete op_count keys h = ground arith

free :
    (k : Kind) (op_count keys : ℕ) → 700 ≤ op_count → 0 < keys → is_blocked k op_count keys ≡ false
unfolding is_blocked
free Kind.create op_count keys h l = refl
free Kind.read op_count keys h l = refl
free Kind.update op_count keys h l = ground arith
free Kind.delete op_count keys h l = ground arith

module _ (rng : Rng) (files : Files) where
  open rng use {State, random}

  -- A deletion is drawn only when 700 operations have been made and the table has a deployment.
  pub withchecks_delete :
      (depth : ℕ) (g : UniformCrud rng) (s s' : State)
      → gen_op_kind_withchecks rng files depth g s ≡ ok (Kind.delete, s')
      → (700 ≤ g.op_count) × (0 < length g.keys)
  unfolding gen_op_kind_withchecks
  withchecks_delete zero g s s' e = cc
  withchecks_delete (suc depth) g s s' e =
      let kind = kind_of g.op_ratio (random s).0 in
      elim (Bool-cases (is_blocked kind g.op_count (length g.keys))) [
        | inl again ↦ withchecks_delete depth g (random s).1 s' (rw again at e)
        | inr go ↦ unblocked_delete g.op_count (length g.keys) (
            let drawn : ok (kind, (random s).1) ≡ ok (Kind.delete, s') = rw go at e in
            subst (λ k. is_blocked k g.op_count (length g.keys) ≡ false) (cc) go)
      ]

  -- What a request is about: a new deployment, or one of the table.
  abbrev pub IsAbout : Table → Payload → Type 0
  IsAbout keys (Payload.create k v) = k ≡ new_key (length keys)
  IsAbout keys (Payload.read k) = Names keys k
  IsAbout keys (Payload.update k v) = Names keys k
  IsAbout keys (Payload.delete k) = Names keys k
  IsAbout keys (Payload.write k v) = ⊥

  replica_delta_lem :
      (s : State) → (n : ℤ) × (s' : State) × (replica_delta rng files s ≡ ok (n, s'))
  unfolding replica_delta
  replica_delta_lem s =
      let (n, s', moved, lo, hi) = draw_in rng (pos 1) (pos 5) s (omega arith) in (n, s', moved)

  create_lem :
      (i : ℕ) (depfile : Text) (keys : Table)
      → ((f : Text) → (ns : Option Text) × (files.namespace f ≡ ok ns))
      → (keys' : Table) × (create_deployment files i depfile keys
          ≡ ok (Payload.create (new_key i) depfile, keys'))
  unfolding create_deployment
  create_lem i depfile keys total =
      let (ns, e) = total depfile in (keys ++ (new_key i, namespace_or_default ns) ∷ [], rw e refl)

  serve_lem :
      (k : Kind) (g : UniformCrud rng) (s : State)
      → 0 < length g.keys
      → ((depfile : Text) → (ns : Option Text) × (files.namespace depfile ≡ ok ns))
      → (p : Payload) × (g' : UniformCrud rng) × (serve rng files k g s ≡ ok (p, g'))
        × IsAbout g.keys p
        × (g'.op_count ≡ suc g.op_count)
  unfolding serve
  serve_lem Kind.create g s h total =
      let depfile = if g.op_ratio.delete_ratio == 0 then testdep else testdep_v2 in
      let (keys, e) = create_lem (length g.keys) depfile g.keys total in
      (
        Payload.create (new_key (length g.keys)) depfile,
        record g { keys = keys; op_count = suc g.op_count; state = s },
        rw e refl,
        refl,
        refl,
      )
  serve_lem Kind.read g s h total =
      let (entry, s', drawn, known) = rand_key_lem rng g.keys s h in
      (
        Payload.read (full_name entry),
        record g { op_count = suc g.op_count; state = s' },
        rw drawn refl,
        known,
        refl,
      )
  serve_lem Kind.update g s h total =
      let (entry, s', drawn, known) = rand_key_lem rng g.keys s h in
      let (n, s'', moved) = replica_delta_lem s' in
      (
        Payload.update (full_name entry) (files.replica_delta n),
        record g { op_count = suc g.op_count; state = s'' },
        rw (drawn, moved) refl,
        known,
        refl,
      )
  serve_lem Kind.delete g s h total =
      let (entry, s', drawn, known) = rand_key_lem rng g.keys s h in
      (
        Payload.delete (full_name entry),
        record g { op_count = suc g.op_count; state = s' },
        rw drawn refl,
        known,
        refl,
      )

  -- After 700 operations, with a deployment in the table and files that can be read, the generator
  -- makes a request at once, about a new deployment or one of the table, and counts it.
  pub next-IsAbout :
      (recursion_limit : ℕ) (g : UniformCrud rng)
      → 700 ≤ g.op_count
      → 0 < length g.keys
      → ((depfile : Text) → (ns : Option Text) × (files.namespace depfile ≡ ok ns))
      → (p : Payload) × (g' : UniformCrud rng) × (next rng files (suc recursion_limit) g
          ≡ ok (p, g'))
        × IsAbout g.keys p
        × (g'.op_count ≡ suc g.op_count)
  unfolding next gen_op_kind_withchecks
  next-IsAbout lim g h l total =
      let kind = kind_of g.op_ratio (random g.state).0 in
      let (p, g', e, about, counted) = serve_lem kind g (random g.state).1 l total in
      (p, g', rw (free kind g.op_count (length g.keys) h l) e, about, counted)
