-- ===== src/Topology/KubeNode/Cycle.antt =====
-- A node that is paused and restarted, and then once more.
use reckon_k8s.Prelude.{
  ℕ, ◌≡◌, refl, ap, ◌∙◌, true, false, ◌==◌, ==_iff, List, [], ◌∷◌, ◌++◌, some, map, append_assoc,
  Bool-cases, inl, inr, All, if◌then◌else◌,
}
use reckon_k8s.Outcome.{Outcome, ok, raise, ◌>>=◌, first_value, ok-injective, docker_error}
use reckon_k8s.Text.{codes}
use reckon_k8s.Topology.KubeNode.{
  Link, KubeLink, State, Container, cmd, remove_host, add_docker, create_container, start_container,
  add_link, is_of, saved, save_links, copy_calls, pause, restored, replaced, same_again,
  start_docker, restart,
}

-- The links of a node among links.
abbrev pub links_of : ℕ → List Link → List Link
links_of id [] = []
links_of id (l ∷ links) = let rest = links_of id links in if is_of id l then l ∷ rest else rest

-- What is kept of each of these links, where no parameter is missing.
abbrev pub each_saved : ℕ → List Link → Outcome (List KubeLink)
each_saved id [] = ok []
each_saved id (l ∷ links) = do k ← saved id l; ks ← each_saved id links; ok (k ∷ ks)

save_links_lem :
    (id : ℕ) (links : List Link) (kept : List KubeLink)
    → each_saved id (links_of id links) ≡ ok kept
    → save_links id links ≡ (kept, ok tt)
unfolding save_links
save_links_lem id [] kept e = ap (λ ks. (ks, ok tt)) (ok-injective e)
save_links_lem id (l ∷ links) kept e = elim (Bool-cases (is_of id l)) [
  | inr n ↦ rw n (save_links_lem id links kept (rw n at e))
  | inl y ↦
      let (k, later, here) = first_value _ (saved id l) (rw y at e) in
      let (ks, same, rest) = first_value (λ ks. ok (k ∷ ks)) _ later in
      rw (y, here, save_links_lem id links ks rest) (ap (λ x. (x, ok tt)) (ok-injective same))
]

abbrev pub IsNot : ℕ → ℕ → Type 0
IsNot id h = (h == id) ≡ false

replaced-append :
    (old new : ℕ) (front rest : List ℕ)
    → All (IsNot old) front
    → replaced old new (front ++ old ∷ rest) ≡ some (front ++ new ∷ rest)
unfolding replaced
replaced-append old new [] rest h =
    let same : (old == old) ≡ true = (==_iff old old).1 refl in rw same refl
replaced-append old new (x ∷ front) rest h = rw (h.0, replaced-append old new front rest h.1) refl

module _ (links : List Link) (kept : List KubeLink) (new : ℕ) (s : State) (front rest : List ℕ)
    (active : s.self.running ≡ true) (up : s.container ≡ Container.runs)
    (params : each_saved s.self.id (links_of s.self.id links) ≡ ok kept)
    (at : s.cluster ≡ front ++ s.self.id ∷ rest) (before : All (IsNot s.self.id) front) where
  -- After a pause and a restart.
  abbrev pub cycled : State
  cycled = record {
    self = record s.self { running = false; kube_links = some [] };
    container = Container.runs;
    cluster = front ++ new ∷ rest;
    calls =
        s.calls
        ++ (copy_calls s.self.id
            ++ remove_host s.self.id
              ∷ add_docker (same_again s.self)
              ∷ start_container s.self.name
              ∷ cmd new (codes "bash /kind/restore-tmpfs.sh")
              ∷ map (λ l. add_link (restored l)) kept);
  }

  pub restart-pause :
      ((pause links s).1 ≡ ok tt) × (restart new (pause links s).0 ≡ (cycled, ok (some new)))
  unfolding restart pause start_docker
  restart-pause =
      let taken : replaced s.self.id new s.cluster ≡ some (front ++ new ∷ rest) =
        rw at (replaced-append s.self.id new front rest before) in
      let loop = save_links_lem s.self.id links kept params in
      (rw (active, loop) refl, rw (active, loop, up, taken) (simp append_assoc))

  abbrev pub refused : State
  refused = record cycled {
    calls = cycled.calls ++ (add_docker (same_again s.self) ∷ create_container s.self.name ∷ []);
  }

  pause-cycled : (links' : List Link) → pause links' cycled ≡ (cycled, ok tt)
  unfolding pause
  pause-cycled links' = refl

  restart-cycled : (new' : ℕ) → restart new' cycled ≡ (refused, raise docker_error)
  unfolding restart start_docker
  restart-cycled new' = simp append_assoc

  -- Where the interfaces of a running node have all three parameters, and its container runs and it is in
  -- the cluster, the object of the node stays stopped after a pause and a restart: one more pause of it does
  -- nothing, and one more restart of it asks for a container of a name that runs, which docker refuses, so
  -- that no container is started, nothing else changes and the restart ends with the exception of docker.
  pub restart-pause_again :
      (links' : List Link) (new' : ℕ)
      → let again = (restart new (pause links s).0).0 in
        ((pause links' again) ≡ (cycled, ok tt))
        × (restart new' (pause links' again).0 ≡ (refused, raise docker_error))
  restart-pause_again links' new' =
      let still = ap (λ r. pause links' r.0) restart-pause.1 ∙ pause-cycled links' in
      (still, ap (λ r. restart new' r.0) still ∙ restart-cycled new')
