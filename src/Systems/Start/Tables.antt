-- ===== src/Systems/Start/Tables.antt =====
-- The dictionaries that `start_nodes` makes.
use reckon_k8s.Prelude.{
  ℕ, suc, ◌≡◌, refl, ap, false, List, [], ◌∷◌, ◌++◌, arith, All, append_assoc, append-nil, map,
  some, zero, get_elem?, ◌+◌, Bool-cases, inl, inr, ◌∙◌, true,
}
use reckon_k8s.Outcome.{Outcome, ok, ◌>>=◌}
use reckon_k8s.Text.{Text, text_eq}
use reckon_k8s.Text.Decimal.{text_eq_iff}
use reckon_k8s.Text.Dict.{
  Dict, get, keys, put-new, has_key, has_key-append, text_eq_comm, Distinct, absent-map,
}
use reckon_k8s.Text.Shell.{IsPlain}
use reckon_k8s.Cluster.{Node}
use reckon_k8s.Systems.Screen.{Act, get_node_tag}
use reckon_k8s.Systems.Screen.Words.{started, killed, start_screen_lem}
use reckon_k8s.Systems.Start.{Plan, Started, start_node, start_each}

abbrev pub tags : List Node → List Text
tags hosts = map get_node_tag hosts

-- A host whose name is plain and whose preparation succeeds.
abbrev pub IsReady : (ℕ → Node → Plan) → ℕ → List Node → Type 0
IsReady plan i [] = Unit {0}
IsReady plan i (h ∷ hosts) =
    ((acts : List Act) × ((plan i h).prepare ≡ ok acts)) × IsReady plan (suc i) hosts

-- The tags of the hosts to come are not in a dictionary yet.
abbrev pub IsNew : {A : Type 0} → Dict A → List Node → Type 0
IsNew d hosts = All (λ h. has_key (get_node_tag h) (keys d) ≡ false) hosts

pub IsNew-next :
    {A : Type 0} (t : Text) (v : A) (d : Dict A) (hosts : List Node)
    → has_key t (tags hosts) ≡ false
    → IsNew d hosts
    → IsNew (d ++ (t, v) ∷ []) hosts
IsNew-next t v d [] absent new = tt
IsNew-next t v d (h ∷ hosts) absent new = elim (Bool-cases (text_eq t (get_node_tag h))) [
  | inl e ↦ cc (rw e at absent)
  | inr n ↦
      let n' : text_eq (get_node_tag h) t ≡ false = text_eq_comm (get_node_tag h) t ∙ n in
      (
        has_key-append (get_node_tag h) t v d new.0 n',
        IsNew-next t v d hosts (rw n at absent) new.1,
      )
]

module _ (plan : ℕ → Node → Plan) where
  abbrev pub all_acts : (i : ℕ) (hosts : List Node) → IsReady plan i hosts → List Act
  all_acts i [] r = []
  all_acts i (h ∷ hosts) r =
      (r.0.0 ++ started h (plan i h).first ∷ []) ++ all_acts (suc i) hosts r.1

  abbrev pub restarts_of : ℕ → List Node → Dict (Outcome Act)
  restarts_of i [] = []
  restarts_of i (h ∷ hosts) =
      (get_node_tag h, ok (started h (plan i h).again)) ∷ restarts_of (suc i) hosts

  abbrev pub stops_of : List Node → Dict (Outcome Act)
  stops_of [] = []
  stops_of (h ∷ hosts) = (get_node_tag h, ok (killed h)) ∷ stops_of hosts

  start_node_lem :
      (p : Plan) (h : Node) (s : Started) (acts : List Act)
      → p.prepare ≡ ok acts
      → IsPlain h.name
      → has_key (get_node_tag h) (keys s.restarters) ≡ false
      → has_key (get_node_tag h) (keys s.stoppers) ≡ false
      → start_node p h s
        ≡ ok (record {
          acts = s.acts ++ (acts ++ started h p.first ∷ []);
          restarters = s.restarters ++ (get_node_tag h, ok (started h p.again)) ∷ [];
          stoppers = s.stoppers ++ (get_node_tag h, ok (killed h)) ∷ [];
        })
  start_node_lem p h s acts e plain r t =
      let (first, kill) = start_screen_lem h p.first plain in
      let again = (start_screen_lem h p.again plain).0 in
      rw (e, first, kill, again, put-new _ _ s.restarters r, put-new _ _ s.stoppers t) refl

  pub start_each_lem :
      (i : ℕ) (hosts : List Node) (s : Started) (ready : IsReady plan i hosts)
      → All (λ h. IsPlain h.name) hosts
      → Distinct (tags hosts)
      → IsNew s.restarters hosts
      → IsNew s.stoppers hosts
      → start_each plan i hosts s
        ≡ ok (record {
          acts = s.acts ++ all_acts i hosts ready;
          restarters = s.restarters ++ restarts_of i hosts;
          stoppers = s.stoppers ++ stops_of hosts;
        })
  unfolding start_each
  start_each_lem i [] s ready plain distinct r t =
      rw (append-nil s.acts, append-nil s.restarters, append-nil s.stoppers) refl
  start_each_lem i (h ∷ hosts) s ready plain distinct r t =
      let one = start_node_lem (plan i h) h s ready.0.0 ready.0.1 plain.0 r.0 t.0 in
      let rest =
        start_each_lem (suc i) hosts _ ready.1 plain.1 distinct.1
          (IsNew-next (get_node_tag h) (ok (started h (plan i h).again)) s.restarters hosts
            distinct.0 r.1)
          (IsNew-next (get_node_tag h) (ok (killed h)) s.stoppers hosts distinct.0 t.1) in
      ap (λ m. m >>= start_each plan (suc i) hosts) one
      ∙ rest
      ∙ rw (append_assoc s.acts, append_assoc s.restarters, append_assoc s.stoppers) refl

  pub keys-restarts_of : (i : ℕ) (hosts : List Node) → keys (restarts_of i hosts) ≡ tags hosts
  keys-restarts_of i [] = refl
  keys-restarts_of i (h ∷ hosts) = ap (λ l. get_node_tag h ∷ l) (keys-restarts_of (suc i) hosts)

  pub keys-stops_of : (hosts : List Node) → keys (stops_of hosts) ≡ tags hosts
  keys-stops_of [] = refl
  keys-stops_of (h ∷ hosts) = ap (λ l. get_node_tag h ∷ l) (keys-stops_of hosts)

  -- What the functions under the tag of a host are.
  pub get-tables :
      (i k : ℕ) (hosts : List Node) (h : Node)
      → get_elem? hosts k ≡ some h
      → Distinct (tags hosts)
      → (get (get_node_tag h) (restarts_of i hosts) ≡ some (ok (started h (plan (i + k) h).again)))
        × (get (get_node_tag h) (stops_of hosts) ≡ some (ok (killed h)))
  get-tables i k [] h at d = cc
  get-tables i zero (x ∷ hosts) h at d =
      let e : x ≡ h = cc in
      let same : text_eq (get_node_tag h) (get_node_tag h) ≡ true =
        (text_eq_iff (get_node_tag h) (get_node_tag h)).1 refl in
      let start : i + 0 ≡ i = omega arith in (rw (e, same, start) refl, rw (e, same) refl)
  get-tables i (suc k) (x ∷ hosts) h at d =
      let later : i + suc k ≡ suc i + k = omega arith in
      let other : text_eq (get_node_tag h) (get_node_tag x) ≡ false =
        text_eq_comm (get_node_tag h) (get_node_tag x)
        ∙ absent-map get_node_tag (get_node_tag x) k hosts h at d.0 in
      let rest = get-tables (suc i) k hosts h at d.1 in
      (rw (other, later) (rest.0), rw other (rest.1))
