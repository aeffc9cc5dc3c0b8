-- ===== src/Systems/Ocons/Commands.antt =====
-- reckon/systems/ocons/__init__.py: the commands that start the nodes and the clients.
use reckon_k8s.Prelude.{ℕ, suc, false, List, [], ◌∷◌, ◌++◌, map, Option, none, some, if◌then◌else◌}
use reckon_k8s.Outcome.{Outcome, ok, raise, not_supported}
use reckon_k8s.Text.{Text, codes, str, join, text_eq}
use reckon_k8s.Cluster.{Node}
use reckon_k8s.Systems.Floats.{Floats}
use reckon_k8s.Systems.Screen.{Settings, get_node_tag, add_stderr_logging, add_stdout_logging}
use reckon_k8s.Systems.Start.{Plan}

-- The subclasses of `Ocons`, by their `system_kind`; the three last have a `start_cmd` of their own.
pub data Kind : Type 0 where
  paxos raft raft_sbn prevote_raft prevote_raft_sbn : Kind
  conspire_leader conspire_dc conspire_leader_dc : Kind

abbrev pub system_kind : Kind → Text
system_kind Kind.paxos = codes "paxos"
system_kind Kind.raft = codes "raft"
system_kind Kind.raft_sbn = codes "raft+sbn"
system_kind Kind.prevote_raft = codes "prevote-raft"
system_kind Kind.prevote_raft_sbn = codes "prevote-raft+sbn"
system_kind Kind.conspire_leader = codes "conspire-leader"
system_kind Kind.conspire_dc = codes "conspire-dc"
system_kind Kind.conspire_leader_dc = codes "conspire-leader-dc"

-- `Ocaml.cmd`
unfoldable pub cmd : (ips : List Text) → (client_id : Text) → Text
cmd ips client_id =
    codes "nix run ./reckon/systems/ocons/clients -- "
    ++ (client_id ++ (codes " " ++ join (codes ",") (map (λ ip. ip ++ codes ":5000") ips)))

-- `get_client`; the client has no attributes.
unfoldable pub get_client : Option Text → Outcome (Unit {0})
get_client none = ok tt
get_client (some c) = if text_eq c (codes "ocaml") then ok tt else raise not_supported

-- The items of `cluster_str`, from the index `i`.
unfoldable pub peers : ℕ → List Node → List Text
peers i [] = []
peers i (host ∷ hosts) = (str i ++ (codes ":" ++ (host.ip ++ codes ":5001"))) ∷ peers (suc i) hosts

unfoldable pub cluster_str : List Node → Text
cluster_str cluster = join (codes ",") (peers 0 cluster)

module _ {F : Type 0} (floats : Floats F) (self : Settings F) where
  abbrev pub tick_period : Kind → F
  tick_period Kind.conspire_leader_dc = floats.of_ratio 1 1000
  tick_period _ = floats.of_ratio 1 100

  unfoldable pub get_election_timeout : Kind → ℕ
  get_election_timeout kind =
      floats.truncated (floats.divided_by self.failure_timeout (tick_period kind))

  abbrev pub election_option : Kind → Text
  election_option kind = codes "--election-timeout " ++ str (get_election_timeout kind)

  abbrev pub delay_option : Text
  delay_option = codes "--delay " ++ floats.shown self.delay_interval

  -- The options after the ports and the tick, in the order of each `start_cmd`.
  abbrev pub options : Kind → List Text
  options Kind.conspire_dc = codes "--rand-start 1" ∷ delay_option ∷ []
  options Kind.conspire_leader_dc =
      election_option Kind.conspire_leader_dc ∷ delay_option ∷ codes "--rand-start 1" ∷ []
  options kind = election_option kind ∷ codes "--rand-start 1" ∷ []

  -- `-t`, which `OConsConspireDC` gives as a literal.
  abbrev pub tick_option : Kind → Text
  tick_option Kind.conspire_dc = codes "-t " ++ floats.shown (floats.of_ratio 1 1000)
  tick_option kind = codes "-t " ++ floats.shown (tick_period kind)

  unfoldable pub start_cmd : Kind → (tag : Text) (nid : ℕ) (cluster : Text) → Text
  start_cmd kind tag nid cluster =
      let words =
        codes "nix run ./reckon/systems/ocons/ocons-src --"
        ∷ codes "-p 5001"
        ∷ codes "-q 5000"
        ∷ tick_option kind
        ∷ (options kind ++ system_kind kind ∷ str nid ∷ cluster ∷ []) in
      let command = add_stderr_logging self (join (codes " ") words) tag in
      add_stdout_logging self command tag false

  -- What the loop of `start_nodes` does for a host.
  unfoldable pub plan : Kind → List Node → ℕ → Node → Plan
  plan kind cluster i host =
      let command = start_cmd kind (get_node_tag host) i (cluster_str cluster) in
      record { prepare = ok []; first = command; again = command }
