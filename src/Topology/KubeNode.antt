-- ===== src/Topology/KubeNode.antt =====
-- `KubeNode` of reckon/reckon_types.py: a node that is paused, restarted and removed. What the network
-- of containers does is a list of the calls that are made of it.
pub mod Cycle
use reckon_k8s.Prelude.{
  ℕ, suc, Bool, true, false, ◌||◌, ◌==◌, List, [], ◌∷◌, ◌++◌, Option, none, some, map,
  if◌then◌else◌,
}
use reckon_k8s.Outcome.{
  Outcome, ok, raise, ◌>>=◌, or_raise, value_error, attribute_error, key_error, docker_error,
}
use reckon_k8s.Text.{Text, codes}
use reckon_k8s.Text.Dict.{Dict, get}

-- An interface of a link: its node, its address and its parameters, of which some can be missing and
-- some can be `None`.
pub record Interface : Type 0 where
  pub node : ℕ
  pub node_name : Text
  pub ip : Text
  pub params : Dict (Option Text)

pub record Link : Type 0 where
  pub intf1 : Interface
  pub intf2 : Interface

-- `KubeLink`, with the names of its nodes.
pub record KubeLink : Type 0 where
  pub n_from : Text
  pub n_to : Text
  pub ip_addr_from : Text
  pub ip_addr_to : Text
  pub delay : Option Text
  pub loss : Option Text
  pub jitter : Option Text

-- The arguments of `addLink` that are given: without `loss` the link has none.
pub record LinkArgs : Type 0 where
  pub n_from : Text
  pub n_to : Text
  pub delay : Option Text
  pub loss : Option Text
  pub jitter : Option Text
  pub ip1 : Text
  pub ip2 : Text

-- What a container is made of.
pub record Image : Type 0 where
  pub dimage : Text
  pub dcmd : Text
  pub volumes : List Text
  pub tmpfs : List Text

-- The arguments of `addDocker`; `net` is the network itself.
pub record DockerArgs : Type 0 where
  pub name : Text
  pub ip : Text
  pub image : Image
  pub reloadable : Bool

-- The calls of the shell of a node and of the network, and those that a new object makes of docker.
pub data Call : Type 0 where
  cmd : ℕ → Text → Call
  remove_host : ℕ → Call
  add_docker : DockerArgs → Call
  create_container start_container : (name : Text) → Call
  add_link : LinkArgs → Call

-- The attributes of the object; `kubeLinks` is not there before the first pause.
pub record KubeNode : Type 0 where
  pub id : ℕ
  pub name : Text
  pub ip_addr : Text
  pub image : Image
  pub running : Bool
  pub kube_links : Option (List KubeLink)

-- The container of the name of the node: there is none, or it is killed or runs.
pub data Container : Type 0 where
  absent killed runs : Container

-- A node, its container, the nodes of its cluster and the calls made.
pub record State : Type 0 where
  pub self : KubeNode
  pub container : Container
  pub cluster : List ℕ
  pub calls : List Call

abbrev pub is_of : ℕ → Link → Bool
is_of id l = l.intf1.node == id || l.intf2.node == id

-- What is kept of a link; a parameter that is missing is a KeyError.
abbrev pub saved : ℕ → Link → Outcome KubeLink
saved id l = do
  let own = if l.intf1.node == id then l.intf1 else l.intf2
  delay ← or_raise (get (codes "delay") own.params) key_error
  loss ← or_raise (get (codes "loss") own.params) key_error
  jitter ← or_raise (get (codes "jitter") own.params) key_error
  ok (record {
    n_from = l.intf1.node_name;
    n_to = l.intf2.node_name;
    ip_addr_from = l.intf1.ip;
    ip_addr_to = l.intf2.ip;
    delay = delay;
    loss = loss;
    jitter = jitter;
  })

-- A link is appended, and the loop goes on, or it ends with the exception.
abbrev pub appended :
    Outcome KubeLink → List KubeLink × Outcome (Unit {0}) → List KubeLink × Outcome (Unit {0})
appended (ok k) (ks, end) = (k ∷ ks, end)
appended (raise e) rest = ([], raise e)

-- The loop of `pause` over the links of the network: the links kept, and how the loop ends.
unfoldable pub save_links : ℕ → List Link → List KubeLink × Outcome (Unit {0})
save_links id [] = ([], ok tt)
save_links id (l ∷ links) =
    let rest = save_links id links in if is_of id l then appended (saved id l) rest else rest

-- `removeHost` stops the node, which kills its container and leaves it there.
abbrev pub after_kill : Container → Container
after_kill absent = absent
after_kill killed = killed
after_kill runs = killed

abbrev pub copy_calls : ℕ → List Call
copy_calls id =
    cmd id (codes "bash /kind/backup-tmpfs.sh")
    ∷ cmd id (codes "pkill -15 tcpdump")
    ∷ cmd id (codes "while pkill -0 tcpdump 2> /dev/null; do sleep 1; done;")
    ∷ []

-- The end of `pause`, after the loop over the links.
abbrev pub stop : State → List KubeLink × Outcome (Unit {0}) → State × Outcome (Unit {0})
stop s (kept, raise e) = (
  record s {
    self = record s.self { kube_links = some kept };
    calls = s.calls ++ copy_calls s.self.id;
  },
  raise e,
)
stop s (kept, ok u) = (
  record s {
    self = record s.self { running = false; kube_links = some kept };
    container = after_kill s.container;
    calls = s.calls ++ (copy_calls s.self.id ++ remove_host s.self.id ∷ []);
  },
  ok tt,
)

-- `pause`, with the links that the network has.
unfoldable pub pause : List Link → State → State × Outcome (Unit {0})
pause links s =
    if s.self.running
    then stop s (save_links s.self.id links)
    else (record s { self = record s.self { running = false } }, ok tt)

-- The keyword is `los`, and the first address is a text that is not an f-string.
abbrev pub restored : KubeLink → LinkArgs
restored l = record {
  n_from = l.n_from;
  n_to = l.n_to;
  delay = l.delay;
  loss = none;
  jitter = l.jitter;
  ip1 = codes "{link.ip_addr_from}/8";
  ip2 = l.ip_addr_to ++ codes "/8";
}

-- `cluster[cluster.index(self)] = newHost`; `none` is a `ValueError`.
unfoldable pub replaced : ℕ → ℕ → List ℕ → Option (List ℕ)
replaced old new [] = none
replaced old new (h ∷ hosts) =
    let rest = replaced old new hosts in
    if h == old then some (new ∷ hosts) else elim rest [ none ↦ none | some hs ↦ some (h ∷ hs) ]

abbrev pub put_in_place : ℕ → State → Option (List ℕ) → State × Outcome (Option ℕ)
put_in_place new s none = (s, raise value_error)
put_in_place new s (some cluster) = (record s { cluster = cluster }, ok (some new))

-- The constructor, up to the start of the container: a container of the name that does not run is started
-- again if the node is `reloadable`; otherwise one is created, which docker refuses where there is one of
-- the name.
unfoldable pub start_docker : DockerArgs → State → State × Outcome (Unit {0})
start_docker args s =
    let called = s.calls ++ add_docker args ∷ [] in
    let refused : State × Outcome (Unit {0}) =
      (record s { calls = called ++ create_container args.name ∷ [] }, raise docker_error) in
    elim s.container [
      | absent ↦ (
        record s {
          container = runs;
          calls = called ++ create_container args.name ∷ start_container args.name ∷ [];
        },
        ok tt,
      )
      | killed ↦
          if args.reloadable
          then (
            record s { container = runs; calls = called ++ start_container args.name ∷ [] },
            ok tt,
          )
          else refused
      | runs ↦ refused
    ]

-- The arguments that `restart` gives.
abbrev pub same_again : KubeNode → DockerArgs
same_again node = record {
  name = node.name;
  ip = node.ip_addr;
  image = node.image;
  reloadable = true;
}

-- The end of `restart`, once the container is started.
abbrev pub restore : (new : ℕ) → State → Option (List KubeLink) → State × Outcome (Option ℕ)
restore new s none = (s, raise attribute_error)
restore new s (some links) =
    put_in_place new
      (record s {
        self = record s.self { kube_links = some [] };
        calls = s.calls ++ map (λ l. add_link (restored l)) links;
      })
      (replaced s.self.id new s.cluster)

abbrev pub copy_back : (new : ℕ) → State → State
copy_back new s = record s { calls = s.calls ++ cmd new (codes "bash /kind/restore-tmpfs.sh") ∷ [] }

abbrev pub restore_started : (new : ℕ) → State × Outcome (Unit {0}) → State × Outcome (Option ℕ)
restore_started new (s, raise e) = (s, raise e)
restore_started new (s, ok u) = restore new (copy_back new s) s.self.kube_links

-- `restart(cluster)`, where `addDocker` returns the object `new`.
unfoldable pub restart : (new : ℕ) → State → State × Outcome (Option ℕ)
unfolding start_docker
restart new s =
    if s.self.running
    then (record s { self = record s.self { running = true } }, ok none)
    else restore_started new (start_docker (same_again s.self) s)

-- The links that are left by the loop of `terminateAndRemove`, which deletes links from the list that it
-- goes over: the link after a deleted one is passed over.
unfoldable pub links_left : ℕ → List Link → List Link
links_left id [] = []
links_left id (l ∷ []) = if is_of id l then [] else l ∷ []
links_left id (l ∷ m ∷ links) =
    let after = links_left id links in
    let next = links_left id (m ∷ links) in if is_of id l then m ∷ after else l ∷ next
