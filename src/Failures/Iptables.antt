-- ===== src/Failures/Iptables.antt =====
-- `partition` and `remove_partition` (also called `add_partition` and `heal_partition`) of the faults
-- in reckon/failures/: a host drops what it sends to another one, until its rule is deleted.
--
-- `iptables` itself is not part of the repository: its chains are a parameter, with its documented
-- behaviour. `-I OUTPUT` puts a rule first in the chain of one host, `-D OUTPUT 1` deletes the first.
pub mod Heal
use reckon_k8s.Prelude.{
  ℕ, zero, suc, ◌+◌, ◌≡◌, refl, sym, ◌∙◌, ap, Bool, true, false, List, [], ◌∷◌, ◌++◌, drop, arith,
  ◌==◌, if◌then◌else◌, length, append_assoc, Bool-cases, inl, inr,
}
use reckon_k8s.Text.{Text}
use reckon_k8s.Cluster.{Node}

pub record Iptables : Type 1 where
  pub State : Type 0
  -- The destinations that the `OUTPUT` chain of a host drops, first rule first.
  pub output : State → ℕ → List Text
  pub insert : ℕ → Text → State → State
  pub delete_first : ℕ → State → State
  pub output-insert :
      (h k : ℕ) (ip : Text) (s : State)
      → output (insert h ip s) k ≡ (if h == k then ip ∷ output s k else output s k)
  pub output-delete_first :
      (h k : ℕ) (s : State)
      → output (delete_first h s) k ≡ (if h == k then drop 1 (output s k) else output s k)

-- `Shared._partitioned`: the list that is the default of the parameter `partitioned` of `__init__`,
-- one object for all calls, or a list of its own.
pub data Shared : Type 0 where
  default : Shared
  own : List Node → Shared

module _ (tables : Iptables) where
  open tables use {State, insert, delete_first}

  -- The chains of all hosts, the list of the default and the attribute.
  pub record World : Type 0 where
    pub chains : State
    pub default_list : List Node
    pub shared : Shared

  -- `self._shared.partitioned`
  abbrev pub partitioned : World → List Node
  partitioned w = elim w.shared [ Shared.default ↦ w.default_list | Shared.own hs ↦ hs ]

  -- `self._shared.partitioned.append(host)` changes the list in place, also the default.
  abbrev pub append : Node → World → World
  append host w = elim w.shared [
    | Shared.default ↦ record w { default_list = w.default_list ++ host ∷ [] }
    | Shared.own hs ↦ record w { shared = Shared.own (hs ++ host ∷ []) }
  ]

  -- `partition(host, remote)`
  abbrev pub partition : Node × Node → World → World
  partition (host, remote) w = append host (record w { chains = insert host.id remote.ip w.chains })

  unfoldable pub partition_all : List (Node × Node) → World → World
  partition_all [] w = w
  partition_all (p ∷ ps) w = partition_all ps (partition p w)

  unfoldable pub delete_all : List Node → State → State
  delete_all [] s = s
  delete_all (h ∷ hs) s = delete_all hs (delete_first h.id s)

  -- `remove_partition()`: the attribute gets a new empty list.
  unfoldable pub remove_partition : World → World
  remove_partition w = record w {
    chains = delete_all (partitioned w) w.chains;
    shared = Shared.own [];
  }
