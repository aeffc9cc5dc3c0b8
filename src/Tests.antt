-- ===== src/Tests.antt =====
-- Tests: the theorems at concrete inputs. This file has the parameters that they share: a random
-- generator that always draws the lowest number, files without a namespace, chains of rules as
-- functions, and numbers in sixteenths.
mod Runner
mod Workload
mod Failures
mod Topology
mod Systems
mod Start
mod KubeNode
mod Main
mod Kubernetes
mod Experiments
mod Etcd
mod Steps
use reckon_k8s.Prelude.{
  ◌+◌, ◌-◌, ◌*◌, ◌/◌, leb, ℕ, zero, suc, ◌^◌, ◌<◌, ◌≡◌, refl, List, [], ◌∷◌, none, replicate,
  length, drop, ◌==◌, if◌then◌else◌, arith,
}
use reckon_k8s.Prelude.Int.{ℤ, ◌≤ℤ◌, ◌<ℤ◌}
use reckon_k8s.Outcome.{ok}
use reckon_k8s.Text.{Text}
use reckon_k8s.Topology.Setup.Defaults.{Reals}
use reckon_k8s.Rng.{Rng, one}
use reckon_k8s.Workload.Deployments.{Files}
use reckon_k8s.Failures.Iptables.{Iptables}

pub length-replicate : (n : ℕ) (c : ℕ) → length (replicate n c) ≡ n
length-replicate zero c = refl
length-replicate (suc n) c = omega (arith, length-replicate n c)

abbrev pub lowest_rng : Rng
lowest_rng = record {
  State = ℕ;
  random = λ s. (0, suc s);
  random-lt-one = λ s. omega arith;
  integers = λ low high s. (low, suc s);
  integers_bounds = λ low high s h. (omega arith, h);
  choice = λ letters size s. (replicate size b'a', suc s);
  length-choice = λ letters size s. length-replicate size b'a';
}

abbrev pub plain_files : Files
plain_files = record { namespace = λ depfile. ok none; replica_delta = λ n. [] }

abbrev pub chains : Iptables
chains = record {
  State = ℕ → List Text;
  output = λ s k. s k;
  insert = λ h ip s k. if h == k then ip ∷ s k else s k;
  delete_first = λ h s k. if h == k then drop 1 (s k) else s k;
  output-insert = λ h k ip s. refl;
  output-delete_first = λ h k s. refl;
}

-- The integer square root, looked for from `n` downwards.
abbrev root_below : (n x : ℕ) → ℕ
root_below zero x = 0
root_below (suc n) x = let rest = root_below n x in if leb (suc n * suc n) x then suc n else rest

-- Numbers in sixteenths.
abbrev pub sixteenths : Reals
sixteenths = record {
  one = 16;
  two = 32;
  hundred = 1600;
  times = λ a b. a * b / 16;
  divided_by = λ a b. a * 16 / b;
  minus = λ a b. a - b;
  sqrt = λ a. root_below 16 (a * 16);
}
