-- ===== src/Lib.antt =====
-- Reckon runs a benchmark of a consensus system: it starts a cluster and clients in a network of
-- containers, sends each client its requests before the test, starts the clients, injects failures
-- at even intervals while they run, and gathers their results. This library models the logic of
-- that program in Python, under reckon/.
--
-- The parts, and the files of the model:
--
--   Types, Wire         reckon/reckon_types.py: the messages, and class Client, which sends them as
--                       packets over the pipes of a client
--   Workload            reckon/workload/: which requests a test makes. Uniform is uniform.py,
--                       UniformCrud is uniform_crud.py, Timed is timed_crud.py, TpTest is
--                       tptest_crud.py, and Deployments is what those three share word for
--                       word. Provider is __init__.py, with the times of poisson.py
--   Runner              reckon/client_runner.py: preload hands the requests to the clients, ready
--                       and collate read what they send, by client, up to an end of a pipe, execute applies
--                       the faults up to one that raises, and Steps joins them
--   Cluster, Failures   reckon/failures/: the faults. Iptables and Partition cut hosts off from
--                       each other, Intermittent does so over and over, Stop stops nodes, and
--                       Provider says which faults a type of failure stands for
--   Topology            reckon/topologies/ and reckon/reckon_types.py: KuberNet gives the nodes of
--                       a cluster their names, addresses and attributes, Setup makes the links, whose
--                       default specification is in Setup.Defaults, and KubeNode is the pause and
--                       the restart of the class KubeNode
--   Systems             reckon/systems/: Screen is class AbstractSystem of reckon/reckon_types.py,
--                       Start the loop of start_nodes; Etcd, Zookeeper and Ocons have the commands
--                       of each system and the choice of its leader, Family is get_system with
--                       the methods that depend on the system; Kubernetes is
--                       reckon/systems/kubernetes/
--   Main, Enums         reckon/__main__.py, which joins the parts: the run of a benchmark with its
--                       cleanup, and the arguments that a file overrides; Enums is the encoding of
--                       members of enumerations in reckon/config_loader.py
--   Experiments         scripts/kubetester.py: the command line of a test, the network of its cluster,
--                       the lists of tests, and in Repro the repeats of earlier runs; Tester is
--                       scripts/tester.py
--   Prelude, Text, Rng, Outcome   shared: numbers and lists, strings with shlex.split and
--                       dictionaries, numpy's generator, exceptions
--   Tests               the theorems at concrete inputs
--
-- State is passed explicitly. A method of the source is a function on a record of the attributes
-- that it reads or changes; a generator is a step function, of which Workload.Generator takes the
-- first items; a call that may raise returns an Outcome. What comes of the clients is one sequence
-- of arrivals, in the order in which the selectors pick them; the call of a fault is a parameter
-- that takes some time and changes a world or raises. The threads of the intermittent faults are
-- steps from one sleep to the next.
--
-- What is not in the repository is a parameter: the random generator of numpy with the ranges that
-- its documentation gives (Rng), the exponential draws (Workload.Provider.Arrivals.Exponential),
-- the JSON of pydantic (Wire.Codec), files (Workload.Deployments.Files), the chains of iptables
-- (Failures.Iptables), the floating-point numbers (Systems.Floats and
-- Topology.Setup.Defaults.Reals), what hosts reply to a command, the configuration files that the
-- package yaml makes (Systems.Kubernetes.Templates), the leader that a system reports, what comes
-- of the start of nodes, of a ping and of a call of a killer (Main.Program.Outside), and what the
-- scripts find on disk (Experiments.Repro.Partial). Times are natural numbers of a fixed unit,
-- with a division that rounds down. Ratios are numbers of 2 ^ -53.
--
-- Bounds: roundrobin is given one step for each next() that it makes and never runs out. The
-- recursion of _gen_op_kind is limited as Python limits it, to 1000 levels; two are used at every
-- step. The recursion of _gen_op_kind_withchecks has a limit that is a parameter. The number of
-- requests a second of the throughput workload is a whole number.
--
-- Not modelled: Docker, mininet and processes, so what starts and removes the containers of
-- reckon/reckon_types.py but the choice between the reload of a killed container and the creation
-- of one, the moves of files at the end of a test, and the scripts throughput.py, lossy_etcd.py
-- and test_topo.py; the registration and the parse of command-line arguments; the main loops of
-- the scripts; the Go, Java and OCaml clients.
pub mod Prelude
pub mod Text
pub mod Outcome
pub mod Types
pub mod Rng
pub mod Wire
pub mod Workload
pub mod Runner
pub mod Cluster
pub mod Failures
pub mod Topology
pub mod Systems
pub mod Experiments
pub mod Enums
pub mod Main
pub mod Tests
