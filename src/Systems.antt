-- ===== src/Systems.antt =====
-- The systems under test, of reckon/systems/.
pub mod Floats
pub mod Screen
pub mod Start
pub mod Etcd
pub mod Zookeeper
pub mod Ocons
pub mod Kubernetes
pub mod Family
