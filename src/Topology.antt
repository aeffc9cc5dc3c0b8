-- ===== src/Topology.antt =====
-- The networks that the program builds, of reckon/topologies/ and reckon/reckon_types.py.
pub mod KuberNet
pub mod KubeNode
pub mod Setup
