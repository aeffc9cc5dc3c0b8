-- ===== src/Workload.antt =====
-- The workload package, reckon/workload/.
pub mod Generator
pub mod Emits
pub mod Timed
pub mod TpTest
pub mod Uniform
pub mod Deployments
pub mod UniformCrud
pub mod Provider
