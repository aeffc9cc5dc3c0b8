-- ===== src/Failures.antt =====
-- The faults that the runner injects, of reckon/failures/.
pub mod Iptables
pub mod Partition
pub mod Intermittent
pub mod Stop
pub mod Provider
