-- ===== src/Runner.antt =====
-- The client runner, reckon/client_runner.py.
pub mod RoundRobin
pub mod Cycle
pub mod Preload
pub mod Collate
pub mod Execute
pub mod Steps
