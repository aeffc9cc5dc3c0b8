-- ===== src/Experiments.antt =====
-- The scripts that start the program with sets of parameters, of scripts/.
pub mod Params
pub mod HaTopo
pub mod Kubetester
pub mod Actions
pub mod Tester
pub mod Repro
