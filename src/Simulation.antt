-- ===== src/Simulation.antt =====
-- include/miniran/simulation and src/simulation: a whole scenario, from the attach to the detach.
pub mod Scenario
pub mod Runner
pub mod Config
pub mod Summary
pub mod Examples
