-- ===== src/Faults.antt =====
-- faults: the checkers that watch runs under injected faults.
pub mod Linearizability
