-- ===== src/Sandbox.antt =====
-- sandbox/: the commands that may run.
pub mod CommandPolicy
