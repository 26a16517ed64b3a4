-- ===== src/Execution.antt =====
-- execution/ and sandbox/base.py: running the visible tests in a workspace.
pub mod Contracts
pub mod Host
pub mod Workspace
pub mod Transaction
pub mod Session
pub mod TestPolicy
pub mod TestRunner
