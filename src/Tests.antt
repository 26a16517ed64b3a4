-- ===== src/Tests.antt =====
-- Runs on concrete inputs, and the theorems at such inputs.
mod Samples
mod Policies
mod Runs
mod Reviews
mod Summaries
mod Edits
mod Workspaces
mod Commands
mod Answers
mod Windows
