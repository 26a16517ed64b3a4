-- ===== src/Edit/Backends.antt =====
-- repair/backends: what a model's answer does to the workspace, as a result with the stage at which it
-- failed.
pub mod Host
pub mod PatchBackend
pub mod ReplacementBackend
pub mod Coherence
pub mod Stages
