-- ===== src/Edit.antt =====
-- tools/ and repair/backends/: a model's edit, from its text to the workspace.
pub mod Fences
pub mod Policy
pub mod Replacement
pub mod Splice
pub mod Files
pub mod Application
pub mod PatchText
pub mod PatchCheck
pub mod GitApply
pub mod Backends
