-- ===== src/Engine.antt =====
-- core/engine.py
pub mod State
pub mod Services
pub mod Invariant
pub mod Attempt
pub mod SemanticReview
pub mod Verdict
pub mod Run
