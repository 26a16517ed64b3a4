-- ===== src/Context.antt =====
-- context/: how much source the next prompt shows, and what a pytest output says.
pub mod Expansion
pub mod PytestSummary
pub mod Snippet
