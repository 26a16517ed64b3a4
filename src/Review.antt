-- ===== src/Review.antt =====
-- review/: the semantic review of a candidate whose visible tests pass.
pub mod Contracts
pub mod Policy
pub mod Feedback
pub mod Reviewer
pub mod Parser
