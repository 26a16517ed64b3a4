-- ===== src/Repair.antt =====
-- repair/: the retry policy, the evaluator, the feedback texts and the edit backends.
pub mod RetryPolicy
pub mod Evaluator
pub mod Prompting
pub mod ModelClient
