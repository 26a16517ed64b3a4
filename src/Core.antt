-- ===== src/Core.antt =====
-- core/ and schemas.py: the data that the components hand to each other.
pub mod Contracts
pub mod Schemas
