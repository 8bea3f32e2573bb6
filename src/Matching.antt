-- ===== src/Matching.antt =====
-- The matching module: src/modules/matching.
pub mod Types
pub mod Repository
pub mod Boost
pub mod Plans
pub mod Service
pub mod Candidates
pub mod Details
