-- ===== src/Draft.antt =====
-- Evaluation drafts: crates/consolebook-server/src/{evaluation_drafts,draft_access,draft_review}.rs
-- and the completion rules of crates/consolebook-server/src/finalization.rs.
pub mod Status
pub mod Cycle
pub mod Frozen
pub mod Access
pub mod Completion
pub mod Content
pub mod Saving
pub mod Stream
pub mod Creation
pub mod Ownership
pub mod Submission
pub mod Review
pub mod Writes
