-- ===== src/Lifecycle.antt =====
-- crates/consolebook-server/src/lifecycle.rs: the enrollment lifecycle and the phase history. The
-- state is derived from two append-only streams of events; the services append to them.
pub mod Queries
pub mod Enrollment
pub mod Phases
pub mod View
pub mod Refinement
pub mod Invariant
pub mod Total
pub mod Preserve
pub mod EventRefinement
pub mod EventTotal
pub mod EventPreserve
pub mod History
