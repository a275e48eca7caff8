-- ===== src/Lib.antt =====
-- Consolebook keeps the training records of a 911 center: who is enrolled in
-- which program, how trainees move through its phases, and the evaluations that trainers write and
-- reviewers approve. The server, crates/consolebook-server, is a set of services over one SQLite
-- database. A service function authorizes its actor, opens a write transaction, reads, answers with a
-- typed refusal or writes rows, an audit event and notices, and commits. The state that matters is
-- derived from append-only streams of events; the triggers of crates/consolebook-server/migrations hold
-- the rules a second time.
--
-- The parts, and the files of crates/consolebook-server/src that they model:
--   Base        the SQL forms (select, exists, find?, max_of, top), text with `trim`, and the outcome of
--               a service: ok, refused with a reason, or failed, where a constraint, a trigger or a missing
--               row ends the transaction with an error
--   Db          the tables, each the list of its rows, the newest first
--   Capability  capabilities.rs: the vocabulary, the bundles, `user_has`, `grant_bundle`
--   Audit       audit.rs: the vocabulary, `record_for_subject`
--   Notice      notices.rs: the vocabulary, `notify_user`, `notify_capability_holders` and `mark_read`; Flood
--               and Reading have what the last two change
--   ZipContainer  zip_container.rs: the walk of an archive's central directory, with offsets of 64 bits
--               whose sums wrap; Offsets has what a read at an offset says, EndRecord the search for the end
--               record and Bounds where the walk ends
--   SessionTime session_time.rs: `resolve` and `resolve_end`, Closing how they agree; the calendar is a
--               parameter
--   Lifecycle   lifecycle.rs: Queries has `status`, `current_phase` and `is_paused`; Enrollment has
--               `record_enrollment_event` and Phases `record_phase_event`, each with the constraints and
--               triggers of its insert. Enrollment/Accepted and Phases/Accepted say when a request is
--               acceptable and what it writes; View is the specification, which Refinement and
--               EventRefinement are about; Invariant, Preserve and EventPreserve are about the tables
--               between requests, Total and EventTotal about errors, and History about sequences of
--               requests
--   Assignment  assignments.rs: `is_assigned`; Service has `create` and `end`, Scope what they change
--   Enrolling   enrollments.rs: `enroll`; Grants and Effect have what it writes
--   Draft       evaluation_drafts.rs, draft_access.rs and draft_review.rs: Status has the derived status
--               and amendments.rs's `open_scope`, Frozen the SQL view of the same, Cycle the cycle between two
--               finalizations, Access who may write, start and read, Completion the rules of
--               finalization.rs, Stream the inserts, Creation `create`, Ownership `transfer`, Submission
--               `submit`, Review `decide` and Saving draft_content.rs's `save`, with
--               what Content reads; the Effect below each of the last five says what it
--               checks and writes; Creation/Coverage is about sessions,
--               Submission/Total about errors, Saving/Copy and Bounds about what is read back, and
--               Saving/Race about two saves of one revision
--   Amendment   amendments.rs: `open`, here `open_amendment`; Effect and Cycle as for drafts
--   Canonical   canonical.rs: documents, `validate`, `canonical_bytes` and the hashes; Hex has the
--               hexadecimal codec, Subset is about `validate` and Chain about what is hashed
--   Finalization  finalization.rs: `finalize` and `verify_at`; Insert has the table's constraints and
--               triggers, Effect what is checked and written, Lineage and Numbering the chain of
--               versions, Verified what is recomputed, and History sequences of writes
--   Acknowledgment  acknowledgments.rs: `acknowledge`, `attest` and `acknowledgment_of`; Effect as above,
--               Standing what the reader answers, and a second request
--   Signoff     task_signoffs.rs: `record`, here `record_signoff`; History what it writes, Total
--               when it is answered
--   Examples    a small agency, on which every result is tried
--
-- A service function takes two databases where the source reads before its write transaction: `seen`,
-- the state of those first reads, and `db`, the state that the transaction finds. Nothing relates the
-- two, so that every interleaving with other writers is covered that lets the first reads see one state.
-- It takes one instant, `now`, where the source reads the clock once for its rows and again for the
-- audit event and the notices. Identifiers and instants are natural numbers: an instant is its distance
-- from the least i64, and the program only compares instants. SQLite gives a row the identifier after the
-- greatest one of its table. A snapshot holds the working copy where the source stores its JSON text. A
-- display name is any text, and stored capabilities are compared by name, as in SQL. A CHECK
-- on the length of a text counts, as SQLite does, the characters before the first U+0000. Every loop is
-- structural recursion over rows, or on the count that an archive declares, so no fuel is needed.
--
-- Not modelled: the HTTP layer and the web client, storage, backup and restore, accounts and passwords,
-- exports, summaries, the rows of training sessions, programs and retention. SHA-256, the
-- JSON writer and the envelope, which is what the document of a version reads from the tables, are parameters
-- of finalization (`Format`); jiff is one of `SessionTime` (`Calendar`), and `String::from_utf8_lossy` one of
-- `ZipContainer`.
pub mod Base
pub mod Capability
pub mod Audit
pub mod Notice
pub mod Db
pub mod Lifecycle
pub mod Assignment
pub mod Draft
pub mod Examples
pub mod Amendment
pub mod Signoff
pub mod ZipContainer
pub mod SessionTime
pub mod Enrolling
pub mod Canonical
pub mod Finalization
pub mod Acknowledgment
