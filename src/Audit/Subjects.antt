-- ===== src/Audit/Subjects.antt =====
-- crates/consolebook-server/src/audit.rs: the domain row that an event acted on.
use consolebook.Base.{ℕ}

pub data Subject : Type 0 where
  retention_policy record_hold program program_version enrollment assignment session record_row :
      ℕ → Subject
