-- ===== src/Audit/Vocabulary.antt =====
-- crates/consolebook-server/src/audit.rs: `EventKind`, generated by `closed_vocabulary!`.
use text.Mathlib.Text.{◌==◌}
use consolebook.Base.{Option, some, none, String, List, [], ◌∷◌, ◌≡◌, refl, if◌then◌else◌}

pub data EventKind : Type 0 where
  retention_authority_granted retention_authority_revoked retention_policy_created : EventKind
  record_hold_created record_hold_replaced record_hold_released setup_completed : EventKind
  login_succeeded login_failed logout reset_code_issued reset_code_used : EventKind
  recovery_code_issued backup_completed restore_completed program_created : EventKind
  program_version_created program_version_published program_version_imported : EventKind
  program_version_discarded user_created enrollment_created enrollment_withdrawn : EventKind
  enrollment_completed enrollment_reinstated enrollment_version_changed : EventKind
  phase_event_recorded assignment_created assignment_ended session_created session_updated :
      EventKind
  session_closed session_trainer_added session_trainer_removed draft_created : EventKind
  draft_ownership_transferred draft_submitted draft_review_decided draft_finalized : EventKind
  acknowledgment_recorded amendment_opened task_signoff_recorded record_exported : EventKind
  trainee_packet_exported installation_exported : EventKind

unfoldable pub as_str : EventKind → String
as_str retention_authority_granted = "retention_authority_granted"
as_str retention_authority_revoked = "retention_authority_revoked"
as_str retention_policy_created = "retention_policy_created"
as_str record_hold_created = "record_hold_created"
as_str record_hold_replaced = "record_hold_replaced"
as_str record_hold_released = "record_hold_released"
as_str setup_completed = "setup_completed"
as_str login_succeeded = "login_succeeded"
as_str login_failed = "login_failed"
as_str logout = "logout"
as_str reset_code_issued = "reset_code_issued"
as_str reset_code_used = "reset_code_used"
as_str recovery_code_issued = "recovery_code_issued"
as_str backup_completed = "backup_completed"
as_str restore_completed = "restore_completed"
as_str program_created = "program_created"
as_str program_version_created = "program_version_created"
as_str program_version_published = "program_version_published"
as_str program_version_imported = "program_version_imported"
as_str program_version_discarded = "program_version_discarded"
as_str user_created = "user_created"
as_str enrollment_created = "enrollment_created"
as_str enrollment_withdrawn = "enrollment_withdrawn"
as_str enrollment_completed = "enrollment_completed"
as_str enrollment_reinstated = "enrollment_reinstated"
as_str enrollment_version_changed = "enrollment_version_changed"
as_str phase_event_recorded = "phase_event_recorded"
as_str assignment_created = "assignment_created"
as_str assignment_ended = "assignment_ended"
as_str session_created = "session_created"
as_str session_updated = "session_updated"
as_str session_closed = "session_closed"
as_str session_trainer_added = "session_trainer_added"
as_str session_trainer_removed = "session_trainer_removed"
as_str draft_created = "draft_created"
as_str draft_ownership_transferred = "draft_ownership_transferred"
as_str draft_submitted = "draft_submitted"
as_str draft_review_decided = "draft_review_decided"
as_str draft_finalized = "draft_finalized"
as_str acknowledgment_recorded = "acknowledgment_recorded"
as_str amendment_opened = "amendment_opened"
as_str task_signoff_recorded = "task_signoff_recorded"
as_str record_exported = "record_exported"
as_str trainee_packet_exported = "trainee_packet_exported"
as_str installation_exported = "installation_exported"

unfoldable pub parse : String → Option EventKind
parse stored =
    if stored == "retention_authority_granted"
    then some retention_authority_granted
    else if stored == "retention_authority_revoked"
    then some retention_authority_revoked
    else if stored == "retention_policy_created"
    then some retention_policy_created
    else if stored == "record_hold_created"
    then some record_hold_created
    else if stored == "record_hold_replaced"
    then some record_hold_replaced
    else if stored == "record_hold_released"
    then some record_hold_released
    else if stored == "setup_completed"
    then some setup_completed
    else if stored == "login_succeeded"
    then some login_succeeded
    else if stored == "login_failed"
    then some login_failed
    else if stored == "logout"
    then some logout
    else if stored == "reset_code_issued"
    then some reset_code_issued
    else if stored == "reset_code_used"
    then some reset_code_used
    else if stored == "recovery_code_issued"
    then some recovery_code_issued
    else if stored == "backup_completed"
    then some backup_completed
    else if stored == "restore_completed"
    then some restore_completed
    else if stored == "program_created"
    then some program_created
    else if stored == "program_version_created"
    then some program_version_created
    else if stored == "program_version_published"
    then some program_version_published
    else if stored == "program_version_imported"
    then some program_version_imported
    else if stored == "program_version_discarded"
    then some program_version_discarded
    else if stored == "user_created"
    then some user_created
    else if stored == "enrollment_created"
    then some enrollment_created
    else if stored == "enrollment_withdrawn"
    then some enrollment_withdrawn
    else if stored == "enrollment_completed"
    then some enrollment_completed
    else if stored == "enrollment_reinstated"
    then some enrollment_reinstated
    else if stored == "enrollment_version_changed"
    then some enrollment_version_changed
    else if stored == "phase_event_recorded"
    then some phase_event_recorded
    else if stored == "assignment_created"
    then some assignment_created
    else if stored == "assignment_ended"
    then some assignment_ended
    else if stored == "session_created"
    then some session_created
    else if stored == "session_updated"
    then some session_updated
    else if stored == "session_closed"
    then some session_closed
    else if stored == "session_trainer_added"
    then some session_trainer_added
    else if stored == "session_trainer_removed"
    then some session_trainer_removed
    else if stored == "draft_created"
    then some draft_created
    else if stored == "draft_ownership_transferred"
    then some draft_ownership_transferred
    else if stored == "draft_submitted"
    then some draft_submitted
    else if stored == "draft_review_decided"
    then some draft_review_decided
    else if stored == "draft_finalized"
    then some draft_finalized
    else if stored == "acknowledgment_recorded"
    then some acknowledgment_recorded
    else if stored == "amendment_opened"
    then some amendment_opened
    else if stored == "task_signoff_recorded"
    then some task_signoff_recorded
    else if stored == "record_exported"
    then some record_exported
    else if stored == "trainee_packet_exported"
    then some trainee_packet_exported
    else if stored == "installation_exported"
    then some installation_exported
    else none

unfoldable pub all : List EventKind
all =
    retention_authority_granted ∷ retention_authority_revoked ∷ retention_policy_created
    ∷ record_hold_created ∷ record_hold_replaced ∷ record_hold_released ∷ setup_completed
    ∷ login_succeeded ∷ login_failed ∷ logout ∷ reset_code_issued ∷ reset_code_used
    ∷ recovery_code_issued ∷ backup_completed ∷ restore_completed ∷ program_created
    ∷ program_version_created ∷ program_version_published ∷ program_version_imported
    ∷ program_version_discarded ∷ user_created ∷ enrollment_created ∷ enrollment_withdrawn
    ∷ enrollment_completed ∷ enrollment_reinstated ∷ enrollment_version_changed
    ∷ phase_event_recorded ∷ assignment_created ∷ assignment_ended ∷ session_created
    ∷ session_updated ∷ session_closed ∷ session_trainer_added ∷ session_trainer_removed
    ∷ draft_created ∷ draft_ownership_transferred ∷ draft_submitted ∷ draft_review_decided
    ∷ draft_finalized ∷ acknowledgment_recorded ∷ amendment_opened ∷ task_signoff_recorded
    ∷ record_exported ∷ trainee_packet_exported ∷ installation_exported ∷ []

-- The stored name of an audit event's kind parses back to it.
pub parse-as_str_event : (v : EventKind) → parse (as_str v) ≡ some v
unfolding parse as_str
parse-as_str_event retention_authority_granted = refl
parse-as_str_event _ = refl
