-- ===== src/Notice/Vocabulary.antt =====
-- crates/consolebook-server/src/notices.rs: `NoticeKind`, generated by `closed_vocabulary!`.
use text.Mathlib.Text.{◌==◌}
use consolebook.Base.{Option, some, none, String, List, [], ◌∷◌, ◌≡◌, refl, if◌then◌else◌}

pub data NoticeKind : Type 0 where
  backup_failed backup_copy_failed assignment_created draft_ownership_received : NoticeKind
  draft_submitted_for_review draft_approved draft_changes_requested draft_returned : NoticeKind
  draft_finalized record_awaits_acknowledgment acknowledgment_response : NoticeKind
  acknowledgment_refused acknowledgment_attested amendment_opened : NoticeKind

unfoldable pub as_str : NoticeKind → String
as_str backup_failed = "backup_failed"
as_str backup_copy_failed = "backup_copy_failed"
as_str assignment_created = "assignment_created"
as_str draft_ownership_received = "draft_ownership_received"
as_str draft_submitted_for_review = "draft_submitted_for_review"
as_str draft_approved = "draft_approved"
as_str draft_changes_requested = "draft_changes_requested"
as_str draft_returned = "draft_returned"
as_str draft_finalized = "draft_finalized"
as_str record_awaits_acknowledgment = "record_awaits_acknowledgment"
as_str acknowledgment_response = "acknowledgment_response"
as_str acknowledgment_refused = "acknowledgment_refused"
as_str acknowledgment_attested = "acknowledgment_attested"
as_str amendment_opened = "amendment_opened"

unfoldable pub parse : String → Option NoticeKind
parse stored =
    if stored == "backup_failed"
    then some backup_failed
    else if stored == "backup_copy_failed"
    then some backup_copy_failed
    else if stored == "assignment_created"
    then some assignment_created
    else if stored == "draft_ownership_received"
    then some draft_ownership_received
    else if stored == "draft_submitted_for_review"
    then some draft_submitted_for_review
    else if stored == "draft_approved"
    then some draft_approved
    else if stored == "draft_changes_requested"
    then some draft_changes_requested
    else if stored == "draft_returned"
    then some draft_returned
    else if stored == "draft_finalized"
    then some draft_finalized
    else if stored == "record_awaits_acknowledgment"
    then some record_awaits_acknowledgment
    else if stored == "acknowledgment_response"
    then some acknowledgment_response
    else if stored == "acknowledgment_refused"
    then some acknowledgment_refused
    else if stored == "acknowledgment_attested"
    then some acknowledgment_attested
    else if stored == "amendment_opened"
    then some amendment_opened
    else none

unfoldable pub all : List NoticeKind
all =
    backup_failed ∷ backup_copy_failed ∷ assignment_created ∷ draft_ownership_received
    ∷ draft_submitted_for_review ∷ draft_approved ∷ draft_changes_requested ∷ draft_returned
    ∷ draft_finalized ∷ record_awaits_acknowledgment ∷ acknowledgment_response
    ∷ acknowledgment_refused ∷ acknowledgment_attested ∷ amendment_opened ∷ []

-- The stored name of a notice's kind parses back to it.
pub parse-as_str_notice : (v : NoticeKind) → parse (as_str v) ≡ some v
unfolding parse as_str
parse-as_str_notice backup_failed = refl
parse-as_str_notice _ = refl
