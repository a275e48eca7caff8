-- ===== src/Draft/Status.antt =====
-- crates/consolebook-server/src/evaluation_drafts.rs: the refusals and the derived workflow status;
-- crates/consolebook-server/src/amendments.rs: the open amendment.
use consolebook.Base.{
  ℕ, Bool, Option, some, none, List, Text, ltb, ◌==◌, ◌&&◌, select, exists, find?, top,
  if◌then◌else◌,
}
use consolebook.Db.{
  Db, EvaluationRecord, EvaluationVersion, Amendment, ContributorEvent, ContributorKind,
  submitted_for_review, review_decided, ReviewDecision, DecisionKind,
}

pub data DraftRefusal : Type 0 where
  capability_required no_such_session session_cancelled draft_already_exists no_daily_form :
      DraftRefusal
  form_required no_such_form no_such_record draft_submitted no_such_user not_eligible : DraftRefusal
  already_owner no_such_form_competency no_such_form_narrative no_such_modifier : DraftRefusal
  value_out_of_range value_not_allowed duplicate_entry stale_save draft_approved : DraftRefusal
  self_review not_submitted comment_required draft_finalized narratives_incomplete : DraftRefusal
  ratings_incomplete no_such_enrollment no_summary_form not_a_summary not_a_daily : DraftRefusal
  wrong_enrollment no_such_version duplicate_link no_such_link : DraftRefusal

pub data DraftStatus : Type 0 where
  draft submitted changes_requested returned approved finalized : DraftStatus

-- The refusal with which a frozen state answers writes.
abbrev pub frozen_refusal : DraftStatus → Option DraftRefusal
frozen_refusal submitted = some draft_submitted
frozen_refusal approved = some draft_approved
frozen_refusal finalized = some draft_finalized
frozen_refusal _ = none

-- `load_record`
unfoldable pub load_record : Db → ℕ → Option EvaluationRecord
load_record db r = find? (λ row. row.id == r) db.records

unfoldable pub later_version : EvaluationVersion → EvaluationVersion → Bool
later_version a b = ltb a.version_number b.version_number

-- The record's latest finalized version.
unfoldable pub latest_version : Db → ℕ → Option EvaluationVersion
latest_version db r =
    top later_version (select (λ v. v.evaluation_record_id == r) db.evaluation_versions)

pub record OpenAmendment : Type 0 where
  pub reason : Text
  pub opened_by_display_name : Text
  pub opened_at : ℕ
  pub predecessor_version_id : ℕ
  pub predecessor_version_number : ℕ
  pub predecessor_content_hash : Text
  pub opened_after_event_id : ℕ
  pub opened_after_decision_id : ℕ

abbrev pub amendment_view : EvaluationVersion → Option Amendment → Option OpenAmendment
amendment_view v none = none
amendment_view v (some a) = some (record {
  reason = a.reason;
  opened_by_display_name = a.opened_by_display_name;
  opened_at = a.opened_at;
  predecessor_version_id = v.id;
  predecessor_version_number = v.version_number;
  predecessor_content_hash = v.content_hash;
  opened_after_event_id = a.opened_after_event_id;
  opened_after_decision_id = a.opened_after_decision_id;
})

-- The amendment that targets a version; there is one at most.
unfoldable pub amendment_of : Db → ℕ → Option Amendment
amendment_of db v = find? (λ a. a.predecessor_version_id == v) db.amendments

abbrev pub scope_of_latest : Db → Option EvaluationVersion → Option OpenAmendment
scope_of_latest db none = none
scope_of_latest db (some v) = amendment_view v (amendment_of db v.id)

-- The open amendment: the row that targets the record's latest version.
unfoldable pub open_scope : Db → ℕ → Option OpenAmendment
open_scope db r = scope_of_latest db (latest_version db r)

unfoldable pub later_contribution : ContributorEvent → ContributorEvent → Bool
later_contribution a b = ltb a.id b.id

unfoldable pub later_decision : ReviewDecision → ReviewDecision → Bool
later_decision a b = ltb a.id b.id

abbrev pub contribution_kind : Option ContributorEvent → Option ContributorKind
contribution_kind none = none
contribution_kind (some ev) = some ev.kind

abbrev pub decision_kind : Option ReviewDecision → Option DecisionKind
decision_kind none = none
decision_kind (some d) = some d.decision

-- The latest event of the record after a mark.
unfoldable pub latest_contribution : List ContributorEvent → ℕ → ℕ → Option ContributorEvent
latest_contribution events r mark =
    top later_contribution (select (λ ev. ev.evaluation_record_id == r && ltb mark ev.id) events)

unfoldable pub latest_decision : List ReviewDecision → ℕ → ℕ → Option ReviewDecision
latest_decision decisions r mark =
    top later_decision (select (λ d. d.evaluation_record_id == r && ltb mark d.id) decisions)

abbrev pub status_of_decision : Option DecisionKind → DraftStatus
status_of_decision (some DecisionKind.approved) = approved
status_of_decision (some DecisionKind.changes_requested) = changes_requested
status_of_decision (some DecisionKind.returned) = returned
status_of_decision none = draft

abbrev pub status_from : Option ContributorKind → Option DecisionKind → DraftStatus
status_from (some submitted_for_review) d = submitted
status_from (some review_decided) d = status_of_decision d
status_from _ d = draft

-- The status of the workflow cycle that begins after the marks.
unfoldable pub cycle_status : Db → ℕ → ℕ → ℕ → DraftStatus
cycle_status db r event_mark decision_mark =
    status_from (contribution_kind (latest_contribution db.contributor_events r event_mark))
      (decision_kind (latest_decision db.decisions r decision_mark))

abbrev pub reopened_status : Db → ℕ → Option OpenAmendment → DraftStatus
reopened_status db r none = finalized
reopened_status db r (some scope) =
    cycle_status db r scope.opened_after_event_id scope.opened_after_decision_id

unfoldable pub is_finalized : Db → ℕ → Bool
is_finalized db r = exists (λ v. v.evaluation_record_id == r) db.evaluation_versions

unfoldable pub status_of : Db → ℕ → DraftStatus
status_of db r =
    if is_finalized db r then reopened_status db r (open_scope db r) else cycle_status db r 0 0
