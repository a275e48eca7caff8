-- ===== src/Db/Records.antt =====
-- Rows of migrations 0007 to 0012: training sessions, evaluation records with their working copy and
-- attribution, reviews, finalized versions, acknowledgments and amendments.
use consolebook.Base.{ℕ, ℤ, Bool, Option, List, Text}

pub data RecordType : Type 0 where
  daily_report weekly_summary phase_evaluation : RecordType

pub record Form : Type 0 where
  pub id : ℕ
  pub program_version_id : ℕ
  pub record_type : RecordType

pub record FormNarrative : Type 0 where
  pub id : ℕ
  pub evaluation_form_id : ℕ
  pub program_version_id : ℕ
  pub is_required : Bool

pub record FormCompetency : Type 0 where
  pub id : ℕ
  pub evaluation_form_id : ℕ
  pub program_version_id : ℕ
  pub rating_scale_id : ℕ

pub data ScaleKind : Type 0 where
  anchored_numeric pass_fail narrative_only : ScaleKind

pub record RatingScale : Type 0 where
  pub id : ℕ
  pub kind : ScaleKind
  pub min_value : Option ℤ
  pub max_value : Option ℤ

pub record RatingModifier : Type 0 where
  pub id : ℕ
  pub program_version_id : ℕ

pub data Disposition : Type 0 where
  completed interrupted cancelled : Disposition

pub record TrainingSession : Type 0 where
  pub id : ℕ
  pub enrollment_id : ℕ
  pub program_version_id : ℕ
  pub disposition : Option Disposition

pub record SessionTrainer : Type 0 where
  pub session_id : ℕ
  pub trainer_user_id : ℕ

pub record EvaluationRecord : Type 0 where
  pub id : ℕ
  pub enrollment_id : ℕ
  pub program_version_id : ℕ
  pub evaluation_form_id : ℕ
  pub owner_user_id : ℕ
  pub revision : ℕ
  pub created_at : ℕ
  pub created_by : Option ℕ

pub record EvaluationSession : Type 0 where
  pub evaluation_record_id : ℕ
  pub training_session_id : ℕ

pub data ContributorKind : Type 0 where
  created contributed ownership_transferred submitted_for_review review_decided : ContributorKind

pub record ContributorEvent : Type 0 where
  pub id : ℕ
  pub evaluation_record_id : ℕ
  pub kind : ContributorKind
  pub actor_user_id : ℕ
  pub to_user_id : Option ℕ
  pub recorded_at : ℕ

pub data DecisionKind : Type 0 where
  approved changes_requested returned : DecisionKind

pub record ReviewDecision : Type 0 where
  pub id : ℕ
  pub evaluation_record_id : ℕ
  pub reviewer_user_id : ℕ
  pub decision : DecisionKind
  pub comment : Text
  pub decided_at : ℕ

-- The working copy: a rating with its modifiers, and a narrative.
pub record DraftRating : Type 0 where
  pub id : ℕ
  pub evaluation_record_id : ℕ
  pub form_competency_id : ℕ
  pub value : Option ℤ
  pub not_observed : Bool
  pub modifiers : List ℕ

pub record DraftNarrative : Type 0 where
  pub id : ℕ
  pub evaluation_record_id : ℕ
  pub form_narrative_id : ℕ
  pub text : Text

pub data SnapshotReason : Type 0 where
  submission change_request_return : SnapshotReason

-- A snapshot's content is the working copy that its JSON text spells.
pub record Snapshot : Type 0 where
  pub id : ℕ
  pub evaluation_record_id : ℕ
  pub reason : SnapshotReason
  pub ratings : List DraftRating
  pub narratives : List DraftNarrative
  pub taken_at : ℕ
  pub taken_by : Option ℕ

pub record EvaluationVersion : Type 0 where
  pub id : ℕ
  pub evaluation_record_id : ℕ
  pub version_number : ℕ
  pub record_schema : ℕ
  pub canonical_bytes : List ℕ
  pub content_hash : Text
  pub chain_hash : Text
  pub predecessor_id : Option ℕ
  pub finalized_at : ℕ
  pub finalized_by : ℕ

pub record Amendment : Type 0 where
  pub id : ℕ
  pub evaluation_record_id : ℕ
  pub predecessor_version_id : ℕ
  pub reason : Text
  pub opened_by : ℕ
  pub opened_by_display_name : Text
  pub opened_at : ℕ
  pub opened_after_event_id : ℕ
  pub opened_after_decision_id : ℕ

-- acknowledgments.rs: every kind, as stored.
pub data AckKind : Type 0 where
  acknowledged acknowledged_with_response refused : AckKind
  supervisor_attested_refusal unavailable : AckKind

pub record Acknowledgment : Type 0 where
  pub id : ℕ
  pub evaluation_version_id : ℕ
  pub user_id : ℕ
  pub kind : AckKind
  pub response : Text
  pub recorded_by : ℕ
  pub user_display_name : Text
  pub recorded_by_display_name : Text
  pub recorded_at : ℕ
