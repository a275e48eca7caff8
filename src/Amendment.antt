-- ===== src/Amendment.antt =====
-- crates/consolebook-server/src/amendments.rs: `open`, with the constraints and triggers of migration
-- 0012.
pub mod Effect
pub mod Cycle
use consolebook.Base.{
  ℕ, suc, Bool, true, false, Option, some, none, List, [], ◌∷◌, ◌&&◌, not, ◌==◌, is_some, is_empty,
  has_length, same_option, Text, trim, codes, ◌++◌, select, exists, max_of, next_id, Outcome, ok,
  refuse_if, some_or_refuse, fetch_one, require, ◌>>=◌, ◌>>◌, if◌then◌else◌,
}
use consolebook.Audit.{record_for_subject}
use consolebook.Audit.Vocabulary.{EventKind}
use consolebook.Audit.Subjects.{Subject}
use consolebook.Capability.{user_has}
use consolebook.Capability.Vocabulary.{review_evaluation}
use consolebook.Notice.{notify_user}
use consolebook.Notice.Vocabulary.{NoticeKind}
use consolebook.Db.{
  Db, Amendment, EvaluationRecord, EvaluationVersion, enrollment_of, is_user, user_of,
}
use consolebook.Draft.Status.{load_record, latest_version}

pub data AmendRefusal : Type 0 where
  no_such_record capability_required not_finalized amendment_open reason_required : AmendRefusal

-- EXISTS (SELECT 1 FROM amendment a WHERE a.predecessor_version_id = v.id)
unfoldable pub is_reopened : Db → ℕ → Bool
is_reopened db v = exists (λ a. a.predecessor_version_id == v) db.amendments

-- The workflow position that an amendment reopens from.
unfoldable pub event_mark : Db → ℕ → ℕ
event_mark db r =
    max_of (λ ev. ev.id) (select (λ ev. ev.evaluation_record_id == r) db.contributor_events)

unfoldable pub decision_mark : Db → ℕ → ℕ
decision_mark db r = max_of (λ d. d.id) (select (λ d. d.evaluation_record_id == r) db.decisions)

abbrev pub version_id : Option EvaluationVersion → Option ℕ
version_id none = none
version_id (some v) = some v.id

-- INSERT INTO amendment
unfoldable pub insert_amendment : {E : Type 0} → Db → Amendment → Outcome E Db
insert_amendment db a = do
  require (is_some (load_record db a.evaluation_record_id))
  require (not (is_reopened db a.predecessor_version_id))
  require (has_length (trim a.reason))
  require (is_user db a.opened_by)
  require (has_length a.opened_by_display_name)
  require (
      same_option (some a.predecessor_version_id)
        (version_id (latest_version db a.evaluation_record_id)))
  require (a.opened_after_event_id == event_mark db a.evaluation_record_id)
  require (a.opened_after_decision_id == decision_mark db a.evaluation_record_id)
  ok (record db { amendments = a ∷ db.amendments })

-- UPDATE evaluation_record SET revision = revision + 1 WHERE id = ?1
unfoldable pub advance_revision : ℕ → List EvaluationRecord → List EvaluationRecord
advance_revision r [] = []
advance_revision r (row ∷ rows) =
    (if row.id == r then record row { revision = suc row.revision } else row)
    ∷ advance_revision r rows

unfoldable pub reopened_message : Text → Text
reopened_message name =
    codes "The finalized evaluation for " ++ name ++ codes " was reopened for amendment."

-- `seen` is what is read before the write transaction.
unfoldable pub open_amendment : (seen db : Db) (now actor r : ℕ) → Text → Outcome AmendRefusal Db
open_amendment seen db now actor r reason = do
  refuse_if (not (is_some (load_record seen r))) no_such_record
  refuse_if (not (user_has seen actor review_evaluation)) capability_required
  refuse_if (is_empty (trim reason)) reason_required
  latest ← some_or_refuse (latest_version db r) not_finalized
  refuse_if (is_reopened db latest.id) amendment_open
  opener ← fetch_one (user_of db actor)
  db₁ ← insert_amendment db (record {
    id = next_id (λ a. a.id) db.amendments;
    evaluation_record_id = r;
    predecessor_version_id = latest.id;
    reason = trim reason;
    opened_by = actor;
    opened_by_display_name = opener.display_name;
    opened_at = now;
    opened_after_event_id = event_mark db r;
    opened_after_decision_id = decision_mark db r;
  })
  let db₂ = record db₁ { records = advance_revision r db₁.records }
  row ← fetch_one (load_record db₂ r)
  enrollment ← fetch_one (enrollment_of db₂ row.enrollment_id)
  trainee ← fetch_one (user_of db₂ enrollment.user_id)
  db₃ ←
      record_for_subject EventKind.amendment_opened (some actor) (some enrollment.user_id)
        (Subject.record_row r) now db₂
  notify_user row.owner_user_id NoticeKind.amendment_opened (reopened_message trainee.display_name)
      now db₃
