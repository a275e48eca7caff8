-- ===== src/Draft/Creation.antt =====
-- crates/consolebook-server/src/evaluation_drafts.rs: `resolve_form` and `create`.
pub mod Effect
pub mod Coverage
use consolebook.Base.{
  ℕ, Bool, true, false, Option, some, none, List, [], ◌∷◌, ◌&&◌, not, ◌==◌, is_some, select, exists,
  find?, next_id, Outcome, ok, refused, refuse_if, some_or_refuse, fetch_one, require, ◌>>=◌, ◌>>◌,
  if◌then◌else◌,
}
use consolebook.Audit.{record_for_subject}
use consolebook.Audit.Vocabulary.{draft_created}
use consolebook.Audit.Subjects.{Subject}
use consolebook.Db.{
  Db, EvaluationRecord, TrainingSession, Disposition, cancelled, Form, RecordType, daily_report,
  created, enrollment_of, is_user, version_of,
}
use consolebook.Draft.Status.{
  DraftRefusal, capability_required, no_such_session, session_cancelled, draft_already_exists,
  no_daily_form, form_required, no_such_form, load_record,
}
use consolebook.Draft.Access.{may_start}
use consolebook.Draft.Frozen.{frozen_view}
use consolebook.Draft.Stream.{append_event}

abbrev pub is_daily : RecordType → Bool
is_daily daily_report = true
is_daily _ = false

abbrev pub is_cancelled : Option Disposition → Bool
is_cancelled (some cancelled) = true
is_cancelled _ = false

unfoldable pub daily_form : ℕ → Form → Bool
daily_form version_id f = f.program_version_id == version_id && is_daily f.record_type

abbrev pub only_form : List Form → Outcome DraftRefusal ℕ
only_form [] = refused no_daily_form
only_form (f ∷ []) = ok f.id
only_form (f ∷ g ∷ fs) = refused form_required

-- The named form, or the version's only one.
unfoldable pub resolve_form : Db → ℕ → Option ℕ → Outcome DraftRefusal ℕ
resolve_form db version_id (some form_id) =
    if exists (λ f. f.id == form_id && daily_form version_id f) db.forms
    then ok form_id
    else refused no_such_form
resolve_form db version_id none = only_form (select (daily_form version_id) db.forms)

unfoldable pub session_of : Db → ℕ → Option TrainingSession
session_of db s = find? (λ row. row.id == s) db.sessions

-- INSERT INTO evaluation_record
unfoldable pub insert_record : {E : Type 0} → Db → EvaluationRecord → Outcome E Db
insert_record db row = do
  require (is_some (enrollment_of db row.enrollment_id))
  require (is_some (version_of db row.program_version_id))
  require (is_user db row.owner_user_id)
  require (
      exists (λ f. f.id == row.evaluation_form_id && f.program_version_id == row.program_version_id)
        db.forms)
  ok (record db { records = row ∷ db.records })

abbrev pub agrees : Option EvaluationRecord → Option TrainingSession → Bool
agrees (some row) (some s) =
    row.enrollment_id == s.enrollment_id && row.program_version_id == s.program_version_id
agrees _ _ = false

abbrev pub is_live : Option TrainingSession → Bool
is_live (some s) = not (is_cancelled s.disposition)
is_live none = false

-- INSERT INTO evaluation_session
unfoldable pub insert_coverage : {E : Type 0} → Db → ℕ → ℕ → Outcome E Db
insert_coverage db r session_id = do
  require (agrees (load_record db r) (session_of db session_id))
  require (is_live (session_of db session_id))
  require (not (frozen_view db r))
  require (
      not (
        exists (λ es. es.evaluation_record_id == r && es.training_session_id == session_id)
          db.coverage))
  ok (record db {
    coverage = record { evaluation_record_id = r; training_session_id = session_id } ∷ db.coverage;
  })

-- `seen` is what is read before the write transaction, which reads the session again.
unfoldable pub create :
    (seen db : Db) (now actor session_id : ℕ) → Option ℕ → Outcome DraftRefusal (ℕ × Db)
create seen db now actor session_id form = do
  early ← some_or_refuse (session_of seen session_id) no_such_session
  refuse_if (is_cancelled early.disposition) session_cancelled
  refuse_if (not (may_start seen actor session_id early.enrollment_id)) capability_required
  session ← some_or_refuse (session_of db session_id) no_such_session
  refuse_if (is_cancelled session.disposition) session_cancelled
  refuse_if (exists (λ es. es.training_session_id == session_id) db.coverage) draft_already_exists
  form_id ← resolve_form db session.program_version_id form
  let r = next_id (λ row. row.id) db.records
  db₁ ← insert_record db (record {
    id = r;
    enrollment_id = session.enrollment_id;
    program_version_id = session.program_version_id;
    evaluation_form_id = form_id;
    owner_user_id = actor;
    revision = 0;
    created_at = now;
    created_by = some actor;
  })
  db₂ ← append_event db₁ r created actor none now
  db₃ ← insert_coverage db₂ r session_id
  trainee ← fetch_one (enrollment_of db₃ session.enrollment_id)
  db₄ ←
      record_for_subject draft_created (some actor) (some trainee.user_id) (Subject.record_row r)
        now db₃
  ok (r, db₄)
