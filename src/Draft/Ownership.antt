-- ===== src/Draft/Ownership.antt =====
-- crates/consolebook-server/src/evaluation_drafts.rs: `transfer`.
pub mod Effect
use consolebook.Base.{
  ℕ, Bool, true, false, Option, some, none, List, [], ◌∷◌, ◌&&◌, ◌||◌, not, ◌==◌, same_option, Text,
  codes, ◌++◌, select, top, Outcome, ok, refused, refuse_if, some_or_refuse, fetch_one, require,
  ◌>>=◌, ◌>>◌, if◌then◌else◌,
}
use consolebook.Audit.{record_for_subject}
use consolebook.Audit.Vocabulary.{draft_ownership_transferred}
use consolebook.Audit.Subjects.{Subject}
use consolebook.Notice.{notify_user}
use consolebook.Notice.Vocabulary.{draft_ownership_received}
use consolebook.Capability.{user_has}
use consolebook.Capability.Vocabulary.{assign_training, author_evaluation}
use consolebook.Db.{
  Db, EvaluationRecord, ContributorEvent, ownership_transferred, enrollment_of, is_user, user_of,
}
use consolebook.Draft.Status.{
  DraftRefusal, capability_required, no_such_record, no_such_user, not_eligible, already_owner,
  load_record, status_of, frozen_refusal, later_contribution,
}
use consolebook.Draft.Access.{in_scope}
use consolebook.Draft.Stream.{append_event, is_transfer}

abbrev pub refuse_frozen : Option DraftRefusal → Outcome DraftRefusal Unit
refuse_frozen none = ok tt
refuse_frozen (some x) = refused x

-- SELECT u.display_name FROM enrollment e JOIN user u ...
unfoldable pub trainee_name : {E : Type 0} → Db → ℕ → Outcome E Text
trainee_name db e = do
  row ← fetch_one (enrollment_of db e)
  user ← fetch_one (user_of db row.user_id)
  ok user.display_name

unfoldable pub set_owner : ℕ → ℕ → List EvaluationRecord → List EvaluationRecord
set_owner r to [] = []
set_owner r to (row ∷ rows) =
    (if row.id == r then record row { owner_user_id = to } else row) ∷ set_owner r to rows

abbrev pub records_transfer : ℕ → Option ContributorEvent → Bool
records_transfer to none = false
records_transfer to (some ev) = is_transfer ev.kind && same_option ev.to_user_id (some to)

-- UPDATE evaluation_record SET owner_user_id, with its trigger.
unfoldable pub update_owner : {E : Type 0} → Db → EvaluationRecord → ℕ → Outcome E Db
unfolding set_owner
update_owner db row to = do
  require (
      row.owner_user_id == to
      || records_transfer to (
          top later_contribution
            (select (λ ev. ev.evaluation_record_id == row.id) db.contributor_events)))
  require (is_user db to)
  ok (record db { records = set_owner row.id to db.records })

unfoldable pub received_message : Text → Text
received_message name =
    codes "You are now the owner of the draft evaluation for " ++ name ++ codes "."

-- `seen` is what is read before the write transaction, which rechecks the state and the owner.
unfoldable pub transfer : (seen db : Db) (now actor r to : ℕ) → Outcome DraftRefusal Db
transfer seen db now actor r to = do
  early ← some_or_refuse (load_record seen r) no_such_record
  let coordinator = user_has seen actor assign_training
  refuse_if (not (actor == early.owner_user_id) && not coordinator) capability_required
  refuse_if (to == early.owner_user_id) already_owner
  refuse_if (not (is_user seen to)) no_such_user
  refuse_if (not (user_has seen to author_evaluation) || not (in_scope seen to early)) not_eligible
  refuse_frozen (frozen_refusal (status_of db r))
  row ← fetch_one (load_record db r)
  refuse_if (not (actor == row.owner_user_id) && not coordinator) capability_required
  refuse_if (to == row.owner_user_id) already_owner
  db₁ ← append_event db r ownership_transferred actor (some to) now
  db₂ ← update_owner db₁ row to
  db₃ ←
      record_for_subject draft_ownership_transferred (some actor) (some to) (Subject.record_row r)
        now db₂
  name ← trainee_name db₃ early.enrollment_id
  notify_user to draft_ownership_received (received_message name) now db₃
