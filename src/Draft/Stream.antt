-- ===== src/Draft/Stream.antt =====
-- Inserts into the attribution stream, the decisions and the snapshots, with the constraints and
-- triggers of migrations 0008, 0009 and 0012; `append_event` of
-- crates/consolebook-server/src/evaluation_drafts.rs.
use consolebook.Base.{
  ℕ, Bool, true, false, Option, some, none, ◌∷◌, ◌&&◌, ◌||◌, not, ◌==◌, ltb, is_some, has_length,
  trim, length, select, top, next_id, suc, Outcome, ok, require, ◌>>=◌, ◌>>◌, if◌then◌else◌,
}
use consolebook.Db.{
  Db, ContributorEvent, ContributorKind, ownership_transferred, submitted_for_review,
  review_decided, ReviewDecision, DecisionKind, changes_requested, SnapshotReason,
  change_request_return, is_user, is_user?,
}
use consolebook.Draft.Status.{load_record, later_contribution, contribution_kind}
use consolebook.Draft.Access.{is_contributor}
use consolebook.Draft.Frozen.{frozen_view}

abbrev pub is_transfer : ContributorKind → Bool
is_transfer ownership_transferred = true
is_transfer _ = false

abbrev pub is_decided : ContributorKind → Bool
is_decided review_decided = true
is_decided _ = false

abbrev pub is_change_request : DecisionKind → Bool
is_change_request changes_requested = true
is_change_request _ = false

abbrev pub is_return : SnapshotReason → Bool
is_return change_request_return = true
is_return _ = false

abbrev pub same_test : Bool → Bool → Bool
same_test true b = b
same_test false b = not b

unfoldable pub decisions_of : Db → ℕ → ℕ
decisions_of db r = length (select (λ d. d.evaluation_record_id == r) db.decisions)

unfoldable pub decided_events_of : Db → ℕ → ℕ
decided_events_of db r =
    length (select (λ ev. ev.evaluation_record_id == r && is_decided ev.kind) db.contributor_events)

-- Nothing but the event of a decision lands on a frozen record, and that one pairs with its decision.
abbrev pub stream_accepts : Db → ContributorEvent → Bool
stream_accepts db ev =
    if is_decided ev.kind
    then decisions_of db ev.evaluation_record_id
      == suc (decided_events_of db ev.evaluation_record_id)
    else not (frozen_view db ev.evaluation_record_id)

-- INSERT INTO contributor_event
unfoldable pub insert_contribution : {E : Type 0} → Db → ContributorEvent → Outcome E Db
insert_contribution db ev = do
  require (is_some (load_record db ev.evaluation_record_id))
  require (is_user db ev.actor_user_id)
  require (is_user? db ev.to_user_id)
  require (same_test (is_transfer ev.kind) (is_some ev.to_user_id))
  require (stream_accepts db ev)
  ok (record db { contributor_events = ev ∷ db.contributor_events })

unfoldable pub append_event :
    {E : Type 0} → Db → ℕ → ContributorKind → ℕ → Option ℕ → ℕ → Outcome E Db
unfolding insert_contribution
append_event db r kind actor to now = insert_contribution db (record {
  id = next_id (λ ev. ev.id) db.contributor_events;
  evaluation_record_id = r;
  kind = kind;
  actor_user_id = actor;
  to_user_id = to;
  recorded_at = now;
})

-- INSERT INTO draft_snapshot: the working copy as it is.
unfoldable pub take_snapshot : {E : Type 0} → Db → ℕ → SnapshotReason → ℕ → Option ℕ → Outcome E Db
take_snapshot db r reason now taken_by = do
  require (is_some (load_record db r))
  require (is_user? db taken_by)
  ok (record db {
    snapshots =
        record {
          id = next_id (λ s. s.id) db.snapshots;
          evaluation_record_id = r;
          reason = reason;
          ratings = select (λ x. x.evaluation_record_id == r) db.ratings;
          narratives = select (λ x. x.evaluation_record_id == r) db.narratives;
          taken_at = now;
          taken_by = taken_by;
        }
        ∷ db.snapshots;
  })

unfoldable pub return_snapshots_of : Db → ℕ → ℕ
return_snapshots_of db r =
    length (select (λ s. s.evaluation_record_id == r && is_return s.reason) db.snapshots)

unfoldable pub change_requests_of : Db → ℕ → ℕ
change_requests_of db r =
    length (select (λ d. d.evaluation_record_id == r && is_change_request d.decision) db.decisions)

abbrev pub is_submission : Option ContributorKind → Bool
is_submission (some submitted_for_review) = true
is_submission _ = false

-- The record's latest event, of any cycle.
unfoldable pub newest_kind : Db → ℕ → Option ContributorKind
newest_kind db r =
    contribution_kind
      (top later_contribution (select (λ ev. ev.evaluation_record_id == r) db.contributor_events))

-- INSERT INTO review_decision, and the event that its AFTER INSERT trigger appends.
unfoldable pub insert_decision : {E : Type 0} → Db → ReviewDecision → Outcome E Db
unfolding append_event
insert_decision db d = do
  require (is_user db d.reviewer_user_id)
  require (not (is_change_request d.decision) || has_length (trim d.comment))
  require (is_submission (newest_kind db d.evaluation_record_id))
  require (
      not (is_change_request d.decision)
      || ltb (change_requests_of db d.evaluation_record_id)
          (return_snapshots_of db d.evaluation_record_id))
  contributes ← is_contributor db d.evaluation_record_id d.reviewer_user_id
  require (not contributes)
  append_event (record db { decisions = d ∷ db.decisions }) d.evaluation_record_id review_decided
      d.reviewer_user_id none d.decided_at
