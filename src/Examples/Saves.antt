-- ===== src/Examples/Saves.antt =====
-- The trainer saves the draft of the agency: crates/consolebook-server/src/draft_content.rs.
use consolebook.Draft.Saving
use consolebook.Draft.Content
use consolebook.Draft.Ownership
use consolebook.Assignment
use consolebook.Draft.Stream
use consolebook.Draft.Access
use consolebook.Draft.Status
use consolebook.Capability
use consolebook.Db
use consolebook.Base
use consolebook.Base.{
  ℕ, ℤ, pos, ◌≡◌, ◌≤ℤ◌, refl, true, false, Option, none, some, List, [], ◌∷◌, Outcome, ok, refused,
  failed, codes, find?, ◌==◌,
}
use consolebook.Db.{Db, EvaluationRecord, RatingScale, anchored_numeric}
use consolebook.Draft.Access.{may_contribute}
use consolebook.Draft.Content.{DraftContent, RatingEntry, NarrativeEntry, content}
use consolebook.Draft.Cycle.{Marked}
use consolebook.Draft.Saving.{scale_for}
use consolebook.Draft.Saving.Bounds.{InRange, save-InRange}
use consolebook.Draft.Saving.Copy.{normal, save-content}
use consolebook.Draft.Saving.Effect.{Saving, run, Saved, save-Saved}
use consolebook.Draft.Saving.Race.{Attributed, save-Attributed, save-stale_save}
use consolebook.Draft.Saving.Replace.{map?}
use consolebook.Draft.Status.{DraftRefusal, load_record}
use consolebook.Examples.{agency, coordinator, trainer}

-- The form rates one competency from 1 to 5.
abbrev drafted : Db
drafted = record agency {
  form_competencies =
      record { id = 1; evaluation_form_id = 1; program_version_id = 1; rating_scale_id = 1 } ∷ [];
  scales =
      record { id = 1; kind = anchored_numeric; min_value = some (pos 1); max_value = some (pos 5) }
      ∷ [];
  rating_modifiers =
      record { id = 2; program_version_id = 1 } ∷ record { id = 1; program_version_id = 1 } ∷ [];
}

abbrev entry : RatingEntry
entry = record {
  form_competency_id = 1;
  value = some (pos 4);
  not_observed = false;
  modifier_ids = 2 ∷ 1 ∷ 2 ∷ [];
}

abbrev saving : Saving
saving = record {
  seen = drafted;
  db = drafted;
  now = 40;
  actor = trainer;
  r = 1;
  revision = 7;
  input = record {
    ratings = entry ∷ [];
    narratives = record { form_narrative_id = 1; text = codes "Sharp." } ∷ [];
  };
}

abbrev database_in : Outcome DraftRefusal (ℕ × Db) → Db
database_in (ok answer) = answer.1
database_in (refused e) = drafted
database_in failed = drafted

abbrev rewritten : Db
rewritten = database_in (run saving)

save_answer : run saving ≡ ok (8, rewritten)
unfolding Base.select Base.exists Base.find? Base.max_of Base.max? Base.next_id Base.pick Base.top
    Base.is_white Base.trim_start Base.trim Db.user_of Db.is_user Db.is_user? Db.enrollment_of
    Db.version_of Capability.bundle_capabilities Capability.holds Capability.user_has
    Capability.insert_grant Capability.grant_bundle consolebook.Capability.Vocabulary.as_str
    consolebook.Audit.record_for_subject consolebook.Notice.notify_user Status.load_record
    Status.later_version Status.latest_version Status.amendment_of Status.open_scope
    Status.later_contribution Status.later_decision Status.latest_contribution
    Status.latest_decision Status.cycle_status Status.is_finalized Status.status_of
    Access.has_touched Access.is_contributor Access.is_member Access.covers_member Access.in_scope
    Access.may_contribute Access.may_read_training Access.was_submitted Access.own_finalized
    Access.read_grant Access.may_read Access.may_start consolebook.Draft.Frozen.frozen_view
    Stream.decisions_of Stream.decided_events_of Stream.insert_contribution Stream.append_event
    Stream.take_snapshot Stream.return_snapshots_of Stream.change_requests_of Stream.newest_kind
    Stream.insert_decision Assignment.assigned_to Assignment.is_assigned Ownership.trainee_name
    Ownership.set_owner Ownership.update_owner Ownership.received_message Ownership.transfer
    Content.insert_by Content.order_by Content.rating_entry Content.narrative_entry Content.content
    Saving.contains Saving.scale_for Saving.check_kind Saving.check_value Saving.check_modifiers
    Saving.check_ratings Saving.is_prompt Saving.check_narratives Saving.clear_copy Saving.applied
    Saving.modifiers_known Saving.stamped Saving.insert_rating Saving.insert_ratings
    Saving.insert_narrative Saving.insert_narratives Saving.set_revision
    Saving.attribute_contribution Saving.save
save_answer = refl

save-Saved_example : Saved saving 8 rewritten
save-Saved_example = save-Saved saving 8 rewritten save_answer

save-content_example :
    (find? (λ (e : RatingEntry). e.form_competency_id == 1) (content rewritten 1).ratings
      ≡ map? normal (find? (λ (e : RatingEntry). e.form_competency_id == 1) (entry ∷ [])))
    × (find? (λ (n : NarrativeEntry). n.form_narrative_id == 1) (content rewritten 1).narratives
        ≡ map?
            (λ (n : NarrativeEntry). n)
            (find? (λ (n : NarrativeEntry). n.form_narrative_id == 1) saving.input.narratives))
save-content_example = save-content saving 8 rewritten 1 save_answer

abbrev entry_back : RatingEntry
entry_back = record entry { modifier_ids = 1 ∷ 2 ∷ [] }

read_back :
    find? (λ (e : RatingEntry). e.form_competency_id == 1) (content rewritten 1).ratings
    ≡ some entry_back
unfolding Base.select Base.exists Base.find? Base.max_of Base.max? Base.next_id Base.pick Base.top
    Base.is_white Base.trim_start Base.trim Db.user_of Db.is_user Db.is_user? Db.enrollment_of
    Db.version_of Capability.bundle_capabilities Capability.holds Capability.user_has
    Capability.insert_grant Capability.grant_bundle consolebook.Capability.Vocabulary.as_str
    consolebook.Audit.record_for_subject consolebook.Notice.notify_user Status.load_record
    Status.later_version Status.latest_version Status.amendment_of Status.open_scope
    Status.later_contribution Status.later_decision Status.latest_contribution
    Status.latest_decision Status.cycle_status Status.is_finalized Status.status_of
    Access.has_touched Access.is_contributor Access.is_member Access.covers_member Access.in_scope
    Access.may_contribute Access.may_read_training Access.was_submitted Access.own_finalized
    Access.read_grant Access.may_read Access.may_start consolebook.Draft.Frozen.frozen_view
    Stream.decisions_of Stream.decided_events_of Stream.insert_contribution Stream.append_event
    Stream.take_snapshot Stream.return_snapshots_of Stream.change_requests_of Stream.newest_kind
    Stream.insert_decision Assignment.assigned_to Assignment.is_assigned Ownership.trainee_name
    Ownership.set_owner Ownership.update_owner Ownership.received_message Ownership.transfer
    Content.insert_by Content.order_by Content.rating_entry Content.narrative_entry Content.content
    Saving.contains Saving.scale_for Saving.check_kind Saving.check_value Saving.check_modifiers
    Saving.check_ratings Saving.is_prompt Saving.check_narratives Saving.clear_copy Saving.applied
    Saving.modifiers_known Saving.stamped Saving.insert_rating Saving.insert_ratings
    Saving.insert_narrative Saving.insert_narratives Saving.set_revision
    Saving.attribute_contribution Saving.save
read_back = refl

save-InRange_example :
    (early : EvaluationRecord) × (load_record drafted 1 ≡ some early)
    × (scale : RatingScale) × (scale_for drafted early 1 ≡ some scale)
    × (entry_back.not_observed ≡ false)
    × InRange scale scale.kind (pos 4)
save-InRange_example =
    save-InRange saving 8 rewritten 1 entry_back (pos 4) save_answer read_back refl

drafted-Marked : Marked drafted
drafted-Marked = record { events = tt; decisions = tt }

save-Attributed_example : Attributed rewritten 1 trainer
save-Attributed_example = save-Attributed saving 8 rewritten drafted-Marked save_answer

-- The coordinator read the same revision.
abbrev racing : Saving
racing = record saving { db = rewritten; actor = coordinator; now = 41 }

abbrev stored : EvaluationRecord
stored = record {
  id = 1;
  enrollment_id = 1;
  program_version_id = 1;
  evaluation_form_id = 1;
  owner_user_id = 3;
  revision = 7;
  created_at = 20;
  created_by = some 3;
}

stored_there : load_record drafted 1 ≡ some stored
unfolding Base.select Base.exists Base.find? Base.max_of Base.max? Base.next_id Base.pick Base.top
    Base.is_white Base.trim_start Base.trim Status.load_record Status.later_version
    Status.latest_version Status.amendment_of Status.open_scope Status.later_contribution
    Status.later_decision Status.latest_contribution Status.latest_decision Status.cycle_status
    Status.is_finalized Status.status_of
stored_there = refl

coordinator_writes : may_contribute drafted coordinator stored ≡ true
unfolding Base.select Base.exists Base.find? Base.max_of Base.max? Base.next_id Base.pick Base.top
    Base.is_white Base.trim_start Base.trim Db.user_of Db.is_user Db.is_user? Db.enrollment_of
    Db.version_of Capability.bundle_capabilities Capability.holds Capability.user_has
    Capability.insert_grant Capability.grant_bundle consolebook.Capability.Vocabulary.as_str
    consolebook.Audit.record_for_subject consolebook.Notice.notify_user Status.load_record
    Status.later_version Status.latest_version Status.amendment_of Status.open_scope
    Status.later_contribution Status.later_decision Status.latest_contribution
    Status.latest_decision Status.cycle_status Status.is_finalized Status.status_of
    Access.has_touched Access.is_contributor Access.is_member Access.covers_member Access.in_scope
    Access.may_contribute Access.may_read_training Access.was_submitted Access.own_finalized
    Access.read_grant Access.may_read Access.may_start consolebook.Draft.Frozen.frozen_view
    Stream.decisions_of Stream.decided_events_of Stream.insert_contribution Stream.append_event
    Stream.take_snapshot Stream.return_snapshots_of Stream.change_requests_of Stream.newest_kind
    Stream.insert_decision Assignment.assigned_to Assignment.is_assigned Ownership.trainee_name
    Ownership.set_owner Ownership.update_owner Ownership.received_message Ownership.transfer
    Content.insert_by Content.order_by Content.rating_entry Content.narrative_entry Content.content
    Saving.contains Saving.scale_for Saving.check_kind Saving.check_value Saving.check_modifiers
    Saving.check_ratings Saving.is_prompt Saving.check_narratives Saving.clear_copy Saving.applied
    Saving.modifiers_known Saving.stamped Saving.insert_rating Saving.insert_ratings
    Saving.insert_narrative Saving.insert_narratives Saving.set_revision
    Saving.attribute_contribution Saving.save
coordinator_writes = refl

save-stale_save_example : run racing ≡ refused DraftRefusal.stale_save
save-stale_save_example =
    save-stale_save saving 8 rewritten racing stored drafted-Marked save_answer refl refl refl
      stored_there coordinator_writes
