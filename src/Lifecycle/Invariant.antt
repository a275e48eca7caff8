-- ===== src/Lifecycle/Invariant.antt =====
-- What holds of the tables of crates/consolebook-server/src/lifecycle.rs between two requests.
use consolebook.Base.{ℕ, ◌≤◌, ◌≡◌, true, Option, none, some, All, Distinct, max_of, is_some}
use consolebook.Db.{Db, Enrollment, is_user, enrollment_of, version_of}
use consolebook.Lifecycle.Queries.{current_epoch, move_of}
use consolebook.Lifecycle.Phases.{pins_phase}

-- The version-change event that a phase event is stamped with is an earlier event.
abbrev pub stamp_bound : Option ℕ → ℕ
stamp_bound none = 0
stamp_bound (some id) = id

pub record WellFormed (db : Db) : Type 0 where
  pub phase_ids : Distinct (λ p. p.id) db.phases
  pub enrollment_ids : Distinct (λ r. r.id) db.enrollments
  pub trainees : All (λ r. is_user db r.user_id ≡ true) db.enrollments
  pub pins : All (λ r. is_some (version_of db r.program_version_id) ≡ true) db.enrollments
  pub stamps :
      All
        (λ ev. stamp_bound ev.version_change_event_id ≤ max_of (λ r. r.id) db.enrollment_events)
        db.phase_events
  -- The moves of the current epoch are among the phases of the pinned version.
  pub epoch_pinned :
      (e : ℕ) (row : Enrollment)
      → enrollment_of db e ≡ some row
      → All
          (λ ev.
            move_of (current_epoch db.enrollment_events e) db.phases e ev ≡ true
            → pins_phase db.phases row.program_version_id ev.to_phase_id ≡ true)
          db.phase_events
