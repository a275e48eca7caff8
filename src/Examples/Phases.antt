-- ===== src/Examples/Phases.antt =====
-- Phase events of crates/consolebook-server/src/lifecycle.rs on concrete databases.
use consolebook.Lifecycle.Phases
use consolebook.Lifecycle.Queries
use consolebook.Capability
use consolebook.Db
use consolebook.Base
use consolebook.Base.{
  ℕ, ◌≡◌, ◌≢◌, ◌↔◌, refl, true, false, Option, none, some, [], ok, failed, codes,
}
use consolebook.Db.{Db, Enrollment, PhaseEventKind, is_user, enrollment_of}
use consolebook.Examples.{agency, state_after, coordinator}
use consolebook.Lifecycle.Phases.Accepted.{Request, serve, Accepted}
use consolebook.Lifecycle.Invariant.{WellFormed}
use consolebook.Lifecycle.Refinement.{serve-phase_effect}
use consolebook.Lifecycle.Total.{serve-iff-Accepted}
use consolebook.Lifecycle.View.{View, view, phase_effect}

-- The coordinator moves the trainee into the first phase.
abbrev pub enter : Request
enter = record {
  seen = agency;
  db = agency;
  now = 30;
  actor = coordinator;
  e = 1;
  kind = PhaseEventKind.advance;
  to_phase = some 1;
  effective_at = none;
  reason = [];
}

abbrev pub entered : Db
entered = state_after (serve enter) agency

pub enter_answer : serve enter ≡ ok (1, entered)
unfolding Base.select Base.exists Base.find? Base.max_of Base.max? Base.next_id Base.pick Base.top
    Base.is_white Base.trim_start Base.trim Db.user_of Db.is_user Db.is_user? Db.enrollment_of
    Db.version_of Capability.bundle_capabilities Capability.holds Capability.user_has
    Capability.insert_grant Capability.grant_bundle consolebook.Capability.Vocabulary.as_str
    consolebook.Audit.record_for_subject Queries.later_event Queries.later_phase Queries.status_of
    Queries.status Queries.change_of Queries.current_epoch Queries.phase_of Queries.move_of
    Queries.current_phase Queries.pausing_of Queries.is_paused Phases.latest_effective
    Phases.epoch_opened Phases.edge_of Phases.phase_in Phases.phase_targets
    Phases.insert_phase_event Phases.record_phase_event
enter_answer = refl

pub coordinator-is_user : is_user agency coordinator ≡ true
unfolding Base.select Base.exists Base.find? Base.max_of Base.max? Base.next_id Base.pick Base.top
    Db.user_of Db.is_user Db.is_user? Db.enrollment_of Db.version_of
coordinator-is_user = refl

pub agency-WellFormed : WellFormed agency
unfolding Base.select Base.exists Base.find? Base.max_of Base.max? Base.next_id Base.pick Base.top
    Base.is_white Base.trim_start Base.trim Db.user_of Db.is_user Db.is_user? Db.enrollment_of
    Db.version_of Capability.bundle_capabilities Capability.holds Capability.user_has
    Capability.insert_grant Capability.grant_bundle consolebook.Capability.Vocabulary.as_str
    consolebook.Audit.record_for_subject Queries.later_event Queries.later_phase Queries.status_of
    Queries.status Queries.change_of Queries.current_epoch Queries.phase_of Queries.move_of
    Queries.current_phase Queries.pausing_of Queries.is_paused Phases.latest_effective
    Phases.epoch_opened Phases.edge_of Phases.phase_in Phases.phase_targets
    Phases.insert_phase_event Phases.record_phase_event
agency-WellFormed = record {
  phase_ids = ((refl, (refl, tt)), ((refl, tt), (tt, tt)));
  enrollment_ids = ((refl, tt), (tt, tt));
  trainees = (refl, (refl, tt));
  pins = (refl, (refl, tt));
  stamps = tt;
  epoch_pinned = λ e row found. tt;
}

serve-phase_effect_example :
    (v : View) × (view agency 1 ≡ some v)
    × (view entered 1 ≡ some (phase_effect PhaseEventKind.advance (some 1) v))
serve-phase_effect_example = serve-phase_effect enter 1 entered enter_answer

serve-iff-Accepted_example :
    ((id : ℕ) × (db' : Db) × (serve enter ≡ ok (id, db')))
    ↔ ((row : Enrollment) × (from : Option ℕ) × (to : Option ℕ) × Accepted enter row from to)
serve-iff-Accepted_example = serve-iff-Accepted enter agency-WellFormed coordinator-is_user
