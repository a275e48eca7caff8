-- ===== src/Lifecycle/Phases.antt =====
-- crates/consolebook-server/src/lifecycle.rs: `record_phase_event`, with the constraints and triggers
-- of migration 0006.
pub mod Accepted
use consolebook.Base.{
  ℕ, Bool, true, false, Option, some, none, List, [], ◌∷◌, ◌&&◌, ◌||◌, not, Text, trim, ltb, leb,
  ◌==◌, same_option, is_some, is_empty, select, exists, find?, top, max?, next_id, Outcome, ok,
  refused, refuse_if, some_or_refuse, fetch_one, require, ◌>>=◌, ◌>>◌,
}
use consolebook.Capability.{user_has}
use consolebook.Capability.Vocabulary.{assign_training}
use consolebook.Audit.{record_for_subject}
use consolebook.Audit.Vocabulary.{phase_event_recorded}
use consolebook.Audit.Subjects.{Subject}
use consolebook.Db.{
  Db, Phase, Transition, EdgeKind, Enrollment, EnrollmentEvent, PhaseEvent, PhaseEventKind, advance,
  return, restart, pause, resume, complete, is_user?, enrollment_of,
}
use consolebook.Lifecycle.Queries.{
  LifecycleRefusal, capability_required, no_such_enrollment, not_active, reason_required,
  no_such_phase, transition_not_allowed, no_current_phase, already_paused, not_paused, paused,
  out_of_order, effective_in_future, status, is_active, is_paused, current_phase, current_epoch,
  change_of, later_event, phase_of,
}

abbrev pub needs_reason : PhaseEventKind → Bool
needs_reason return = true
needs_reason restart = true
needs_reason _ = false

abbrev pub or_now : Option ℕ → ℕ → ℕ
or_now none now = now
or_now (some at) now = at

-- `latest.is_some_and(|latest| effective < latest)`
abbrev pub precedes : ℕ → Option ℕ → Bool
precedes effective none = false
precedes effective (some latest) = ltb effective latest

unfoldable pub latest_effective : Db → ℕ → Option ℕ
latest_effective db e =
    max? (λ ev. ev.effective_at) (select (λ ev. ev.enrollment_id == e) db.phase_events)

abbrev pub occurred : Option EnrollmentEvent → Option ℕ
occurred none = none
occurred (some ev) = some ev.occurred_at

-- When the current epoch was opened.
unfoldable pub epoch_opened : Db → ℕ → Option ℕ
epoch_opened db e = occurred (top later_event (select (change_of e) db.enrollment_events))

unfoldable pub edge_of : Db → ℕ → ℕ → ℕ → Option Transition
edge_of db pinned from to =
    find? (λ t. t.program_version_id == pinned && t.from_phase_id == from && t.to_phase_id == to)
      db.transitions

-- Advance follows advance and skip edges, return remediation edges, restart restart edges.
abbrev pub follows : PhaseEventKind → EdgeKind → Bool
follows advance EdgeKind.advance = true
follows advance EdgeKind.skip = true
follows advance _ = false
follows return EdgeKind.remediation = true
follows return _ = false
follows _ EdgeKind.restart = true
follows _ _ = false

abbrev pub edge_allows : PhaseEventKind → Option Transition → Bool
edge_allows kind none = false
edge_allows kind (some t) = follows kind t.kind

abbrev pub Targets : Type 0
Targets = Outcome LifecycleRefusal (Option ℕ × Option ℕ)

-- From the current phase along an edge; with no current phase only an advance enters.
abbrev pub leave : Db → ℕ → PhaseEventKind → ℕ → Option (ℕ × Text) → Targets
leave db pinned advance to none = ok (none, some to)
leave db pinned _ to none = refused no_current_phase
leave db pinned kind to (some (from, _)) = do
  refuse_if (not (edge_allows kind (edge_of db pinned from to))) transition_not_allowed
  ok (some from, some to)

unfoldable pub phase_in : Db → ℕ → ℕ → Bool
phase_in db pinned to = exists (λ p. p.id == to && p.program_version_id == pinned) db.phases

abbrev pub move_targets : Db → ℕ → PhaseEventKind → Option ℕ → Option (ℕ × Text) → Bool → Targets
move_targets db pinned kind to_phase current is_held = do
  refuse_if is_held paused
  to ← some_or_refuse to_phase no_such_phase
  refuse_if (not (phase_in db pinned to)) no_such_phase
  leave db pinned kind to current

abbrev pub pause_guard : PhaseEventKind → Bool → Outcome LifecycleRefusal Unit
pause_guard pause is_held = refuse_if is_held already_paused
pause_guard resume is_held = refuse_if (not is_held) not_paused
pause_guard complete is_held = refuse_if is_held paused
pause_guard _ is_held = ok tt

abbrev pub stay_targets : PhaseEventKind → Option (ℕ × Text) → Bool → Targets
stay_targets kind current is_held = do
  from ← some_or_refuse current no_current_phase
  pause_guard kind is_held
  ok (some from.0, none)

-- The phases that the event names.
unfoldable pub phase_targets :
    Db → ℕ → PhaseEventKind → Option ℕ → Option (ℕ × Text) → Bool → Targets
phase_targets db pinned advance to current is_held =
    move_targets db pinned advance to current is_held
phase_targets db pinned return to current is_held = move_targets db pinned return to current is_held
phase_targets db pinned restart to current is_held =
    move_targets db pinned restart to current is_held
phase_targets db pinned kind to current is_held = stay_targets kind current is_held

abbrev pub phase_shape : PhaseEventKind → Option ℕ → Option ℕ → Bool
phase_shape advance from to = is_some to
phase_shape return from to = is_some from && is_some to
phase_shape restart from to = is_some from && is_some to
phase_shape _ from to = is_some from && not (is_some to)

abbrev pub in_version : ℕ → Option Phase → Bool
in_version pinned none = false
in_version pinned (some p) = p.program_version_id == pinned

-- The foreign key, and the trigger that holds a named phase to the pinned version.
abbrev pub pins_phase : List Phase → ℕ → Option ℕ → Bool
pins_phase phases pinned none = true
pins_phase phases pinned (some id) = in_version pinned (phase_of phases (some id))

abbrev pub pin_of : Option Enrollment → Option ℕ
pin_of none = none
pin_of (some r) = some r.program_version_id

abbrev pub phases_pinned : List Phase → Option ℕ → PhaseEvent → Bool
phases_pinned phases none ev = false
phases_pinned phases (some pinned) ev =
    pins_phase phases pinned ev.from_phase_id && pins_phase phases pinned ev.to_phase_id

-- INSERT INTO phase_event, with its foreign keys, CHECKs and BEFORE INSERT triggers.
unfoldable pub insert_phase_event : {E : Type 0} → Db → PhaseEvent → Outcome E Db
insert_phase_event db ev = do
  require (is_user? db ev.actor_user_id)
  require (leb ev.effective_at ev.recorded_at)
  require (phase_shape ev.kind ev.from_phase_id ev.to_phase_id)
  require
      (same_option ev.version_change_event_id (current_epoch db.enrollment_events ev.enrollment_id))
  require (phases_pinned db.phases (pin_of (enrollment_of db ev.enrollment_id)) ev)
  ok (record db { phase_events = ev ∷ db.phase_events })

unfoldable pub record_phase_event :
    (seen db : Db) (now actor e : ℕ)
    → PhaseEventKind
    → Option ℕ
    → Option ℕ
    → Text
    → Outcome LifecycleRefusal (ℕ × Db)
record_phase_event seen db now actor e kind to_phase effective_at reason = do
  refuse_if (not (user_has seen actor assign_training)) capability_required
  refuse_if (needs_reason kind && is_empty (trim reason)) reason_required
  let effective = or_now effective_at now
  refuse_if (ltb now effective) effective_in_future
  current ← some_or_refuse (status db e) no_such_enrollment
  refuse_if (not (is_active current)) not_active
  refuse_if (precedes effective (latest_effective db e)) out_of_order
  refuse_if (precedes effective (epoch_opened db e)) out_of_order
  row ← fetch_one (enrollment_of db e)
  targets ←
      phase_targets db row.program_version_id kind to_phase (current_phase db e) (is_paused db e)
  let id = next_id (λ ev. ev.id) db.phase_events
  db₁ ← insert_phase_event db (record {
    id = id;
    enrollment_id = e;
    kind = kind;
    from_phase_id = targets.0;
    to_phase_id = targets.1;
    effective_at = effective;
    recorded_at = now;
    actor_user_id = some actor;
    reason = trim reason;
    version_change_event_id = current_epoch db.enrollment_events e;
  })
  db₂ ←
      record_for_subject phase_event_recorded (some actor) (some row.user_id) (Subject.enrollment e)
        now db₁
  ok (id, db₂)
