-- ===== src/Lifecycle/Queries.antt =====
-- crates/consolebook-server/src/lifecycle.rs: the refusals, and the state that the streams derive.
use consolebook.Base.{
  ℕ, Bool, true, false, Option, some, none, List, ◌&&◌, ◌||◌, Text, ltb, ◌==◌, same_option, is_some,
  select, exists, find?, top, max?, if◌then◌else◌,
}
use consolebook.Db.{
  Db, Phase, EnrollmentStatus, active, withdrawn, completed, EnrollmentEvent, EnrollmentEventKind,
  version_change, withdraw, complete, PhaseEvent, PhaseEventKind,
}

pub data LifecycleRefusal : Type 0 where
  capability_required no_such_enrollment not_active already_active reason_required :
      LifecycleRefusal
  no_such_version not_published same_version different_program target_already_enrolled :
      LifecycleRefusal
  no_such_phase transition_not_allowed no_current_phase already_paused not_paused : LifecycleRefusal
  paused out_of_order effective_in_future : LifecycleRefusal

-- ORDER BY id DESC
unfoldable pub later_event : EnrollmentEvent → EnrollmentEvent → Bool
later_event a b = ltb a.id b.id

-- ORDER BY effective_at DESC, id DESC
unfoldable pub later_phase : PhaseEvent → PhaseEvent → Bool
later_phase a b =
    ltb a.effective_at b.effective_at || (a.effective_at == b.effective_at && ltb a.id b.id)

-- kind IN ('withdraw', 'complete', 'reinstate')
abbrev pub decides_status : EnrollmentEventKind → Bool
decides_status version_change = false
decides_status _ = true

abbrev pub is_version_change : EnrollmentEventKind → Bool
is_version_change version_change = true
is_version_change _ = false

abbrev pub status_after : EnrollmentEventKind → EnrollmentStatus
status_after withdraw = withdrawn
status_after complete = completed
status_after _ = active

abbrev pub status_of_latest : Option EnrollmentEvent → EnrollmentStatus
status_of_latest none = active
status_of_latest (some ev) = status_after ev.kind

unfoldable pub status_of : ℕ → EnrollmentEvent → Bool
status_of e ev = ev.enrollment_id == e && decides_status ev.kind

unfoldable pub status : Db → ℕ → Option EnrollmentStatus
status db e =
    if exists (λ r. r.id == e) db.enrollments
    then some (status_of_latest (top later_event (select (status_of e) db.enrollment_events)))
    else none

unfoldable pub change_of : ℕ → EnrollmentEvent → Bool
change_of e ev = ev.enrollment_id == e && is_version_change ev.kind

-- SELECT MAX(id) FROM enrollment_event ... kind = 'version_change': the pin epoch.
unfoldable pub current_epoch : List EnrollmentEvent → ℕ → Option ℕ
current_epoch events e = max? (λ ev. ev.id) (select (change_of e) events)

-- kind IN ('advance', 'return', 'restart')
abbrev pub is_move : PhaseEventKind → Bool
is_move PhaseEventKind.advance = true
is_move PhaseEventKind.return = true
is_move PhaseEventKind.restart = true
is_move _ = false

-- kind IN ('pause', 'resume')
abbrev pub is_pausing : PhaseEventKind → Bool
is_pausing PhaseEventKind.pause = true
is_pausing PhaseEventKind.resume = true
is_pausing _ = false

abbrev pub is_pause : PhaseEventKind → Bool
is_pause PhaseEventKind.pause = true
is_pause _ = false

-- JOIN phase p ON p.id = the column
unfoldable pub phase_of : List Phase → Option ℕ → Option Phase
phase_of phases none = none
phase_of phases (some id) = find? (λ p. p.id == id) phases

unfoldable pub move_of : Option ℕ → List Phase → ℕ → PhaseEvent → Bool
move_of epoch phases e ev =
    ev.enrollment_id == e
    && is_move ev.kind
    && same_option ev.version_change_event_id epoch
    && is_some (phase_of phases ev.to_phase_id)

abbrev pub phase_ref : Option Phase → Option (ℕ × Text)
phase_ref none = none
phase_ref (some p) = some (p.id, p.name)

abbrev pub phase_of_latest : List Phase → Option PhaseEvent → Option (ℕ × Text)
phase_of_latest phases none = none
phase_of_latest phases (some ev) = phase_ref (phase_of phases ev.to_phase_id)

unfoldable pub current_phase : Db → ℕ → Option (ℕ × Text)
current_phase db e = phase_of_latest db.phases (
    top later_phase
      (select (move_of (current_epoch db.enrollment_events e) db.phases e) db.phase_events))

unfoldable pub pausing_of : Option ℕ → ℕ → PhaseEvent → Bool
pausing_of epoch e ev =
    ev.enrollment_id == e && is_pausing ev.kind && same_option ev.version_change_event_id epoch

abbrev pub pause_of_latest : Option PhaseEvent → Bool
pause_of_latest none = false
pause_of_latest (some ev) = is_pause ev.kind

unfoldable pub is_paused : Db → ℕ → Bool
is_paused db e =
    pause_of_latest (
      top later_phase
        (select (pausing_of (current_epoch db.enrollment_events e) e) db.phase_events))

abbrev pub is_active : EnrollmentStatus → Bool
is_active active = true
is_active _ = false
