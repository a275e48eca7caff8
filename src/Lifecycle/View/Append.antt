-- ===== src/Lifecycle/View/Append.antt =====
-- The queries of crates/consolebook-server/src/lifecycle.rs after one more phase event.
use consolebook.Base.{
  ℕ, ◌≤◌, ◌<◌, ◌≡◌, refl, Bool, true, false, Option, some, List, [], ◌∷◌, ◌&&◌, ◌==◌, ==_refl,
  same_option, same_option_refl, select, max?, top, top-cons, All, All-select, All-unselect,
  All-map, All-both, select_only, max_of-bound, next_id, arith, Bool-cases, inl, inr, is_some,
  if◌then◌else◌,
}
use consolebook.Db.{Db, PhaseEvent}
use consolebook.Lifecycle.Queries.{
  later_phase, move_of, pausing_of, phase_ref, is_move, is_pausing, phase_of, current_epoch,
  current_phase, is_paused, is_pause,
}
use consolebook.Lifecycle.Phases.{precedes, latest_effective}

-- The event that is appended is at least as late as the enrollment's others, and its identifier is new.
module _ (db : Db) (ev : PhaseEvent) (fresh : ev.id ≡ next_id (λ r. r.id) db.phase_events)
    (in_order : precedes ev.effective_at (latest_effective db ev.enrollment_id) ≡ false) where
  abbrev grown : Db
  grown = record db { phase_events = ev ∷ db.phase_events }

  effective_bound :
      (xs : List PhaseEvent)
      → precedes ev.effective_at (max? (λ r. r.effective_at) xs) ≡ false
      → All (λ r. r.effective_at ≤ ev.effective_at) xs
  unfolding max?
  effective_bound [] h = tt
  effective_bound (x ∷ xs) h =
      All-map _ _ (x ∷ xs) (λ r b. ground arith) (max_of-bound (λ r. r.effective_at) (x ∷ xs))

  ids_below : All (λ r. r.id < ev.id) db.phase_events
  unfolding next_id
  ids_below =
      All-map _ _ db.phase_events (λ r b. omega arith) (max_of-bound (λ r. r.id) db.phase_events)

  -- No event of the enrollment takes effect after the new one.
  pub effective-bound :
      All
        (λ r. (r.enrollment_id == ev.enrollment_id) ≡ true → r.effective_at ≤ ev.effective_at)
        db.phase_events
  unfolding latest_effective
  effective-bound = All-unselect _ _ db.phase_events (effective_bound _ in_order)

  earlier_rows :
      All
        (λ r. (r.enrollment_id == ev.enrollment_id) ≡ true → later_phase ev r ≡ false)
        db.phase_events
  unfolding later_phase
  earlier_rows =
      All-map _ _ db.phase_events (λ r b t. let b1 = b.1 t in ground arith)
        (All-both _ _ db.phase_events ids_below effective-bound)

  earlier_among :
      (p : PhaseEvent → Bool)
      → ((r : PhaseEvent) → p r ≡ true → (r.enrollment_id == ev.enrollment_id) ≡ true)
      → All (λ r. later_phase ev r ≡ false) (select p db.phase_events)
  earlier_among p h =
      All-map _ _ (select p db.phase_events) (λ r b. b.0 (h r b.1))
        (All-both _ _ (select p db.phase_events) (All-select _ p db.phase_events earlier_rows)
          (select_only p db.phase_events))

  module _
      (stamped : ev.version_change_event_id
        ≡ current_epoch db.enrollment_events ev.enrollment_id) where
    abbrev epoch : Option ℕ
    epoch = current_epoch db.enrollment_events ev.enrollment_id

    -- The newest row is the latest, if it is one of those that the query selects.
    top-select :
        (p : PhaseEvent → Bool)
        → ((r : PhaseEvent) → p r ≡ true → (r.enrollment_id == ev.enrollment_id) ≡ true)
        → top later_phase (select p (ev ∷ db.phase_events))
          ≡ (if p ev then some ev else top later_phase (select p db.phase_events))
    unfolding select
    top-select p h = elim (Bool-cases (p ev)) [
      | inl t ↦ rw t (top-cons later_phase ev (select p db.phase_events) (earlier_among p h))
      | inr f ↦ rw f refl
    ]

    top-moves :
        top later_phase (select (move_of epoch db.phases ev.enrollment_id) (ev ∷ db.phase_events))
        ≡ (if move_of epoch db.phases ev.enrollment_id ev
            then some ev
            else top later_phase
                (select (move_of epoch db.phases ev.enrollment_id) db.phase_events))
    unfolding move_of
    top-moves = top-select (move_of epoch db.phases ev.enrollment_id) (λ r t. ground arith)

    top-pausings :
        top later_phase (select (pausing_of epoch ev.enrollment_id) (ev ∷ db.phase_events)) ≡ (
          if pausing_of epoch ev.enrollment_id ev
          then some ev
          else top later_phase (select (pausing_of epoch ev.enrollment_id) db.phase_events))
    unfolding pausing_of
    top-pausings = top-select (pausing_of epoch ev.enrollment_id) (λ r t. ground arith)

    stamp_matches : same_option ev.version_change_event_id epoch ≡ true
    stamp_matches = rw stamped (same_option_refl epoch)

    -- After a move the current phase is the target of the move.
    pub current_phase-grown : current_phase grown ev.enrollment_id ≡ (
        if is_move ev.kind && is_some (phase_of db.phases ev.to_phase_id)
        then phase_ref (phase_of db.phases ev.to_phase_id)
        else current_phase db ev.enrollment_id)
    unfolding current_phase move_of
    current_phase-grown = rw top-moves (ground (arith, ==_refl ev.enrollment_id, stamp_matches))

    pub is_paused-grown :
        is_paused grown ev.enrollment_id
        ≡ (if is_pausing ev.kind then is_pause ev.kind else is_paused db ev.enrollment_id)
    unfolding is_paused pausing_of
    is_paused-grown = rw top-pausings (ground (arith, ==_refl ev.enrollment_id, stamp_matches))

-- Nothing changes for another enrollment.
pub current_phase-other :
    (db : Db) (ev : PhaseEvent) (e : ℕ)
    → (ev.enrollment_id == e) ≡ false
    → current_phase (record db { phase_events = ev ∷ db.phase_events }) e ≡ current_phase db e
unfolding current_phase move_of select
current_phase-other db ev e h = rw h refl

pub is_paused-other :
    (db : Db) (ev : PhaseEvent) (e : ℕ)
    → (ev.enrollment_id == e) ≡ false
    → is_paused (record db { phase_events = ev ∷ db.phase_events }) e ≡ is_paused db e
unfolding is_paused pausing_of select
is_paused-other db ev e h = rw h refl
