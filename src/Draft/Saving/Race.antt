-- ===== src/Draft/Saving/Race.antt =====
-- Saves of a working copy that race, and whose work a save is, in
-- crates/consolebook-server/src/draft_content.rs.
use consolebook.Base.{
  ℕ, suc, ◌≤◌, ◌≡◌, ◌≢◌, refl, sym, ap, ◌∙◌, Bool, true, false, Option, some, none, List, [], ◌∷◌,
  ◌==◌, find?, find?-All, &&_true, eq_of_==, max_of, next_id, arith, ok, refused, Bool-cases,
  Option-cases, inl, inr,
}
use consolebook.Db.{Db, EvaluationRecord, ContributorEvent, ContributorKind, contributed}
use consolebook.Draft.Access.{may_contribute}
use consolebook.Draft.Cycle.{Marked, status_of-Cycle, latest_contribution-fresh}
use consolebook.Draft.Saving.{set_revision, coalesces, is_contribution, mark_of, save}
use consolebook.Draft.Saving.Effect.{Saving, run, add_unless, save-Saved}
use consolebook.Draft.Status.{
  DraftRefusal, DraftStatus, finalized, load_record, status_of, frozen_refusal, open_scope,
  latest_version, amendment_of, latest_contribution, cycle_status,
}
use consolebook.Draft.Writes.{next_contribution}

find?-set_revision :
    (r n : ℕ) (rows : List EvaluationRecord) (row : EvaluationRecord)
    → find? (λ x. x.id == r) rows ≡ some row
    → find? (λ x. x.id == r) (set_revision r n rows) ≡ some (record row { revision = n })
unfolding set_revision find?
find?-set_revision r n [] row h = absurd (ground arith)
find?-set_revision r n (x ∷ rows) row h = elim (Bool-cases (x.id == r)) [
  | inl t ↦ let same : x ≡ row = ground arith in ground arith
  | inr t ↦ let rest = find?-set_revision r n rows row (ground arith) in ground (arith, rest)
]

open_status : (s : DraftStatus) → frozen_refusal s ≡ none → s ≢ finalized
open_status s h e = ground arith

-- A contribution, or none, leaves a copy that may be written.
after_events :
    (db db' : Db) (ev : ContributorEvent) (again : Bool)
    → Marked db
    → db'.evaluation_versions ≡ db.evaluation_versions
    → db'.amendments ≡ db.amendments
    → db'.decisions ≡ db.decisions
    → db'.contributor_events ≡ add_unless again ev db.contributor_events
    → ev.id ≡ next_id (λ x. x.id) db.contributor_events
    → ev.kind ≡ contributed
    → frozen_refusal (status_of db ev.evaluation_record_id) ≡ none
    → frozen_refusal (status_of db' ev.evaluation_record_id) ≡ none
unfolding cycle_status
after_events db db' ev true m v a d e fresh kind writable =
    let r = ev.evaluation_record_id in
    let c = status_of-Cycle db r m (open_status (status_of db r) writable) in
    rw (c.in_cycle db' v a, d, e) (ap frozen_refusal (sym (c.in_cycle db refl refl)) ∙ writable)
after_events db db' ev false m v a d e fresh kind writable =
    let r = ev.evaluation_record_id in
    let c = status_of-Cycle db r m (open_status (status_of db r) writable) in
    let latest =
      latest_contribution-fresh ev db.contributor_events c.event_mark fresh c.event_bound in
    rw (c.in_cycle db' v a, e, latest, kind) refl

save-writable :
    (q : Saving) (revision : ℕ) (db' : Db)
    → Marked q.db
    → run q ≡ ok (revision, db')
    → frozen_refusal (status_of db' q.r) ≡ none
save-writable q revision db' m h =
    let s = save-Saved q revision db' h in
    let w = s.written in
    after_events q.db db' (next_contribution q.db q.r contributed q.actor none q.now) _ m
      (ap (λ (d : Db). d.evaluation_versions) w) (ap (λ (d : Db). d.amendments) w)
      (ap (λ (d : Db). d.decisions) w) (ap (λ (d : Db). d.contributor_events) w) refl refl
      s.unfrozen

stale_refused :
    (q : Saving) (early row : EvaluationRecord)
    → load_record q.seen q.r ≡ some early
    → may_contribute q.seen q.actor early ≡ true
    → frozen_refusal (status_of q.db q.r) ≡ none
    → load_record q.db q.r ≡ some row
    → (q.revision == row.revision) ≡ false
    → run q ≡ refused DraftRefusal.stale_save
unfolding save
stale_refused q early row known able writable found old =
    rw (known, able, writable, found, old) refl

-- No save is lost: after a save, another one that read the same revision, by anyone who may contribute, is refused as
-- stale and writes nothing. The amendments' marks name rows that are there.
pub save-stale_save :
    (q : Saving) (revision : ℕ) (db' : Db) (later : Saving) (early : EvaluationRecord)
    → Marked q.db
    → run q ≡ ok (revision, db')
    → later.db ≡ db'
    → later.r ≡ q.r
    → later.revision ≡ q.revision
    → load_record later.seen later.r ≡ some early
    → may_contribute later.seen later.actor early ≡ true
    → run later ≡ refused DraftRefusal.stale_save
unfolding load_record
save-stale_save q revision db' later early m h d e v known able =
    let s = save-Saved q revision db' h in
    let writable = save-writable q revision db' m h in
    let bumped = find?-set_revision q.r (suc s.row.revision) q.db.records s.row s.current in
    let old : (later.revision == suc s.row.revision) ≡ false = rw (v, s.viewed) (ground arith) in
    stale_refused later early (record s.row { revision = suc s.row.revision }) known able
      (rw (d, e) writable) (rw (d, e, ap (λ (x : Db). x.records) s.written) bumped) old

-- Whose work the latest event of the cycle records.
pub record Attributed (db : Db) (r actor : ℕ) : Type 0 where
  pub event : ContributorEvent
  pub latest : latest_contribution db.contributor_events r (mark_of (open_scope db r)) ≡ some event
  pub kind : event.kind ≡ contributed
  pub author : event.actor_user_id ≡ actor

mark_bound :
    (db : Db) (r : ℕ)
    → Marked db
    → mark_of (open_scope db r) ≤ max_of (λ ev. ev.id) db.contributor_events
unfolding open_scope amendment_of
mark_bound db r m = elim (Option-cases (latest_version db r)) [
  | inl e ↦ rw e (omega arith)
  | inr (v, e) ↦ rw e (elim (Option-cases (amendment_of db v.id)) [
    | inl f ↦ rw f (omega arith)
    | inr (a, f) ↦ rw f (find?-All _ _ db.amendments a m.events f)
  ])
]

own_contribution :
    (actor : ℕ) (o : Option ContributorEvent)
    → coalesces actor o ≡ true
    → (ev : ContributorEvent) × (o ≡ some ev) × (ev.kind ≡ contributed) × (ev.actor_user_id ≡ actor)
own_contribution actor none h = absurd (ground arith)
own_contribution actor (some ev) h =
    let (k, a) = &&_true _ _ h in (ev, refl, contribution_kind ev.kind k, eq_of_== _ _ a)
  where
    contribution_kind : (k : ContributorKind) → is_contribution k ≡ true → k ≡ contributed
    contribution_kind k h = ground arith

attributed-Attributed :
    (db : Db) (r actor now : ℕ) (again : Bool)
    → coalesces actor (latest_contribution db.contributor_events r (mark_of (open_scope db r)))
      ≡ again
    → Marked db
    → (ev : ContributorEvent) × (latest_contribution
          (add_unless again
            (next_contribution db r contributed actor none now)
            db.contributor_events)
          r
          (mark_of (open_scope db r))
        ≡ some ev)
      × (ev.kind ≡ contributed)
      × (ev.actor_user_id ≡ actor)
attributed-Attributed db r actor now true t m = own_contribution actor _ t
attributed-Attributed db r actor now false t m =
    let ev = next_contribution db r contributed actor none now in
    (ev, latest_contribution-fresh ev db.contributor_events _ refl (mark_bound db r m), refl, refl)

-- After a save the latest event of the workflow cycle is a contribution of the actor, whether it is that of the save or one
-- that the actor's edits before it have left.
pub save-Attributed :
    (q : Saving) (revision : ℕ) (db' : Db)
    → Marked q.db
    → run q ≡ ok (revision, db')
    → Attributed db' q.r q.actor
unfolding open_scope latest_version amendment_of
save-Attributed q revision db' m h =
    let s = save-Saved q revision db' h in
    let (ev, latest, kind, author) = attributed-Attributed q.db q.r q.actor q.now _ refl m in
    rw (s.written) (record { event = ev; latest = latest; kind = kind; author = author })
