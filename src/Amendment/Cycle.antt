-- ===== src/Amendment/Cycle.antt =====
-- The workflow cycle that `open` of crates/consolebook-server/src/amendments.rs begins.
use consolebook.Base.{
  ℕ, suc, ◌≡◌, refl, ap, Bool, true, some, none, List, [], ◌∷◌, ◌==◌, ◌&&◌, ltb, ==_refl, find?,
  exists, select, select_none, max_of-bound, max_of-select, All-map, All-unselect, top, arith, ok,
  Bool-cases, inl, inr,
}
use consolebook.Db.{Db, Amendment, ContributorEvent, EvaluationRecord, EvaluationVersion}
use consolebook.Amendment.{event_mark, decision_mark, advance_revision}
use consolebook.Amendment.Effect.{Reopening, run, open_amendment-Reopened}
use consolebook.Draft.Status.{
  draft, load_record, latest_version, amendment_of, latest_contribution, cycle_status, is_finalized,
  open_scope, status_of,
}
use consolebook.Draft.Cycle.{Marked}

top-exists :
    {A : Type 0} (before : A → A → Bool) (p : A → Bool) (xs : List A) (x : A)
    → top before (select p xs) ≡ some x
    → exists p xs ≡ true
unfolding select exists top
top-exists before p [] x h = absurd (ground arith)
top-exists before p (y ∷ ys) x h = elim (Bool-cases (p y)) [
  | inl t ↦ rw t refl
  | inr f ↦ rw f (top-exists before p ys x (rw f at h))
]

-- No event of the record is after the mark.
none_after :
    (db : Db) (r : ℕ) → latest_contribution db.contributor_events r (event_mark db r) ≡ none
unfolding latest_contribution event_mark top
none_after db r =
    let among = λ (ev : ContributorEvent). ev.evaluation_record_id == r in
    let bound =
      All-unselect _ among db.contributor_events
        (max_of-bound (λ ev. ev.id) (select among db.contributor_events)) in
    let late =
      select_none (λ ev. among ev && ltb (event_mark db r) ev.id) db.contributor_events
        (All-map _ _ db.contributor_events (λ ev b. ground arith) bound) in
    rw late refl

reopened-status :
    (db : Db) (r : ℕ) (latest : EvaluationVersion) (a : Amendment) (rest : List Amendment)
    → latest_version db r ≡ some latest
    → db.amendments ≡ a ∷ rest
    → a.predecessor_version_id ≡ latest.id
    → a.opened_after_event_id ≡ event_mark db r
    → status_of db r ≡ draft
unfolding status_of open_scope amendment_of find? cycle_status is_finalized latest_version
reopened-status db r latest a rest found first names mark =
    let sealed : is_finalized db r ≡ true = top-exists _ _ db.evaluation_versions latest found in
    rw (sealed, found, first, names, ==_refl latest.id, mark, none_after db r) refl

-- The status after an amendment is opened is `draft`.
pub open_amendment-status : (q : Reopening) (db' : Db) → run q ≡ ok db' → status_of db' q.r ≡ draft
unfolding latest_version event_mark
open_amendment-status q db' h =
    let s = open_amendment-Reopened q db' h in
    let w = s.writing.written in
    let versions = ap (λ (d : Db). d.evaluation_versions) w in
    let events = ap (λ (d : Db). d.contributor_events) w in
    reopened-status db' q.r s.latest _ _ (rw versions s.found) (ap (λ (d : Db). d.amendments) w)
      refl (rw events refl)

-- If the amendments' marks name rows that are there, so they do after an amendment is opened.
pub open_amendment-Marked : (q : Reopening) (db' : Db) → Marked q.db → run q ≡ ok db' → Marked db'
unfolding event_mark decision_mark
open_amendment-Marked q db' m h =
    let s = open_amendment-Reopened q db' h in
    rw (s.writing.written) (record {
      events = (max_of-select _ _ q.db.contributor_events, m.events);
      decisions = (max_of-select _ _ q.db.decisions, m.decisions);
    })

find?-advance_revision :
    (r : ℕ) (rows : List EvaluationRecord) (row : EvaluationRecord)
    → find? (λ x. x.id == r) rows ≡ some row
    → find? (λ x. x.id == r) (advance_revision r rows)
      ≡ some (record row { revision = suc row.revision })
unfolding advance_revision find?
find?-advance_revision r [] row h = absurd (ground arith)
find?-advance_revision r (x ∷ rows) row h = elim (Bool-cases (x.id == r)) [
  | inl t ↦ let same : x ≡ row = ground arith in ground arith
  | inr t ↦ let rest = find?-advance_revision r rows row (ground arith) in ground (arith, rest)
]

-- An amendment advances the revision of its record by one and changes no other column of it.
pub open_amendment-revision :
    (q : Reopening) (db' : Db) (row : EvaluationRecord)
    → load_record q.db q.r ≡ some row
    → run q ≡ ok db'
    → load_record db' q.r ≡ some (record row { revision = suc row.revision })
unfolding load_record
open_amendment-revision q db' row found h =
    let s = open_amendment-Reopened q db' h in
    rw (ap (λ (d : Db). d.records) s.writing.written)
      (find?-advance_revision q.r q.db.records row found)
