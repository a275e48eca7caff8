-- ===== src/Draft/Cycle.antt =====
-- The workflow cycle of a record, between two finalizations, in
-- crates/consolebook-server/src/evaluation_drafts.rs (`status_of`) and amendments.rs (`open_scope`).
use consolebook.Base.{
  ℕ, ◌≤◌, ◌≡◌, ◌≢◌, refl, some, List, ◌∷◌, ==_refl, All, max_of, top-fresh, next_id, find?-All,
  arith, Bool-cases, Option-cases, inl, inr,
}
use consolebook.Db.{Db, ContributorEvent, ReviewDecision}
use consolebook.Draft.Status.{
  finalized, latest_version, amendment_of, open_scope, later_contribution, later_decision,
  latest_contribution, latest_decision, cycle_status, is_finalized, status_of,
}

-- An amendment is opened after rows that are there.
pub record Marked (db : Db) : Type 0 where
  pub events :
      All (λ a. a.opened_after_event_id ≤ max_of (λ ev. ev.id) db.contributor_events) db.amendments
  pub decisions :
      All (λ a. a.opened_after_decision_id ≤ max_of (λ d. d.id) db.decisions) db.amendments

-- The marks after which the record's cycle began.
pub record Cycle (db : Db) (r : ℕ) : Type 0 where
  pub event_mark : ℕ
  pub decision_mark : ℕ
  pub event_bound : event_mark ≤ max_of (λ ev. ev.id) db.contributor_events
  pub decision_bound : decision_mark ≤ max_of (λ d. d.id) db.decisions
  pub in_cycle :
      (db' : Db)
      → db'.evaluation_versions ≡ db.evaluation_versions
      → db'.amendments ≡ db.amendments
      → status_of db' r ≡ cycle_status db' r event_mark decision_mark

-- A record that is not finalized is in a cycle, which lasts while no version and no amendment is added.
pub status_of-Cycle : (db : Db) (r : ℕ) → Marked db → status_of db r ≢ finalized → Cycle db r
unfolding status_of is_finalized latest_version amendment_of open_scope
status_of-Cycle db r m h = elim (Bool-cases (is_finalized db r)) [
  | inl t ↦ elim (Option-cases (latest_version db r)) [
    | inl e ↦ absurd (ground arith)
    | inr (v, e) ↦ elim (Option-cases (amendment_of db v.id)) [
      | inl g ↦ absurd (ground arith)
      | inr (a, g) ↦ record {
        event_mark = a.opened_after_event_id;
        decision_mark = a.opened_after_decision_id;
        event_bound = find?-All _ _ db.amendments a m.events g;
        decision_bound = find?-All _ _ db.amendments a m.decisions g;
        in_cycle = λ db' x y. rw (x, y, t, e, g) refl;
      }
    ]
  ]
  | inr f ↦ record {
    event_mark = 0;
    decision_mark = 0;
    event_bound = omega arith;
    decision_bound = omega arith;
    in_cycle = λ db' x y. rw (x, f) refl;
  }
]

pub latest_contribution-fresh :
    (ev : ContributorEvent) (events : List ContributorEvent) (mark : ℕ)
    → ev.id ≡ next_id (λ x. x.id) events
    → mark ≤ max_of (λ x. x.id) events
    → latest_contribution (ev ∷ events) ev.evaluation_record_id mark ≡ some ev
unfolding latest_contribution later_contribution next_id
latest_contribution-fresh ev events mark fresh b =
    top-fresh (λ x. x.id) _ ev events fresh (ground (arith, ==_refl ev.evaluation_record_id))

pub latest_decision-fresh :
    (d : ReviewDecision) (decisions : List ReviewDecision) (mark : ℕ)
    → d.id ≡ next_id (λ x. x.id) decisions
    → mark ≤ max_of (λ x. x.id) decisions
    → latest_decision (d ∷ decisions) d.evaluation_record_id mark ≡ some d
unfolding latest_decision later_decision next_id
latest_decision-fresh d decisions mark fresh b =
    top-fresh (λ x. x.id) _ d decisions fresh (ground (arith, ==_refl d.evaluation_record_id))
