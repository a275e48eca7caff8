-- ===== src/Draft/Frozen.antt =====
-- The view `evaluation_record_frozen` of crates/consolebook-server/migrations/0012_amendments.sql, on
-- which the triggers of the database turn, and the status of the service.
use consolebook.Base.{
  ℕ, ◌<◌, ◌≡◌, refl, ap, Bool, true, false, Option, some, none, ◌==◌, select, top, All, All-map,
  select_same, is_some, arith, if◌then◌else◌, Bool-cases, inl, inr,
}
use consolebook.Db.{
  Db, EvaluationVersion, Amendment, ContributorKind, submitted_for_review, review_decided,
  DecisionKind,
}
use consolebook.Draft.Status.{
  later_contribution, later_decision, latest_version, amendment_of, contribution_kind,
  decision_kind, latest_contribution, latest_decision, status_from, cycle_status, open_scope,
  scope_of_latest, amendment_view, is_finalized, status_of, frozen_refusal, reopened_status,
}

abbrev decided_frozen : Option DecisionKind → Bool
decided_frozen (some DecisionKind.approved) = true
decided_frozen _ = false

-- CASE kind WHEN 'submitted_for_review' THEN 1 WHEN 'review_decided' THEN ... ELSE 0 END
abbrev kinds_frozen : Option ContributorKind → Option DecisionKind → Bool
kinds_frozen (some submitted_for_review) d = true
kinds_frozen (some review_decided) d = decided_frozen d
kinds_frozen _ d = false

abbrev amended_frozen : Db → ℕ → Option Amendment → Bool
amended_frozen db r none = true
amended_frozen db r (some a) =
    kinds_frozen
      (contribution_kind (latest_contribution db.contributor_events r a.opened_after_event_id))
      (decision_kind (latest_decision db.decisions r a.opened_after_decision_id))

abbrev version_frozen : Db → ℕ → Option EvaluationVersion → Bool
version_frozen db r none = true
version_frozen db r (some v) = amended_frozen db r (amendment_of db v.id)

unfoldable pub frozen_view : Db → ℕ → Bool
frozen_view db r =
    if is_finalized db r
    then version_frozen db r (latest_version db r)
    else kinds_frozen
        (contribution_kind (
          top later_contribution
            (select (λ ev. ev.evaluation_record_id == r) db.contributor_events)))
        (decision_kind
          (top later_decision (select (λ d. d.evaluation_record_id == r) db.decisions)))

-- Identifiers of rows start at 1.
pub record Numbered (db : Db) : Type 0 where
  pub contributions : All (λ ev. 0 < ev.id) db.contributor_events
  pub decisions : All (λ d. 0 < d.id) db.decisions

kinds-status :
    (k : Option ContributorKind) (d : Option DecisionKind)
    → is_some (frozen_refusal (status_from k d)) ≡ kinds_frozen k d
kinds-status k d = ground arith

sealed-status :
    (db : Db) (r : ℕ) (o : Option EvaluationVersion)
    → is_some (frozen_refusal (reopened_status db r (scope_of_latest db o))) ≡ version_frozen db r o
unfolding cycle_status
sealed-status db r none = refl
sealed-status db r (some v) = amended-status v (amendment_of db v.id)
  where
    amended-status :
        (v : EvaluationVersion) (o : Option Amendment)
        → is_some (frozen_refusal (reopened_status db r (amendment_view v o)))
          ≡ amended_frozen db r o
    amended-status v none = refl
    amended-status v (some a) = kinds-status _ _

module _ (db : Db) (r : ℕ) (n : Numbered db) where
  all_contributions :
      latest_contribution db.contributor_events r 0
      ≡ top later_contribution (select (λ ev. ev.evaluation_record_id == r) db.contributor_events)
  unfolding latest_contribution
  all_contributions = ap (top later_contribution) (
      select_same _ _ db.contributor_events
        (All-map _ _ db.contributor_events (λ ev h. ground arith) n.contributions))

  all_decisions :
      latest_decision db.decisions r 0
      ≡ top later_decision (select (λ d. d.evaluation_record_id == r) db.decisions)
  unfolding latest_decision
  all_decisions =
      ap (top later_decision)
        (select_same _ _ db.decisions (All-map _ _ db.decisions (λ d h. ground arith) n.decisions))

-- Where identifiers start at 1, the service refuses writes to a working copy as frozen exactly when the
-- view of the migrations calls it frozen.
pub frozen-status :
    (db : Db) (r : ℕ) → Numbered db → is_some (frozen_refusal (status_of db r)) ≡ frozen_view db r
unfolding frozen_view status_of cycle_status open_scope
frozen-status db r n = elim (Bool-cases (is_finalized db r)) [
  | inl t ↦ rw t (sealed-status db r (latest_version db r))
  | inr f ↦ rw (f, all_contributions db r n, all_decisions db r n) (kinds-status _ _)
]
