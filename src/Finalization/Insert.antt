-- ===== src/Finalization/Insert.antt =====
-- INSERT INTO evaluation_version, with the constraints and triggers of migrations 0010 and 0012.
use consolebook.Base.{
  ℕ, suc, Bool, true, false, Option, some, none, ◌∷◌, [], ◌&&◌, not, ◌==◌, leb, length, is_some,
  is_empty, same_option, Text, select, exists, max?, Outcome, ok, require, ◌>>◌,
}
use consolebook.Amendment.{is_reopened, version_id}
use consolebook.Canonical.Hex.{is_lower_hex}
use consolebook.Db.{
  Db, Amendment, EvaluationRecord, EvaluationVersion, ContributorKind, review_decided, DecisionKind,
  is_user,
}
use consolebook.Draft.Completion.{policy}
use consolebook.Draft.Status.{
  load_record, latest_version, amendment_of, contribution_kind, decision_kind, latest_contribution,
  latest_decision,
}
use consolebook.Draft.Stream.{same_test}

unfoldable pub all_lower_hex : Text → Bool
unfolding is_lower_hex
all_lower_hex [] = true
all_lower_hex (c ∷ cs) = is_lower_hex c && all_lower_hex cs

-- length(hash) = 64 AND hash NOT GLOB '*[^0-9a-f]*'
unfoldable pub is_hash : Text → Bool
unfolding all_lower_hex
is_hash hash = length hash == 64 && all_lower_hex hash

-- A foreign key into the table, or NULL.
unfoldable pub is_version? : Db → Option ℕ → Bool
is_version? db none = true
is_version? db (some p) = exists (λ v. v.id == p) db.evaluation_versions

-- UNIQUE (evaluation_record_id, version_number)
unfoldable pub is_numbered : Db → ℕ → ℕ → Bool
is_numbered db r n =
    exists (λ v. v.evaluation_record_id == r && v.version_number == n) db.evaluation_versions

abbrev pub plus_one : Option ℕ → Option ℕ
plus_one none = none
plus_one (some n) = some (suc n)

-- evaluation_version_successors_in_order
unfoldable pub extends_latest : Db → EvaluationVersion → Option ℕ → Bool
extends_latest db v none = true
extends_latest db v (some p) =
    same_option (some p) (version_id (latest_version db v.evaluation_record_id))
    && same_option (some v.version_number) (
        plus_one (
          max? (λ u. u.version_number)
            (select (λ u. u.evaluation_record_id == v.evaluation_record_id)
              db.evaluation_versions)))

-- evaluation_version_successors_take_amendments
abbrev pub takes_amendment : Db → Option ℕ → Bool
takes_amendment db none = true
takes_amendment db (some p) = is_reopened db p

abbrev pub amendment_by : Db → Option ℕ → Option Amendment
amendment_by db none = none
amendment_by db (some p) = amendment_of db p

abbrev pub event_after : Option Amendment → ℕ
event_after none = 0
event_after (some a) = a.opened_after_event_id

abbrev pub decision_after : Option Amendment → ℕ
decision_after none = 0
decision_after (some a) = a.opened_after_decision_id

abbrev pub is_approval : Option ContributorKind → Option DecisionKind → Bool
is_approval (some review_decided) (some DecisionKind.approved) = true
is_approval _ _ = false

abbrev pub approval_required : Db → Option EvaluationRecord → Bool
approval_required db none = true
approval_required db (some row) = (policy db row.program_version_id).review_approved

-- The cycle of the version ends in an approving decision.
unfoldable pub cycle_approved : Db → EvaluationVersion → Bool
cycle_approved db v =
    let opened = amendment_by db v.predecessor_id in
    is_approval
      (contribution_kind
        (latest_contribution db.contributor_events v.evaluation_record_id (event_after opened)))
      (decision_kind (latest_decision db.decisions v.evaluation_record_id (decision_after opened)))

-- evaluation_version_requires_approval
unfoldable pub gate_open : Db → EvaluationVersion → Bool
unfolding policy cycle_approved
gate_open db v =
    not (approval_required db (load_record db v.evaluation_record_id) && not (cycle_approved db v))

unfoldable pub insert_version : {E : Type 0} → Db → EvaluationVersion → Outcome E Db
insert_version db v = do
  require (is_some (load_record db v.evaluation_record_id))
  require (leb 1 v.version_number)
  require (leb 1 v.record_schema)
  require (not (is_empty v.canonical_bytes))
  require (is_hash v.content_hash)
  require (is_hash v.chain_hash)
  require (is_version? db v.predecessor_id)
  require (is_user db v.finalized_by)
  require (not (is_numbered db v.evaluation_record_id v.version_number))
  require (same_test (v.version_number == 1) (not (is_some v.predecessor_id)))
  require (extends_latest db v v.predecessor_id)
  require (takes_amendment db v.predecessor_id)
  require (gate_open db v)
  ok (record db { evaluation_versions = v ∷ db.evaluation_versions })
