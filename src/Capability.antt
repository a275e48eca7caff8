-- ===== src/Capability.antt =====
-- crates/consolebook-server/src/capabilities.rs: capabilities, the role bundles, and grants.
pub mod Vocabulary
use text.Mathlib.Text.{◌==◌ as str_eq}
use consolebook.Base.{
  ℕ, Bool, Option, List, [], ◌∷◌, ◌&&◌, not, exists, ◌==◌, Outcome, ok, require, ◌>>=◌, ◌>>◌,
}
use consolebook.Capability.Vocabulary.{
  Capability, manage_users, manage_programs, assign_training, export_records, author_evaluation,
  review_evaluation, view_assigned_records, view_own_records, acknowledge_own_record, as_str,
}
use consolebook.Db.{Db, Grant, is_user, is_user?}

pub data RoleBundle : Type 0 where
  administrator coordinator trainer trainee : RoleBundle

abbrev pub administrator_bundle : List Capability
administrator_bundle = manage_users ∷ manage_programs ∷ assign_training ∷ export_records ∷ []

abbrev pub trainer_bundle : List Capability
trainer_bundle = author_evaluation ∷ view_assigned_records ∷ []

abbrev pub coordinator_bundle : List Capability
coordinator_bundle = assign_training ∷ review_evaluation ∷ view_assigned_records ∷ []

abbrev pub trainee_bundle : List Capability
trainee_bundle = view_own_records ∷ acknowledge_own_record ∷ []

unfoldable pub bundle_capabilities : RoleBundle → List Capability
bundle_capabilities administrator = administrator_bundle
bundle_capabilities coordinator = coordinator_bundle
bundle_capabilities trainer = trainer_bundle
bundle_capabilities trainee = trainee_bundle

-- Stored capabilities are compared by name.
unfoldable pub holds : ℕ → Capability → Grant → Bool
holds user_id capability g =
    g.user_id == user_id && str_eq (as_str g.capability) (as_str capability)

unfoldable pub user_has : Db → ℕ → Capability → Bool
user_has db user_id capability = exists (holds user_id capability) db.grants

-- One row of `grant_bundle`: the foreign keys and the primary key hold, or the statement fails.
unfoldable pub insert_grant : {E : Type 0} → Db → Grant → Outcome E Db
unfolding user_has
insert_grant db g = do
  require (is_user db g.user_id)
  require (is_user? db g.granted_by)
  require (not (user_has db g.user_id g.capability))
  ok (record db { grants = g ∷ db.grants })

unfoldable pub grant_bundle : {E : Type 0} → Db → ℕ → List Capability → Option ℕ → ℕ → Outcome E Db
unfolding insert_grant
grant_bundle db user_id [] granted_by now = ok db
grant_bundle db user_id (c ∷ cs) granted_by now = do
  db' ←
      insert_grant db
        (record { user_id = user_id; capability = c; granted_at = now; granted_by = granted_by })
  grant_bundle db' user_id cs granted_by now
