-- ===== src/Capability/Vocabulary.antt =====
-- crates/consolebook-server/src/capabilities.rs: `Capability`, generated by `closed_vocabulary!`.
use text.Mathlib.Text.{◌==◌}
use consolebook.Base.{Option, some, none, String, List, [], ◌∷◌, ◌≡◌, refl, if◌then◌else◌}

pub data Capability : Type 0 where
  manage_users manage_retention manage_programs assign_training export_records : Capability
  author_evaluation review_evaluation view_assigned_records view_own_records : Capability
  acknowledge_own_record : Capability

unfoldable pub as_str : Capability → String
as_str manage_users = "manage_users"
as_str manage_retention = "manage_retention"
as_str manage_programs = "manage_programs"
as_str assign_training = "assign_training"
as_str export_records = "export_records"
as_str author_evaluation = "author_evaluation"
as_str review_evaluation = "review_evaluation"
as_str view_assigned_records = "view_assigned_records"
as_str view_own_records = "view_own_records"
as_str acknowledge_own_record = "acknowledge_own_record"

unfoldable pub parse : String → Option Capability
parse stored =
    if stored == "manage_users"
    then some manage_users
    else if stored == "manage_retention"
    then some manage_retention
    else if stored == "manage_programs"
    then some manage_programs
    else if stored == "assign_training"
    then some assign_training
    else if stored == "export_records"
    then some export_records
    else if stored == "author_evaluation"
    then some author_evaluation
    else if stored == "review_evaluation"
    then some review_evaluation
    else if stored == "view_assigned_records"
    then some view_assigned_records
    else if stored == "view_own_records"
    then some view_own_records
    else if stored == "acknowledge_own_record"
    then some acknowledge_own_record
    else none

unfoldable pub all : List Capability
all =
    manage_users ∷ manage_retention ∷ manage_programs ∷ assign_training ∷ export_records
    ∷ author_evaluation ∷ review_evaluation ∷ view_assigned_records ∷ view_own_records
    ∷ acknowledge_own_record ∷ []

-- The stored name of a capability parses back to it.
pub parse-as_str : (v : Capability) → parse (as_str v) ≡ some v
unfolding parse as_str
parse-as_str manage_users = refl
parse-as_str _ = refl
