-- ===== src/Assignment.antt =====
-- crates/consolebook-server/src/assignments.rs: trainers assigned to enrollments.
pub mod Service
pub mod Scope
use consolebook.Base.{ℕ, Bool, true, false, Option, some, none, List, ◌&&◌, ◌==◌, exists}
use consolebook.Db.{Db, Assignment}

abbrev pub is_open : Option ℕ → Bool
is_open none = true
is_open (some t) = false

unfoldable pub assigned_to : ℕ → ℕ → Assignment → Bool
assigned_to user_id e a = a.enrollment_id == e && a.trainer_user_id == user_id && is_open a.ended_at

-- Whether the user holds an active assignment on the enrollment.
unfoldable pub is_assigned : Db → ℕ → ℕ → Bool
is_assigned db user_id e = exists (assigned_to user_id e) db.assignments
