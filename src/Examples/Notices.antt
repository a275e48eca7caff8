-- ===== src/Examples/Notices.antt =====
-- Notices of the agency: crates/consolebook-server/src/notices.rs.
use consolebook.Notice
use consolebook.Capability
use consolebook.Db
use consolebook.Base
use consolebook.Base.{
  ℕ, ◌+◌, ◌≤◌, ◌≡◌, refl, true, false, ok, codes, Text, Outcome, length, select, ◌==◌, arith,
  Distinct, if◌then◌else◌,
}
use consolebook.Capability.{user_has}
use consolebook.Capability.Vocabulary.{review_evaluation}
use consolebook.Notice.{notify_capability_holders, holders, has_unread, mark_read, unread_count}
use consolebook.Notice.Flood.{times, unread_of, notify_capability_holders-unread}
use consolebook.Notice.Reading.{mark_read-own}
use consolebook.Notice.Vocabulary.{backup_failed}
use consolebook.Db.{Db}
use consolebook.Examples.{agency, state_after, reviewer}

-- A backup failed.
abbrev told : Outcome Unit (ℕ × Db)
told = notify_capability_holders review_evaluation backup_failed (codes "disk full") 100 agency

abbrev alarmed : Db
alarmed = state_after told agency

told_answer :
    notify_capability_holders {E = Unit} review_evaluation backup_failed
      (codes "disk full")
      100
      agency
    ≡ ok (1, alarmed)
unfolding Base.select Base.exists Base.find? Base.max_of Base.max? Base.next_id Base.pick Base.top
    Base.is_white Base.trim_start Base.trim Db.user_of Db.is_user Db.is_user? Db.enrollment_of
    Db.version_of Capability.bundle_capabilities Capability.holds Capability.user_has
    Capability.insert_grant Capability.grant_bundle consolebook.Capability.Vocabulary.as_str
    consolebook.Audit.record_for_subject Notice.notify_user Notice.is_unread Notice.has_unread
    Notice.holders Notice.recipients Notice.notify_all Notice.notify_capability_holders
    Notice.unread_count Notice.is_markable Notice.mark Notice.mark_read
    consolebook.Notice.Vocabulary.as_str
told_answer = refl

notify_capability_holders-unread_example :
    ((u : ℕ)
      → user_has agency u review_evaluation ≡ true
      → has_unread alarmed backup_failed u ≡ true)
    × ((u : ℕ)
        → times (holders review_evaluation agency) u ≤ 1
        → unread_of agency backup_failed u ≤ 1
        → unread_of alarmed backup_failed u ≤ 1)
    × ((again : Text) (later : ℕ)
        → notify_capability_holders {E = Unit} review_evaluation backup_failed again later alarmed
          ≡ ok (0, alarmed))
notify_capability_holders-unread_example =
    notify_capability_holders-unread review_evaluation backup_failed (codes "disk full") 100 agency
      1 alarmed told_answer

alarmed-Distinct : Distinct (λ n. n.id) alarmed.notices
unfolding Base.select Base.exists Base.find? Base.max_of Base.max? Base.next_id Base.pick Base.top
    Base.is_white Base.trim_start Base.trim Db.user_of Db.is_user Db.is_user? Db.enrollment_of
    Db.version_of Capability.bundle_capabilities Capability.holds Capability.user_has
    Capability.insert_grant Capability.grant_bundle consolebook.Capability.Vocabulary.as_str
    consolebook.Audit.record_for_subject Notice.notify_user Notice.is_unread Notice.has_unread
    Notice.holders Notice.recipients Notice.notify_all Notice.notify_capability_holders
    Notice.unread_count Notice.is_markable Notice.mark Notice.mark_read
    consolebook.Notice.Vocabulary.as_str
alarmed-Distinct = (tt, tt)

mark_read-own_example :
    (unread_count alarmed reviewer
      ≡ unread_count (mark_read reviewer 1 110 alarmed).1 reviewer
        + (if (mark_read reviewer 1 110 alarmed).0 then 1 else 0))
    × ((other : ℕ)
        → (reviewer == other) ≡ false
        → select (λ n. n.user_id == other) (mark_read reviewer 1 110 alarmed).1.notices
          ≡ select (λ n. n.user_id == other) alarmed.notices)
mark_read-own_example = mark_read-own reviewer 1 110 alarmed alarmed-Distinct
