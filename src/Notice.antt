-- ===== src/Notice.antt =====
-- crates/consolebook-server/src/notices.rs: notices to users.
pub mod Vocabulary
pub mod Flood
pub mod Reading
use text.Mathlib.Text.{◌==◌ as str_eq}
use consolebook.Base.{
  ℕ, Bool, not, none, some, List, [], ◌∷◌, ◌&&◌, ◌==◌, Text, length, map, select, exists, is_some,
  next_id, if◌then◌else◌, Outcome, ok, refused, failed, require, ◌>>=◌, ◌>>◌,
}
use consolebook.Capability.Vocabulary.{Capability, as_str as capability_name}
use consolebook.Notice.Vocabulary.{NoticeKind, as_str}
use consolebook.Db.{Db, Notice, Grant, is_user}

unfoldable pub notify_user : {E : Type 0} → ℕ → NoticeKind → Text → ℕ → Db → Outcome E Db
notify_user user_id kind message now db = do
  require (is_user db user_id)
  ok (record db {
    notices =
        record {
          id = next_id (λ r. r.id) db.notices;
          user_id = user_id;
          kind = kind;
          message = message;
          created_at = now;
          read_at = none;
        }
        ∷ db.notices;
  })

-- An unread notice of the kind, which is stored by name.
unfoldable pub is_unread : ℕ → NoticeKind → Notice → Bool
is_unread user_id kind n =
    n.user_id == user_id && (str_eq (as_str n.kind) (as_str kind) && not (is_some n.read_at))

unfoldable pub has_unread : Db → NoticeKind → ℕ → Bool
unfolding is_unread
has_unread db kind user_id = exists (is_unread user_id kind) db.notices

-- The users of the grants of the capability.
unfoldable pub holders : Capability → Db → List ℕ
holders capability db =
    map (λ g. g.user_id)
      (select (λ g. str_eq (capability_name g.capability) (capability_name capability)) db.grants)

-- The rows that the SELECT answers, before the first is inserted.
unfoldable pub recipients : Capability → NoticeKind → Db → List ℕ
unfolding holders has_unread
recipients capability kind db = select (λ u. not (has_unread db kind u)) (holders capability db)

unfoldable pub notify_all : {E : Type 0} → List ℕ → NoticeKind → Text → ℕ → Db → Outcome E Db
unfolding notify_user
notify_all [] kind message now db = ok db
notify_all (u ∷ us) kind message now db = do
  db₁ ← notify_user u kind message now db
  notify_all us kind message now db₁

-- The number of notices that were created, and the tables after it.
unfoldable pub notify_capability_holders :
    {E : Type 0} → Capability → NoticeKind → Text → ℕ → Db → Outcome E (ℕ × Db)
unfolding recipients notify_all
notify_capability_holders capability kind message now db = do
  let us = recipients capability kind db
  db₁ ← notify_all us kind message now db
  ok (length us, db₁)

unfoldable pub unread_count : Db → ℕ → ℕ
unread_count db user_id =
    length (select (λ n. n.user_id == user_id && not (is_some n.read_at)) db.notices)

-- The rows that the UPDATE names.
unfoldable pub is_markable : ℕ → ℕ → Notice → Bool
is_markable user_id notice_id n =
    n.id == notice_id && (n.user_id == user_id && not (is_some n.read_at))

unfoldable pub mark : ℕ → ℕ → ℕ → Notice → Notice
unfolding is_markable
mark user_id notice_id now n =
    if is_markable user_id notice_id n then record n { read_at = some now } else n

unfoldable pub mark_read : ℕ → ℕ → ℕ → Db → Bool × Db
unfolding mark is_markable
mark_read user_id notice_id now db = (
  length (select (is_markable user_id notice_id) db.notices) == 1,
  record db { notices = map (mark user_id notice_id now) db.notices },
)
