-- ===== src/Notice/Flood.antt =====
-- Notices to the holders of a capability, crates/consolebook-server/src/notices.rs: whom they reach, and
-- that they do not pile up.
use text.Mathlib.Text.{◌==◌ as str_eq}
use consolebook.Base.{
  ℕ, ◌+◌, ◌≤◌, ◌≡◌, refl, ap, sym, ◌∙◌, subst, Bool, true, false, not, none, List, [], ◌∷◌, ◌==◌,
  leb, le→leb, ==_refl, eq_of_==, Text, length, map, select, exists, next_id, if◌then◌else◌, ok,
  require-ok, >>=-eq-ok, arith, Bool-cases, inl, inr,
}
use consolebook.Capability.{holds, user_has}
use consolebook.Capability.Vocabulary.{Capability, as_str as capability_name}
use consolebook.Notice.Vocabulary.{NoticeKind, as_str, backup_failed}
use consolebook.Db.{Db, Grant, is_user}
use consolebook.Notice.{
  notify_user, is_unread, has_unread, holders, recipients, notify_all, notify_capability_holders,
}

abbrev pub unread_of : Db → NoticeKind → ℕ → ℕ
unread_of db kind u = length (select (is_unread u kind) db.notices)

abbrev pub times : List ℕ → ℕ → ℕ
times us u = length (select (λ v. v == u) us)

named_alike : (kind : NoticeKind) → str_eq (as_str kind) (as_str kind) ≡ true
unfolding as_str
named_alike backup_failed = refl
named_alike _ = refl

exists-count :
    {A : Type 0} (p : A → Bool) (xs : List A) → exists p xs ≡ leb 1 (length (select p xs))
unfolding exists select
exists-count p [] = refl
exists-count p (x ∷ xs) = ground (arith, exists-count p xs)

times-kept : (q : ℕ → Bool) (u : ℕ) (us : List ℕ) → q u ≡ true → times (select q us) u ≡ times us u
unfolding select
times-kept q u [] h = refl
times-kept q u (v ∷ us) h = elim (Bool-cases (v == u)) [
  | inl e ↦
      let same : q v ≡ true = subst (λ k. q k ≡ true) (sym (eq_of_== v u e)) h in
      rw (same, e, times-kept q u us h) refl
  | inr e ↦ elim (Bool-cases (q v)) [
    | inl f ↦ rw (f, e) (times-kept q u us h)
    | inr f ↦ rw (f, e) (times-kept q u us h)
  ]
]

times-dropped : (q : ℕ → Bool) (u : ℕ) (us : List ℕ) → q u ≡ false → times (select q us) u ≡ 0
unfolding select
times-dropped q u [] h = refl
times-dropped q u (v ∷ us) h = elim (Bool-cases (q v)) [
  | inl f ↦ elim (Bool-cases (v == u)) [
    | inl e ↦
        let same : q v ≡ false = subst (λ k. q k ≡ false) (sym (eq_of_== v u e)) h in absurd (cc)
    | inr e ↦ rw (f, e) (times-dropped q u us h)
  ]
  | inr f ↦ rw f (times-dropped q u us h)
]

no_times : (us : List ℕ) → ((u : ℕ) → times us u ≡ 0) → us ≡ []
unfolding select
no_times [] h = refl
no_times (v ∷ us) h = absurd (ground (arith, h v, ==_refl v))

-- The tables with the notice.
abbrev noticed : ℕ → NoticeKind → Text → ℕ → Db → Db
noticed v kind message now db = record db {
  notices =
      record {
        id = next_id (λ r. r.id) db.notices;
        user_id = v;
        kind = kind;
        message = message;
        created_at = now;
        read_at = none;
      }
      ∷ db.notices;
}

notify_user-count :
    {E : Type 0} (v : ℕ) (kind : NoticeKind) (message : Text) (now : ℕ) (db db' : Db) (u : ℕ)
    → notify_user {E = E} v kind message now db ≡ ok db'
    → (unread_of db' kind u ≡ times (v ∷ []) u + unread_of db kind u) × (db'.grants ≡ db.grants)
unfolding notify_user select is_unread
notify_user-count v kind message now db db' u r =
    let (user, r₁) = require-ok (is_user db v) _ r in
    let whole : noticed v kind message now db ≡ db' = cc in
    subst
      (λ d. (unread_of d kind u ≡ times (v ∷ []) u + unread_of db kind u) × (d.grants ≡ db.grants))
      whole
      (
        elim (Bool-cases (v == u)) [
          | inl e ↦ rw (e, named_alike kind) (omega arith)
          | inr e ↦ rw e (omega arith)
        ],
        refl,
      )

times_cons : (v : ℕ) (us : List ℕ) (u : ℕ) → times (v ∷ us) u ≡ times (v ∷ []) u + times us u
unfolding select
times_cons v us u = elim (Bool-cases (v == u)) [
  | inl e ↦ rw e (omega arith)
  | inr e ↦ rw e (omega arith)
]

notify_all-count :
    {E : Type 0} (us : List ℕ) (kind : NoticeKind) (message : Text) (now : ℕ) (db db' : Db) (u : ℕ)
    → notify_all {E = E} us kind message now db ≡ ok db'
    → (unread_of db' kind u ≡ times us u + unread_of db kind u) × (db'.grants ≡ db.grants)
unfolding notify_all select
notify_all-count [] kind message now db db' u r =
    let same : db ≡ db' = cc in
    subst (λ d. (unread_of d kind u ≡ 0 + unread_of db kind u) × (d.grants ≡ db.grants)) same
      (omega arith, refl)
notify_all-count (v ∷ us) kind message now db db' u r =
    let (db₁, e, r₁) = >>=-eq-ok (notify_user v kind message now db) _ r in
    let first = notify_user-count v kind message now db db₁ u e in
    let rest = notify_all-count us kind message now db₁ db' u r₁ in
    (omega (arith, first.0, rest.0, times_cons v us u), rest.1 ∙ first.1)

-- Who has an unread notice gets none; who has none gets one for every grant.
recipients-count :
    (capability : Capability) (kind : NoticeKind) (db : Db) (u : ℕ)
    → times (recipients capability kind db) u
      ≡ (if has_unread db kind u then 0 else times (holders capability db) u)
unfolding recipients
recipients-count capability kind db u = elim (Bool-cases (has_unread db kind u)) [
  | inl e ↦
      rw e (times-dropped (λ v. not (has_unread db kind v)) u (holders capability db) (ap not e))
  | inr e ↦ rw e (times-kept (λ v. not (has_unread db kind v)) u (holders capability db) (ap not e))
]

has_unread-count :
    (db : Db) (kind : NoticeKind) (u : ℕ) → has_unread db kind u ≡ leb 1 (unread_of db kind u)
unfolding has_unread
has_unread-count db kind u = exists-count (is_unread u kind) db.notices

user_has-times :
    (capability : Capability) (u : ℕ) (grants : List Grant)
    → exists (holds u capability) grants
      ≡ leb 1 (
          times
            (map
              (λ g. g.user_id)
              (select
                (λ g. str_eq (capability_name g.capability) (capability_name capability))
                grants))
            u)
unfolding exists holds select
user_has-times capability u [] = refl
user_has-times capability u (g ∷ grants) = elim (Bool-cases (g.user_id == u)) [
  | inl f ↦ elim (Bool-cases (str_eq (capability_name g.capability) (capability_name capability))) [
    | inl e ↦ rw (e, f) (sym (le→leb 1 _ (omega arith)))
    | inr e ↦ rw (e, f) (user_has-times capability u grants)
  ]
  | inr f ↦ elim (Bool-cases (str_eq (capability_name g.capability) (capability_name capability))) [
    | inl e ↦ rw (e, f) (user_has-times capability u grants)
    | inr e ↦ rw (e, f) (user_has-times capability u grants)
  ]
]

holders_same :
    (capability : Capability) (db db' : Db)
    → db.grants ≡ db'.grants
    → holders capability db ≡ holders capability db'
unfolding holders
holders_same capability db db' h =
    ap
      (λ grants.
        map (λ g. g.user_id)
          (select (λ g. str_eq (capability_name g.capability) (capability_name capability)) grants))
      h

module _ {E : Type 0} (capability : Capability) (kind : NoticeKind) (message : Text) (now : ℕ)
    (db : Db) (n : ℕ) (db' : Db)
    (answered : notify_capability_holders {E = E} capability kind message now db
      ≡ ok (n, db')) where
  after-count :
      (u : ℕ)
      → (unread_of db' kind u ≡ times (recipients capability kind db) u + unread_of db kind u)
        × (db'.grants ≡ db.grants)
  unfolding notify_capability_holders
  after-count u =
      let (db₁, e, r) =
        >>=-eq-ok (notify_all (recipients capability kind db) kind message now db) _ answered in
      let created : ℕ × Db = (length (recipients capability kind db), db₁) in
      let pair : created ≡ (n, db') = cc in
      subst
        (λ d.
          (unread_of d kind u ≡ times (recipients capability kind db) u + unread_of db kind u)
          × (d.grants ≡ db.grants))
        (ap (λ p. p.1) pair)
        (notify_all-count (recipients capability kind db) kind message now db db₁ u e)

  -- For one user: a holder has an unread notice, and no second one.
  reached :
      (u : ℕ)
      → (user_has db u capability ≡ true → has_unread db' kind u ≡ true)
        × (times (holders capability db) u ≤ 1 → unread_of db kind u ≤ 1 → unread_of db' kind u ≤ 1)
  unfolding user_has holders
  reached u =
      let after = after-count u in
      let sent = recipients-count capability kind db u in
      let before = has_unread-count db kind u in
      let later = has_unread-count db' kind u in
      let granted = user_has-times capability u db.grants in
      (
        λ h. ground (arith, after, sent, before, later, granted, h),
        λ one few. ground (arith, after, sent, before, one, few),
      )

  none_left : recipients capability kind db' ≡ []
  unfolding has_unread
  none_left = no_times (recipients capability kind db') (λ u.
      let after = after-count u in
      let sent = recipients-count capability kind db u in
      let sent_again = recipients-count capability kind db' u in
      let before = has_unread-count db kind u in
      let later = has_unread-count db' kind u in
      let same : holders capability db' ≡ holders capability db =
        holders_same capability db' db after.1 in
      ground (arith, after, sent, sent_again, before, later, same))

  -- Every holder has an unread notice of the kind afterwards. A user with one grant of the capability at
  -- most has one at most, if there was one at most before. Until one is read, the same call, with any
  -- message, creates none.
  pub notify_capability_holders-unread :
      ((u : ℕ) → user_has db u capability ≡ true → has_unread db' kind u ≡ true)
      × ((u : ℕ)
          → times (holders capability db) u ≤ 1
          → unread_of db kind u ≤ 1
          → unread_of db' kind u ≤ 1)
      × ((again : Text) (later : ℕ)
          → notify_capability_holders {E = E} capability kind again later db' ≡ ok (0, db'))
  unfolding notify_capability_holders notify_all
  notify_capability_holders-unread =
      (λ u. (reached u).0, λ u. (reached u).1, λ again later. rw none_left refl)
