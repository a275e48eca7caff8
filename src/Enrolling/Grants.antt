-- ===== src/Enrolling/Grants.antt =====
-- The grants of `enroll` of crates/consolebook-server/src/enrollments.rs.
use consolebook.Base.{
  ℕ, ◌≡◌, refl, sym, ap, Bool, true, List, [], ◌∷◌, ◌++◌, ==_refl, exists, All, All-map, false, ◌⊎◌,
  arith, Outcome, ok, some, Outcome-cases, Bool-cases, inl, inr, if◌then◌else◌,
}
use text.Mathlib.Text.{◌==◌ as str_eq}
use consolebook.Capability.{user_has, holds, insert_grant}
use consolebook.Capability.Vocabulary.{Capability, assign_training, as_str}
use consolebook.Db.{Db, Grant}
use consolebook.Enrolling.{grant_missing}

-- One of the capabilities.
abbrev pub OneOf : Capability → List Capability → Type 0
OneOf c [] = ⊥
OneOf c (x ∷ xs) = (c ≡ x) ⊎ OneOf c xs

-- A grant to the user, by the actor, of one of the capabilities, which the user did not hold.
pub record Missing (db : Db) (user_id actor now : ℕ) (cs : List Capability) (g : Grant)
    : Type 0 where
  pub to_user : g.user_id ≡ user_id
  pub by_actor : g.granted_by ≡ some actor
  pub at_once : g.granted_at ≡ now
  pub wanted : OneOf g.capability cs
  pub lacked : user_has db user_id g.capability ≡ false

-- More grants, each of a capability that was missing, and nothing else.
pub record Granted (db : Db) (user_id actor now : ℕ) (cs : List Capability) (db' : Db)
    : Type 0 where
  pub new_grants : List Grant
  pub missing : All (Missing db user_id actor now cs) new_grants
  pub written : db' ≡ record db { grants = new_grants ++ db.grants }

insert_grant-appends :
    {E : Type 0} (db : Db) (g : Grant) {db' : Db}
    → insert_grant {E = E} db g ≡ ok db'
    → db' ≡ record db { grants = g ∷ db.grants }
unfolding insert_grant
insert_grant-appends db g h = ground arith

named_alike : (c : Capability) → str_eq (as_str c) (as_str c) ≡ true
unfolding as_str
named_alike assign_training = refl
named_alike _ = refl

exists_later :
    {A : Type 0} (p : A → Bool) (xs ys : List A) → exists p ys ≡ true → exists p (xs ++ ys) ≡ true
unfolding exists
exists_later p [] ys h = h
exists_later p (x ∷ xs) ys h = ground (arith, exists_later p xs ys h)

Granted-keeps :
    {db db' : Db} {user_id actor now : ℕ} {cs : List Capability} (u : ℕ) (c : Capability)
    → Granted db user_id actor now cs db'
    → user_has db u c ≡ true
    → user_has db' u c ≡ true
unfolding user_has
Granted-keeps {db} u c g h = rw (g.written) (exists_later (holds u c) g.new_grants db.grants h)

append_assoc : {A : Type 0} (xs ys zs : List A) → (xs ++ ys) ++ zs ≡ xs ++ (ys ++ zs)
append_assoc [] ys zs = refl
append_assoc (x ∷ xs) ys zs = ap (λ t. x ∷ t) (append_assoc xs ys zs)

All-++ : {A : Type 0} (P : A → Type 0) (xs ys : List A) → All P xs → All P ys → All P (xs ++ ys)
All-++ P [] ys h k = k
All-++ P (x ∷ xs) ys h k = (h.0, All-++ P xs ys h.1 k)

-- What was missing later, from fewer capabilities, was missing.
Missing-earlier :
    {db db₁ : Db} {user_id actor now : ℕ} {c : Capability} {cs : List Capability} (g : Grant)
    → Granted db user_id actor now (c ∷ []) db₁
    → Missing db₁ user_id actor now cs g
    → Missing db user_id actor now (c ∷ cs) g
Missing-earlier {db} {user_id = user_id} g one m = record {
  to_user = m.to_user;
  by_actor = m.by_actor;
  at_once = m.at_once;
  wanted = inr m.wanted;
  lacked = elim (Bool-cases (user_has db user_id g.capability)) [
    | inl t ↦ absurd (cc (Granted-keeps user_id g.capability one t, m.lacked))
    | inr f ↦ f
  ];
}

Missing-wider :
    {db : Db} {user_id actor now : ℕ} {c : Capability} {cs : List Capability} (g : Grant)
    → Missing db user_id actor now (c ∷ []) g
    → Missing db user_id actor now (c ∷ cs) g
Missing-wider g m = record {
  to_user = m.to_user;
  by_actor = m.by_actor;
  at_once = m.at_once;
  wanted = elim (m.wanted) [ inl e ↦ inl e | inr none_left ↦ absurd none_left ];
  lacked = m.lacked;
}

Granted-trans :
    {db₁ db₂ db₃ : Db} {user_id actor now : ℕ} {c : Capability} {cs : List Capability}
    → Granted db₁ user_id actor now (c ∷ []) db₂
    → Granted db₂ user_id actor now cs db₃
    → Granted db₁ user_id actor now (c ∷ cs) db₃
Granted-trans {db₁} g k = record {
  new_grants = k.new_grants ++ g.new_grants;
  missing =
      All-++ _ k.new_grants g.new_grants
        (All-map _ _ k.new_grants (λ x m. Missing-earlier x g m) k.missing)
        (All-map _ _ g.new_grants (λ x m. Missing-wider x m) g.missing);
  written = cc (k.written, g.written, append_assoc k.new_grants g.new_grants db₁.grants);
}

-- One capability of the bundle.
grant_one :
    {E : Type 0} (user_id actor now : ℕ) (c : Capability) (db : Db) {db' : Db}
    → ◌≡◌ {A = Outcome E Db}
        (if user_has db user_id c
          then ok db
          else insert_grant db (record {
            user_id = user_id;
            capability = c;
            granted_at = now;
            granted_by = some actor;
          }))
        (ok db')
    → Granted db user_id actor now (c ∷ []) db' × (user_has db' user_id c ≡ true)
unfolding user_has exists holds
grant_one {E} user_id actor now c db {db'} h = elim (Bool-cases (user_has db user_id c)) [
  | inl t ↦
      let same : db ≡ db' = ground arith in
      (record { new_grants = []; missing = tt; written = sym same }, rw (sym same) t)
  | inr f ↦
      let g : Grant = record {
        user_id = user_id;
        capability = c;
        granted_at = now;
        granted_by = some actor;
      } in
      let w = insert_grant-appends {E = E} db g {db' = db'} (rw f at h) in
      (
        record {
          new_grants = g ∷ [];
          missing = (
            record {
              to_user = refl;
              by_actor = refl;
              at_once = refl;
              wanted = inl refl;
              lacked = f;
            },
            tt,
          );
          written = w;
        },
        rw w (ground (arith, ==_refl user_id, named_alike c)),
      )
]

pub grant_missing-Granted :
    {E : Type 0} (user_id actor now : ℕ) (cs : List Capability) (db : Db) {db' : Db}
    → grant_missing {E = E} user_id actor now cs db ≡ ok db'
    → Granted db user_id actor now cs db' × All (λ c. user_has db' user_id c ≡ true) cs
unfolding grant_missing
grant_missing-Granted user_id actor now [] db {db'} h =
    let same : db ≡ db' = ground arith in
    (record { new_grants = []; missing = tt; written = sym same }, tt)
grant_missing-Granted {E} user_id actor now (c ∷ cs) db {db'} h =
    elim (Outcome-cases {E = E} (
      if user_has db user_id c
      then ok db
      else insert_grant db (record {
        user_id = user_id;
        capability = c;
        granted_at = now;
        granted_by = some actor;
      }))) [
        | inl (db₁, e) ↦
            let (one, has) = grant_one {E = E} user_id actor now c db e in
            let (more, all) =
              grant_missing-Granted {E = E} user_id actor now cs db₁ {db' = db'} (rw e at h) in
            (Granted-trans one more, (Granted-keeps user_id c more has, all))
        | inr (inl e) ↦ absurd (ground arith)
        | inr (inr (x, e)) ↦ absurd (ground arith)
      ]
