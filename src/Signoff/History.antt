-- ===== src/Signoff/History.antt =====
-- Who may sign, and what `record` of crates/consolebook-server/src/task_signoffs.rs writes.
use consolebook.Base.{
  ℕ, ◌≡◌, Bool, true, false, some, ◌∷◌, ◌&&◌, ◌||◌, Text, trim, next_id, arith, ok, Option-cases,
  Bool-cases, inl, inr,
}
use consolebook.Audit.{record_for_subject}
use consolebook.Capability.{user_has}
use consolebook.Capability.Vocabulary.{assign_training, author_evaluation, review_evaluation}
use consolebook.Assignment.{is_assigned}
use consolebook.Db.{Db, User, Signoff, SignoffKind, user_of}
use consolebook.Signoff.{has_signoff, insert_signoff, record_signoff}

-- The row that is written.
abbrev pub new_signoff : Db → User → (now actor e task : ℕ) → SignoffKind → Text → Signoff
new_signoff db signer now actor e task kind reason = record {
  id = next_id (λ s. s.id) db.signoffs;
  enrollment_id = e;
  task_id = task;
  kind = kind;
  reason = trim reason;
  signed_by = actor;
  signed_by_display_name = signer.display_name;
  signed_at = now;
}

-- Who may sign: a reviewer over earlier rows, a coordinator or an assigned author otherwise.
abbrev pub is_entitled : Db → Db → (actor e task : ℕ) → Bool
is_entitled seen db actor e task = elim (has_signoff db.signoffs e task) [
  | true ↦ user_has seen actor review_evaluation
  | false ↦
      user_has seen actor assign_training
      || (user_has seen actor author_evaluation && is_assigned seen actor e)
]

recorded :
    (seen db : Db) (now actor e task : ℕ) (kind : SignoffKind) (reason : Text) (db' : Db)
    (signer : User)
    → user_of db actor ≡ some signer
    → record_signoff seen db now actor e task kind reason ≡ ok db'
    → db'.signoffs ≡ new_signoff db signer now actor e task kind reason ∷ db.signoffs
unfolding record_signoff insert_signoff record_for_subject
recorded seen db now actor e task kind reason db' signer named h =
    elim (Bool-cases (has_signoff db.signoffs e task)) [
      | inl t ↦ ground arith
      | inr t ↦ ground arith
    ]

-- A signoff that is answered was the actor's to give, a reviewer's over earlier rows of the task and a
-- coordinator's or an assigned author's otherwise, and exactly its row is added, under the actor's name.
pub record_signoff-entitled :
    (seen db : Db) (now actor e task : ℕ) (kind : SignoffKind) (reason : Text) (db' : Db)
    → record_signoff seen db now actor e task kind reason ≡ ok db'
    → (is_entitled seen db actor e task ≡ true)
      × (signer : User) × (user_of db actor ≡ some signer)
      × (db'.signoffs ≡ new_signoff db signer now actor e task kind reason ∷ db.signoffs)
unfolding record_signoff
record_signoff-entitled seen db now actor e task kind reason db' h =
    elim (Option-cases (user_of db actor)) [
      | inl none_there ↦ absurd (ground arith)
      | inr (signer, named) ↦ (
        ground arith,
        signer,
        named,
        recorded seen db now actor e task kind reason db' signer named h,
      )
    ]
