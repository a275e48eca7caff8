-- ===== src/Assignment/Scope.antt =====
-- Who is in scope after `create` and `end` of crates/consolebook-server/src/assignments.rs.
use consolebook.Base.{
  ℕ, ◌≡◌, refl, subst, Bool, true, false, some, none, List, [], ◌∷◌, ◌==◌, eq_of_==, ==_refl, find?,
  find?-sound, exists, arith, ok, Option-cases, Bool-cases, inl, inr, next_id,
}
use consolebook.Audit.{record_for_subject}
use consolebook.Notice.{notify_user}
use consolebook.Db.{Db, Assignment}
use consolebook.Assignment.{is_open, assigned_to, is_assigned}
use consolebook.Assignment.Service.{
  insert_assignment, create, assignment_of, set_ended, update_ended, end,
}

-- An enrollment has at most one open assignment of a trainer (the index
-- `training_assignment_active_unique`).
abbrev pub OneOpen : List Assignment → Type 0
OneOpen [] = Unit
OneOpen (a ∷ rest) =
    (is_open a.ended_at ≡ true
      → exists (assigned_to a.trainer_user_id a.enrollment_id) rest ≡ false)
    × OneOpen rest

-- Ending assigns nobody.
ended-none :
    (id now actor user_id e : ℕ) (rows : List Assignment)
    → exists (assigned_to user_id e) rows ≡ false
    → exists (assigned_to user_id e) (set_ended id now actor rows) ≡ false
unfolding exists assigned_to set_ended
ended-none id now actor user_id e [] h = refl
ended-none id now actor user_id e (a ∷ rest) h =
    let tail = ended-none id now actor user_id e rest (ground arith) in
    elim (Bool-cases (a.id == id)) [ inl t ↦ ground (arith, tail) | inr t ↦ ground (arith, tail) ]

pub set_ended-OneOpen :
    (id now actor : ℕ) (rows : List Assignment)
    → OneOpen rows
    → OneOpen (set_ended id now actor rows)
unfolding set_ended
set_ended-OneOpen id now actor [] h = tt
set_ended-OneOpen id now actor (a ∷ rest) h = elim (Bool-cases (a.id == id)) [
  | inl t ↦ rw t ((λ c. absurd (ground arith)), set_ended-OneOpen id now actor rest h.1)
  | inr t ↦ rw t (
    (λ c. ended-none id now actor a.trainer_user_id a.enrollment_id rest (h.0 c)),
    set_ended-OneOpen id now actor rest h.1,
  )
]

find?-exists :
    {A : Type 0} (p q : A → Bool) (xs : List A) (a : A)
    → find? p xs ≡ some a
    → q a ≡ true
    → exists q xs ≡ true
unfolding find? exists
find?-exists p q [] a found h = absurd (ground arith)
find?-exists p q (x ∷ xs) a found h = elim (Bool-cases (p x)) [
  | inl t ↦ let same : x ≡ a = ground arith in rw same (rw h refl)
  | inr t ↦ ground (arith, find?-exists p q xs a (ground arith) h)
]

-- When the open assignment ends, none is left.
ended-scope :
    (id now actor : ℕ) (rows : List Assignment) (a : Assignment)
    → OneOpen rows
    → find? (λ x. x.id == id) rows ≡ some a
    → is_open a.ended_at ≡ true
    → exists (assigned_to a.trainer_user_id a.enrollment_id) (set_ended id now actor rows) ≡ false
unfolding find? exists set_ended assigned_to
ended-scope id now actor [] a one found o = absurd (ground arith)
ended-scope id now actor (x ∷ rest) a one found o = elim (Bool-cases (x.id == id)) [
  | inl t ↦
      let same : x ≡ a = ground arith in
      let gone = ended-none id now actor a.trainer_user_id a.enrollment_id rest (
        subst
          (λ (b : Assignment). exists (assigned_to b.trainer_user_id b.enrollment_id) rest ≡ false)
          same (one.0 (rw same o))) in
      ground (arith, gone)
  | inr t ↦
      let rest_found : find? (λ x. x.id == id) rest ≡ some a = ground arith in
      let gone = ended-scope id now actor rest a one.1 rest_found o in
      elim (Bool-cases (assigned_to a.trainer_user_id a.enrollment_id x)) [
        | inl c ↦
            let other : exists (assigned_to x.trainer_user_id x.enrollment_id) rest ≡ true =
              find?-exists _ _ rest a rest_found (ground arith) in
            absurd (ground (arith, other, one.0))
        | inr c ↦ ground (arith, gone)
      ]
]

ended-assignments :
    (seen db : Db) (now actor id : ℕ) (db' : Db)
    → end seen db now actor id ≡ ok db'
    → (a : Assignment) × (assignment_of db id ≡ some a)
      × (is_open a.ended_at ≡ true)
      × (db'.assignments ≡ set_ended a.id now actor db.assignments)
unfolding end update_ended record_for_subject
ended-assignments seen db now actor id db' h = elim (Option-cases (assignment_of db id)) [
  | inl e ↦ absurd (ground arith)
  | inr (a, e) ↦ (a, e, ground arith, ground arith)
]

assigned_to-own :
    (a : Assignment)
    → is_open a.ended_at ≡ true
    → assigned_to a.trainer_user_id a.enrollment_id a ≡ true
unfolding assigned_to
assigned_to-own a h = ground (arith, ==_refl a.trainer_user_id, ==_refl a.enrollment_id)

-- If a trainer has at most one open assignment per enrollment, ending one takes the trainer out of scope:
-- `is_assigned` held of the enrollment before and does not afterwards.
pub end-scope :
    (seen db : Db) (now actor id : ℕ) (db' : Db)
    → OneOpen db.assignments
    → end seen db now actor id ≡ ok db'
    → (a : Assignment) × (assignment_of db id ≡ some a)
      × (is_assigned db a.trainer_user_id a.enrollment_id ≡ true)
      × (is_assigned db' a.trainer_user_id a.enrollment_id ≡ false)
unfolding is_assigned assignment_of
end-scope seen db now actor id db' one h =
    let (a, found, open_then, rows) = ended-assignments seen db now actor id db' h in
    let named : a.id ≡ id = eq_of_== _ _ (find?-sound _ db.assignments a found) in
    (
      a,
      found,
      find?-exists _ _ db.assignments a found (assigned_to-own a open_then),
      rw (rows, named) (ended-scope id now actor db.assignments a one found open_then),
    )

-- If a trainer has at most one open assignment per enrollment, so it is after an assignment ends.
pub end-OneOpen :
    (seen db : Db) (now actor id : ℕ) (db' : Db)
    → OneOpen db.assignments
    → end seen db now actor id ≡ ok db'
    → OneOpen db'.assignments
end-OneOpen seen db now actor id db' one h =
    let (a, found, open_then, rows) = ended-assignments seen db now actor id db' h in
    rw rows (set_ended-OneOpen a.id now actor db.assignments one)

created-assignments :
    (seen db : Db) (now actor e trainer id : ℕ) (db' : Db)
    → create seen db now actor e trainer ≡ ok (id, db')
    → (is_assigned db trainer e ≡ false)
      × (db'.assignments
          ≡ record {
            id = next_id (λ a. a.id) db.assignments;
            enrollment_id = e;
            trainer_user_id = trainer;
            assigned_at = now;
            assigned_by = some actor;
            ended_at = none;
            ended_by = none;
          }
            ∷ db.assignments)
unfolding create insert_assignment record_for_subject notify_user
created-assignments seen db now actor e trainer id db' h = (ground arith, ground arith)

-- If a trainer has at most one open assignment per enrollment, so it is after one is created, and the
-- trainer is then in scope of the enrollment and was not before.
pub create-scope :
    (seen db : Db) (now actor e trainer id : ℕ) (db' : Db)
    → OneOpen db.assignments
    → create seen db now actor e trainer ≡ ok (id, db')
    → (is_assigned db trainer e ≡ false)
      × (is_assigned db' trainer e ≡ true)
      × OneOpen db'.assignments
unfolding is_assigned exists assigned_to
create-scope seen db now actor e trainer id db' one h =
    let (before, rows) = created-assignments seen db now actor e trainer id db' h in
    (before, rw rows (ground (arith, ==_refl e, ==_refl trainer)), rw rows ((λ _. before), one))
