-- ===== src/Db/Facts.antt =====
-- Facts about the rows that a key names.
use consolebook.Base.{ℕ, ◌≡◌, some, All, find?-All, find?-sound, eq_of_==}
use consolebook.Db.{Db, Enrollment, enrollment_of}

pub enrollment_of-All {ℓ} :
    (P : Enrollment → Type ℓ) (db : Db) (e : ℕ) (row : Enrollment)
    → All P db.enrollments
    → enrollment_of db e ≡ some row
    → P row
unfolding enrollment_of
enrollment_of-All P db e row h found = find?-All P _ db.enrollments row h found

pub enrollment_of-id :
    (db : Db) (e : ℕ) (row : Enrollment) → enrollment_of db e ≡ some row → row.id ≡ e
unfolding enrollment_of
enrollment_of-id db e row found = eq_of_== row.id e (find?-sound _ db.enrollments row found)
