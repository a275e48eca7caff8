-- ===== src/Draft/Creation/Coverage.antt =====
-- The coverage of sessions and the status after `create` of
-- crates/consolebook-server/src/evaluation_drafts.rs.
use consolebook.Base.{
  ℕ, ◌≤◌, ◌≡◌, refl, ap, Bool, false, List, [], ◌∷◌, ◌==◌, exists, max_of, next_id, All, All-map,
  Distinct, arith, ok, none,
}
use consolebook.Db.{Db, created}
use consolebook.Draft.Status.{draft, status_of, is_finalized, cycle_status}
use consolebook.Draft.Creation.Effect.{Starting, run, new_record, create-Created}
use consolebook.Draft.Cycle.{latest_contribution-fresh}
use consolebook.Draft.Writes.{next_contribution}

uncovered :
    {A : Type 0} (key : A → ℕ) (n : ℕ) (xs : List A)
    → exists (λ x. key x == n) xs ≡ false
    → All (λ x. (key x == n) ≡ false) xs
unfolding exists
uncovered key n [] h = tt
uncovered key n (x ∷ xs) h = (ground arith, uncovered key n xs (ground arith))

-- If every session has at most one record that covers it, so it has after a draft is created.
pub create-Distinct :
    (q : Starting) (id : ℕ) (db' : Db)
    → Distinct (λ es. es.training_session_id) q.db.coverage
    → run q ≡ ok (id, db')
    → Distinct (λ es. es.training_session_id) db'.coverage
create-Distinct q id db' d h =
    let c = create-Created q id db' h in
    rw (ap (λ (x : Db). x.coverage) c.writing.written)
      (uncovered (λ es. es.training_session_id) q.session q.db.coverage c.admitted.undocumented, d)

none_covers :
    {A : Type 0} (p : A → Bool) (xs : List A) → All (λ x. p x ≡ false) xs → exists p xs ≡ false
unfolding exists
none_covers p [] h = refl
none_covers p (x ∷ xs) h = ground (arith, h.0, none_covers p xs h.1)

-- If finalized versions are of records that are there, a new draft has the status `draft`.
pub create-status :
    (q : Starting) (id : ℕ) (db' : Db)
    → All
        (λ v. v.evaluation_record_id ≤ max_of (λ row. row.id) q.db.records)
        q.db.evaluation_versions
    → run q ≡ ok (id, db')
    → status_of db' id ≡ draft
unfolding status_of cycle_status is_finalized next_id
create-status q id db' v h =
    let c = create-Created q id db' h in
    let w = c.writing.written in
    let r = (new_record q c.s c.form_id).id in
    let fresh : is_finalized q.db r ≡ false =
      none_covers _ q.db.evaluation_versions
        (All-map _ _ q.db.evaluation_versions (λ x b. ground arith) v) in
    let newest =
      latest_contribution-fresh (next_contribution q.db r created q.actor none q.now)
        q.db.contributor_events 0 refl (omega arith) in
    rw
      (
        c.identified,
        ap (λ (x : Db). x.evaluation_versions) w,
        fresh,
        ap (λ (x : Db). x.contributor_events) w,
        newest,
      )
      refl
