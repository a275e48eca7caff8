-- ===== src/Notice/Reading.antt =====
-- Marking notices read, crates/consolebook-server/src/notices.rs.
use consolebook.Base.{
  ℕ, ◌+◌, ◌≡◌, refl, sym, subst, false, not, List, [], ◌∷◌, ◌==◌, ◌&&◌, length, map, select,
  is_some, if◌then◌else◌, arith, Bool-cases, inl, inr, Distinct, All-map, select_none, ◌≤◌,
}
use consolebook.Db.{Db, Notice}
use consolebook.Notice.{is_markable, mark, mark_read, unread_count}

mark-others :
    (user_id notice_id now other : ℕ) (notices : List Notice)
    → (user_id == other) ≡ false
    → select (λ n. n.user_id == other) (map (mark user_id notice_id now) notices)
      ≡ select (λ n. n.user_id == other) notices
unfolding mark is_markable select
mark-others user_id notice_id now other [] h = refl
mark-others user_id notice_id now other (n ∷ notices) h =
    elim (Bool-cases (is_markable user_id notice_id n)) [
      | inl e ↦
          let own : n.user_id ≡ user_id = ground arith in
          let apart : (n.user_id == other) ≡ false =
            subst (λ u. (u == other) ≡ false) (sym own) h in
          rw (e, apart) (mark-others user_id notice_id now other notices h)
      | inr e ↦ rw (e, mark-others user_id notice_id now other notices h) refl
    ]

-- The unread notices of the user are those that the update names and those that it leaves.
mark-count :
    (user_id notice_id now : ℕ) (notices : List Notice)
    → length (
          select
            (λ n. n.user_id == user_id && not (is_some n.read_at))
            (map (mark user_id notice_id now) notices))
        + length (select (is_markable user_id notice_id) notices)
      ≡ length (select (λ n. n.user_id == user_id && not (is_some n.read_at)) notices)
unfolding mark is_markable select
mark-count user_id notice_id now [] = refl
mark-count user_id notice_id now (n ∷ notices) =
    let ih = mark-count user_id notice_id now notices in
    elim (Bool-cases (n.id == notice_id)) [
      | inl i ↦ elim (Bool-cases (n.user_id == user_id)) [
        | inl u ↦ elim (Bool-cases (is_some n.read_at)) [
          | inl r ↦ rw (i, u, r, u, r) (omega (arith, ih))
          | inr r ↦ rw (i, u, r, u) (omega (arith, ih))
        ]
        | inr u ↦ rw (i, u, u) (omega (arith, ih))
      ]
      | inr i ↦ elim (Bool-cases (n.user_id == user_id && not (is_some n.read_at))) [
        | inl e ↦ rw (i, e) (omega (arith, ih))
        | inr e ↦ rw (i, e) (omega (arith, ih))
      ]
    ]

markable_few :
    (user_id notice_id : ℕ) (notices : List Notice)
    → Distinct (λ n. n.id) notices
    → length (select (is_markable user_id notice_id) notices) ≤ 1
unfolding select is_markable
markable_few user_id notice_id [] h = omega arith
markable_few user_id notice_id (n ∷ notices) h =
    elim (Bool-cases (is_markable user_id notice_id n)) [
      | inl e ↦
          let same : n.id ≡ notice_id = ground arith in
          let rest : select (is_markable user_id notice_id) notices ≡ [] =
            select_none (is_markable user_id notice_id) notices (
              All-map (λ m. (m.id == n.id) ≡ false) (λ m. is_markable user_id notice_id m ≡ false)
                notices
                (λ m f.
                  let apart : (m.id == notice_id) ≡ false =
                    subst (λ k. (m.id == k) ≡ false) same f in
                  rw apart refl)
                h.0) in
          rw (e, rest) (omega arith)
      | inr e ↦ rw e (markable_few user_id notice_id notices h.1)
    ]

-- If an identifier names one notice at most: what `mark_read` answers says whether the user's unread
-- count went down, by one, and the notices of other users are as they were.
pub mark_read-own :
    (user_id notice_id now : ℕ) (db : Db)
    → Distinct (λ n. n.id) db.notices
    → (unread_count db user_id
        ≡ unread_count (mark_read user_id notice_id now db).1 user_id
          + (if (mark_read user_id notice_id now db).0 then 1 else 0))
      × ((other : ℕ)
          → (user_id == other) ≡ false
          → select (λ n. n.user_id == other) (mark_read user_id notice_id now db).1.notices
            ≡ select (λ n. n.user_id == other) db.notices)
unfolding mark_read unread_count
mark_read-own user_id notice_id now db h =
    let count = mark-count user_id notice_id now db.notices in
    let few = markable_few user_id notice_id db.notices h in
    (
      ground (arith, count, few),
      λ other apart. mark-others user_id notice_id now other db.notices apart,
    )
