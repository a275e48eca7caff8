-- ===== src/Finalization/Numbering.antt =====
-- The version numbers of a record in the table that crates/consolebook-server/src/finalization.rs
-- writes, and the status of a sealed record.
use consolebook.Base.{
  ℕ, suc, ◌≤◌, ◌<◌, ◌≡◌, refl, sym, ap, ◌∙◌, true, Option, some, none, List, [], ◌∷◌, All, All-map,
  All-select, max_of, max_of-bound, refused, select, exists, find?, top, top-cons, top-All, next_id,
  length, arith, ok, Bool-cases, inl, inr, ◌==◌, ==_refl, eq_of_==,
}
use consolebook.Amendment.Effect
use consolebook.Amendment.Effect.{Reopening, open_amendment-Reopened}
use consolebook.Canonical.Hex.{Bytes}
use consolebook.Capability.{user_has}
use consolebook.Capability.Vocabulary.{review_evaluation}
use consolebook.Db.{Db, Amendment, EvaluationRecord, EvaluationVersion}
use consolebook.Draft.Status.{
  DraftStatus, load_record, amendment_of, latest_version, later_version, is_finalized, open_scope,
  status_of,
}
use consolebook.Finalization.{VersionMeta, FinalizeRefusal, finalize}
use consolebook.Finalization.Effect.{Sealing, run, sealed_version, finalize-Sealed}
use consolebook.Finalization.Lineage.{latest_of, number_after, Chained, finalize-Chained}

-- The rows of a record, newest first.
abbrev pub rows_of : List EvaluationVersion → ℕ → List EvaluationVersion
rows_of versions r = select (λ v. v.evaluation_record_id == r) versions

-- The numbers count down to 1.
abbrev pub CountsDown : List EvaluationVersion → Type 0
CountsDown [] = Unit
CountsDown (v ∷ older) = (v.version_number ≡ suc (length older)) × CountsDown older

abbrev pub head? : List EvaluationVersion → Option EvaluationVersion
head? [] = none
head? (v ∷ older) = some v

-- The rows of a record are numbered in order, and the latest version is the newest row.
pub record Ordered (versions : List EvaluationVersion) (r : ℕ) : Type 0 where
  pub numbers : CountsDown (rows_of versions r)
  pub latest : latest_of versions r ≡ head? (rows_of versions r)

CountsDown-bound :
    (rows : List EvaluationVersion)
    → CountsDown rows
    → All (λ u. u.version_number ≤ length rows) rows
CountsDown-bound [] c = tt
CountsDown-bound (v ∷ older) c =
    (omega (arith, c.0), All-map _ _ older (λ u b. omega arith) (CountsDown-bound older c.1))

number_after-head? :
    (rows : List EvaluationVersion)
    → CountsDown rows
    → number_after (head? rows) ≡ suc (length rows)
number_after-head? [] c = refl
number_after-head? (v ∷ older) c = ap suc c.0

newest-top :
    (v : EvaluationVersion) (rows : List EvaluationVersion)
    → CountsDown rows
    → v.version_number ≡ suc (length rows)
    → top later_version (v ∷ rows) ≡ some v
unfolding later_version
newest-top v rows c n =
    top-cons later_version v rows (All-map _ _ rows (λ u b. ground arith) (CountsDown-bound rows c))

-- If every version follows its record's latest older one, then the versions of a record, newest row first, carry
-- the numbers n to 1 without a gap, and the latest version is the newest row.
pub Chained-Ordered :
    (sha256 : Bytes → Bytes) (versions : List EvaluationVersion) (r : ℕ)
    → Chained sha256 versions
    → Ordered versions r
unfolding select
Chained-Ordered sha256 [] r c = record { numbers = tt; latest = unfold top in refl }
Chained-Ordered sha256 (v ∷ older) r c =
    let before = Chained-Ordered sha256 older r c.1 in
    elim (Bool-cases (v.evaluation_record_id == r)) [
      | inl t ↦
          let same = eq_of_== v.evaluation_record_id r t in
          let head : latest_of older v.evaluation_record_id ≡ head? (rows_of older r) =
            ap (latest_of older) same ∙ before.latest in
          let known : c.0.before ≡ head? (rows_of older r) = sym c.0.latest ∙ head in
          let n : v.version_number ≡ suc (length (rows_of older r)) =
            c.0.number
            ∙ ap number_after known
            ∙ number_after-head? (rows_of older r) before.numbers in
          record {
            numbers = rw t (n, before.numbers);
            latest = rw t (newest-top v (rows_of older r) before.numbers n);
          }
      | inr f ↦ record { numbers = rw f before.numbers; latest = rw f before.latest }
    ]

-- An amendment targets a version that is there.
pub record Targeted (db : Db) : Type 0 where
  pub targets :
      All (λ a. a.predecessor_version_id ≤ max_of (λ v. v.id) db.evaluation_versions) db.amendments

no_target :
    (n : ℕ) (amendments : List Amendment)
    → All (λ a. a.predecessor_version_id < n) amendments
    → find? (λ a. a.predecessor_version_id == n) amendments ≡ none
unfolding find?
no_target n [] h = refl
no_target n (a ∷ rest) h = ground (arith, no_target n rest h.1)

closed-status :
    (db' : Db) (r : ℕ) (v : EvaluationVersion)
    → is_finalized db' r ≡ true
    → latest_version db' r ≡ some v
    → amendment_of db' v.id ≡ none
    → status_of db' r ≡ DraftStatus.finalized
unfolding status_of open_scope
closed-status db' r v f l a = rw (f, l, a) refl

-- The record is finalized and no amendment reopens it.
pub record Closed (db : Db) (r : ℕ) : Type 0 where
  pub version : EvaluationVersion
  pub final : is_finalized db r ≡ true
  pub latest : latest_version db r ≡ some version
  pub untargeted : amendment_of db version.id ≡ none

pub finalize-Closed :
    (q : Sealing) (answer : VersionMeta) (db' : Db)
    → Chained q.format.sha256 q.db.evaluation_versions
    → Targeted q.db
    → run q ≡ ok (answer, db')
    → Closed db' q.r
unfolding latest_version amendment_of is_finalized exists select next_id
finalize-Closed q answer db' c t h =
    let s = finalize-Sealed q answer db' h in
    let w = s.writing.written in
    let o = Chained-Ordered q.format.sha256 _ q.r (finalize-Chained q answer db' c h) in
    let own = ==_refl q.r in
    record {
      version = sealed_version q s.scope s.bytes s.chain;
      final = rw w (rw own refl);
      latest = o.latest ∙ rw w (rw own refl);
      untargeted = rw w (
          no_target _ q.db.amendments (All-map _ _ q.db.amendments (λ a b. omega arith) t.targets));
    }

-- Where the versions are chained and every amendment targets a version that is there, a sealed record has the
-- status `finalized`.
pub finalize-status :
    (q : Sealing) (answer : VersionMeta) (db' : Db)
    → Chained q.format.sha256 q.db.evaluation_versions
    → Targeted q.db
    → run q ≡ ok (answer, db')
    → status_of db' q.r ≡ DraftStatus.finalized
finalize-status q answer db' c t h =
    let s = finalize-Closed q answer db' c t h in
    closed-status db' q.r s.version s.final s.latest s.untargeted

Closed-refused :
    (q : Sealing) (early : EvaluationRecord)
    → Closed q.db q.r
    → load_record q.seen q.r ≡ some early
    → user_has q.seen q.actor review_evaluation ≡ true
    → run q ≡ refused FinalizeRefusal.already_finalized
unfolding finalize open_scope
Closed-refused q early c k a = rw (k, a, c.final, c.latest, c.untargeted) refl

-- Where the versions are chained and every amendment targets a version that is there, a second request to seal the
-- record that was just sealed, by anyone who may review and knows the record, is refused as already finalized.
pub finalize_again :
    (q : Sealing) (answer : VersionMeta) (db' : Db) (later : Sealing) (early : EvaluationRecord)
    → Chained q.format.sha256 q.db.evaluation_versions
    → Targeted q.db
    → run q ≡ ok (answer, db')
    → later.db ≡ db'
    → later.r ≡ q.r
    → load_record later.seen later.r ≡ some early
    → user_has later.seen later.actor review_evaluation ≡ true
    → run later ≡ refused FinalizeRefusal.already_finalized
finalize_again q answer db' later early c t h d e k a =
    Closed-refused later early (rw (d, e) (finalize-Closed q answer db' c t h)) k a

-- Finalization keeps the amendments' targets among the versions.
pub finalize-Targeted :
    (q : Sealing) (answer : VersionMeta) (db' : Db)
    → Targeted q.db
    → run q ≡ ok (answer, db')
    → Targeted db'
unfolding max_of
finalize-Targeted q answer db' t h =
    let s = finalize-Sealed q answer db' h in
    rw (s.writing.written)
      (record { targets = All-map _ _ q.db.amendments (λ a b. omega arith) t.targets })

-- So does an amendment that is opened.
pub open_amendment-Targeted :
    (q : Reopening) (db' : Db) → Targeted q.db → Effect.run q ≡ ok db' → Targeted db'
unfolding latest_version
open_amendment-Targeted q db' t h =
    let s = open_amendment-Reopened q db' h in
    let there =
      top-All (λ v. v.id ≤ max_of (λ u. u.id) q.db.evaluation_versions) later_version _ s.latest
        (All-select _ (λ v. v.evaluation_record_id == q.r) q.db.evaluation_versions
          (max_of-bound (λ u. u.id) q.db.evaluation_versions))
        s.found in
    rw (s.writing.written) (record { targets = (there, t.targets) })

-- The latest version is the one that was sealed.
pub finalize-latest :
    (q : Sealing) (answer : VersionMeta) (db' : Db)
    → Chained q.format.sha256 q.db.evaluation_versions
    → run q ≡ ok (answer, db')
    → (v : EvaluationVersion) × (latest_version db' q.r ≡ some v)
      × (v.id ≡ next_id (λ u. u.id) q.db.evaluation_versions)
unfolding latest_version select
finalize-latest q answer db' c h =
    let s = finalize-Sealed q answer db' h in
    let w = s.writing.written in
    let o = Chained-Ordered q.format.sha256 _ q.r (finalize-Chained q answer db' c h) in
    let own = ==_refl q.r in
    (sealed_version q s.scope s.bytes s.chain, o.latest ∙ rw w (rw own refl), refl)
