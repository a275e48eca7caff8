-- ===== src/Finalization/History.antt =====
-- Sequences of writes to the versions and amendments of crates/consolebook-server/src/finalization.rs
-- and amendments.rs.
use consolebook.Base.{ℕ, ◌≡◌, subst, true, Option, some, [], ok}
use consolebook.Amendment.Effect.{Reopening, run as open_run, open_amendment-Reopened}
use consolebook.Db.{Db, EvaluationRecord, EvaluationVersion}
use consolebook.Draft.Access.{may_read}
use consolebook.Draft.Status.{load_record}
use consolebook.Finalization.{Format, VersionMeta, version_at, verify_at}
use consolebook.Finalization.Effect.{Sealing, run as finalize_run}
use consolebook.Finalization.Lineage.{Chained, finalize-Chained}
use consolebook.Finalization.Numbering.{
  Targeted, Ordered, Chained-Ordered, finalize-Targeted, open_amendment-Targeted,
}
use consolebook.Finalization.Verified.{verify_at-Chained}

-- A record is sealed or reopened, or another service writes, which leaves versions and amendments.
pub data Step (f : Format) : Db → Db → Type 0 where
  seal :
      {db db' : Db} (q : Sealing) (answer : VersionMeta)
      → q.format ≡ f
      → q.db ≡ db
      → finalize_run q ≡ ok (answer, db')
      → Step f db db'
  reopen : {db db' : Db} (q : Reopening) → q.db ≡ db → open_run q ≡ ok db' → Step f db db'
  other :
      {db db' : Db}
      → db'.evaluation_versions ≡ db.evaluation_versions
      → db'.amendments ≡ db.amendments
      → Step f db db'

pub data Reach (f : Format) (start : Db) : Db → Type 0 where
  here : Reach f start start
  next : {db db' : Db} → Reach f start db → Step f db db' → Reach f start db'

-- The versions are chained and the amendments target versions.
pub record Kept (f : Format) (db : Db) : Type 0 where
  pub chained : Chained f.sha256 db.evaluation_versions
  pub targeted : Targeted db

Step-Kept : {f : Format} {db db' : Db} → Step f db db' → Kept f db → Kept f db'
Step-Kept {f} {db} {db'} (seal q answer same at h) k = record {
  chained =
      subst (λ g. Chained g.sha256 db'.evaluation_versions) same
        (finalize-Chained q answer _ (rw (same, at) (k.chained)) h);
  targeted = finalize-Targeted q answer _ (rw at (k.targeted)) h;
}
Step-Kept (reopen q at h) k =
    let w = (open_amendment-Reopened q _ h).writing.written in
    record {
      chained = rw (w, at) (k.chained);
      targeted = open_amendment-Targeted q _ (rw at (k.targeted)) h;
    }
Step-Kept (other v a) k = record {
  chained = rw v (k.chained);
  targeted = record { targets = rw (v, a) (k.targeted.targets) };
}

Reach-Kept : {f : Format} {start db : Db} → Kept f start → Reach f start db → Kept f db
Reach-Kept k here = k
Reach-Kept k (next r s) = Step-Kept s (Reach-Kept k r)

empty-Kept : (f : Format) (db : Db) → db.evaluation_versions ≡ [] → db.amendments ≡ [] → Kept f db
empty-Kept f db v a = record { chained = rw v tt; targeted = record { targets = rw a tt } }

-- From a database without versions and amendments, whatever sequence of sealing, reopening and writes of
-- other services follows: verifying a version of a record, for an actor who may read the record, answers that the
-- content hash and the chain hash match.
pub Reach-verify_at :
    (f : Format) (start db : Db) (actor r : ℕ) (number : Option ℕ) (v : EvaluationVersion)
    (row : EvaluationRecord)
    → start.evaluation_versions ≡ []
    → start.amendments ≡ []
    → Reach f start db
    → load_record db r ≡ some row
    → may_read db actor row ≡ true
    → version_at db r number ≡ some v
    → verify_at f db actor r number
      ≡ ok (some (record { content_hash_ok = true; chain_hash_ok = true }))
Reach-verify_at f start db actor r number v row e a reach found reads at =
    let k = Reach-Kept (empty-Kept f start e a) reach in
    verify_at-Chained f db actor r number v row k.chained found reads at

-- On the way the versions of each record, newest row first, carry the numbers n to 1, and the latest version is
-- the newest row.
pub Reach-Ordered :
    (f : Format) (start db : Db) (r : ℕ)
    → start.evaluation_versions ≡ []
    → start.amendments ≡ []
    → Reach f start db
    → Ordered db.evaluation_versions r
Reach-Ordered f start db r e a reach =
    Chained-Ordered f.sha256 db.evaluation_versions r
      (Reach-Kept (empty-Kept f start e a) reach).chained
