-- ===== src/Finalization/Lineage.antt =====
-- The chain of a record's versions, in the table that crates/consolebook-server/src/finalization.rs
-- writes.
use consolebook.Base.{
  ℕ, suc, ◌<◌, ◌≡◌, refl, Bool, false, Option, some, none, List, [], ◌∷◌, All, All-map,
  max_of-bound, select, exists, top, next_id, Text, arith, ok, Bool-cases, Option-cases, inl, inr,
  ◌==◌,
}
use consolebook.Amendment.{version_id}
use consolebook.Canonical.{content_hash_hex, chain_hash_hex}
use consolebook.Canonical.Hex.{Bytes}
use consolebook.Db.{Db, EvaluationVersion}
use consolebook.Draft.Status.{
  OpenAmendment, amendment_of, latest_version, later_version, is_finalized, open_scope,
}
use consolebook.Finalization.{VersionMeta, reopened, next_number, predecessor_of, predecessor_hash}
use consolebook.Finalization.Effect.{Sealing, run, finalize-Sealed}

-- The latest of the rows of a record.
abbrev pub latest_of : List EvaluationVersion → ℕ → Option EvaluationVersion
latest_of versions r = top later_version (select (λ v. v.evaluation_record_id == r) versions)

abbrev pub number_after : Option EvaluationVersion → ℕ
number_after none = 1
number_after (some u) = suc u.version_number

abbrev pub hash_of : Option EvaluationVersion → Option Text
hash_of none = none
hash_of (some u) = some u.content_hash

-- A version follows its record's latest one among the older rows: in its number, its predecessor and its
-- chain hash. Its content hash is that of its bytes.
pub record Link (sha256 : Bytes → Bytes) (older : List EvaluationVersion) (v : EvaluationVersion)
    : Type 0 where
  pub fresh : All (λ u. u.id < v.id) older
  pub before : Option EvaluationVersion
  pub latest : latest_of older v.evaluation_record_id ≡ before
  pub content : v.content_hash ≡ content_hash_hex sha256 v.canonical_bytes
  pub number : v.version_number ≡ number_after before
  pub predecessor : v.predecessor_id ≡ version_id before
  pub chain : chain_hash_hex sha256 (hash_of before) v.canonical_bytes ≡ some v.chain_hash

abbrev pub Chained : (Bytes → Bytes) → List EvaluationVersion → Type 0
Chained sha256 [] = Unit
Chained sha256 (v ∷ older) = Link sha256 older v × Chained sha256 older

select_absent : {A : Type 0} (p : A → Bool) (xs : List A) → exists p xs ≡ false → select p xs ≡ []
unfolding select exists
select_absent p [] h = refl
select_absent p (x ∷ xs) h = elim (Bool-cases (p x)) [
  | inl t ↦ absurd (ground arith)
  | inr t ↦ rw t (select_absent p xs (ground arith))
]

-- The open amendment that finalization extends from targets the latest version, and there is none for a
-- record without versions.
record Follows (db : Db) (r : ℕ) (scope : Option OpenAmendment) : Type 0 where
  before : Option EvaluationVersion
  latest : latest_version db r ≡ before
  number : next_number scope ≡ number_after before
  predecessor : predecessor_of scope ≡ version_id before
  hash : predecessor_hash scope ≡ hash_of before

reopened-Follows :
    (db : Db) (r : ℕ) (scope : Option OpenAmendment)
    → reopened (is_finalized db r) (open_scope db r) ≡ ok scope
    → Follows db r scope
unfolding is_finalized open_scope latest_version top
reopened-Follows db r scope h = elim (Bool-cases (is_finalized db r)) [
  | inr f ↦
      let new : scope ≡ none = ground arith in
      let absent = select_absent (λ v. v.evaluation_record_id == r) db.evaluation_versions f in
      rw new (record {
        before = none;
        latest = rw (absent, top) refl;
        number = refl;
        predecessor = refl;
        hash = refl;
      })
  | inl t ↦ elim (Option-cases (latest_version db r)) [
    | inl e ↦ absurd (ground arith)
    | inr (v, e) ↦ elim (Option-cases (amendment_of db v.id)) [
      | inl g ↦ absurd (ground arith)
      | inr (a, g) ↦ record {
        before = some v;
        latest = e;
        number = ground arith;
        predecessor = ground arith;
        hash = ground arith;
      }
    ]
  ]
]

-- Every version's content hash, chain hash, number and predecessor are kept consistent by finalization: if every
-- version of the table follows its record's latest older version, so does every version afterwards.
pub finalize-Chained :
    (q : Sealing) (answer : VersionMeta) (db' : Db)
    → Chained q.format.sha256 q.db.evaluation_versions
    → run q ≡ ok (answer, db')
    → Chained q.format.sha256 db'.evaluation_versions
unfolding next_id latest_version
finalize-Chained q answer db' c h =
    let s = finalize-Sealed q answer db' h in
    let f = reopened-Follows q.db q.r s.scope s.cycle in
    let link : Link q.format.sha256 q.db.evaluation_versions _ = record {
      fresh =
          All-map _ _ q.db.evaluation_versions (λ u b. omega arith)
            (max_of-bound (λ v. v.id) q.db.evaluation_versions);
      before = f.before;
      latest = f.latest;
      content = refl;
      number = f.number;
      predecessor = f.predecessor;
      chain = rw (← f.hash) s.chained;
    } in
    rw (s.writing.written) (link, c)
