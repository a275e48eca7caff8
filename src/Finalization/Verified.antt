-- ===== src/Finalization/Verified.antt =====
-- `verify_at` of crates/consolebook-server/src/finalization.rs on the versions that `finalize` writes.
use consolebook.Base.{
  ℕ, ◌<◌, ◌≡◌, refl, true, Option, some, none, List, [], ◌∷◌, All, All-map, All-select, select,
  find?, find?-All, find?-sound, eq_of_==, All-both, top-All, Text, arith, ok, ◌==◌, ==_refl,
}
use consolebook.Amendment.{version_id}
use consolebook.Canonical.{content_hash_hex, chain_hash_hex}
use consolebook.Canonical.Hex.{Bytes}
use consolebook.Db.{Db, EvaluationRecord, EvaluationVersion}
use consolebook.Draft.Access.{may_read}
use consolebook.Draft.Status.{later_version, load_record}
use consolebook.Finalization.{
  Format, Verification, version_at, same_text, stored_predecessor_hash, verify_version, verify_at,
}
use consolebook.Finalization.Lineage.{latest_of, hash_of, Chained, Link}

same_text_refl : (s : Text) → same_text s s ≡ true
unfolding same_text
same_text_refl [] = refl
same_text_refl (c ∷ s) = rw (==_refl c) (same_text_refl s)

-- The row that an identifier names, for the predecessor of a version.
abbrev Resolves : List EvaluationVersion → Option ℕ → Option EvaluationVersion → Type 0
Resolves versions none none = Unit
Resolves versions none (some u) = ⊥
Resolves versions (some p) none = ⊥
Resolves versions (some p) (some u) = find? (λ v. v.id == p) versions ≡ some u

-- What `verify_at` recomputes is what is stored.
record Verifiable (sha256 : Bytes → Bytes) (versions : List EvaluationVersion)
    (v : EvaluationVersion) : Type 0 where
  before : Option EvaluationVersion
  resolves : Resolves versions v.predecessor_id before
  content : v.content_hash ≡ content_hash_hex sha256 v.canonical_bytes
  chain : chain_hash_hex sha256 (hash_of before) v.canonical_bytes ≡ some v.chain_hash

found_below :
    (versions : List EvaluationVersion) (w u : EvaluationVersion)
    → u.id < w.id
    → find? (λ v. v.id == u.id) versions ≡ some u
    → find? (λ v. v.id == u.id) (w ∷ versions) ≡ some u
unfolding find?
found_below versions w u b h = ground arith

-- Identifiers are fresh, so each names its own row.
All-found :
    (sha256 : Bytes → Bytes) (versions : List EvaluationVersion)
    → Chained sha256 versions
    → All (λ u. find? (λ v. v.id == u.id) versions ≡ some u) versions
unfolding find?
All-found sha256 [] c = tt
All-found sha256 (v ∷ older) c =
    let below = All-both _ _ older c.0.fresh (All-found sha256 older c.1) in
    (rw (==_refl v.id) refl, All-map _ _ older (λ u b. found_below older v u b.0 b.1) below)

Resolves-older :
    (older : List EvaluationVersion) (w : EvaluationVersion) (p : Option ℕ)
    (o : Option EvaluationVersion)
    → All (λ u. u.id < w.id) older
    → Resolves older p o
    → Resolves (w ∷ older) p o
unfolding find?
Resolves-older older w none none f h = tt
Resolves-older older w none (some u) f h = h
Resolves-older older w (some p) none f h = h
Resolves-older older w (some p) (some u) f h =
    let named : u.id ≡ p = eq_of_== u.id p (find?-sound (λ v. v.id == p) older u h) in
    let below = find?-All (λ u. u.id < w.id) (λ v. v.id == p) older u f h in ground arith

latest-Resolves :
    (sha256 : Bytes → Bytes) (older : List EvaluationVersion) (r : ℕ) (o : Option EvaluationVersion)
    → Chained sha256 older
    → latest_of older r ≡ o
    → Resolves older (version_id o) o
latest-Resolves sha256 older r none c h = tt
latest-Resolves sha256 older r (some u) c h =
    top-All (λ u. find? (λ v. v.id == u.id) older ≡ some u) later_version
      (select (λ v. v.evaluation_record_id == r) older) u
      (All-select _ (λ v. v.evaluation_record_id == r) older (All-found sha256 older c)) h

Verifiable-older :
    (sha256 : Bytes → Bytes) (older : List EvaluationVersion) (w u : EvaluationVersion)
    → All (λ u. u.id < w.id) older
    → Verifiable sha256 older u
    → Verifiable sha256 (w ∷ older) u
Verifiable-older sha256 older w u f v = record {
  before = v.before;
  resolves = Resolves-older older w u.predecessor_id v.before f v.resolves;
  content = v.content;
  chain = v.chain;
}

Link-Verifiable :
    (sha256 : Bytes → Bytes) (older : List EvaluationVersion) (v : EvaluationVersion)
    → Chained sha256 older
    → Link sha256 older v
    → Verifiable sha256 older v
Link-Verifiable sha256 older v c l = record {
  before = l.before;
  resolves =
      rw (l.predecessor) (latest-Resolves sha256 older v.evaluation_record_id l.before c l.latest);
  content = l.content;
  chain = l.chain;
}

Chained-Verifiable :
    (sha256 : Bytes → Bytes) (versions : List EvaluationVersion)
    → Chained sha256 versions
    → All (Verifiable sha256 versions) versions
Chained-Verifiable sha256 [] c = tt
Chained-Verifiable sha256 (v ∷ older) c =
    let f = c.0.fresh in
    (
      Verifiable-older sha256 older v v f (Link-Verifiable sha256 older v c.1 c.0),
      All-map _ _ older (λ u k. Verifiable-older sha256 older v u f k)
          (Chained-Verifiable sha256 older c.1),
    )

both_match : Verification
both_match = record { content_hash_ok = true; chain_hash_ok = true }

stored_predecessor_hash-Resolves :
    (db : Db) (p : Option ℕ) (o : Option EvaluationVersion)
    → Resolves db.evaluation_versions p o
    → stored_predecessor_hash db p ≡ ok (hash_of o)
unfolding stored_predecessor_hash
stored_predecessor_hash-Resolves db none none h = refl
stored_predecessor_hash-Resolves db none (some u) h = absurd h
stored_predecessor_hash-Resolves db (some p) none h = absurd h
stored_predecessor_hash-Resolves db (some p) (some u) h = rw h refl

verify_version-Verifiable :
    (f : Format) (db : Db) (v : EvaluationVersion)
    → Verifiable f.sha256 db.evaluation_versions v
    → verify_version f db (some v) ≡ ok (some both_match)
unfolding verify_version both_match
verify_version-Verifiable f db v k =
    rw (stored_predecessor_hash-Resolves db v.predecessor_id k.before k.resolves, k.chain)
      (rw (← k.content) (rw (same_text_refl v.content_hash, same_text_refl v.chain_hash) refl))

-- Where every version of the table follows its record's latest older one, verifying a version that is there, for an
-- actor who may read its record, answers that both hashes match.
pub verify_at-Chained :
    (f : Format) (db : Db) (actor r : ℕ) (number : Option ℕ) (v : EvaluationVersion)
    (row : EvaluationRecord)
    → Chained f.sha256 db.evaluation_versions
    → load_record db r ≡ some row
    → may_read db actor row ≡ true
    → version_at db r number ≡ some v
    → verify_at f db actor r number
      ≡ ok (some (record { content_hash_ok = true; chain_hash_ok = true }))
unfolding verify_at version_at both_match
verify_at-Chained f db actor r number v row c found reads at =
    let all = Chained-Verifiable f.sha256 db.evaluation_versions c in
    let mine =
      top-All (Verifiable f.sha256 db.evaluation_versions) later_version _ v
        (All-select _ _ db.evaluation_versions all) at in
    rw (found, reads, at) (verify_version-Verifiable f db v mine)
