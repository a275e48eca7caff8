-- ===== src/Acknowledgment/Standing.antt =====
-- The acknowledgment that stands: what the reader of crates/consolebook-server/src/acknowledgments.rs
-- answers, and what a second request is answered.
use consolebook.Base.{
  ℕ, ◌≤◌, ◌<◌, ◌≡◌, refl, sym, ap, ◌∙◌, true, false, Option, some, none, List, [], ◌∷◌, All,
  All-map, ◌==◌, ==_refl, exists, find?, max_of, next_id, trim, arith, ok, refused, ◌>>◌, is_empty,
  Text, is_some, Option-cases, inl, inr,
}
use consolebook.Acknowledgment.{
  attest, AckRefusal, VersionRow, trainee_of_record, stored_own, latest_version, is_acknowledged,
  latest_acknowledgment, acknowledgment_of, check_response, view_of, acknowledge,
}
use consolebook.Acknowledgment.Effect.{
  Receipt, run, own_row, acknowledge-Acknowledged, Attestation, run_attest,
}
use consolebook.Capability.{user_has}
use consolebook.Capability.Vocabulary.{acknowledge_own_record, review_evaluation}
use consolebook.Db.{Db, Acknowledgment, EvaluationRecord, EvaluationVersion, enrollment_of}
use consolebook.Draft.Access.{may_read}
use consolebook.Draft.Status as Status
use consolebook.Draft.Status.{load_record}
use consolebook.Finalization.{VersionMeta}
use consolebook.Finalization.Effect.{Sealing, run as finalize_run, finalize-Sealed}
use consolebook.Finalization.Lineage.{Chained}
use consolebook.Finalization.Numbering.{finalize-latest}

read_latest :
    (db : Db) (actor r : ℕ) (row : EvaluationRecord) (o : Option Acknowledgment)
    → load_record db r ≡ some row
    → may_read db actor row ≡ true
    → latest_acknowledgment db (Status.latest_version db r) ≡ o
    → acknowledgment_of db actor r ≡ ok (view_of o)
unfolding acknowledgment_of
read_latest db actor r row o found reads e = rw (found, reads, e) refl

none_for :
    (n : ℕ) (rows : List Acknowledgment)
    → All (λ a. a.evaluation_version_id < n) rows
    → find? (λ a. a.evaluation_version_id == n) rows ≡ none
unfolding find?
none_for n [] h = refl
none_for n (a ∷ rest) h = ground (arith, none_for n rest h.1)

-- Where the versions are chained and acknowledgments are of versions that are there, a record that was just sealed shows no
-- acknowledgment to anyone who may read it: a successor version needs its own.
pub finalize-acknowledgment_of :
    (q : Sealing) (answer : VersionMeta) (db' : Db) (reader : ℕ) (row : EvaluationRecord)
    → Chained q.format.sha256 q.db.evaluation_versions
    → All
        (λ a. a.evaluation_version_id ≤ max_of (λ v. v.id) q.db.evaluation_versions)
        q.db.acknowledgments
    → finalize_run q ≡ ok (answer, db')
    → load_record db' q.r ≡ some row
    → may_read db' reader row ≡ true
    → acknowledgment_of db' reader q.r ≡ ok none
unfolding next_id
finalize-acknowledgment_of q answer db' reader row c there h found reads =
    let (v, latest, fresh) = finalize-latest q answer db' c h in
    let w = (finalize-Sealed q answer db' h).writing.written in
    let same = ap (λ (d : Db). d.acknowledgments) w in
    let missing =
      none_for (next_id (λ u. u.id) q.db.evaluation_versions) q.db.acknowledgments
        (All-map _ _ q.db.acknowledgments (λ a b. omega arith) there) in
    read_latest db' reader q.r row none found reads (rw (latest, fresh, same) missing)

-- The version of the joined row is the record's latest.
record Joined (db : Db) (r : ℕ) (id : ℕ) : Type 0 where
  version : EvaluationVersion
  latest : Status.latest_version db r ≡ some version
  named : version.id ≡ id

latest_version-Joined :
    (db : Db) (r : ℕ) (version : VersionRow)
    → latest_version db r ≡ some version
    → Joined db r version.version_id
unfolding latest_version
latest_version-Joined db r version h = elim (Option-cases (Status.latest_version db r)) [
  | inl e ↦ absurd (ground arith)
  | inr (v, e) ↦ elim (Option-cases (trainee_of_record db (load_record db r))) [
    | inl f ↦ absurd (ground arith)
    | inr (u, f) ↦ record { version = v; latest = e; named = ground arith }
  ]
]

newest_for :
    (a : Acknowledgment) (rest : List Acknowledgment) (n : ℕ)
    → a.evaluation_version_id ≡ n
    → find? (λ b. b.evaluation_version_id == n) (a ∷ rest) ≡ some a
unfolding find?
newest_for a rest n e = rw (e, ==_refl n) refl

-- After a trainee's acknowledgment, the reader's answer for the record is that kind with the trimmed text, under the name
-- that the trainee has then, for anyone who may read the record.
pub acknowledge-acknowledgment_of :
    (q : Receipt) (db' : Db) (reader : ℕ) (row : EvaluationRecord) (h : run q ≡ ok db')
    → load_record db' q.r ≡ some row
    → may_read db' reader row ≡ true
    → (name : Text) × (acknowledgment_of db' reader q.r
        ≡ ok (
            some (record {
              kind = stored_own q.kind;
              response = trim q.response;
              user_display_name = name;
              recorded_by = q.actor;
              recorded_by_display_name = name;
              recorded_at = q.now;
            })))
unfolding Status.latest_version
acknowledge-acknowledgment_of q db' reader row h found reads =
    let s = acknowledge-Acknowledged q db' h in
    let w = s.recording.written in
    let j = latest_version-Joined q.db q.r s.version s.latest in
    let a = own_row q s.version s.trainee in
    let same = ap (λ (d : Db). d.acknowledgments) w in
    let kept : Status.latest_version db' q.r ≡ some j.version = rw w j.latest in
    let shown = newest_for a q.db.acknowledgments j.version.id (sym j.named) in
    (
      s.trainee.display_name,
      read_latest db' reader q.r row (some a) found reads (rw (kept, same) shown),
    )

-- A request for a version that has an acknowledgment of the actor.
repeated :
    (q : Receipt) (version : VersionRow)
    → is_some (load_record q.seen q.r) ≡ true
    → user_has q.seen q.actor acknowledge_own_record ≡ true
    → latest_version q.db q.r ≡ some version
    → version.trainee_user_id ≡ q.actor
    → is_acknowledged q.db version.version_id q.actor ≡ true
    → run q ≡ (check_response q.kind (trim q.response) >> refused AckRefusal.already_acknowledged)
unfolding acknowledge
repeated q version known able latest mine twice =
    rw (known, able, latest, mine, ==_refl q.actor, twice) refl

attested_twice :
    (q : Attestation) (version : VersionRow)
    → is_some (load_record q.seen q.r) ≡ true
    → user_has q.seen q.actor review_evaluation ≡ true
    → is_empty (trim q.reason) ≡ false
    → latest_version q.db q.r ≡ some version
    → (version.trainee_user_id == q.actor) ≡ false
    → is_acknowledged q.db version.version_id version.trainee_user_id ≡ true
    → run_attest q ≡ refused AckRefusal.already_acknowledged
unfolding attest
attested_twice q version known able given latest other twice =
    rw (known, able, given, latest, other, twice) refl

-- A request about the record of an acknowledgment, on the tables that it left, by an entitled user.
module _ (q : Receipt) (db' : Db) (h : run q ≡ ok db') where
  still_latest :
      (version : VersionRow) (db : Db)
      → db ≡ db'
      → latest_version q.db q.r ≡ some version
      → latest_version db q.r ≡ some version
  unfolding latest_version Status.latest_version enrollment_of load_record
  still_latest version db e l = rw (e, (acknowledge-Acknowledged q db' h).recording.written) l

  stands :
      (db : Db)
      → db ≡ db'
      → is_acknowledged db (acknowledge-Acknowledged q db' h).version.version_id q.actor ≡ true
  unfolding is_acknowledged exists
  stands db e =
      let s = acknowledge-Acknowledged q db' h in
      rw (e, s.recording.written, ==_refl s.version.version_id, ==_refl q.actor) refl

-- After a trainee's acknowledgment, on the tables that it left, every further one of the same version is
-- refused. The trainee's own request is refused for its text where that does not fit the kind, and as a
-- second one otherwise; another reviewer's attestation with a reason is refused as a second one.
pub acknowledge_again :
    (q : Receipt) (db' : Db) (own : Receipt) (other : Attestation)
    → run q ≡ ok db'
    → own.db ≡ db'
    → own.r ≡ q.r
    → own.actor ≡ q.actor
    → is_some (load_record own.seen own.r) ≡ true
    → user_has own.seen own.actor acknowledge_own_record ≡ true
    → other.db ≡ db'
    → other.r ≡ q.r
    → (q.actor == other.actor) ≡ false
    → is_some (load_record other.seen other.r) ≡ true
    → user_has other.seen other.actor review_evaluation ≡ true
    → is_empty (trim other.reason) ≡ false
    → (run own
        ≡ (check_response own.kind (trim own.response) >> refused AckRefusal.already_acknowledged))
      × (run_attest other ≡ refused AckRefusal.already_acknowledged)
acknowledge_again q db' own other h d e f known able d₂ e₂ apart known₂ able₂ given =
    let s = acknowledge-Acknowledged q db' h in
    let latest = still_latest q db' h s.version in
    (
      repeated own s.version known able (rw e (latest own.db d s.latest)) (s.own ∙ sym f)
          (rw f (stands q db' h own.db d)),
      attested_twice other s.version known₂ able₂ given (rw e₂ (latest other.db d₂ s.latest))
          (rw (s.own) apart) (rw (s.own) (stands q db' h other.db d₂)),
    )
