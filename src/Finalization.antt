-- ===== src/Finalization.antt =====
-- crates/consolebook-server/src/finalization.rs: `finalize` and `verify_at`, with the constraints and
-- triggers of migrations 0010 and 0012 on the table of versions.
pub mod Insert
pub mod Effect
pub mod Lineage
pub mod Numbering
pub mod Verified
pub mod History
use consolebook.Base.{
  ℕ, suc, Bool, true, false, Option, some, none, [], ◌∷◌, ◌&&◌, ◌||◌, not, ◌==◌, Text, codes, ◌++◌,
  select, find?, top, next_id, same_option, Outcome, ok, refuse_if, some_or_refuse, fetch_one,
  ◌>>=◌, ◌>>◌, if◌then◌else◌,
}
use consolebook.Audit.{record_for_subject}
use consolebook.Audit.Vocabulary.{EventKind}
use consolebook.Audit.Subjects.{Subject}
use consolebook.Canonical.{Value, record_schema, canonical_bytes, content_hash_hex, chain_hash_hex}
use consolebook.Canonical.Hex.{Bytes}
use consolebook.Capability.{user_has}
use consolebook.Capability.Vocabulary.{review_evaluation}
use consolebook.Notice.{notify_user}
use consolebook.Notice.Vocabulary.{NoticeKind}
use consolebook.Db.{Db, EvaluationRecord, EvaluationVersion, Policy, enrollment_of, user_of}
use consolebook.Draft.Access.{may_read}
use consolebook.Draft.Completion
use consolebook.Draft.Completion.{policy}
use consolebook.Draft.Status.{
  DraftStatus, OpenAmendment, load_record, later_version, open_scope, is_finalized, status_of,
}
use consolebook.Finalization.Insert.{insert_version}

pub data FinalizeRefusal : Type 0 where
  no_such_record capability_required already_finalized not_approved : FinalizeRefusal
  narratives_incomplete ratings_incomplete stale_save : FinalizeRefusal

-- The digest and the JSON writer that the code calls, and the document of a version: what the record's
-- envelope reads from the tables (`none` if a row is missing). Its arguments are the record, the actor, the
-- instant, the rules, the version's number and the content hash of its predecessor.
pub record Format : Type 0 where
  pub sha256 : Bytes → Bytes
  pub to_vec : Value → Option Bytes
  pub envelope : Db → EvaluationRecord → ℕ → ℕ → Policy → ℕ → Option Text → Option Value

pub record VersionMeta : Type 0 where
  pub version_number : ℕ
  pub record_schema : ℕ
  pub content_hash : Text
  pub chain_hash : Text
  pub finalized_at : ℕ
  pub finalized_by : ℕ
  pub finalized_by_display_name : Text

abbrev pub is_approved : DraftStatus → Bool
is_approved DraftStatus.approved = true
is_approved _ = false

-- A finalized record is sealed again only through its open amendment.
abbrev pub reopened : Bool → Option OpenAmendment → Outcome FinalizeRefusal (Option OpenAmendment)
reopened false scope = ok none
reopened true none = Outcome.refused FinalizeRefusal.already_finalized
reopened true (some scope) = ok (some scope)

abbrev pub next_number : Option OpenAmendment → ℕ
next_number none = 1
next_number (some scope) = suc scope.predecessor_version_number

abbrev pub predecessor_of : Option OpenAmendment → Option ℕ
predecessor_of none = none
predecessor_of (some scope) = some scope.predecessor_version_id

abbrev pub predecessor_hash : Option OpenAmendment → Option Text
predecessor_hash none = none
predecessor_hash (some scope) = some scope.predecessor_content_hash

unfoldable pub sealed_message : Text → Text
sealed_message name = codes "The evaluation for " ++ name ++ codes " was finalized."

unfoldable pub awaits_message : Text
awaits_message = codes "A finalized evaluation record awaits your acknowledgment."

-- The audit event and the notices, after the version is inserted.
unfoldable pub announce : Db → ℕ → ℕ → ℕ → EvaluationRecord → Outcome FinalizeRefusal Db
announce db₁ now actor r early = do
  enrollment ← fetch_one (enrollment_of db₁ early.enrollment_id)
  db₂ ←
      record_for_subject EventKind.draft_finalized (some actor) (some enrollment.user_id)
        (Subject.record_row r) now db₁
  row ← fetch_one (load_record db₂ r)
  named ← fetch_one (enrollment_of db₂ row.enrollment_id)
  trainee ← fetch_one (user_of db₂ named.user_id)
  db₃ ←
      notify_user row.owner_user_id NoticeKind.draft_finalized (sealed_message trainee.display_name)
        now db₂
  notify_user enrollment.user_id NoticeKind.record_awaits_acknowledgment awaits_message now db₃

-- The rules that the working copy has to meet.
unfoldable pub check_rules : Db → ℕ → EvaluationRecord → Outcome FinalizeRefusal Unit
check_rules db r early = do
  let rules = policy db early.program_version_id
  refuse_if (rules.review_approved && not (is_approved (status_of db r)))
      FinalizeRefusal.not_approved
  refuse_if (rules.required_narratives && Completion.narratives_incomplete db early)
      FinalizeRefusal.narratives_incomplete
  refuse_if (rules.ratings_complete && Completion.ratings_incomplete db early)
      FinalizeRefusal.ratings_incomplete

-- `seen` is what is read before the write transaction.
unfoldable pub finalize :
    Format
    → (seen db : Db) (now actor r expected_revision : ℕ)
    → Outcome FinalizeRefusal (VersionMeta × Db)
finalize f seen db now actor r expected_revision = do
  early ← some_or_refuse (load_record seen r) FinalizeRefusal.no_such_record
  refuse_if (not (user_has seen actor review_evaluation)) FinalizeRefusal.capability_required
  amendment ← reopened (is_finalized db r) (open_scope db r)
  row ← fetch_one (load_record db r)
  refuse_if (not (expected_revision == row.revision)) FinalizeRefusal.stale_save
  check_rules db r early
  let number = next_number amendment
  let rules = policy db early.program_version_id
  document ← fetch_one (f.envelope db early actor now rules number (predecessor_hash amendment))
  bytes ← fetch_one (canonical_bytes f.to_vec document)
  let content_hash = content_hash_hex f.sha256 bytes
  chain_hash ← fetch_one (chain_hash_hex f.sha256 (predecessor_hash amendment) bytes)
  db₁ ← insert_version db (record {
    id = next_id (λ v. v.id) db.evaluation_versions;
    evaluation_record_id = r;
    version_number = number;
    record_schema = record_schema;
    canonical_bytes = bytes;
    content_hash = content_hash;
    chain_hash = chain_hash;
    predecessor_id = predecessor_of amendment;
    finalized_at = now;
    finalized_by = actor;
  })
  db₂ ← announce db₁ now actor r early
  sealer ← fetch_one (user_of db₂ actor)
  ok (
    record {
      version_number = number;
      record_schema = record_schema;
      content_hash = content_hash;
      chain_hash = chain_hash;
      finalized_at = now;
      finalized_by = actor;
      finalized_by_display_name = sealer.display_name;
    },
    db₂,
  )

abbrev pub has_number : Option ℕ → EvaluationVersion → Bool
has_number none v = true
has_number (some n) v = v.version_number == n

-- The record's version of a number, or its latest.
unfoldable pub version_at : Db → ℕ → Option ℕ → Option EvaluationVersion
version_at db r number =
    top later_version
      (select (λ v. v.evaluation_record_id == r && has_number number v) db.evaluation_versions)

-- The equality of two texts.
unfoldable pub same_text : Text → Text → Bool
same_text [] [] = true
same_text (a ∷ s) (b ∷ t) = a == b && same_text s t
same_text _ _ = false

pub record Verification : Type 0 where
  pub content_hash_ok : Bool
  pub chain_hash_ok : Bool

-- The predecessor's content hash.
unfoldable pub stored_predecessor_hash : Db → Option ℕ → Outcome FinalizeRefusal (Option Text)
stored_predecessor_hash db none = ok none
stored_predecessor_hash db (some p) = do
  v ← fetch_one (find? (λ v. v.id == p) db.evaluation_versions)
  ok (some v.content_hash)

unfoldable pub verify_version :
    Format → Db → Option EvaluationVersion → Outcome FinalizeRefusal (Option Verification)
unfolding same_text
verify_version f db none = ok none
verify_version f db (some v) = do
  hash ← stored_predecessor_hash db v.predecessor_id
  chain ← fetch_one (chain_hash_hex f.sha256 hash v.canonical_bytes)
  ok (
      some (record {
        content_hash_ok = same_text (content_hash_hex f.sha256 v.canonical_bytes) v.content_hash;
        chain_hash_ok = same_text chain v.chain_hash;
      }))

unfoldable pub verify_at :
    Format → Db → ℕ → ℕ → Option ℕ → Outcome FinalizeRefusal (Option Verification)
unfolding verify_version version_at
verify_at f db actor r number = do
  row ← some_or_refuse (load_record db r) FinalizeRefusal.no_such_record
  refuse_if (not (may_read db actor row)) FinalizeRefusal.capability_required
  verify_version f db (version_at db r number)
