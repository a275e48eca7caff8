-- ===== src/Draft/Saving/Effect.antt =====
-- What `save` of crates/consolebook-server/src/draft_content.rs checks and writes.
use consolebook.Base.{
  ℕ, suc, ◌≡◌, sym, ap, ◌∙◌, Bool, true, false, Option, some, none, List, [], ◌∷◌, not, ◌==◌,
  select, next_id, arith, Outcome, ok, >>=-eq-ok, refuse_if-ok, fetch_one-ok, some_or_refuse-ok,
  eq_of_==, not-false, Bool-cases, inl, inr,
}
use consolebook.Db.{
  Db, EvaluationRecord, DraftRating, DraftNarrative, ContributorEvent, contributed,
}
use consolebook.Draft.Access.{may_contribute}
use consolebook.Draft.Content.{RatingEntry, NarrativeEntry, DraftContent}
use consolebook.Draft.Ownership.{refuse_frozen}
use consolebook.Draft.Saving.{
  check_ratings, check_narratives, clear_copy, applied, insert_rating, insert_ratings,
  insert_narrative, insert_narratives, set_revision, mark_of, coalesces, attribute_contribution,
  save,
}
use consolebook.Draft.Saving.Replace.{write_all}
use consolebook.Draft.Status.{
  DraftRefusal, load_record, status_of, frozen_refusal, open_scope, latest_contribution,
  latest_version, amendment_of,
}
use consolebook.Draft.Writes.{next_contribution, append_event-appends}

-- A request, on the state that was read first (`seen`) and the state of the write transaction.
pub record Saving : Type 0 where
  pub seen : Db
  pub db : Db
  pub now : ℕ
  pub actor : ℕ
  pub r : ℕ
  pub revision : ℕ
  pub input : DraftContent

abbrev pub run : Saving → Outcome DraftRefusal (ℕ × Db)
run q = save q.seen q.db q.now q.actor q.r q.revision q.input

-- The rows that the entries become.
abbrev pub rating_row : ℕ → RatingEntry → List DraftRating → DraftRating
rating_row r e rows = record {
  id = next_id (λ x. x.id) rows;
  evaluation_record_id = r;
  form_competency_id = e.form_competency_id;
  value = e.value;
  not_observed = e.not_observed;
  modifiers = applied [] e.modifier_ids;
}

abbrev pub write_ratings : ℕ → List RatingEntry → List DraftRating → List DraftRating
write_ratings r entries rows = write_all (rating_row r) entries rows

abbrev pub narrative_row : ℕ → NarrativeEntry → List DraftNarrative → DraftNarrative
narrative_row r e rows = record {
  id = next_id (λ x. x.id) rows;
  evaluation_record_id = r;
  form_narrative_id = e.form_narrative_id;
  text = e.text;
}

abbrev pub write_narratives : ℕ → List NarrativeEntry → List DraftNarrative → List DraftNarrative
write_narratives r entries rows = write_all (narrative_row r) entries rows

abbrev pub add_unless : Bool → ContributorEvent → List ContributorEvent → List ContributorEvent
add_unless true ev events = events
add_unless false ev events = ev ∷ events

-- The events afterwards: the actor's contribution is the latest of the cycle already, or is added.
abbrev pub attributed : Db → ℕ → ℕ → ℕ → List ContributorEvent
attributed db r actor now =
    add_unless
      (coalesces actor (latest_contribution db.contributor_events r (mark_of (open_scope db r))))
      (next_contribution db r contributed actor none now) db.contributor_events

-- The database afterwards.
abbrev pub saved : Saving → EvaluationRecord → Db
saved q row = record q.db {
  ratings =
      write_ratings q.r q.input.ratings
        (select (λ x. not (x.evaluation_record_id == q.r)) q.db.ratings);
  narratives =
      write_narratives q.r q.input.narratives
        (select (λ x. not (x.evaluation_record_id == q.r)) q.db.narratives);
  records = set_revision q.r (suc row.revision) q.db.records;
  contributor_events = attributed q.db q.r q.actor q.now;
}

-- The answer of an admitted request.
pub record Saved (q : Saving) (revision : ℕ) (db' : Db) : Type 0 where
  pub early : EvaluationRecord
  pub row : EvaluationRecord
  pub known : load_record q.seen q.r ≡ some early
  pub authorized : may_contribute q.seen q.actor early ≡ true
  pub unfrozen : frozen_refusal (status_of q.db q.r) ≡ none
  pub current : load_record q.db q.r ≡ some row
  pub viewed : q.revision ≡ row.revision
  pub ratings : check_ratings q.db early [] q.input.ratings ≡ ok tt
  pub narratives : check_narratives q.db early [] q.input.narratives ≡ ok tt
  pub next : revision ≡ suc row.revision
  pub written : db' ≡ saved q row

insert_rating-writes :
    (db : Db) (r version : ℕ) (e : RatingEntry) {db' : Db}
    → insert_rating db r version e ≡ ok db'
    → db' ≡ record db { ratings = rating_row r e db.ratings ∷ db.ratings }
unfolding insert_rating
insert_rating-writes db r version e h = ground arith

insert_ratings-writes :
    (db : Db) (r version : ℕ) (entries : List RatingEntry) {db' : Db}
    → insert_ratings db r version entries ≡ ok db'
    → db' ≡ record db { ratings = write_ratings r entries db.ratings }
unfolding insert_ratings
insert_ratings-writes db r version [] h = ground arith
insert_ratings-writes db r version (e ∷ es) h =
    let (db₁, s, h₁) = >>=-eq-ok (insert_rating db r version e) _ h in
    insert_ratings-writes db₁ r version es h₁
    ∙ ap (λ (d : Db). record d { ratings = write_ratings r es d.ratings })
        (insert_rating-writes db r version e s)

insert_narrative-writes :
    (db : Db) (r version : ℕ) (e : NarrativeEntry) {db' : Db}
    → insert_narrative db r version e ≡ ok db'
    → db' ≡ record db { narratives = narrative_row r e db.narratives ∷ db.narratives }
unfolding insert_narrative
insert_narrative-writes db r version e h = ground arith

insert_narratives-writes :
    (db : Db) (r version : ℕ) (entries : List NarrativeEntry) {db' : Db}
    → insert_narratives db r version entries ≡ ok db'
    → db' ≡ record db { narratives = write_narratives r entries db.narratives }
unfolding insert_narratives
insert_narratives-writes db r version [] h = ground arith
insert_narratives-writes db r version (e ∷ es) h =
    let (db₁, s, h₁) = >>=-eq-ok (insert_narrative db r version e) _ h in
    insert_narratives-writes db₁ r version es h₁
    ∙ ap (λ (d : Db). record d { narratives = write_narratives r es d.narratives })
        (insert_narrative-writes db r version e s)

clear_copy-writes :
    (db : Db) (r : ℕ) {db' : Db}
    → clear_copy db r ≡ ok db'
    → db' ≡ record db {
      ratings = select (λ x. not (x.evaluation_record_id == r)) db.ratings;
      narratives = select (λ x. not (x.evaluation_record_id == r)) db.narratives;
    }
unfolding clear_copy
clear_copy-writes db r h = ground arith

attribute_contribution-writes :
    (db : Db) (r actor now : ℕ) {db' : Db}
    → attribute_contribution db r actor now ≡ ok db'
    → db' ≡ record db { contributor_events = attributed db r actor now }
unfolding attribute_contribution
attribute_contribution-writes db r actor now {db'} h =
    elim (Bool-cases
      (coalesces actor (latest_contribution db.contributor_events r (mark_of (open_scope db r))))) [
        | inl t ↦
            rw t (let same : ◌≡◌ {A = Outcome DraftRefusal Db} (ok db) (ok db') = rw t at h in cc)
        | inr f ↦ rw f (append_event-appends db r contributed actor none now (rw f at h))
      ]

unfrozen_lem : (o : Option DraftRefusal) {u : Unit} → refuse_frozen o ≡ ok u → o ≡ none
unfrozen_lem o h = ground arith

answer_parts :
    (a b : ℕ) (d e : Db)
    → ◌≡◌ {A = Outcome DraftRefusal (ℕ × Db)} (ok (a, d)) (ok (b, e))
    → (a ≡ b) × (d ≡ e)
answer_parts a b d e h = (cc, cc)

-- The writes, one after the other.
chain_writes :
    (q : Saving) (row : EvaluationRecord) {db₁ db₂ db₃ db₅ : Db}
    → db₁ ≡ record q.db {
      ratings = select (λ x. not (x.evaluation_record_id == q.r)) q.db.ratings;
      narratives = select (λ x. not (x.evaluation_record_id == q.r)) q.db.narratives;
    }
    → db₂ ≡ record db₁ { ratings = write_ratings q.r q.input.ratings db₁.ratings }
    → db₃ ≡ record db₂ { narratives = write_narratives q.r q.input.narratives db₂.narratives }
    → db₅ ≡ record db₃ {
      records = set_revision q.r (suc row.revision) db₃.records;
      contributor_events =
          attributed
            (record db₃ { records = set_revision q.r (suc row.revision) db₃.records })
            q.r
            q.actor
            q.now;
    }
    → db₅ ≡ saved q row
unfolding open_scope latest_version amendment_of
chain_writes q row one two three five =
    let ratings = λ (d : Db). record d { ratings = write_ratings q.r q.input.ratings d.ratings } in
    let narratives =
      λ (d : Db). record d { narratives = write_narratives q.r q.input.narratives d.narratives } in
    let bumped = λ (d : Db). record d {
      records = set_revision q.r (suc row.revision) d.records;
      contributor_events =
          attributed (record d { records = set_revision q.r (suc row.revision) d.records }) q.r
            q.actor q.now;
    } in
    five ∙ ap bumped (three ∙ ap narratives (two ∙ ap ratings one))

-- A save that is answered passed the checks on the state of the write transaction: the copy is not frozen, the
-- revision is the one that was read, and every entry names the pinned vocabulary once, with a value that its scale
-- takes. It replaces the record's ratings and narratives by the entries, advances the revision by one, attributes the
-- save to the actor unless the latest event of the cycle does so, and changes nothing else.
pub save-Saved :
    (q : Saving) (revision : ℕ) (db' : Db) → run q ≡ ok (revision, db') → Saved q revision db'
unfolding save
save-Saved q revision db' h =
    let (early, k, h₁) = some_or_refuse-ok (load_record q.seen q.r) _ _ h in
    let (a, h₂) = refuse_if-ok (not (may_contribute q.seen q.actor early)) _ _ h₁ in
    let (_, f, h₃) = >>=-eq-ok (refuse_frozen (frozen_refusal (status_of q.db q.r))) _ h₂ in
    let (row, l, h₄) = fetch_one-ok (load_record q.db q.r) _ h₃ in
    let (v, h₅) = refuse_if-ok (not (q.revision == row.revision)) _ _ h₄ in
    let (_, rs, h₆) = >>=-eq-ok (check_ratings q.db early [] q.input.ratings) _ h₅ in
    let (_, ns, h₇) = >>=-eq-ok (check_narratives q.db early [] q.input.narratives) _ h₆ in
    let (db₁, c, h₈) = >>=-eq-ok (clear_copy q.db q.r) _ h₇ in
    let (db₂, wr, h₉) =
      >>=-eq-ok (insert_ratings db₁ q.r early.program_version_id q.input.ratings) _ h₈ in
    let (db₃, wn, t₁) =
      >>=-eq-ok (insert_narratives db₂ q.r early.program_version_id q.input.narratives) _ h₉ in
    let (db₅, e, t₂) =
      >>=-eq-ok
        (attribute_contribution
          (record db₃ { records = set_revision q.r (suc row.revision) db₃.records }) q.r q.actor
          q.now)
        _ t₁ in
    let (told, same) = answer_parts _ _ _ _ t₂ in
    record {
      early = early;
      row = row;
      known = k;
      authorized = not-false _ a;
      unfrozen = unfrozen_lem _ f;
      current = l;
      viewed = eq_of_== _ _ (not-false _ v);
      ratings = rs;
      narratives = ns;
      next = sym told;
      written =
          sym same
          ∙ chain_writes q row (clear_copy-writes q.db q.r c)
              (insert_ratings-writes db₁ q.r early.program_version_id q.input.ratings wr)
              (insert_narratives-writes db₂ q.r early.program_version_id q.input.narratives wn)
              (attribute_contribution-writes _ q.r q.actor q.now e);
    }
