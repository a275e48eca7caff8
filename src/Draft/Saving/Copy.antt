-- ===== src/Draft/Saving/Copy.antt =====
-- The working copy after `save` of crates/consolebook-server/src/draft_content.rs.
use consolebook.Base.{
  ℕ, ◌≡◌, refl, false, some, List, [], ◌∷◌, ◌++◌, not, ◌==◌, ==_refl, find?, All, All-map, Distinct,
  arith, ok, >>=-eq-ok, refuse_if-ok, some_or_refuse-ok,
}
use consolebook.Db.{Db, EvaluationRecord, DraftRating, DraftNarrative, RatingScale}
use consolebook.Draft.Content.{
  RatingEntry, NarrativeEntry, order_by, rating_entry, narrative_entry, content,
}
use consolebook.Draft.Saving.{
  contains, applied, scale_for, check_value, check_modifiers, check_ratings, check_narratives,
  is_prompt,
}
use consolebook.Draft.Saving.Replace.{Codec, map?, replaced}
use consolebook.Draft.Saving.Effect.{Saving, run, rating_row, narrative_row, save-Saved}

contains-append :
    (done : List ℕ) (m n : ℕ)
    → contains (done ++ (m ∷ [])) n ≡ false
    → (contains done n ≡ false) × ((n == m) ≡ false)
unfolding contains
contains-append [] m n h = ground arith
contains-append (x ∷ done) m n h =
    let below = contains-append done m n (ground arith) in (ground arith, below.1)

-- What the checks hold of one entry.
pub record Checked (db : Db) (row : EvaluationRecord) (e : RatingEntry) : Type 0 where
  pub scale : RatingScale
  pub found : scale_for db row e.form_competency_id ≡ some scale
  pub fits : check_value scale e ≡ ok tt

-- And of all, with the competencies of the entries before.
pub record CheckedAll (db : Db) (row : EvaluationRecord) (done : List ℕ) (es : List RatingEntry)
    : Type 0 where
  pub new : All (λ e. contains done e.form_competency_id ≡ false) es
  pub distinct : Distinct (λ e. e.form_competency_id) es
  pub each : All (Checked db row) es

pub check_ratings-CheckedAll :
    (db : Db) (row : EvaluationRecord) (done : List ℕ) (es : List RatingEntry)
    → check_ratings db row done es ≡ ok tt
    → CheckedAll db row done es
unfolding check_ratings
check_ratings-CheckedAll db row done [] h = record { new = tt; distinct = tt; each = tt }
check_ratings-CheckedAll db row done (e ∷ es) h =
    let (n, h₁) = refuse_if-ok (contains done e.form_competency_id) _ _ h in
    let (scale, f, h₂) = some_or_refuse-ok (scale_for db row e.form_competency_id) _ _ h₁ in
    let (_, v, h₃) = >>=-eq-ok (check_value scale e) _ h₂ in
    let (_, _, h₄) = >>=-eq-ok (check_modifiers db row e.modifier_ids) _ h₃ in
    let rest = check_ratings-CheckedAll db row (done ++ (e.form_competency_id ∷ [])) es h₄ in
    record {
      new = (
        n,
        All-map _ _ es (λ x b. (contains-append done e.form_competency_id x.form_competency_id b).0)
            rest.new,
      );
      distinct = (
        All-map _ _ es (λ x b. (contains-append done e.form_competency_id x.form_competency_id b).1)
            rest.new,
        rest.distinct,
      );
      each = (record { scale = scale; found = f; fits = v }, rest.each);
    }

check_narratives-Distinct :
    (db : Db) (row : EvaluationRecord) (done : List ℕ) (es : List NarrativeEntry)
    → check_narratives db row done es ≡ ok tt
    → All (λ e. contains done e.form_narrative_id ≡ false) es
      × Distinct (λ e. e.form_narrative_id) es
unfolding check_narratives
check_narratives-Distinct db row done [] h = (tt, tt)
check_narratives-Distinct db row done (e ∷ es) h =
    let (n, h₁) = refuse_if-ok (contains done e.form_narrative_id) _ _ h in
    let (_, h₂) = refuse_if-ok (not (is_prompt db row e.form_narrative_id)) _ _ h₁ in
    let rest = check_narratives-Distinct db row (done ++ (e.form_narrative_id ∷ [])) es h₂ in
    (
      (
        n,
        All-map _ _ es (λ x b. (contains-append done e.form_narrative_id x.form_narrative_id b).0)
            rest.0,
      ),
      (
        All-map _ _ es (λ x b. (contains-append done e.form_narrative_id x.form_narrative_id b).1)
            rest.0,
        rest.1,
      ),
    )

-- An entry as it is read back: each modifier once, in the order of their identifiers.
abbrev pub normal : RatingEntry → RatingEntry
normal e = record {
  form_competency_id = e.form_competency_id;
  value = e.value;
  not_observed = e.not_observed;
  modifier_ids = order_by (λ m. m) (applied [] e.modifier_ids);
}

ratings_codec : ℕ → Codec RatingEntry DraftRating RatingEntry
unfolding rating_entry
ratings_codec r = record {
  make = rating_row r;
  mine = λ x. x.evaluation_record_id == r;
  entry_key = λ e. e.form_competency_id;
  row_key = λ x. x.form_competency_id;
  out_key = λ e. e.form_competency_id;
  read = rating_entry;
  normal = normal;
  owned = λ e rows. ==_refl r;
  keyed = λ e rows. refl;
  told = λ e rows. refl;
  read_keyed = λ x. refl;
}

narratives_codec : ℕ → Codec NarrativeEntry DraftNarrative NarrativeEntry
unfolding narrative_entry
narratives_codec r = record {
  make = narrative_row r;
  mine = λ x. x.evaluation_record_id == r;
  entry_key = λ e. e.form_narrative_id;
  row_key = λ x. x.form_narrative_id;
  out_key = λ e. e.form_narrative_id;
  read = narrative_entry;
  normal = λ e. e;
  owned = λ e rows. ==_refl r;
  keyed = λ e rows. refl;
  told = λ e rows. refl;
  read_keyed = λ x. refl;
}

-- What is read after a save is what was saved, for every competency and every prompt: the entry of the input, with each
-- modifier once and in order, where it has one, and nothing where it has none.
pub save-content :
    (q : Saving) (revision : ℕ) (db' : Db) (c : ℕ)
    → run q ≡ ok (revision, db')
    → (find? (λ e. e.form_competency_id == c) (content db' q.r).ratings
        ≡ map? normal (find? (λ e. e.form_competency_id == c) q.input.ratings))
      × (find? (λ n. n.form_narrative_id == c) (content db' q.r).narratives
          ≡ map? (λ n. n) (find? (λ n. n.form_narrative_id == c) q.input.narratives))
unfolding content ratings_codec narratives_codec
save-content q revision db' c h =
    let s = save-Saved q revision db' h in
    let checked = check_ratings-CheckedAll q.db s.early [] q.input.ratings s.ratings in
    let prompts = check_narratives-Distinct q.db s.early [] q.input.narratives s.narratives in
    rw (s.written) (
      replaced (ratings_codec q.r) c q.input.ratings q.db.ratings checked.distinct,
      replaced (narratives_codec q.r) c q.input.narratives q.db.narratives prompts.1,
    )
