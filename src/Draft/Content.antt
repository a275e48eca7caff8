-- ===== src/Draft/Content.antt =====
-- crates/consolebook-server/src/draft_content.rs: the working copy as its readers see it.
pub mod Order
use consolebook.Base.{
  ℕ, ℤ, Bool, Option, List, [], ◌∷◌, ◌==◌, leb, Text, map, select, if◌then◌else◌,
}
use consolebook.Db.{Db, DraftRating, DraftNarrative}

pub record RatingEntry : Type 0 where
  pub form_competency_id : ℕ
  pub value : Option ℤ
  pub not_observed : Bool
  pub modifier_ids : List ℕ

pub record NarrativeEntry : Type 0 where
  pub form_narrative_id : ℕ
  pub text : Text

pub record DraftContent : Type 0 where
  pub ratings : List RatingEntry
  pub narratives : List NarrativeEntry

module _ {ℓ} {A : Type ℓ} where
  -- Before the first row that has no smaller key.
  unfoldable pub insert_by : (A → ℕ) → A → List A → List A
  insert_by key x [] = x ∷ []
  insert_by key x (y ∷ ys) = if leb (key x) (key y) then x ∷ y ∷ ys else y ∷ insert_by key x ys

  -- ORDER BY
  unfoldable pub order_by : (A → ℕ) → List A → List A
  unfolding insert_by
  order_by key [] = []
  order_by key (x ∷ xs) = insert_by key x (order_by key xs)

unfoldable pub rating_entry : DraftRating → RatingEntry
unfolding order_by
rating_entry row = record {
  form_competency_id = row.form_competency_id;
  value = row.value;
  not_observed = row.not_observed;
  modifier_ids = order_by (λ m. m) row.modifiers;
}

unfoldable pub narrative_entry : DraftNarrative → NarrativeEntry
narrative_entry row = record { form_narrative_id = row.form_narrative_id; text = row.text }

unfoldable pub content : Db → ℕ → DraftContent
unfolding rating_entry narrative_entry order_by
content db r = record {
  ratings = map rating_entry (
      order_by (λ row. row.form_competency_id)
        (select (λ row. row.evaluation_record_id == r) db.ratings));
  narratives = map narrative_entry (
      order_by (λ row. row.form_narrative_id)
        (select (λ row. row.evaluation_record_id == r) db.narratives));
}
