-- ===== src/Draft/Saving/Bounds.antt =====
-- The values that `save` of crates/consolebook-server/src/draft_content.rs lets into a working copy.
use consolebook.Base.{
  ℕ, ℤ, pos, ◌≤ℤ◌, ltb_ℤ, ltb_ℤ-false, ◌≡◌, sym, ap, ◌∙◌, ◌⊎◌, inl, inr, Bool, true, false, Option,
  some, none, [], ◌||◌, ◌==◌, find?, find?-All, find?-sound, eq_of_==, arith, ok, fetch_one-ok,
  Bool-cases, Option-cases, refuse_if,
}
use consolebook.Db.{
  Db, EvaluationRecord, RatingScale, ScaleKind, anchored_numeric, pass_fail, narrative_only,
}
use consolebook.Draft.Content.{RatingEntry, content}
use consolebook.Draft.Saving.{scale_for, check_kind, check_value, is_pass_or_fail}
use consolebook.Draft.Saving.Copy.{Checked, check_ratings-CheckedAll, normal, save-content}
use consolebook.Draft.Saving.Effect.{Saving, run, save-Saved}
use consolebook.Draft.Saving.Replace.{map?}
use consolebook.Draft.Status.{DraftRefusal, load_record}

-- The values that a scale of a kind admits.
abbrev pub InRange : RatingScale → ScaleKind → ℤ → Type 0
InRange scale anchored_numeric v =
    (min : ℤ) × (max : ℤ) × (scale.min_value ≡ some min)
    × (scale.max_value ≡ some max)
    × (min ≤ℤ v)
    × (v ≤ℤ max)
InRange scale pass_fail v = (v ≡ pos 0) ⊎ (v ≡ pos 1)
InRange scale narrative_only v = ⊥

or_false : (a b : Bool) → (a || b) ≡ false → (a ≡ false) × (b ≡ false)
or_false a b h = ground arith

pass_or_fail : (v : ℤ) → is_pass_or_fail v ≡ true → (v ≡ pos 0) ⊎ (v ≡ pos 1)
pass_or_fail (pos n) h = elim (Bool-cases (n == 0)) [
  | inl e ↦ inl (ap pos (eq_of_== n 0 e))
  | inr e ↦ inr (ap pos (ground arith))
]
pass_or_fail (ℤ.negsuc n) h = absurd (ground arith)

check_kind-InRange :
    (scale : RatingScale) (kind : ScaleKind) (v : ℤ)
    → check_kind scale kind (some v) ≡ ok tt
    → InRange scale kind v
unfolding check_kind
check_kind-InRange scale anchored_numeric v h =
    let (min, a, h₁) = fetch_one-ok scale.min_value _ h in
    let (max, b, h₂) = fetch_one-ok scale.max_value _ h₁ in
    let (low, high) = or_false (ltb_ℤ v min) (ltb_ℤ max v) (passed _ h₂) in
    (min, max, a, b, ltb_ℤ-false v min low, ltb_ℤ-false max v high)
  where
    passed : (b : Bool) → refuse_if b DraftRefusal.value_out_of_range ≡ ok tt → b ≡ false
    passed b p = ground arith
check_kind-InRange scale pass_fail v h = pass_or_fail v (ground arith)
check_kind-InRange scale narrative_only v h = absurd (ground arith)

check_value-InRange :
    (scale : RatingScale) (e : RatingEntry) (v : ℤ)
    → check_value scale e ≡ ok tt
    → e.value ≡ some v
    → (e.not_observed ≡ false) × InRange scale scale.kind v
unfolding check_value
check_value-InRange scale e v h there = elim (Bool-cases e.not_observed) [
  | inl t ↦ absurd (ground arith)
  | inr f ↦ (f, check_kind-InRange scale scale.kind v (ground arith))
]

same_entry : {a b : RatingEntry} → ◌≡◌ {A = Option RatingEntry} (some a) (some b) → a ≡ b
same_entry h = cc

none_apart : {a : RatingEntry} → ◌≡◌ {A = Option RatingEntry} (some a) none → ⊥
none_apart h = cc

-- After a save, a value that is read for a competency is one that the competency's scale, of the pinned form, admits: between
-- its bounds if it is anchored, 0 or 1 if it is pass or fail, and none if it is narrative only. The entry is not marked as not
-- observed then.
pub save-InRange :
    (q : Saving) (revision : ℕ) (db' : Db) (c : ℕ) (e : RatingEntry) (v : ℤ)
    → run q ≡ ok (revision, db')
    → find? (λ x. x.form_competency_id == c) (content db' q.r).ratings ≡ some e
    → e.value ≡ some v
    → (early : EvaluationRecord) × (load_record q.seen q.r ≡ some early)
      × (scale : RatingScale) × (scale_for q.db early c ≡ some scale)
      × (e.not_observed ≡ false)
      × InRange scale scale.kind v
save-InRange q revision db' c e v h read valued =
    let s = save-Saved q revision db' h in
    let back = (save-content q revision db' c h).0 in
    let checked = check_ratings-CheckedAll q.db s.early [] q.input.ratings s.ratings in
    elim (Option-cases (find? (λ x. x.form_competency_id == c) q.input.ratings)) [
      | inl gone ↦ absurd (none_apart (sym read ∙ back ∙ ap (map? normal) gone))
      | inr (x, found) ↦
          let same : normal x ≡ e = sym (same_entry (sym read ∙ back ∙ ap (map? normal) found)) in
          let k = find?-All (Checked q.db s.early) _ q.input.ratings x checked.each found in
          let key = eq_of_== x.form_competency_id c (find?-sound _ q.input.ratings x found) in
          let range =
            check_value-InRange k.scale x v k.fits
              (ap (λ (y : RatingEntry). y.value) same ∙ valued) in
          (
            s.early,
            s.known,
            k.scale,
            rw (← key) (k.found),
            sym (ap (λ (y : RatingEntry). y.not_observed) same) ∙ range.0,
            range.1,
          )
    ]
