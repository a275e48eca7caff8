-- ===== src/Base/Facts.antt =====
-- Lemmas on the queries of Rows.
use Prim.Native.Nat.{ℕ, ◌≤◌}
use mathlib.Core.Path.{◌≡◌, refl, subst}
use mathlib.Core.Logic.{inl, inr}
use mathlib.Core.Bool.{Bool, true, false, ◌&&◌}
use mathlib.Core.Option.{Option, none, some}
use mathlib.Core.List.{List, [], ◌∷◌}
use native.Mathlib.Omega.{arith}
use consolebook.Base.Tests.{ltb, ◌==◌, Bool-cases, Option-cases}
use consolebook.Base.Rows.{All, Distinct, select, exists, find?, max_of, next_id, pick, top}

module _ {ℓ} {A : Type ℓ} where
  pub All-select {κ} :
      (P : A → Type κ) (p : A → Bool) (xs : List A) → All P xs → All P (select p xs)
  unfolding select
  All-select P p [] h = tt
  All-select P p (x ∷ xs) h = elim (Bool-cases (p x)) [
    | inl e ↦ rw e (h.0, All-select P p xs h.1)
    | inr e ↦ rw e (All-select P p xs h.1)
  ]

  pub All-unselect {κ} :
      (P : A → Type κ) (p : A → Bool) (xs : List A)
      → All P (select p xs)
      → All (λ x. p x ≡ true → P x) xs
  unfolding select
  All-unselect P p [] h = tt
  All-unselect P p (x ∷ xs) h = elim (Bool-cases (p x)) [
    | inl e ↦
        let h' : All P (x ∷ select p xs) = rw e at h in ((λ _. h'.0), All-unselect P p xs h'.1)
    | inr e ↦ let h' : All P (select p xs) = rw e at h in ((λ t. cc (e, t)), All-unselect P p xs h')
  ]

  pub select_only : (p : A → Bool) (xs : List A) → All (λ x. p x ≡ true) (select p xs)
  unfolding select
  select_only p [] = tt
  select_only p (x ∷ xs) = elim (Bool-cases (p x)) [
    | inl e ↦ rw e (e, select_only p xs)
    | inr e ↦ rw e (select_only p xs)
  ]

  pub All-map {κ μ} :
      (P : A → Type κ) (Q : A → Type μ) (xs : List A) → ((x : A) → P x → Q x) → All P xs → All Q xs
  All-map P Q [] f h = tt
  All-map P Q (x ∷ xs) f h = (f x h.0, All-map P Q xs f h.1)

  pub All-both {κ μ} :
      (P : A → Type κ) (Q : A → Type μ) (xs : List A)
      → All P xs
      → All Q xs
      → All (λ x. P x × Q x) xs
  All-both P Q [] h k = tt
  All-both P Q (x ∷ xs) h k = ((h.0, k.0), All-both P Q xs h.1 k.1)

  pub find?-sound : (p : A → Bool) (xs : List A) (x : A) → find? p xs ≡ some x → p x ≡ true
  unfolding find?
  find?-sound p [] x h = ground arith
  find?-sound p (y ∷ ys) x h = ground (arith, find?-sound p ys x)

  pub find?-All {κ} :
      (P : A → Type κ) (p : A → Bool) (xs : List A) (x : A) → All P xs → find? p xs ≡ some x → P x
  unfolding find?
  find?-All P p [] x h e = absurd (ground arith)
  find?-All P p (y ∷ ys) x h e = elim (Bool-cases (p y)) [
    | inl t ↦ let q : y ≡ x = ground arith in subst P q h.0
    | inr f ↦ find?-All P p ys x h.1 (ground arith)
  ]

  pub exists-find? : (p : A → Bool) (xs : List A) (x : A) → find? p xs ≡ some x → exists p xs ≡ true
  unfolding find? exists
  exists-find? p [] x h = ground arith
  exists-find? p (y ∷ ys) x h = ground (arith, exists-find? p ys x)

  pub exists_of_none : (p : A → Bool) (xs : List A) → find? p xs ≡ none → exists p xs ≡ false
  unfolding find? exists
  exists_of_none p [] h = refl
  exists_of_none p (y ∷ ys) h = ground (arith, exists_of_none p ys)

  pub max_of-select :
      (key : A → ℕ) (p : A → Bool) (xs : List A) → max_of key (select p xs) ≤ max_of key xs
  unfolding max_of select
  max_of-select key p [] = omega arith
  max_of-select key p (x ∷ xs) = elim (Bool-cases (p x)) [
    | inl t ↦ rw t (omega (arith, max_of-select key p xs))
    | inr f ↦ rw f (omega (arith, max_of-select key p xs))
  ]

  pub select_same :
      (p q : A → Bool) (xs : List A) → All (λ x. p x ≡ q x) xs → select p xs ≡ select q xs
  unfolding select
  select_same p q [] h = refl
  select_same p q (x ∷ xs) h = rw (h.0, select_same p q xs h.1) refl

  pub select_none : (p : A → Bool) (xs : List A) → All (λ x. p x ≡ false) xs → select p xs ≡ []
  unfolding select
  select_none p [] h = refl
  select_none p (x ∷ xs) h = rw (h.0) (select_none p xs h.1)

  pub find?_of_exists :
      (p : A → Bool) (xs : List A) → exists p xs ≡ true → (x : A) × (find? p xs ≡ some x)
  unfolding find? exists
  find?_of_exists p [] h = absurd (ground arith)
  find?_of_exists p (y ∷ ys) h = elim (Bool-cases (p y)) [
    | inl t ↦ (y, rw t refl)
    | inr f ↦ rw f (find?_of_exists p ys (ground arith))
  ]

  pub exists_mono :
      (p q : A → Bool) (xs : List A)
      → ((x : A) → p x ≡ true → q x ≡ true)
      → exists p xs ≡ true
      → exists q xs ≡ true
  unfolding exists
  exists_mono p q [] f h = h
  exists_mono p q (x ∷ xs) f h = elim (Bool-cases (p x)) [
    | inl t ↦ rw (f x t) refl
    | inr t ↦ ground (arith, exists_mono p q xs f (ground arith))
  ]

  exists-All :
      (p q : A → Bool) (xs : List A)
      → All (λ x. p x ≡ false) xs
      → exists (λ x. p x && q x) xs ≡ false
  unfolding exists
  exists-All p q [] h = refl
  exists-All p q (x ∷ xs) h = ground (arith, h.0, exists-All p q xs h.1)

  -- The row that a key names is the one that has the key and another property.
  pub find?-Distinct :
      (key : A → ℕ) (q : A → Bool) (n : ℕ) (xs : List A)
      → Distinct key xs
      → exists (λ x. key x == n && q x) xs ≡ true
      → (x : A) × (find? (λ x. key x == n) xs ≡ some x) × (q x ≡ true)
  unfolding find? exists
  find?-Distinct key q n [] d h = absurd (ground arith)
  find?-Distinct key q n (x ∷ xs) d h = elim (Bool-cases (key x == n)) [
    | inl t ↦
        let gone = exists-All (λ y. key y == n) q xs (All-map _ _ xs (λ y r. ground arith) d.0) in
        (x, rw t refl, ground (arith, gone))
    | inr f ↦ rw f (find?-Distinct key q n xs d.1 (ground arith))
  ]

  pub max_of-bound : (key : A → ℕ) (xs : List A) → All (λ x. key x ≤ max_of key xs) xs
  unfolding max_of
  max_of-bound key [] = tt
  max_of-bound key (x ∷ xs) =
      (omega arith, All-map _ _ xs (λ y h. omega arith) (max_of-bound key xs))

  pick-All {κ} :
      (P : A → Type κ) (before : A → A → Bool) (x y : A) (o : Option A)
      → P x
      → ((z : A) → o ≡ some z → P z)
      → pick before x o ≡ some y
      → P y
  unfolding pick
  pick-All P before x y none h k e = let q : x ≡ y = ground arith in subst P q h
  pick-All P before x y (some z) h k e = elim (Bool-cases (before x z)) [
    | inl b ↦ let q : z ≡ y = ground arith in subst P q (k z refl)
    | inr b ↦ let q : x ≡ y = ground arith in subst P q h
  ]

  pub top-All {κ} :
      (P : A → Type κ) (before : A → A → Bool) (xs : List A) (y : A)
      → All P xs
      → top before xs ≡ some y
      → P y
  unfolding top
  top-All P before [] y h e = absurd (ground arith)
  top-All P before (x ∷ xs) y h e =
      pick-All P before x y (top before xs) h.0 (λ z r. top-All P before xs z h.1 r) e

  -- A row that no other row is after is the result.
  pub top-cons :
      (before : A → A → Bool) (x : A) (xs : List A)
      → All (λ y. before x y ≡ false) xs
      → top before (x ∷ xs) ≡ some x
  unfolding top pick
  top-cons before x xs h = elim (Option-cases (top before xs)) [
    | inl e ↦ rw (e, pick) refl
    | inr (y, e) ↦ rw (e, pick) (rw (top-All _ before xs y h e) refl)
  ]

  -- The newest of the rows that a test selects is the one that was just inserted.
  pub top-fresh :
      (key : A → ℕ) (p : A → Bool) (x : A) (xs : List A)
      → key x ≡ next_id key xs
      → p x ≡ true
      → top (λ a b. ltb (key a) (key b)) (select p (x ∷ xs)) ≡ some x
  unfolding select next_id
  top-fresh key p x xs fresh h = rw h (
      top-cons _ x (select p xs)
        (All-select _ p xs (All-map _ _ xs (λ y b. ground arith) (max_of-bound key xs))))
