-- ===== src/Draft/Content/Order.antt =====
-- Rows in the order of a key, as crates/consolebook-server/src/draft_content.rs reads them.
use consolebook.Base.{
  ℕ, ◌≡◌, refl, ◌∙◌, false, some, List, [], ◌∷◌, ◌==◌, leb, find?, arith, Bool-cases, inl, inr,
  if◌then◌else◌, All, ◌≤◌, All-map,
}
use consolebook.Draft.Content.{insert_by, order_by}

module _ {ℓ} {A : Type ℓ} (key : A → ℕ) where
  find?-insert_by :
      (n : ℕ) (x : A) (ys : List A)
      → find? (λ y. key y == n) (insert_by key x ys)
        ≡ (if key x == n then some x else find? (λ y. key y == n) ys)
  unfolding insert_by find?
  find?-insert_by n x [] = refl
  find?-insert_by n x (y ∷ ys) = elim (Bool-cases (leb (key x) (key y))) [
    | inl t ↦ rw t refl
    | inr f ↦ rw f (
        rw (find?-insert_by n x ys) (elim (Bool-cases (key y == n)) [
          | inl e ↦ rw e (let apart : (key x == n) ≡ false = ground arith in rw apart refl)
          | inr e ↦ rw e refl
        ]))
  ]

  -- The first row of a key is the same in the order.
  pub find?-order_by :
      (n : ℕ) (xs : List A) → find? (λ y. key y == n) (order_by key xs) ≡ find? (λ y. key y == n) xs
  unfolding order_by find?
  find?-order_by n [] = refl
  find?-order_by n (x ∷ xs) = find?-insert_by n x (order_by key xs) ∙ rw (find?-order_by n xs) refl

  -- The keys do not fall.
  abbrev pub Ascends : List A → Type 0
  Ascends [] = Unit
  Ascends (x ∷ xs) = All (λ y. key x ≤ key y) xs × Ascends xs

  All-insert_by {κ} :
      (P : A → Type κ) (x : A) (ys : List A) → P x → All P ys → All P (insert_by key x ys)
  unfolding insert_by
  All-insert_by P x [] p h = (p, tt)
  All-insert_by P x (y ∷ ys) p h = elim (Bool-cases (leb (key x) (key y))) [
    | inl t ↦ rw t (p, h)
    | inr f ↦ rw f (h.0, All-insert_by P x ys p h.1)
  ]

  insert_by-Ascends : (x : A) (ys : List A) → Ascends ys → Ascends (insert_by key x ys)
  unfolding insert_by
  insert_by-Ascends x [] h = (tt, tt)
  insert_by-Ascends x (y ∷ ys) h = elim (Bool-cases (leb (key x) (key y))) [
    | inl t ↦ rw t ((ground arith, All-map _ _ ys (λ z b. ground arith) h.0), h)
    | inr f ↦
        rw f
          (All-insert_by (λ z. key y ≤ key z) x ys (ground arith) h.0, insert_by-Ascends x ys h.1)
  ]

  pub order_by-Ascends : (xs : List A) → Ascends (order_by key xs)
  unfolding order_by
  order_by-Ascends [] = tt
  order_by-Ascends (x ∷ xs) = insert_by-Ascends x (order_by key xs) (order_by-Ascends xs)
