-- ===== src/Base/Rows.antt =====
-- Tables and queries. A table is the list of its rows, the newest first. The functions are the
-- SQL forms that the services use: WHERE, EXISTS, MAX, and ORDER BY ... LIMIT 1.
use Prim.Native.Nat.{ℕ, suc, max}
use mathlib.Core.Path.{◌≡◌}
use mathlib.Core.Bool.{Bool, false, ◌||◌}
use mathlib.Core.Option.{Option, none, some}
use mathlib.Core.List.{List, [], ◌∷◌}
use consolebook.Base.Tests.{◌==◌, if◌then◌else◌}

-- A predicate of every row.
abbrev pub All {ℓ κ} : {Row : Type ℓ} → (Row → Type κ) → List Row → Type κ
All holds [] = Unit
All holds (row ∷ rows) = holds row × All holds rows

-- A key names at most one row.
abbrev pub Distinct {ℓ} : {A : Type ℓ} → (A → ℕ) → List A → Type 0
Distinct key [] = Unit
Distinct key (x ∷ xs) = All (λ y. (key y == key x) ≡ false) xs × Distinct key xs

module _ {ℓ} {A : Type ℓ} where
  abbrev pub length : List A → ℕ
  length [] = 0
  length (x ∷ xs) = suc (length xs)

  -- SELECT ... WHERE, all rows.
  unfoldable pub select : (A → Bool) → List A → List A
  select p [] = []
  select p (x ∷ xs) = if p x then x ∷ select p xs else select p xs

  -- SELECT 1 ... WHERE, fetch_optional, is_some.
  unfoldable pub exists : (A → Bool) → List A → Bool
  exists p [] = false
  exists p (x ∷ xs) = p x || exists p xs

  -- The row that a unique key names.
  unfoldable pub find? : (A → Bool) → List A → Option A
  find? p [] = none
  find? p (x ∷ xs) = if p x then some x else find? p xs

  -- SELECT MAX(key); 0 for no row.
  unfoldable pub max_of : (A → ℕ) → List A → ℕ
  max_of key [] = 0
  max_of key (x ∷ xs) = max (key x) (max_of key xs)

  -- SELECT MAX(key), NULL for no row.
  unfoldable pub max? : (A → ℕ) → List A → Option ℕ
  unfolding max_of
  max? key [] = none
  max? key (x ∷ xs) = some (max_of key (x ∷ xs))

  -- The INTEGER PRIMARY KEY that SQLite gives to the next row.
  unfoldable pub next_id : (A → ℕ) → List A → ℕ
  unfolding max_of
  next_id key xs = suc (max_of key xs)

  unfoldable pub pick : (A → A → Bool) → A → Option A → Option A
  pick before x none = some x
  pick before x (some y) = if before x y then some y else some x

  -- ORDER BY ... DESC LIMIT 1 for the order `before`.
  unfoldable pub top : (A → A → Bool) → List A → Option A
  unfolding pick
  top before [] = none
  top before (x ∷ xs) = pick before x (top before xs)
