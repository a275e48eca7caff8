-- ===== src/Canonical/Subset.antt =====
-- The documents that `validate` of crates/consolebook-server/src/canonical.rs lets through.
use consolebook.Base.{
  ℕ, zero, suc, ◌^◌, ◌<◌, ◌≡◌, refl, sym, ◌∙◌, ◌↔◌, Bool, true, Option, some, none, List, [], ◌∷◌,
  ◌&&◌, arith, ℤ, magnitude, Bool-cases, inl, inr, Option-cases, &&_true, &&_both,
}
use consolebook.Canonical.{
  Value, null, boolean, number, string, array, object, Items, nil, cons, Members, end, member,
  number_allowed, is_ascii, validate, validate_items, validate_members, canonical_bytes,
}
use consolebook.Canonical.Hex.{Bytes}

item_at : Items → ℕ → Option Value
item_at nil i = none
item_at (cons v vs) zero = some v
item_at (cons v vs) (suc i) = item_at vs i

member_at : Members → ℕ → Option Value
member_at end i = none
member_at (member name v ms) zero = some v
member_at (member name v ms) (suc i) = member_at ms i

child : Value → ℕ → Option Value
child (array items) i = item_at items i
child (object members) i = member_at members i
child _ i = none

-- The part of a document that a path of positions leads to.
unfoldable pub part_at : List ℕ → Value → Option Value
unfolding child item_at member_at
part_at [] v = some v
part_at (i ∷ path) v = elim (child v i) [ none ↦ none | some w ↦ part_at path w ]

ascii_names : Members → Bool
ascii_names end = true
ascii_names (member name v ms) = is_ascii name && ascii_names ms

-- A number is an integer of a magnitude below 2^53, and the names of an object are ASCII.
pub allowed : Value → Bool
allowed (number n) = number_allowed n
allowed (object members) = ascii_names members
allowed _ = true

-- Every part of the document is allowed.
pub record InSubset (v : Value) : Type 0 where
  pub parts : (path : List ℕ) (w : Value) → part_at path v ≡ some w → allowed w ≡ true

allowed_here : (v : Value) → InSubset v → allowed v ≡ true
unfolding part_at
allowed_here v s = s.parts [] v refl

part_at-cons :
    (i : ℕ) (path : List ℕ) (v w : Value)
    → child v i ≡ some w
    → part_at (i ∷ path) v ≡ part_at path w
unfolding part_at
part_at-cons i path v w h = rw (h, part_at) refl

-- A part of a child is a part of the whole.
child-InSubset : (v : Value) (i : ℕ) (w : Value) → InSubset v → child v i ≡ some w → InSubset w
unfolding part_at
child-InSubset v i w s h = record {
  parts = λ path u e. s.parts (i ∷ path) u (part_at-cons i path v w h ∙ e);
}

validate-item_at :
    (items : Items) (i : ℕ) (w : Value)
    → validate_items items ≡ true
    → item_at items i ≡ some w
    → validate w ≡ true
unfolding item_at validate
validate-item_at nil i w h e = absurd (ground arith)
validate-item_at (cons v vs) zero w h e =
    let same : v ≡ w = ground arith in rw (← same) (&&_true _ _ h).0
validate-item_at (cons v vs) (suc i) w h e = validate-item_at vs i w (&&_true _ _ h).1 e

validate-member_at :
    (members : Members) (i : ℕ) (w : Value)
    → validate_members members ≡ true
    → member_at members i ≡ some w
    → validate w ≡ true
unfolding member_at validate
validate-member_at end i w h e = absurd (ground arith)
validate-member_at (member name v ms) zero w h e =
    let same : v ≡ w = ground arith in rw (← same) (&&_true _ _ (&&_true _ _ h).1).0
validate-member_at (member name v ms) (suc i) w h e =
    validate-member_at ms i w (&&_true _ _ (&&_true _ _ h).1).1 e

validate-child :
    (v : Value) (i : ℕ) (w : Value) → validate v ≡ true → child v i ≡ some w → validate w ≡ true
unfolding child validate
validate-child null i w h e = absurd (ground arith)
validate-child (boolean b) i w h e = absurd (ground arith)
validate-child (number n) i w h e = absurd (ground arith)
validate-child (string s) i w h e = absurd (ground arith)
validate-child (array items) i w h e = validate-item_at items i w h e
validate-child (object members) i w h e = validate-member_at members i w h e

ascii_names-validate :
    (members : Members) → validate_members members ≡ true → ascii_names members ≡ true
unfolding ascii_names validate
ascii_names-validate end h = refl
ascii_names-validate (member name v ms) h =
    let (named, rest) = &&_true _ _ h in
    &&_both _ _ named (ascii_names-validate ms (&&_true _ _ rest).1)

allowed-validate : (v : Value) → validate v ≡ true → allowed v ≡ true
unfolding allowed validate
allowed-validate null h = refl
allowed-validate (boolean b) h = refl
allowed-validate (number n) h = h
allowed-validate (string s) h = refl
allowed-validate (array items) h = refl
allowed-validate (object members) h = ascii_names-validate members h

validate-part_at :
    (path : List ℕ) (v w : Value) → validate v ≡ true → part_at path v ≡ some w → validate w ≡ true
unfolding part_at
validate-part_at [] v w h e = let same : v ≡ w = ground arith in rw (← same) h
validate-part_at (i ∷ path) v w h e = elim (Option-cases (child v i)) [
  | inl f ↦ absurd (ground (arith, f, e))
  | inr (u, f) ↦
      validate-part_at path u w (validate-child v i u h f) (sym (part_at-cons i path v u f) ∙ e)
]

mutual
  unfolding validate item_at member_at child allowed ascii_names

  InSubset-validate : (v : Value) → InSubset v → validate v ≡ true
  InSubset-validate null s = refl
  InSubset-validate (boolean b) s = refl
  InSubset-validate (string t) s = refl
  InSubset-validate (number n) s = allowed_here (number n) s
  InSubset-validate (array items) s =
      items-validate items (λ i w e. child-InSubset (array items) i w s e)
  InSubset-validate (object members) s =
      members-validate members (allowed_here (object members) s)
        (λ i w e. child-InSubset (object members) i w s e)

  items-validate :
      (items : Items)
      → ((i : ℕ) (w : Value) → item_at items i ≡ some w → InSubset w)
      → validate_items items ≡ true
  items-validate nil below = refl
  items-validate (cons v vs) below =
      &&_both _ _ (InSubset-validate v (below 0 v refl))
        (items-validate vs (λ i w e. below (suc i) w e))

  members-validate :
      (members : Members)
      → ascii_names members ≡ true
      → ((i : ℕ) (w : Value) → member_at members i ≡ some w → InSubset w)
      → validate_members members ≡ true
  members-validate end named below = refl
  members-validate (member name v ms) named below =
      let (ascii, rest) = &&_true _ _ named in
      &&_both _ _ ascii (
        &&_both _ _ (InSubset-validate v (below 0 v refl))
          (members-validate ms rest (λ i w e. below (suc i) w e)))

-- `validate` lets a document through exactly when, at every path into it, a number is an integer of a
-- magnitude below 2^53 and an object has ASCII names only.
pub validate-iff-InSubset : (v : Value) → (validate v ≡ true) ↔ InSubset v
validate-iff-InSubset v = (
  (λ h. record { parts = λ path w e. allowed-validate w (validate-part_at path v w h e) }),
  (λ s. InSubset-validate v s),
)

abbrev pub number_of : Value → Option (Option ℤ)
number_of (number n) = some n
number_of _ = none

-- A number anywhere in a document that is written is an integer of a magnitude below 2^53.
pub canonical_bytes_bounds :
    (to_vec : Value → Option Bytes) (v : Value) (bytes : Bytes) (path : List ℕ) (n : Option ℤ)
    → canonical_bytes to_vec v ≡ some bytes
    → part_at path v ≡ some (number n)
    → (i : ℤ) × (n ≡ some i) × (magnitude i < 2 ^ 53)
unfolding canonical_bytes
canonical_bytes_bounds to_vec v bytes path n h e = elim (Bool-cases (validate v)) [
  | inl t ↦ small n (validate-part_at path v (number n) t e)
  | inr t ↦ absurd (let gone : none ≡ some bytes = rw t at h in ground arith)
]
  where
    small :
        (n : Option ℤ)
        → validate (number n) ≡ true
        → (i : ℤ) × (n ≡ some i) × (magnitude i < 2 ^ 53)
    small none t = absurd (ground arith)
    small (some i) t = (i, refl, ground arith)
