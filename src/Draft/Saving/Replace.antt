-- ===== src/Draft/Saving/Replace.antt =====
-- A table whose rows of one owner are replaced: crates/consolebook-server/src/draft_content.rs.
use consolebook.Base.{
  ℕ, ◌≡◌, refl, ap, ◌∙◌, Bool, true, false, Option, some, none, List, [], ◌∷◌, not, ◌==◌, find?,
  select, select_none, select_only, map, All, All-map, Distinct, arith, Bool-cases, inl, inr,
  if◌then◌else◌,
}
use consolebook.Draft.Content.{order_by}
use consolebook.Draft.Content.Order.{find?-order_by}

abbrev pub map? : {A B : Type 0} → (A → B) → Option A → Option B
map? f none = none
map? f (some a) = some (f a)

-- Each entry becomes a row on top of the rows before.
abbrev pub write_all :
    {Entry Row : Type 0} → (Entry → List Row → Row) → List Entry → List Row → List Row
write_all make [] rows = rows
write_all make (e ∷ es) rows = write_all make es (make e rows ∷ rows)

-- How a row relates to its entry, and what is read of both.
pub record Codec (Entry Row Out : Type 0) : Type 0 where
  pub make : Entry → List Row → Row
  pub mine : Row → Bool
  pub entry_key : Entry → ℕ
  pub row_key : Row → ℕ
  pub out_key : Out → ℕ
  pub read : Row → Out
  pub normal : Entry → Out
  pub owned : (e : Entry) (rows : List Row) → mine (make e rows) ≡ true
  pub keyed : (e : Entry) (rows : List Row) → row_key (make e rows) ≡ entry_key e
  pub told : (e : Entry) (rows : List Row) → read (make e rows) ≡ normal e
  pub read_keyed : (x : Row) → out_key (read x) ≡ row_key x

find?-map :
    {A B : Type 0} (f : A → B) (p : B → Bool) (q : A → Bool) (xs : List A)
    → ((x : A) → p (f x) ≡ q x)
    → find? p (map f xs) ≡ map? f (find? q xs)
unfolding find?
find?-map f p q [] h = refl
find?-map f p q (x ∷ xs) h = elim (Bool-cases (q x)) [
  | inl t ↦ rw (h x, t) refl
  | inr n ↦ rw (h x, n) (find?-map f p q xs h)
]

module _ {Entry Row Out : Type 0} (c : Codec Entry Row Out) where
  abbrev row_for : ℕ → List Row → Option Row
  row_for n rows = find? (λ x. c.row_key x == n) (select c.mine rows)

  abbrev entry_for : ℕ → List Entry → Option Entry
  entry_for n es = find? (λ e. c.entry_key e == n) es

  row_for-cons :
      (n : ℕ) (e : Entry) (rows : List Row)
      → map? c.read (row_for n (c.make e rows ∷ rows))
        ≡ (if c.entry_key e == n then some (c.normal e) else map? c.read (row_for n rows))
  unfolding select find?
  row_for-cons n e rows =
      rw (c.owned e rows, c.keyed e rows)
        (elim (Bool-cases (c.entry_key e == n)) [
          | inl t ↦ rw (t, c.told e rows) refl
          | inr f ↦ rw f refl
        ])

  entry_for-none :
      (n : ℕ) (e : Entry) (es : List Entry)
      → (c.entry_key e == n) ≡ true
      → All (λ x. (c.entry_key x == c.entry_key e) ≡ false) es
      → entry_for n es ≡ none
  unfolding find?
  entry_for-none n e [] t h = refl
  entry_for-none n e (x ∷ es) t h =
      let apart : (c.entry_key x == n) ≡ false = ground (arith, h.0) in
      rw apart (entry_for-none n e es t h.1)

  abbrev or_else : Option Out → Option Out → Option Out
  or_else none o = o
  or_else (some e) o = some e

  -- What is written for a key is its entry; without one, what was there.
  write_all-row_for :
      (n : ℕ) (entries : List Entry) (rows : List Row)
      → Distinct c.entry_key entries
      → map? c.read (row_for n (write_all c.make entries rows))
        ≡ or_else (map? c.normal (entry_for n entries)) (map? c.read (row_for n rows))
  unfolding find?
  write_all-row_for n [] rows d = refl
  write_all-row_for n (e ∷ es) rows d =
      write_all-row_for n es (c.make e rows ∷ rows) d.1
      ∙ rw (row_for-cons n e rows) (elim (Bool-cases (c.entry_key e == n)) [
        | inl t ↦ rw (t, entry_for-none n e es t d.0) refl
        | inr f ↦ rw f refl
      ])

  or_else-none : (o : Option Out) → or_else o none ≡ o
  or_else-none none = refl
  or_else-none (some e) = refl

  cleared : (n : ℕ) (rows : List Row) → row_for n (select (λ x. not (c.mine x)) rows) ≡ none
  unfolding find?
  cleared n rows =
      let others =
        All-map _ (λ x. c.mine x ≡ false) (select (λ x. not (c.mine x)) rows) (λ x h. ground arith)
          (select_only (λ x. not (c.mine x)) rows) in
      rw (select_none c.mine (select (λ x. not (c.mine x)) rows) others) refl

  -- After the replacement, what is read in order is, key by key, what was written.
  pub replaced :
      (n : ℕ) (entries : List Entry) (rows : List Row)
      → Distinct c.entry_key entries
      → find?
          (λ o. c.out_key o == n)
          (map c.read (
            order_by c.row_key
              (select c.mine (write_all c.make entries (select (λ x. not (c.mine x)) rows)))))
        ≡ map? c.normal (entry_for n entries)
  replaced n entries rows d =
      let written = write_all c.make entries (select (λ x. not (c.mine x)) rows) in
      find?-map c.read (λ o. c.out_key o == n) (λ x. c.row_key x == n)
        (order_by c.row_key (select c.mine written)) (λ x. rw (c.read_keyed x) refl)
      ∙ ap (map? c.read) (find?-order_by c.row_key n (select c.mine written))
      ∙ write_all-row_for n entries (select (λ x. not (c.mine x)) rows) d
      ∙ rw (cleared n rows) (or_else-none (map? c.normal (entry_for n entries)))
