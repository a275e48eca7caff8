-- ===== src/ZipContainer/Offsets.antt =====
-- Reads of crates/consolebook-server/src/zip_container.rs at an offset: what lies in the file when one
-- succeeds, wrapped sums included.
use consolebook.Base.{
  ℕ, zero, suc, ◌+◌, ◌-◌, ◌≤◌, ◌<◌, ◌≡◌, sym, subst, true, some, [], ◌∷◌, ◌&&◌, leb, length, ok,
  arith, Option-cases, inl, inr, Bool-cases, &&_true, leb→le, some_or_refuse-ok,
}
use consolebook.Canonical.Hex.{Bytes}
use consolebook.Canonical.Hex.RoundTrip.{AreBytes}
use consolebook.ZipContainer.{
  usize_range, add_usize, drop, take, get, has_signature, from_le_bytes, read_le, truncated_record,
}

pub add_usize_range : (a b : ℕ) → add_usize a b < usize_range
unfolding add_usize
add_usize_range a b = omega arith

-- A sum that is not below its first part did not wrap.
pub add_usize_forward :
    (a b : ℕ)
    → a < usize_range
    → 0 < b
    → b < usize_range
    → a ≤ add_usize a b
    → add_usize a b ≡ a + b
unfolding add_usize
add_usize_forward a b la pb lb h = omega arith

pub add_usize_small : (a b : ℕ) → a + b < usize_range → add_usize a b ≡ a + b
unfolding add_usize
add_usize_small a b h = omega arith

add_usize_step : (a b : ℕ) → add_usize a b - a ≤ b
unfolding add_usize
add_usize_step a b = omega arith

drop-AreBytes : (n : ℕ) (bytes : Bytes) → AreBytes bytes → AreBytes (drop n bytes)
drop-AreBytes zero bytes h = h
drop-AreBytes (suc n) [] h = tt
drop-AreBytes (suc n) (b ∷ bytes) h = drop-AreBytes n bytes h.1

take-AreBytes : (n : ℕ) (bytes : Bytes) → AreBytes bytes → AreBytes (take n bytes)
take-AreBytes zero bytes h = tt
take-AreBytes (suc n) [] h = tt
take-AreBytes (suc n) (b ∷ bytes) h = (h.0, take-AreBytes n bytes h.1)

length-take : (n : ℕ) (bytes : Bytes) → length (take n bytes) ≤ n
length-take zero bytes = omega arith
length-take (suc n) [] = omega arith
length-take (suc n) (b ∷ bytes) = omega (arith, length-take n bytes)

-- A range that is read is in order and inside the file.
pub get-some :
    (bytes : Bytes) (first last : ℕ) (b : Bytes)
    → get bytes first last ≡ some b
    → (first ≤ last) × (last ≤ length bytes) × (b ≡ take (last - first) (drop first bytes))
unfolding get
get-some bytes first last b h = elim (Bool-cases (leb first last && leb last (length bytes))) [
  | inl e ↦
      let both = &&_true (leb first last) (leb last (length bytes)) e in
      (leb→le first last both.0, leb→le last (length bytes) both.1, cc)
  | inr e ↦ absurd (ground arith)
]

-- A signature that is found lies in the file, without a wrapped sum.
pub has_signature-inside :
    (signature bytes : Bytes) (at : ℕ)
    → at < usize_range
    → has_signature signature bytes at ≡ true
    → at + 4 ≤ length bytes
unfolding has_signature
has_signature-inside signature bytes at l h = elim (Option-cases (get bytes at (add_usize at 4))) [
  | inl e ↦ absurd (cc)
  | inr (b, e) ↦
      let inside = get-some bytes at (add_usize at 4) b e in
      let sum = add_usize_forward at 4 l (omega arith) (omega arith) inside.0 in
      omega (arith, inside, sum)
]

two_bytes : (b : Bytes) → AreBytes b → length b ≤ 2 → from_le_bytes b < 65536
two_bytes [] h l = omega arith
two_bytes (x ∷ []) h l = omega arith
two_bytes (x ∷ y ∷ []) h l = omega arith
two_bytes (x ∷ y ∷ z ∷ b) h l = absurd (omega arith)

eight_bytes : (b : Bytes) → AreBytes b → length b ≤ 8 → from_le_bytes b < usize_range
eight_bytes [] h l = omega arith
eight_bytes (a ∷ []) h l = omega arith
eight_bytes (a ∷ b ∷ []) h l = omega arith
eight_bytes (a ∷ b ∷ c ∷ []) h l = omega arith
eight_bytes (a ∷ b ∷ c ∷ d ∷ []) h l = omega arith
eight_bytes (a ∷ b ∷ c ∷ d ∷ e ∷ []) h l = omega arith
eight_bytes (a ∷ b ∷ c ∷ d ∷ e ∷ f ∷ []) h l = omega arith
eight_bytes (a ∷ b ∷ c ∷ d ∷ e ∷ f ∷ g ∷ []) h l = omega arith
eight_bytes (a ∷ b ∷ c ∷ d ∷ e ∷ f ∷ g ∷ i ∷ []) h l = omega arith
eight_bytes (a ∷ b ∷ c ∷ d ∷ e ∷ f ∷ g ∷ i ∷ j ∷ k) h l = absurd (omega arith)

-- A number that is read is that of at most so many bytes.
read_le-some :
    (width : ℕ) (bytes : Bytes) (at v : ℕ)
    → AreBytes bytes
    → read_le width bytes at ≡ ok v
    → (b : Bytes) × (AreBytes b) × (length b ≤ width) × (from_le_bytes b ≡ v)
unfolding read_le
read_le-some width bytes at v h r =
    let (b, found, same) =
      some_or_refuse-ok (get bytes at (add_usize at width)) (truncated_record at)
        (λ b. ok (from_le_bytes b)) r in
    let inside = get-some bytes at (add_usize at width) b found in
    (
      b,
      subst AreBytes (sym inside.2)
          (take-AreBytes (add_usize at width - at) (drop at bytes) (drop-AreBytes at bytes h)),
      subst (λ x. length x ≤ width) (sym inside.2)
          (omega (
            arith,
            length-take (add_usize at width - at) (drop at bytes),
            add_usize_step at width,
          )),
      cc,
    )

-- A `u16` is below 65536.
pub le_u16-bound :
    (bytes : Bytes) (at v : ℕ) → AreBytes bytes → read_le 2 bytes at ≡ ok v → v < 65536
le_u16-bound bytes at v h r =
    let (b, kept, short, value) = read_le-some 2 bytes at v h r in
    omega (arith, two_bytes b kept short, value)

-- Every number that is read is a `usize`.
pub read_le-range :
    (width : ℕ) (bytes : Bytes) (at v : ℕ)
    → width ≤ 8
    → AreBytes bytes
    → read_le width bytes at ≡ ok v
    → v < usize_range
read_le-range width bytes at v narrow h r =
    let (b, kept, short, value) = read_le-some width bytes at v h r in
    omega (arith, eight_bytes b kept (omega (arith, short)), value)
