-- ===== src/Canonical/Hex/RoundTrip.antt =====
-- Hexadecimal text of crates/consolebook-server/src/canonical.rs, read back.
use consolebook.Base.{
  ℕ, ◌+◌, ◌-◌, ◌*◌, ◌/◌, ◌%◌, ◌<◌, ◌≡◌, refl, ap, true, false, some, none, [], ◌∷◌, ◌==◌, length,
  eq_of_==, All, Text, arith, Option-cases, inl, inr, Bool-cases,
}
use consolebook.Canonical.Hex.{
  Bytes, hex_digit, to_hex, digit_value, radix_16, from_pairs, from_hex32, is_lower_hex,
}

abbrev pub AreBytes : Bytes → Type 0
AreBytes = All (λ b. b < 256)

abbrev pub IsLowerHex : Text → Type 0
IsLowerHex = All (λ c. is_lower_hex c ≡ true)

digit_value-hex_digit : (n : ℕ) → n < 16 → digit_value (hex_digit n) ≡ some n
unfolding digit_value hex_digit
digit_value-hex_digit n h = ground arith

hex_digit-lower : (n : ℕ) → n < 16 → is_lower_hex (hex_digit n) ≡ true
unfolding is_lower_hex hex_digit
hex_digit-lower n h = ground arith

plus-hex_digit : (n : ℕ) → n < 16 → (hex_digit n == b'+') ≡ false
unfolding hex_digit
plus-hex_digit n h = ground arith

radix_16-hex_digit : (b : ℕ) → b < 256 → radix_16 (hex_digit (b / 16)) (hex_digit (b % 16)) ≡ some b
unfolding radix_16
radix_16-hex_digit b h =
    rw
      (
        plus-hex_digit (b / 16) (omega arith),
        digit_value-hex_digit (b / 16) (omega arith),
        digit_value-hex_digit (b % 16) (omega arith),
      )
      (ap some (omega arith))

from_pairs-to_hex : (bs : Bytes) → AreBytes bs → from_pairs (to_hex bs) ≡ some bs
unfolding from_pairs to_hex
from_pairs-to_hex [] h = refl
from_pairs-to_hex (b ∷ bs) h = rw (radix_16-hex_digit b h.0, from_pairs-to_hex bs h.1) refl

pub length-to_hex : (bs : Bytes) → length (to_hex bs) ≡ 2 * length bs
unfolding to_hex
length-to_hex [] = refl
length-to_hex (b ∷ bs) = omega (arith, length-to_hex bs)

pub to_hex-IsLowerHex : (bs : Bytes) → AreBytes bs → IsLowerHex (to_hex bs)
unfolding to_hex
to_hex-IsLowerHex [] h = tt
to_hex-IsLowerHex (b ∷ bs) h = (
  hex_digit-lower (b / 16) (omega arith),
  (hex_digit-lower (b % 16) (omega arith), to_hex-IsLowerHex bs h.1),
)

-- 32 bytes written in hexadecimal are read back as they were.
pub from_hex32-to_hex :
    (bs : Bytes) → length bs ≡ 32 → AreBytes bs → from_hex32 (to_hex bs) ≡ some bs
unfolding from_hex32
from_hex32-to_hex bs n h = rw (length-to_hex bs, n) (from_pairs-to_hex bs h)

hex_digit-digit_value :
    (c n : ℕ) → is_lower_hex c ≡ true → digit_value c ≡ some n → (hex_digit n ≡ c) × (n < 16)
unfolding is_lower_hex digit_value hex_digit
hex_digit-digit_value c n l h = ground arith

-- A pair of lower-case digits is not a sign and a digit.
radix_16-lower :
    (x y b : ℕ)
    → is_lower_hex x ≡ true
    → radix_16 x y ≡ some b
    → (m : ℕ) × (n : ℕ) × (digit_value x ≡ some m) × (digit_value y ≡ some n) × (b ≡ 16 * m + n)
unfolding radix_16 is_lower_hex
radix_16-lower x y b l h = elim (Option-cases (digit_value x)) [
  | inl e ↦ absurd (ground arith)
  | inr (m, e) ↦ elim (Option-cases (digit_value y)) [
    | inl f ↦ absurd (ground arith)
    | inr (n, f) ↦ (m, n, e, f, ground arith)
  ]
]

-- The text is what `to_hex` writes.
pub record Read (hex : Text) (bs : Bytes) : Type 0 where
  pub written : to_hex bs ≡ hex
  pub in_range : AreBytes bs

Read-pair :
    (x y b : ℕ) (rest : Text) (bs : Bytes)
    → is_lower_hex x ≡ true
    → is_lower_hex y ≡ true
    → radix_16 x y ≡ some b
    → Read rest bs
    → Read (x ∷ y ∷ rest) (b ∷ bs)
unfolding to_hex
Read-pair x y b rest bs l m h r =
    let (i, j, e, f, v) = radix_16-lower x y b l h in
    let (p, i_lt) = hex_digit-digit_value x i l e in
    let (q, j_lt) = hex_digit-digit_value y j m f in
    let high : b / 16 ≡ i = omega arith in
    let low : b % 16 ≡ j = omega arith in
    record { written = rw (high, low, p, q, r.written) refl; in_range = (omega arith, r.in_range) }

-- `n` bytes are read from 2 * n digits.
from_pairs-Read :
    (n : ℕ) (hex : Text) (bs : Bytes)
    → length hex ≡ 2 * n
    → IsLowerHex hex
    → from_pairs hex ≡ some bs
    → Read hex bs
unfolding from_pairs to_hex
from_pairs-Read n [] bs e l h =
    let none_left : bs ≡ [] = ground arith in
    rw none_left (record { written = refl; in_range = tt })
from_pairs-Read n (x ∷ []) bs e l h = absurd (omega arith)
from_pairs-Read n (x ∷ y ∷ rest) bs e l h = elim (Option-cases (radix_16 x y)) [
  | inl f ↦ absurd (ground arith)
  | inr (b, f) ↦ elim (Option-cases (from_pairs rest)) [
    | inl g ↦ absurd (ground arith)
    | inr (cs, g) ↦
        let split : bs ≡ b ∷ cs = ground arith in
        let below = from_pairs-Read (n - 1) rest cs (omega arith) l.1.1 g in
        rw split (Read-pair x y b rest cs l.0 l.1.0 f below)
  ]
]

-- From a text in lower case, `from_hex32` reads bytes that are written as that text.
pub from_hex32-Read :
    (hex : Text) (bs : Bytes) → IsLowerHex hex → from_hex32 hex ≡ some bs → Read hex bs
unfolding from_hex32
from_hex32-Read hex bs l h = elim (Bool-cases (length hex == 64)) [
  | inl t ↦ from_pairs-Read 32 hex bs (eq_of_== (length hex) 64 t) l (rw t at h)
  | inr t ↦ let refused : none ≡ some bs = rw t at h in absurd (ground arith)
]
