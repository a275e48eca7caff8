-- ===== src/Canonical/Hex.antt =====
-- crates/consolebook-server/src/canonical.rs: the hexadecimal text of a hash. The texts are ASCII, so
-- their bytes are their code points.
pub mod RoundTrip
use consolebook.Base.{
  ℕ, ◌+◌, ◌-◌, ◌*◌, ◌/◌, ◌%◌, Bool, Option, some, none, List, [], ◌∷◌, ◌&&◌, ◌||◌, ltb, leb, ◌==◌,
  length, Text, if◌then◌else◌,
}

abbrev pub Bytes : Type 0
Bytes = List ℕ

-- A digit of `{:x}`.
unfoldable pub hex_digit : ℕ → ℕ
hex_digit n = if ltb n 10 then b'0' + n else b'a' + (n - 10)

-- `{byte:02x}` of every byte.
unfoldable pub to_hex : Bytes → Text
unfolding hex_digit
to_hex [] = []
to_hex (b ∷ bs) = hex_digit (b / 16) ∷ hex_digit (b % 16) ∷ to_hex bs

-- The value of a hexadecimal digit of either case.
unfoldable pub digit_value : ℕ → Option ℕ
digit_value c =
    if leb b'0' c && leb c b'9'
    then some (c - b'0')
    else if leb b'a' c && leb c b'f'
    then some (c - b'a' + 10)
    else if leb b'A' c && leb c b'F'
    then some (c - b'A' + 10)
    else none

abbrev pub two_digits : Option ℕ → Option ℕ → Option ℕ
two_digits (some a) (some b) = some (16 * a + b)
two_digits _ _ = none

-- `u8::from_str_radix(pair, 16)` of two bytes, which takes a leading plus sign. A pair that is not UTF-8
-- has no digits either.
unfoldable pub radix_16 : ℕ → ℕ → Option ℕ
unfolding digit_value
radix_16 x y = if x == b'+' then digit_value y else two_digits (digit_value x) (digit_value y)

abbrev pub and_then : Option ℕ → Option Bytes → Option Bytes
and_then (some b) (some bs) = some (b ∷ bs)
and_then _ _ = none

-- The bytes of the pairs, in order.
unfoldable pub from_pairs : Text → Option Bytes
unfolding radix_16
from_pairs [] = some []
from_pairs (x ∷ []) = some []
from_pairs (x ∷ y ∷ rest) = and_then (radix_16 x y) (from_pairs rest)

-- `none` is an error.
unfoldable pub from_hex32 : Text → Option Bytes
unfolding from_pairs
from_hex32 hex = if length hex == 64 then from_pairs hex else none

-- NOT GLOB '*[^0-9a-f]*', for a character
unfoldable pub is_lower_hex : ℕ → Bool
is_lower_hex c = (leb b'0' c && leb c b'9') || (leb b'a' c && leb c b'f')
