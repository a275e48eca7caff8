-- ===== src/Examples/Documents.antt =====
-- Documents and hashes: crates/consolebook-server/src/canonical.rs.
use consolebook.Canonical
use consolebook.Canonical.Hex
use consolebook.Base.{
  ◌^◌, ◌<◌, ◌≡◌, ◌↔◌, refl, true, some, Option, [], ◌∷◌, codes, ℤ, pos, negsuc, magnitude, arith,
}
use consolebook.Canonical.{Value, Items, Members, validate, canonical_bytes, chain_input, zeros}
use consolebook.Canonical.Chain.{chain_input-injective}
use consolebook.Canonical.Hex.{Bytes, to_hex, from_hex32}
use consolebook.Canonical.Hex.RoundTrip.{AreBytes, from_hex32-to_hex}
use consolebook.Canonical.Subset.{InSubset, part_at, validate-iff-InSubset, canonical_bytes_bounds}

-- {"days": [5, -2]}
abbrev days : Value
days = Value.object (
    Members.member (codes "days")
      (Value.array (
        Items.cons (Value.number (some (pos 5)))
          (Items.cons (Value.number (some (negsuc 1))) Items.nil)))
      Members.end)

validate-iff-InSubset_example : (validate days ≡ true) ↔ InSubset days
validate-iff-InSubset_example = validate-iff-InSubset days

abbrev writer : Value → Option Bytes
writer v = some (codes "null")

written : canonical_bytes writer days ≡ some (codes "null")
unfolding Hex.hex_digit Hex.to_hex Hex.digit_value Hex.radix_16 Hex.from_pairs Hex.from_hex32
    Hex.is_lower_hex Canonical.is_ascii Canonical.canonical_bytes Canonical.content_hash_hex
    Canonical.chain_input Canonical.chain_hash_hex
written = refl

second_day : part_at (0 ∷ 1 ∷ []) days ≡ some (Value.number (some (negsuc 1)))
unfolding consolebook.Canonical.Subset.part_at
second_day = refl

canonical_bytes_bounds_example :
    (i : ℤ) × (◌≡◌ {A = Option ℤ} (some (negsuc 1)) (some i)) × (magnitude i < 2 ^ 53)
canonical_bytes_bounds_example =
    canonical_bytes_bounds writer days (codes "null") (0 ∷ 1 ∷ []) (some (negsuc 1)) written
      second_day

zeros-AreBytes : AreBytes (zeros 32)
zeros-AreBytes = omega arith

from_hex32-to_hex_example : from_hex32 (to_hex (zeros 32)) ≡ some (zeros 32)
from_hex32-to_hex_example = from_hex32-to_hex (zeros 32) refl zeros-AreBytes

chain_input-injective_example : (zeros 32 ≡ zeros 32) × (codes "null" ≡ codes "null")
chain_input-injective_example =
    chain_input-injective (zeros 32) (zeros 32) (codes "null") (codes "null") refl refl refl
