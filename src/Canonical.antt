-- ===== src/Canonical.antt =====
-- crates/consolebook-server/src/canonical.rs: documents, the subset of them that a record may hold, and
-- the two hashes. `serde_json::to_vec` and SHA-256 are parameters.
pub mod Hex
pub mod Subset
pub mod Chain
use consolebook.Base.{
  ℕ, ◌+◌, ◌-◌, ◌^◌, Bool, true, false, Option, some, none, List, [], ◌∷◌, ◌++◌, ◌&&◌, ltb, leb,
  Text, codes, ℤ, magnitude, if◌then◌else◌,
}
use consolebook.Canonical.Hex.{Bytes, to_hex, from_hex32}

-- `serde_json::Value`. A number is given by what `as_i64` answers for it.
mutual
  pub data Value : Type 0 where
    null : Value
    boolean : Bool → Value
    number : Option ℤ → Value
    string : Text → Value
    array : Items → Value
    object : Members → Value

  pub data Items : Type 0 where
    nil : Items
    cons : Value → Items → Items

  pub data Members : Type 0 where
    end : Members
    member : Text → Value → Members → Members

abbrev pub record_schema : ℕ
record_schema = 2

-- The domain separator `consolebook-version-v1`, in ASCII.
abbrev pub chain_domain : Bytes
chain_domain = codes "consolebook-version-v1"

abbrev pub max_magnitude : ℕ
max_magnitude = 2 ^ 53 - 1

abbrev pub number_allowed : Option ℤ → Bool
number_allowed none = false
number_allowed (some i) = leb (magnitude i) max_magnitude

unfoldable pub is_ascii : Text → Bool
is_ascii [] = true
is_ascii (c ∷ cs) = ltb c 128 && is_ascii cs

unfoldable mutual
  unfolding is_ascii

  pub validate : Value → Bool
  validate null = true
  validate (boolean b) = true
  validate (string s) = true
  validate (number n) = number_allowed n
  validate (array items) = validate_items items
  validate (object members) = validate_members members

  pub validate_items : Items → Bool
  validate_items nil = true
  validate_items (cons item items) = validate item && validate_items items

  pub validate_members : Members → Bool
  validate_members end = true
  validate_members (member name value members) =
      is_ascii name && (validate value && validate_members members)

unfoldable pub canonical_bytes : (Value → Option Bytes) → Value → Option Bytes
unfolding validate
canonical_bytes to_vec value = if validate value then to_vec value else none

unfoldable pub content_hash_hex : (Bytes → Bytes) → Bytes → Text
unfolding to_hex
content_hash_hex sha256 canonical = to_hex (sha256 canonical)

-- 32 zero bytes for a first version.
abbrev pub zeros : ℕ → Bytes
zeros ℕ.zero = []
zeros (ℕ.suc n) = 0 ∷ zeros n

abbrev pub predecessor_bytes : Option Text → Option Bytes
predecessor_bytes none = some (zeros 32)
predecessor_bytes (some hex) = from_hex32 hex

-- What is hashed: the domain, a zero byte, the predecessor's hash and the document.
unfoldable pub chain_input : Bytes → Bytes → Bytes
chain_input predecessor canonical = chain_domain ++ (0 ∷ (predecessor ++ canonical))

abbrev pub hash_chain : (Bytes → Bytes) → Bytes → Option Bytes → Option Text
hash_chain sha256 canonical none = none
hash_chain sha256 canonical (some p) = some (to_hex (sha256 (chain_input p canonical)))

unfoldable pub chain_hash_hex : (Bytes → Bytes) → Option Text → Bytes → Option Text
unfolding to_hex from_hex32 chain_input
chain_hash_hex sha256 predecessor canonical =
    hash_chain sha256 canonical (predecessor_bytes predecessor)
