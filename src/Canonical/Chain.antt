-- ===== src/Canonical/Chain.antt =====
-- The chain hash of crates/consolebook-server/src/canonical.rs: what is hashed.
use mathlib.Core.List.{append_cancel_left}
use consolebook.Base.{
  ◌≡◌, refl, ◌∙◌, some, [], ◌∷◌, ◌++◌, length, Text, Option, none, arith, Option-cases, inl, inr,
}
use consolebook.Canonical.{
  chain_domain, chain_input, predecessor_bytes, zeros, content_hash_hex, chain_hash_hex,
}
use consolebook.Canonical.Hex.{Bytes, to_hex, from_hex32}
use consolebook.Canonical.Hex.RoundTrip.{
  AreBytes, IsLowerHex, length-to_hex, to_hex-IsLowerHex, from_hex32-to_hex,
}

-- What the code relies on of SHA-256: a digest is 32 bytes.
pub record IsDigest (sha256 : Bytes → Bytes) : Type 0 where
  pub digest_length : (m : Bytes) → length (sha256 m) ≡ 32
  pub digest_bytes : (m : Bytes) → AreBytes (sha256 m)

-- The form of a hash in the tables: 64 digits in lower case.
pub record IsHash (hex : Text) : Type 0 where
  pub hash_length : length hex ≡ 64
  pub lower : IsLowerHex hex

append_split : (p q a b : Bytes) → length p ≡ length q → p ++ a ≡ q ++ b → (p ≡ q) × (a ≡ b)
append_split [] [] a b n h = (refl, h)
append_split [] (y ∷ q) a b n h = absurd (omega arith)
append_split (x ∷ p) [] a b n h = absurd (omega arith)
append_split (x ∷ p) (y ∷ q) a b n h =
    let head : x ≡ y = cc in
    let tail : p ++ a ≡ q ++ b = cc in
    let (same, rest) = append_split p q a b (omega arith) tail in (cc (head, same), rest)

-- What is hashed for two documents after two predecessors' hashes of 32 bytes is equal only if the
-- documents are and the hashes are.
pub chain_input-injective :
    (p q a b : Bytes)
    → length p ≡ 32
    → length q ≡ 32
    → chain_input p a ≡ chain_input q b
    → (p ≡ q) × (a ≡ b)
unfolding chain_input
chain_input-injective p q a b m n h =
    let tail : 0 ∷ (p ++ a) ≡ 0 ∷ (q ++ b) = append_cancel_left chain_domain _ _ h in
    append_split p q a b (m ∙ (omega arith)) (cc)

module _ {sha256 : Bytes → Bytes} (s : IsDigest sha256) where
  pub content_hash_hex-IsHash : (m : Bytes) → IsHash (content_hash_hex sha256 m)
  unfolding content_hash_hex
  content_hash_hex-IsHash m = record {
    hash_length = omega (arith, length-to_hex (sha256 m), s.digest_length m);
    lower = to_hex-IsLowerHex (sha256 m) (s.digest_bytes m);
  }

  pub from_hex32-content_hash_hex :
      (m : Bytes) → from_hex32 (content_hash_hex sha256 m) ≡ some (sha256 m)
  unfolding content_hash_hex
  from_hex32-content_hash_hex m =
      from_hex32-to_hex (sha256 m) (s.digest_length m) (s.digest_bytes m)

-- The predecessor of a document: none, or another document.
abbrev pub hash_of_document : (Bytes → Bytes) → Option Bytes → Option Text
hash_of_document sha256 none = none
hash_of_document sha256 (some m) = some (content_hash_hex sha256 m)

-- The digest that stands for the predecessor.
abbrev pub digest_of_document : (Bytes → Bytes) → Option Bytes → Bytes
digest_of_document sha256 none = zeros 32
digest_of_document sha256 (some m) = sha256 m

-- For a digest of 32 bytes, the chain hash of a document is there whatever document it follows, and it is
-- the digest of the domain, a zero byte, the predecessor's digest (32 zero bytes if there is none) and the document.
pub chain_hash_hex-hash_of_document :
    (sha256 : Bytes → Bytes) (predecessor : Option Bytes) (m : Bytes)
    → IsDigest sha256
    → chain_hash_hex sha256 (hash_of_document sha256 predecessor) m
      ≡ some (to_hex (sha256 (chain_input (digest_of_document sha256 predecessor) m)))
unfolding chain_hash_hex
chain_hash_hex-hash_of_document sha256 none m s = refl
chain_hash_hex-hash_of_document sha256 (some before) m s =
    rw (from_hex32-content_hash_hex s before) refl

IsLowerHex-IsHash : (m : Bytes) → length m ≡ 32 → AreBytes m → IsHash (to_hex m)
IsLowerHex-IsHash m n h = record {
  hash_length = omega (arith, length-to_hex m);
  lower = to_hex-IsLowerHex m h;
}

-- A chain hash has the form of a hash.
pub chain_hash_hex-IsHash :
    {sha256 : Bytes → Bytes} (s : IsDigest sha256) (predecessor : Option Text) (m : Bytes)
    (hex : Text)
    → chain_hash_hex sha256 predecessor m ≡ some hex
    → IsHash hex
unfolding chain_hash_hex
chain_hash_hex-IsHash {sha256} s predecessor m hex h =
    elim (Option-cases (predecessor_bytes predecessor)) [
      | inl e ↦ absurd (let gone : none ≡ some hex = rw e at h in ground arith)
      | inr (p, e) ↦
          let made : some (to_hex (sha256 (chain_input p m))) ≡ some hex = rw e at h in
          let same : to_hex (sha256 (chain_input p m)) ≡ hex = cc in
          rw (← same) (
            IsLowerHex-IsHash (sha256 (chain_input p m)) (s.digest_length (chain_input p m))
              (s.digest_bytes (chain_input p m)))
    ]
