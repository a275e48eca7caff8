-- ===== src/ZipContainer/EndRecord.antt =====
-- The search for the end record in crates/consolebook-server/src/zip_container.rs, from the end of the
-- file backward.
use consolebook.Base.{
  ℕ, zero, suc, ◌+◌, ◌≤◌, ◌<◌, ◌≡◌, subst, true, false, some, none, arith, inl, inr, Bool-cases,
}
use native.Mathlib.Decide.{dec_lt}
use consolebook.Canonical.Hex.{Bytes}
use consolebook.ZipContainer.{has_signature, eocd_signature, find_end}

abbrev pub AbsentAbove : Bytes → ℕ → ℕ → Type 0
AbsentAbove bytes low high =
    (k : ℕ) → low < k → k ≤ high → has_signature eocd_signature bytes k ≡ false

-- The position that is found is one of the last `tries`, has the signature, and is the last that has it.
pub find_end-last :
    (tries : ℕ) (bytes : Bytes) (at found : ℕ)
    → find_end tries bytes at ≡ some found
    → (found ≤ at)
      × (at < found + tries)
      × (has_signature eocd_signature bytes found ≡ true)
      × AbsentAbove bytes found at
unfolding find_end
find_end-last zero bytes at found r = absurd (cc)
find_end-last (suc tries) bytes zero found r =
    elim (Bool-cases (has_signature eocd_signature bytes 0)) [
      | inl e ↦
          let same : 0 ≡ found = ground arith in
          (
            omega arith,
            omega arith,
            subst (λ k. has_signature eocd_signature bytes k ≡ true) same e,
            λ k l h. absurd (omega arith),
          )
      | inr e ↦ absurd (ground arith)
    ]
find_end-last (suc tries) bytes (suc at) found r =
    elim (Bool-cases (has_signature eocd_signature bytes (suc at))) [
      | inl e ↦
          let same : suc at ≡ found = ground arith in
          (
            omega arith,
            omega arith,
            subst (λ k. has_signature eocd_signature bytes k ≡ true) same e,
            λ k l h. absurd (omega arith),
          )
      | inr e ↦
          let earlier : find_end tries bytes at ≡ some found = ground arith in
          let last = find_end-last tries bytes at found earlier in
          (
            omega (arith, last),
            omega (arith, last),
            last.2,
            λ k l h. elim (dec_lt k (suc at)) [
              | yes below ↦ last.3 k l (omega arith)
              | no top ↦
                  let same : suc at ≡ k = omega arith in
                  subst (λ k. has_signature eocd_signature bytes k ≡ false) same e
            ],
          )
    ]

-- Where none is found, none of the last `tries` positions has the signature.
pub find_end-none :
    (tries : ℕ) (bytes : Bytes) (at : ℕ)
    → find_end tries bytes at ≡ none
    → (k : ℕ) → k ≤ at
    → at < k + tries
    → has_signature eocd_signature bytes k ≡ false
unfolding find_end
find_end-none zero bytes at r k l h = absurd (omega arith)
find_end-none (suc tries) bytes zero r k l h =
    elim (Bool-cases (has_signature eocd_signature bytes 0)) [
      | inl e ↦ absurd (ground arith)
      | inr e ↦
          let same : 0 ≡ k = omega arith in
          subst (λ k. has_signature eocd_signature bytes k ≡ false) same e
    ]
find_end-none (suc tries) bytes (suc at) r k l h =
    elim (Bool-cases (has_signature eocd_signature bytes (suc at))) [
      | inl e ↦ absurd (ground arith)
      | inr e ↦ elim (dec_lt k (suc at)) [
        | yes below ↦
            let earlier : find_end tries bytes at ≡ none = ground arith in
            find_end-none tries bytes at earlier k (omega arith) (omega arith)
        | no top ↦
            let same : suc at ≡ k = omega arith in
            subst (λ k. has_signature eocd_signature bytes k ≡ false) same e
      ]
    ]
