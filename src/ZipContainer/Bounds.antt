-- ===== src/ZipContainer/Bounds.antt =====
-- The walk of crates/consolebook-server/src/zip_container.rs stays inside the file and ends.
use consolebook.Base.{
  ℕ, zero, suc, ◌+◌, ◌-◌, ◌*◌, ◌^◌, ◌≤◌, ◌<◌, ◌≡◌, ◌≢◌, refl, ap, sym, ◌∙◌, Bool, true, false, not,
  List, [], ◌∷◌, length, Outcome, ok, arith, Outcome-cases, inl, inr, not-false, refuse_if-ok,
  >>=-eq-ok, some_or_refuse-ok, Text, ◌⊎◌, ◌==◌, ◌||◌, ◌&&◌, leb, if◌then◌else◌,
}
use consolebook.Canonical.Hex.{Bytes}
use consolebook.Canonical.Hex.RoundTrip.{AreBytes}
use consolebook.ZipContainer.{
  usize_range, add_usize, get, has_signature, read_le, build_entry, location, zip64_location,
  find_end, zip64_eocd, zip64_locator, no_zip64_locator, no_zip64_record, no_end_record,
  read_header, walk, truncated_header, location, central_directory_entries, CentralEntry, ZipError,
  central_header,
}
use consolebook.ZipContainer.Offsets.{
  add_usize_range, add_usize_small, get-some, has_signature-inside, le_u16-bound, read_le-range,
}

located :
    (test : Bool) (far : Outcome ZipError (ℕ × ℕ)) (near found : ℕ × ℕ)
    → (if test then far else ok near) ≡ ok found
    → (far ≡ ok found) ⊎ (near ≡ found)
located true far near found r = inl r
located false far near found r = inr (cc)

module _ (bytes : Bytes) (h : AreBytes bytes) where
  zip64_location-range :
      (eocd : ℕ) (found : ℕ × ℕ) → zip64_location bytes eocd ≡ ok found → found.1 < usize_range
  unfolding zip64_location
  zip64_location-range eocd found r =
      let (_, r₁) =
        refuse_if-ok (not (leb 20 eocd && has_signature zip64_locator bytes (eocd - 20)))
          no_zip64_locator _ r in
      let (zip64, _, r₂) = >>=-eq-ok (read_le 8 bytes (add_usize (eocd - 20) 8)) _ r₁ in
      let (_, r₃) =
        refuse_if-ok (not (has_signature zip64_eocd bytes zip64)) no_zip64_record _ r₂ in
      let (count, _, r₄) = >>=-eq-ok (read_le 8 bytes (add_usize zip64 32)) _ r₃ in
      let (start, e, r₅) = >>=-eq-ok (read_le 8 bytes (add_usize zip64 48)) _ r₄ in
      let pair : (count, start) ≡ found = cc in
      let same : start ≡ found.1 = ap (λ p. p.1) pair in
      omega (arith, same, read_le-range 8 bytes (add_usize zip64 48) start (omega arith) h e)

  -- The offset of the headers is a `usize`.
  location-range : (found : ℕ × ℕ) → location bytes ≡ ok found → found.1 < usize_range
  unfolding location
  location-range found r =
      let (eocd, _, r₁) =
        some_or_refuse-ok (find_end 65536 bytes (length bytes - 22)) no_end_record _ r in
      let (count, _, r₂) = >>=-eq-ok (read_le 2 bytes (add_usize eocd 10)) _ r₁ in
      let (start, e, r₃) = >>=-eq-ok (read_le 4 bytes (add_usize eocd 16)) _ r₂ in
      elim (located (count == 65535 || start == 2 ^ 32 - 1) (zip64_location bytes eocd) _ found
        r₃) [
          | inl far ↦ zip64_location-range eocd found far
          | inr near ↦
              let same : start ≡ found.1 = ap (λ p. p.1) near in
              omega (arith, same, read_le-range 4 bytes (add_usize eocd 16) start (omega arith) h e)
        ]

module _ (lossy : Bytes → Text) (bytes : Bytes) (h : AreBytes bytes)
    (small : length bytes < 2 ^ 63) where
  -- A header that is read lies in the file, and the next one starts behind its fixed part.
  read_header-inside :
      (at : ℕ) (header : CentralEntry × ℕ)
      → at < usize_range
      → read_header lossy bytes at ≡ ok header
      → (at + 46 ≤ length bytes) × (at + 46 ≤ header.1) × (header.1 < usize_range)
  unfolding read_header
  read_header-inside at header l r =
      let (signed, r₁) = refuse_if-ok (not (has_signature central_header bytes at)) _ _ r in
      let inside = has_signature-inside central_header bytes at l (not-false _ signed) in
      let (name_len, e₁, r₂) = >>=-eq-ok (read_le 2 bytes (add_usize at 28)) _ r₁ in
      let (extra, e₂, r₃) = >>=-eq-ok (read_le 2 bytes (add_usize at 30)) _ r₂ in
      let (comment, e₃, r₄) = >>=-eq-ok (read_le 2 bytes (add_usize at 32)) _ r₃ in
      let (name, e₄, r₅) =
        some_or_refuse-ok (get bytes (add_usize at 46) (add_usize (add_usize at 46) name_len))
          truncated_header _ r₄ in
      let (entry, _, r₆) = >>=-eq-ok (build_entry lossy bytes at name extra comment) _ r₅ in
      let range = get-some bytes (add_usize at 46) (add_usize (add_usize at 46) name_len) name e₄ in
      let start = add_usize_small at 46 (omega arith) in
      let b₁ = le_u16-bound bytes (add_usize at 28) name_len h e₁ in
      let b₂ = le_u16-bound bytes (add_usize at 30) extra h e₂ in
      let b₃ = le_u16-bound bytes (add_usize at 32) comment h e₃ in
      let next = add_usize_small at (46 + name_len + extra + comment) (omega arith) in
      let pair : (entry, add_usize at (46 + name_len + extra + comment)) ≡ header = cc in
      let same : add_usize at (46 + name_len + extra + comment) ≡ header.1 = ap (λ p. p.1) pair in
      (
        omega (arith, range),
        omega arith,
        omega (arith, same, add_usize_range at (46 + name_len + extra + comment)),
      )

  -- What a walk of one header more found.
  walk-cons :
      (count at : ℕ) (entries : List CentralEntry)
      → walk lossy bytes (suc count) at ≡ ok entries
      → (header : CentralEntry × ℕ) × (rest : List CentralEntry) × (read_header lossy bytes at
          ≡ ok header)
        × (walk lossy bytes count header.1 ≡ ok rest)
        × (header.0 ∷ rest ≡ entries)
  unfolding walk
  walk-cons count at entries w =
      let (header, e, w₁) = >>=-eq-ok (read_header lossy bytes at) _ w in
      let (rest, f, w₂) = >>=-eq-ok (walk lossy bytes count header.1) _ w₁ in
      (header, rest, e, f, cc)

  walk-inside :
      (count at : ℕ) (entries : List CentralEntry)
      → at < usize_range
      → walk lossy bytes (suc count) at ≡ ok entries
      → (at + 46 * suc count ≤ length bytes) × (length entries ≡ suc count)
  unfolding walk
  walk-inside zero at entries l w =
      let (header, rest, e, f, whole) = walk-cons zero at entries w in
      let none_left : [] ≡ rest = cc in
      (
        omega (arith, read_header-inside at header l e),
        ap length (sym whole) ∙ ap (λ xs. suc (length xs)) (sym none_left),
      )
  walk-inside (suc count) at entries l w =
      let (header, rest, e, f, whole) = walk-cons (suc count) at entries w in
      let inside = read_header-inside at header l e in
      let later = walk-inside count header.1 rest inside.2 f in
      (omega (arith, inside, later), ap length (sym whole) ∙ ap suc later.1)

  -- A walk that is answered finds as many entries as were asked for, 46 bytes of the file each.
  pub walk-bound :
      (count at : ℕ) (entries : List CentralEntry)
      → at < usize_range
      → walk lossy bytes count at ≡ ok entries
      → (length entries ≡ count) × (46 * count ≤ length bytes)
  unfolding walk
  walk-bound zero at entries l w =
      let empty : [] ≡ entries = cc in (ap length (sym empty), omega arith)
  walk-bound (suc count) at entries l w =
      let inside = walk-inside count at entries l w in (inside.1, omega (arith, inside))

  -- Two walks agree when they do behind the first header.
  walk-agree :
      (count many at : ℕ)
      → ((header : CentralEntry × ℕ)
          → read_header lossy bytes at ≡ ok header
          → walk lossy bytes many header.1 ≡ walk lossy bytes count header.1)
      → walk lossy bytes (suc many) at ≡ walk lossy bytes (suc count) at
  unfolding walk
  walk-agree count many at same = elim (Outcome-cases (read_header lossy bytes at)) [
    | inl (header, e) ↦ rw (e, same header e) refl
    | inr (inl e) ↦ rw e refl
    | inr (inr (x, e)) ↦ rw e refl
  ]

  walk-stops :
      (count many at : ℕ)
      → at < usize_range
      → count ≤ many
      → length bytes < at + 46 * suc count
      → walk lossy bytes (suc many) at ≡ walk lossy bytes (suc count) at
  walk-stops zero many at l le beyond =
      walk-agree zero many at (λ header e. absurd (omega (arith, read_header-inside at header l e)))
  walk-stops (suc count) zero at l le beyond = absurd (omega arith)
  walk-stops (suc count) (suc many) at l le beyond =
      walk-agree (suc count) (suc many) at (λ header e.
        let inside = read_header-inside at header l e in
        walk-stops count many header.1 inside.2 (omega arith) (omega (arith, inside)))

  -- If the file has no room for so many headers of 46 bytes, the walk is refused within them: no entries
  -- are answered, and for any larger count the answer is the same.
  pub walk-ends :
      (count many at : ℕ)
      → at < usize_range
      → length bytes < 46 * count
      → count ≤ many
      → (walk lossy bytes many at ≡ walk lossy bytes count at)
        × ((entries : List CentralEntry) → walk lossy bytes count at ≢ ok entries)
  walk-ends zero many at l beyond le = absurd (omega arith)
  walk-ends (suc count) zero at l beyond le = absurd (omega arith)
  walk-ends (suc count) (suc many) at l beyond le = (
    walk-stops count many at l (omega arith) (omega arith),
    λ entries w. omega (arith, beyond, walk-bound (suc count) at entries l w),
  )

  -- A directory that is answered has 46 bytes of the file for every entry, whatever count it declares.
  pub central_directory_entries-bound :
      (entries : List CentralEntry)
      → central_directory_entries lossy bytes ≡ ok entries
      → 46 * length entries ≤ length bytes
  unfolding central_directory_entries
  central_directory_entries-bound entries r =
      let (found, e, w) = >>=-eq-ok (location bytes) _ r in
      let bound = walk-bound found.0 found.1 entries (location-range bytes h found e) w in
      omega (arith, bound)
