-- ===== src/ZipContainer.antt =====
-- crates/consolebook-server/src/zip_container.rs: the walk of an archive's central directory. A byte is
-- a number below 256, an offset is a `usize` of 64 bits, whose sums wrap as in a release build, and
-- `String::from_utf8_lossy` is a parameter. `read_entry` only calls the `zip` crate.
pub mod Offsets
pub mod Bounds
pub mod EndRecord
use consolebook.Base.{
  ℕ, zero, suc, ◌+◌, ◌-◌, ◌*◌, ◌%◌, ◌^◌, Bool, true, false, not, Option, some, none, List, [], ◌∷◌,
  ◌&&◌, ◌||◌, ltb, leb, ◌==◌, length, if◌then◌else◌, Text, map, Outcome, ok, refused, failed, ◌>>=◌,
  ◌>>◌, refuse_if, some_or_refuse,
}
use consolebook.Canonical.Hex.{Bytes}

abbrev pub usize_range : ℕ
usize_range = 2 ^ 64

-- The sum of two offsets.
unfoldable pub add_usize : ℕ → ℕ → ℕ
add_usize a b = (a + b) % usize_range

abbrev pub drop : ℕ → Bytes → Bytes
drop zero bytes = bytes
drop (suc n) [] = []
drop (suc n) (b ∷ bytes) = drop n bytes

abbrev pub take : ℕ → Bytes → Bytes
take zero bytes = []
take (suc n) [] = []
take (suc n) (b ∷ bytes) = b ∷ take n bytes

-- `bytes.get(first..last)`
unfoldable pub get : Bytes → ℕ → ℕ → Option Bytes
get bytes first last =
    if leb first last && leb last (length bytes)
    then some (take (last - first) (drop first bytes))
    else none

abbrev pub same_bytes : Bytes → Bytes → Bool
same_bytes [] [] = true
same_bytes (a ∷ xs) (b ∷ ys) = (a == b) && same_bytes xs ys
same_bytes _ _ = false

abbrev pub is_signature : Bytes → Option Bytes → Bool
is_signature signature none = false
is_signature signature (some bytes) = same_bytes bytes signature

-- `bytes.get(at..at + 4) == Some(&signature[..])`
unfoldable pub has_signature : Bytes → Bytes → ℕ → Bool
unfolding get add_usize
has_signature signature bytes at = is_signature signature (get bytes at (add_usize at 4))

abbrev pub eocd_signature : Bytes
eocd_signature = 0x50 ∷ 0x4b ∷ 0x05 ∷ 0x06 ∷ []

abbrev pub zip64_locator : Bytes
zip64_locator = 0x50 ∷ 0x4b ∷ 0x06 ∷ 0x07 ∷ []

abbrev pub zip64_eocd : Bytes
zip64_eocd = 0x50 ∷ 0x4b ∷ 0x06 ∷ 0x06 ∷ []

abbrev pub central_header : Bytes
central_header = 0x50 ∷ 0x4b ∷ 0x01 ∷ 0x02 ∷ []

pub data ZipError : Type 0 where
  no_end_record : ZipError
  no_zip64_locator : ZipError
  no_zip64_record : ZipError
  no_central_header : ℕ → ZipError
  truncated_header : ZipError
  truncated_record : ℕ → ZipError

-- `from_le_bytes`
abbrev pub from_le_bytes : Bytes → ℕ
from_le_bytes [] = 0
from_le_bytes (b ∷ bytes) = b + 256 * from_le_bytes bytes

-- `le_u16`, `le_u32` and `le_u64` differ in the width.
unfoldable pub read_le : ℕ → Bytes → ℕ → Outcome ZipError ℕ
unfolding get add_usize
read_le width bytes at = do
  b ← some_or_refuse (get bytes at (add_usize at width)) (truncated_record at)
  ok (from_le_bytes b)

abbrev pub le_u16 : Bytes → ℕ → Outcome ZipError ℕ
unfolding read_le
le_u16 = read_le 2

abbrev pub le_u32 : Bytes → ℕ → Outcome ZipError ℕ
unfolding read_le
le_u32 = read_le 4

abbrev pub le_u64 : Bytes → ℕ → Outcome ZipError ℕ
unfolding read_le
le_u64 = read_le 8

-- The last of so many offsets, from one downward, that has the signature of the end record.
unfoldable pub find_end : ℕ → Bytes → ℕ → Option ℕ
unfolding has_signature
find_end zero bytes at = none
find_end (suc tries) bytes zero = if has_signature eocd_signature bytes 0 then some 0 else none
find_end (suc tries) bytes (suc at) =
    let rest = find_end tries bytes at in
    if has_signature eocd_signature bytes (suc at) then some (suc at) else rest

pub record CentralEntry : Type 0 where
  pub name : Text
  pub version_made_by : ℕ
  pub flags : ℕ
  pub method : ℕ
  pub dos_time : ℕ
  pub dos_date : ℕ
  pub external_attributes : ℕ
  pub extra_len : ℕ
  pub comment_len : ℕ
  pub local_header_offset : ℕ

-- The count and the offset of the headers, where the classic fields overflow.
unfoldable pub zip64_location : Bytes → ℕ → Outcome ZipError (ℕ × ℕ)
unfolding has_signature read_le add_usize
zip64_location bytes eocd = do
  refuse_if (not (leb 20 eocd && has_signature zip64_locator bytes (eocd - 20))) no_zip64_locator
  zip64 ← le_u64 bytes (add_usize (eocd - 20) 8)
  refuse_if (not (has_signature zip64_eocd bytes zip64)) no_zip64_record
  count ← le_u64 bytes (add_usize zip64 32)
  start ← le_u64 bytes (add_usize zip64 48)
  ok (count, start)

-- The count and the offset of the headers. An `u64` is always an `usize` here.
unfoldable pub location : Bytes → Outcome ZipError (ℕ × ℕ)
unfolding find_end zip64_location read_le add_usize
location bytes = do
  eocd ← some_or_refuse (find_end 65536 bytes (length bytes - 22)) no_end_record
  count ← le_u16 bytes (add_usize eocd 10)
  start ← le_u32 bytes (add_usize eocd 16)
  if count == 65535 || start == 2 ^ 32 - 1 then zip64_location bytes eocd else ok (count, start)

module _ (from_utf8_lossy : Bytes → Text) where
  -- The entry, with the fields that are read where it is built.
  unfoldable pub build_entry : Bytes → ℕ → Bytes → ℕ → ℕ → Outcome ZipError CentralEntry
  unfolding read_le add_usize
  build_entry bytes at name_bytes extra comment = do
    made_by ← le_u16 bytes (add_usize at 4)
    bits ← le_u16 bytes (add_usize at 8)
    packing ← le_u16 bytes (add_usize at 10)
    time ← le_u16 bytes (add_usize at 12)
    date ← le_u16 bytes (add_usize at 14)
    attributes ← le_u32 bytes (add_usize at 38)
    offset ← le_u32 bytes (add_usize at 42)
    ok (record {
      name = from_utf8_lossy name_bytes;
      version_made_by = made_by;
      flags = bits;
      method = packing;
      dos_time = time;
      dos_date = date;
      external_attributes = attributes;
      extra_len = extra;
      comment_len = comment;
      local_header_offset = offset;
    })

  -- One round of the loop: the entry, and where the next header starts.
  unfoldable pub read_header : Bytes → ℕ → Outcome ZipError (CentralEntry × ℕ)
  unfolding has_signature read_le get add_usize build_entry
  read_header bytes at = do
    refuse_if (not (has_signature central_header bytes at)) (no_central_header at)
    name_len ← le_u16 bytes (add_usize at 28)
    extra ← le_u16 bytes (add_usize at 30)
    comment ← le_u16 bytes (add_usize at 32)
    name_bytes ←
        some_or_refuse (get bytes (add_usize at 46) (add_usize (add_usize at 46) name_len))
          truncated_header
    entry ← build_entry bytes at name_bytes extra comment
    ok (entry, add_usize at (46 + name_len + extra + comment))

  -- `for _ in 0..count`
  unfoldable pub walk : Bytes → ℕ → ℕ → Outcome ZipError (List CentralEntry)
  unfolding read_header
  walk bytes zero at = ok []
  walk bytes (suc count) at = do
    header ← read_header bytes at
    entries ← walk bytes count header.1
    ok (header.0 ∷ entries)

  unfoldable pub central_directory_entries : Bytes → Outcome ZipError (List CentralEntry)
  unfolding location walk
  central_directory_entries bytes = do found ← location bytes; walk bytes found.0 found.1

  unfoldable pub central_directory_names : Bytes → Outcome ZipError (List Text)
  unfolding central_directory_entries
  central_directory_names bytes = do
    entries ← central_directory_entries bytes
    ok (map (λ e. e.name) entries)
