-- ===== src/Examples/Archives.antt =====
-- A central directory: crates/consolebook-server/src/zip_container.rs.
use consolebook.ZipContainer
use consolebook.Base.{◌*◌, ◌≤◌, ◌≡◌, ◌≢◌, refl, List, [], ◌∷◌, ◌++◌, length, codes, ok, arith, Text}
use consolebook.Canonical.{zeros}
use consolebook.Canonical.Hex.{Bytes}
use consolebook.Canonical.Hex.RoundTrip.{AreBytes}
use consolebook.ZipContainer.{
  eocd_signature, central_header, has_signature, find_end, walk, central_directory_entries,
  central_directory_names, CentralEntry,
}
use consolebook.ZipContainer.Bounds.{walk-ends, central_directory_entries-bound}

-- One header whose entry is named `a`, and the end record.
abbrev archive : Bytes
archive =
    central_header
    ++ zeros 24
    ++ (1 ∷ 0 ∷ [])
    ++ zeros 16
    ++ codes "a"
    ++ eocd_signature
    ++ zeros 6
    ++ (1 ∷ 0 ∷ [])
    ++ zeros 10

abbrev lossy : Bytes → Text
lossy bytes = bytes

abbrev entry : CentralEntry
entry = record {
  name = codes "a";
  version_made_by = 0;
  flags = 0;
  method = 0;
  dos_time = 0;
  dos_date = 0;
  external_attributes = 0;
  extra_len = 0;
  comment_len = 0;
  local_header_offset = 0;
}

archive-AreBytes : AreBytes archive
archive-AreBytes = omega arith

listed : central_directory_entries lossy archive ≡ ok (entry ∷ [])
unfolding ZipContainer.add_usize ZipContainer.get ZipContainer.has_signature ZipContainer.read_le
    ZipContainer.find_end ZipContainer.zip64_location ZipContainer.location ZipContainer.build_entry
    ZipContainer.read_header ZipContainer.walk ZipContainer.central_directory_entries
    ZipContainer.central_directory_names
listed = refl

named : central_directory_names lossy archive ≡ ok (codes "a" ∷ [])
unfolding ZipContainer.add_usize ZipContainer.get ZipContainer.has_signature ZipContainer.read_le
    ZipContainer.find_end ZipContainer.zip64_location ZipContainer.location ZipContainer.build_entry
    ZipContainer.read_header ZipContainer.walk ZipContainer.central_directory_entries
    ZipContainer.central_directory_names
named = refl

central_directory_entries-bound_example : 46 * 1 ≤ length archive
central_directory_entries-bound_example =
    central_directory_entries-bound lossy archive archive-AreBytes (omega arith) (entry ∷ []) listed

walk-ends_example :
    (walk lossy archive 65534 0 ≡ walk lossy archive 2 0)
    × ((entries : List CentralEntry) → walk lossy archive 2 0 ≢ ok entries)
walk-ends_example =
    walk-ends lossy archive archive-AreBytes (omega arith) 2 65534 0 (omega arith) (omega arith)
      (omega arith)
