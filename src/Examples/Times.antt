-- ===== src/Examples/Times.antt =====
-- Local times and closing: crates/consolebook-server/src/session_time.rs. In this calendar there is one
-- zone, and the instant of a text is its length.
use consolebook.SessionTime
use consolebook.Base.{
  ℕ, ◌≡◌, ◌↔◌, refl, true, some, length, codes, ok, Text, ℤ, pos, ◌≤ℤ◌, is_empty, not,
}
use consolebook.SessionTime.{Calendar, ResolvedTimes, resolve, resolve_end}
use consolebook.SessionTime.Closing.{Resolved, resolve-iff-Resolved, resolve-resolve_end}

abbrev lengths : Calendar
lengths = record {
  Zone = Unit;
  Local = ℕ;
  parse_date = λ format text. not (is_empty text);
  parse_time = λ format text. some (length text);
  zone = λ name. some tt;
  compatible = λ tz time. some (pos time);
}

abbrev shift : ResolvedTimes
shift = record {
  business_date = codes "2026-01-05";
  timezone = codes "UTC";
  local_start = codes "2026-01-05T08:00";
  local_end = some (codes "2026-01-05T16:00:00");
  utc_start = pos 16;
  utc_end = some (pos 19);
}

resolved :
    resolve lengths
      (codes " 2026-01-05")
      (codes "UTC ")
      (codes "2026-01-05T08:00")
      (some (codes " 2026-01-05T16:00:00 "))
    ≡ ok shift
unfolding consolebook.Base.is_white consolebook.Base.trim_start consolebook.Base.trim
    SessionTime.entered_end SessionTime.parse_local SessionTime.resolve_local
    SessionTime.bounded_end SessionTime.optional_end SessionTime.resolve SessionTime.resolve_end
resolved = refl

resolve-iff-Resolved_example :
    (resolve lengths
        (codes " 2026-01-05")
        (codes "UTC ")
        (codes "2026-01-05T08:00")
        (some (codes " 2026-01-05T16:00:00 "))
      ≡ ok shift)
    ↔ Resolved lengths
        (codes " 2026-01-05")
        (codes "UTC ")
        (codes "2026-01-05T08:00")
        (some (codes " 2026-01-05T16:00:00 "))
        shift
resolve-iff-Resolved_example =
    resolve-iff-Resolved lengths (codes " 2026-01-05") (codes "UTC ") (codes "2026-01-05T08:00")
      (some (codes " 2026-01-05T16:00:00 ")) shift

resolve-resolve_end_example :
    (last : ℤ) × (shift.utc_end ≡ some last)
    × (shift.utc_start ≤ℤ last)
    × (resolve_end lengths (codes "UTC") (codes "2026-01-05T16:00:00") (pos 16) ≡ ok last)
resolve-resolve_end_example =
    resolve-resolve_end lengths (codes " 2026-01-05") (codes "UTC ") (codes "2026-01-05T08:00")
      (some (codes " 2026-01-05T16:00:00 ")) shift (codes "2026-01-05T16:00:00") resolved refl
