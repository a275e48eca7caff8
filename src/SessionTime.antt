-- ===== src/SessionTime.antt =====
-- crates/consolebook-server/src/session_time.rs: local times of training sessions. jiff is the parameter
-- `Calendar`: dates and times parsed by a format, the timezone database, and the instant of a local
-- time (`to_ambiguous_zoned(..).compatible()`), which may be before 1970.
pub mod Closing
use consolebook.Base.{
  ℕ, Bool, true, false, Option, none, some, not, ◌||◌, Outcome, ok, refused, failed, ◌>>=◌, ◌>>◌,
  refuse_if, some_or_refuse, Text, trim, is_empty, is_some, ℤ, ltb_ℤ, codes, if◌then◌else◌,
}

pub data TimeRefusal : Type 0 where
  invalid_business_date : TimeRefusal
  unknown_timezone : TimeRefusal
  invalid_local_time : TimeRefusal
  end_before_start : TimeRefusal

pub record ResolvedTimes : Type 0 where
  pub business_date : Text
  pub timezone : Text
  pub local_start : Text
  pub local_end : Option Text
  pub utc_start : ℤ
  pub utc_end : Option ℤ

pub record Calendar : Type 1 where
  pub Zone : Type 0
  pub Local : Type 0
  pub parse_date : Text → Text → Bool
  pub parse_time : Text → Text → Option Local
  pub zone : Text → Option Zone
  pub compatible : Zone → Local → Option ℤ

abbrev pub or_else {ℓ} : {A : Type ℓ} → Option A → Option A → Option A
or_else (some a) other = some a
or_else none other = other

-- `local_end.map(str::trim).filter(|value| !value.is_empty())`
abbrev pub non_empty : Text → Option Text
non_empty text = if is_empty text then none else some text

unfoldable pub entered_end : Option Text → Option Text
unfolding trim
entered_end none = none
entered_end (some text) = non_empty (trim text)

module _ (calendar : Calendar) where
  unfoldable pub parse_local : Text → Option calendar.Local
  parse_local value =
      or_else (calendar.parse_time (codes "%Y-%m-%dT%H:%M:%S") value)
        (calendar.parse_time (codes "%Y-%m-%dT%H:%M") value)

  abbrev pub instant_of : calendar.Zone → Option calendar.Local → Option ℤ
  instant_of tz none = none
  instant_of tz (some time) = calendar.compatible tz time

  unfoldable pub resolve_local : calendar.Zone → Text → Option ℤ
  unfolding parse_local
  resolve_local tz value = instant_of tz (parse_local value)

  -- The instant of an end, which is not before the start.
  unfoldable pub bounded_end : calendar.Zone → Text → ℤ → Outcome TimeRefusal ℤ
  unfolding resolve_local
  bounded_end tz value utc_start = do
    instant ← some_or_refuse (resolve_local tz value) invalid_local_time
    refuse_if (ltb_ℤ instant utc_start) end_before_start
    ok instant

  unfoldable pub optional_end : calendar.Zone → Option Text → ℤ → Outcome TimeRefusal (Option ℤ)
  unfolding bounded_end
  optional_end tz none utc_start = ok none
  optional_end tz (some value) utc_start = do
    instant ← bounded_end tz value utc_start
    ok (some instant)

  unfoldable pub resolve : Text → Text → Text → Option Text → Outcome TimeRefusal ResolvedTimes
  unfolding trim resolve_local entered_end optional_end
  resolve date zone_name start end = do
    refuse_if (not (calendar.parse_date (codes "%Y-%m-%d") (trim date))) invalid_business_date
    tz ← some_or_refuse (calendar.zone (trim zone_name)) unknown_timezone
    first ← some_or_refuse (resolve_local tz (trim start)) invalid_local_time
    last ← optional_end tz (entered_end end) first
    ok (record {
      business_date = trim date;
      timezone = trim zone_name;
      local_start = trim start;
      local_end = entered_end end;
      utc_start = first;
      utc_end = last;
    })

  unfoldable pub resolve_end : Text → Text → ℤ → Outcome TimeRefusal ℤ
  unfolding bounded_end
  resolve_end zone_name value utc_start = do
    tz ← some_or_refuse (calendar.zone zone_name) unknown_timezone
    bounded_end tz value utc_start
