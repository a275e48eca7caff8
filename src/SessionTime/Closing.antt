-- ===== src/SessionTime/Closing.antt =====
-- What crates/consolebook-server/src/session_time.rs answers, and the end of a session that is closed later.
use consolebook.Base.{
  ◌≡◌, ◌↔◌, refl, sym, subst, true, not, Option, none, some, ok, refuse_if-ok, some_or_refuse-ok,
  >>=-eq-ok, not-false, Text, trim, codes, ℤ, ltb_ℤ, ◌≤ℤ◌, ltb_ℤ-false, ltb_ℤ_of_≤ℤ,
}
use consolebook.SessionTime.{
  Calendar, ResolvedTimes, invalid_business_date, unknown_timezone, invalid_local_time,
  end_before_start, entered_end, resolve_local, bounded_end, optional_end, resolve, resolve_end,
}

module _ (calendar : Calendar) where
  -- An end resolves in the zone, and is not before the start; no end has no instant.
  abbrev pub EndResolved : calendar.Zone → ℤ → Option Text → Option ℤ → Type 0
  EndResolved tz start none none = Unit
  EndResolved tz start (some value) (some end) =
      (resolve_local calendar tz value ≡ some end) × (start ≤ℤ end)
  EndResolved tz start _ _ = ⊥

  bounded_end-ok :
      (tz : calendar.Zone) (value : Text) (start end : ℤ)
      → bounded_end calendar tz value start ≡ ok end
      → (resolve_local calendar tz value ≡ some end) × (start ≤ℤ end)
  unfolding bounded_end
  bounded_end-ok tz value start end r =
      let (instant, e, r₁) =
        some_or_refuse-ok (resolve_local calendar tz value) invalid_local_time _ r in
      let (late, r₂) = refuse_if-ok (ltb_ℤ instant start) end_before_start _ r₁ in
      let same : instant ≡ end = cc in
      (cc, subst (λ x. start ≤ℤ x) same (ltb_ℤ-false instant start late))

  optional_end-EndResolved :
      (tz : calendar.Zone) (value : Option Text) (start : ℤ) (end : Option ℤ)
      → optional_end calendar tz value start ≡ ok end
      → EndResolved tz start value end
  unfolding optional_end
  optional_end-EndResolved tz none start none r = tt
  optional_end-EndResolved tz none start (some end) r = cc
  optional_end-EndResolved tz (some value) start none r =
      let (instant, e, r₁) = >>=-eq-ok (bounded_end calendar tz value start) _ r in cc
  optional_end-EndResolved tz (some value) start (some end) r =
      let (instant, e, r₁) = >>=-eq-ok (bounded_end calendar tz value start) _ r in
      let same : instant ≡ end = cc in
      subst (λ x. (resolve_local calendar tz value ≡ some x) × (start ≤ℤ x)) same
        (bounded_end-ok tz value start instant e)

  bounded_end_resolved :
      (tz : calendar.Zone) (value : Text) (start end : ℤ)
      → resolve_local calendar tz value ≡ some end
      → start ≤ℤ end
      → bounded_end calendar tz value start ≡ ok end
  unfolding bounded_end
  bounded_end_resolved tz value start end e le = rw (e, ltb_ℤ_of_≤ℤ end start le) refl

  EndResolved-optional_end :
      (tz : calendar.Zone) (value : Option Text) (start : ℤ) (end : Option ℤ)
      → EndResolved tz start value end
      → optional_end calendar tz value start ≡ ok end
  unfolding optional_end
  EndResolved-optional_end tz none start none r = refl
  EndResolved-optional_end tz none start (some end) r = absurd r
  EndResolved-optional_end tz (some value) start none r = absurd r
  EndResolved-optional_end tz (some value) start (some end) r =
      rw (bounded_end_resolved tz value start end r.0 r.1) refl

  -- The texts as they were entered, trimmed, and the instants that they stand for.
  pub record Resolved (date zone_name start : Text) (end : Option Text) (times : ResolvedTimes)
      : Type 0 where
    tz : calendar.Zone
    date_kept : times.business_date ≡ trim date
    zone_kept : times.timezone ≡ trim zone_name
    start_kept : times.local_start ≡ trim start
    end_kept : times.local_end ≡ entered_end end
    date_parses : calendar.parse_date (codes "%Y-%m-%d") times.business_date ≡ true
    zone_found : calendar.zone times.timezone ≡ some tz
    start_resolved : resolve_local calendar tz times.local_start ≡ some times.utc_start
    end_resolved : EndResolved tz times.utc_start times.local_end times.utc_end

  -- What was entered passed every check.
  resolve-Resolved :
      (date zone_name start : Text) (end : Option Text) (times : ResolvedTimes)
      → resolve calendar date zone_name start end ≡ ok times
      → Resolved date zone_name start end times
  unfolding resolve
  resolve-Resolved date zone_name start end times r =
      let (real, r₁) =
        refuse_if-ok (not (calendar.parse_date (codes "%Y-%m-%d") (trim date)))
          invalid_business_date _ r in
      let (tz, z, r₂) = some_or_refuse-ok (calendar.zone (trim zone_name)) unknown_timezone _ r₁ in
      let (first, f, r₃) =
        some_or_refuse-ok (resolve_local calendar tz (trim start)) invalid_local_time _ r₂ in
      let (last, e, r₄) = >>=-eq-ok (optional_end calendar tz (entered_end end) first) _ r₃ in
      let built : ResolvedTimes = record {
        business_date = trim date;
        timezone = trim zone_name;
        local_start = trim start;
        local_end = entered_end end;
        utc_start = first;
        utc_end = last;
      } in
      let whole : built ≡ times = cc in
      subst (Resolved date zone_name start end) whole (record {
        tz = tz;
        date_kept = refl;
        zone_kept = refl;
        start_kept = refl;
        end_kept = refl;
        date_parses = not-false (calendar.parse_date (codes "%Y-%m-%d") (trim date)) real;
        zone_found = z;
        start_resolved = f;
        end_resolved = optional_end-EndResolved tz (entered_end end) first last e;
      })

  Resolved-resolve :
      (date zone_name start : Text) (end : Option Text) (times : ResolvedTimes)
      → Resolved date zone_name start end times
      → resolve calendar date zone_name start end ≡ ok times
  unfolding resolve
  Resolved-resolve date zone_name start end times r =
      let z : calendar.zone (trim zone_name) ≡ some r.tz =
        subst (λ t. calendar.zone t ≡ some r.tz) r.zone_kept r.zone_found in
      let d : calendar.parse_date (codes "%Y-%m-%d") (trim date) ≡ true =
        subst (λ t. calendar.parse_date (codes "%Y-%m-%d") t ≡ true) r.date_kept r.date_parses in
      let f : resolve_local calendar r.tz (trim start) ≡ some times.utc_start =
        subst (λ t. resolve_local calendar r.tz t ≡ some times.utc_start) r.start_kept
          r.start_resolved in
      let e : optional_end calendar r.tz (entered_end end) times.utc_start ≡ ok times.utc_end =
        EndResolved-optional_end r.tz (entered_end end) times.utc_start times.utc_end (
          subst (λ t. EndResolved r.tz times.utc_start t times.utc_end) r.end_kept
            r.end_resolved) in
      rw (d, z, f, e, sym r.date_kept, sym r.zone_kept, sym r.start_kept, sym r.end_kept) refl

  -- Times are answered exactly when the texts, trimmed, are a real date, a known zone and times that
  -- resolve in it, with no end, or an end that is not before the start.
  pub resolve-iff-Resolved :
      (date zone_name start : Text) (end : Option Text) (times : ResolvedTimes)
      → (resolve calendar date zone_name start end ≡ ok times)
        ↔ Resolved date zone_name start end times
  resolve-iff-Resolved date zone_name start end times = (
    resolve-Resolved date zone_name start end times,
    Resolved-resolve date zone_name start end times,
  )

  end_closes :
      (tz : calendar.Zone) (zone_name value : Text) (start : ℤ) (end : Option ℤ)
      → calendar.zone zone_name ≡ some tz
      → EndResolved tz start (some value) end
      → (last : ℤ) × (end ≡ some last)
        × (start ≤ℤ last)
        × (resolve_end calendar zone_name value start ≡ ok last)
  unfolding resolve_end
  end_closes tz zone_name value start none z r = absurd r
  end_closes tz zone_name value start (some last) z r =
      (last, refl, r.1, rw (z, bounded_end_resolved tz value start last r.0 r.1) refl)

  -- Closing a session later gives the same end: where an end was entered with the other fields, closing
  -- with its stored text, zone and start answers the same instant, which is not before the start.
  pub resolve-resolve_end :
      (date zone_name start : Text) (end : Option Text) (times : ResolvedTimes) (value : Text)
      → resolve calendar date zone_name start end ≡ ok times
      → times.local_end ≡ some value
      → (last : ℤ) × (times.utc_end ≡ some last)
        × (times.utc_start ≤ℤ last)
        × (resolve_end calendar times.timezone value times.utc_start ≡ ok last)
  resolve-resolve_end date zone_name start end times value r entered =
      let kept = resolve-Resolved date zone_name start end times r in
      end_closes kept.tz times.timezone value times.utc_start times.utc_end kept.zone_found
        (subst (λ t. EndResolved kept.tz times.utc_start t times.utc_end) entered kept.end_resolved)
