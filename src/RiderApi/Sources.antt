-- ===== src/RiderApi/Sources.antt =====
-- `trustedSources` of rider_wiring.go: the trusted feeds, and behind them the server's own tracker.
-- `clock` is the time that the tracker reads for itself.
mod Examples
use vehicle_positions.Prelude.{
  String, Bool, true, false, not, ◌&&◌, ◌||◌, Option, none, some, List, [], ◌∷◌, ◌≡◌, refl, sym,
  ◌∙◌, arith, any, is_some, str_eq, Option-cases, inl, inr, if◌then◌else◌,
}
use vehicle_positions.Prelude.Time.{Time, time_unix}
use vehicle_positions.Prelude.Float.{FloatOps}
use vehicle_positions.Prelude.Dict.{values}
use vehicle_positions.Rider.Verify.{TrustedVehicle}
use vehicle_positions.Rider.Session.{TripKey}
use vehicle_positions.Rider.Aggregator.{same_key}
use vehicle_positions.Rider.Aggregator.Estimate.{trip_status, status_of}
use vehicle_positions.Rider.Aggregator.Grouping.{TripGroup, groups, find_group}
use vehicle_positions.Rider.Aggregator.Status.{trip_status-estimates}
use vehicle_positions.Rider.Trusted.{TrustedFeed, undated}
use vehicle_positions.Rider.Trusted.Lookup.{lookup_trusted}
use vehicle_positions.Rider.Trusted.Polling.{holds, lookup_trusted_found}
use vehicle_positions.Tracker.{
  Tracker, VehicleState, is_active, fresher, freshest_from, vehicle_on_trip,
}
use vehicle_positions.Tracker.Trip.{speaks_for}
use vehicle_positions.RiderApi.Service.{Live}
use vehicle_positions.RiderApi.Handlers.{service_estimates}

pub record TrustedSources (F : Type 0) : Type 0 where
  pub feed : TrustedFeed F
  pub tracker : Option (Tracker F)

module _ {F : Type 0} where
  abbrev pub trusted_of : Option (VehicleState F) → Option (TrustedVehicle F)
  trusted_of none = none
  trusted_of (some v) = some (record {
    vehicle_id = v.vehicle_id;
    pos = record { lat = v.latitude; lon = v.longitude };
    timestamp = time_unix v.timestamp;
  })

  abbrev pub lookup_tracker : Option (Tracker F) → TripKey → Time → Option (TrustedVehicle F)
  lookup_tracker none key clock = none
  lookup_tracker (some t) key clock = trusted_of (vehicle_on_trip t key.trip_id clock)

  unfoldable pub lookup_sources :
      TrustedSources F → TripKey → Time → Time → Option (TrustedVehicle F)
  lookup_sources s key now clock = elim (lookup_trusted s.feed key now) [
    | some v ↦ some v
    | none ↦ lookup_tracker s.tracker key clock
  ]

  unfoldable pub covers : TrustedSources F → TripKey → Time → Time → Bool
  unfolding lookup_sources
  covers s key now clock = is_some (lookup_sources s key now clock)

  -- a driver's vehicle has lately reported the trip
  abbrev pub is_driven : Option (Tracker F) → String → Time → Bool
  is_driven none trip_id clock = false
  is_driven (some t) trip_id clock =
      not (str_eq trip_id "") && any (speaks_for t trip_id clock) (values t.vehicles)

  -- a feed of the agency has the trip, with its date or without one, in a fresh position
  abbrev pub is_published : TrustedFeed F → TripKey → Time → Bool
  is_published f key now =
      any (holds f.max_age key now) f.feeds
      || (not (str_eq key.start_date "") && any (holds f.max_age (undated key) now) f.feeds)

  is_some-fresher :
      (v : VehicleState F) (found : Option (VehicleState F)) → is_some (fresher v found) ≡ true
  is_some-fresher v none = refl
  is_some-fresher v (some w) = ground arith

  is_some-freshest_from :
      (t : Tracker F) (trip_id : String) (clock : Time) (found : Option (VehicleState F))
      (vs : List (VehicleState F))
      → is_some (freshest_from t trip_id clock found vs)
        ≡ is_some found || any (speaks_for t trip_id clock) vs
  unfolding freshest_from any
  is_some-freshest_from t trip_id clock found [] = ground arith
  is_some-freshest_from t trip_id clock found (v ∷ rest) =
      is_some-freshest_from t trip_id clock
        (if not (str_eq v.trip_id trip_id) || not (is_active t clock v)
          then found
          else fresher v found)
        rest
      ∙ ground (arith, is_some-fresher v found)

  is_some-trusted_of : (o : Option (VehicleState F)) → is_some (trusted_of o) ≡ is_some o
  is_some-trusted_of none = refl
  is_some-trusted_of (some v) = refl

  is_some-lookup_tracker :
      (o : Option (Tracker F)) (key : TripKey) (clock : Time)
      → is_some (lookup_tracker o key clock) ≡ is_driven o key.trip_id clock
  unfolding vehicle_on_trip
  is_some-lookup_tracker none key clock = refl
  is_some-lookup_tracker (some t) key clock =
      is_some-trusted_of (vehicle_on_trip t key.trip_id clock)
      ∙ ground (arith, is_some-freshest_from t key.trip_id clock none (values t.vehicles))

  -- A trip is covered exactly if one of the configured feeds has a fresh position for it, under its
  -- date or under no date, or, where there is a tracker, a driver's vehicle has lately reported it.
  pub covers_iff :
      (s : TrustedSources F) (key : TripKey) (now clock : Time)
      → covers s key now clock
        ≡ is_published s.feed key now || is_driven s.tracker key.trip_id clock
  unfolding covers lookup_sources
  covers_iff s key now clock =
      let found = lookup_trusted_found s.feed key now in
      let driven = is_some-lookup_tracker s.tracker key clock in
      elim (Option-cases (lookup_trusted s.feed key now)) [
        | inl gone ↦ rw (gone, covers, lookup_sources) (ground (arith, found, driven))
        | inr (v, there) ↦ rw (there, covers, lookup_sources) (ground (arith, found))
      ]

module _ {F : Type 0} ⦃fl : FloatOps F⦄ where
  covered_status :
      (covered : TripKey → Bool) (key : TripKey) (now : Time) (o : Option (TripGroup F))
      → covered key ≡ true
      → (status_of (some covered) key now o).0 ≡ false
  covered_status covered key now none h = refl
  covered_status covered key now (some g) h = ground arith

  -- The feed never carries a rider's estimate beside the agency's own position: where, at the
  -- moment at which a trip is asked for, a fresh position of it is in a configured feed or a
  -- driver's vehicle has lately reported it, no estimate of the trip is published, whatever the
  -- sources are when other trips are asked for.
  pub service_estimates_uncovered :
      (st : Live F) (seen : TripKey → TrustedSources F) (clock : TripKey → Time) (now : Time)
      (key : TripKey)
      → is_published (seen key).feed key now || is_driven (seen key).tracker key.trip_id (clock key)
        ≡ true
      → any
          (λ e. same_key e.key key)
          (service_estimates st (some (λ k. covers (seen k) k now (clock k))) now)
        ≡ false
  unfolding service_estimates
  service_estimates_uncovered st seen clock now key h =
      let covered = λ (k : TripKey). covers (seen k) k now (clock k) in
      sym (trip_status-estimates st.agg key now (some covered))
      ∙ unfold trip_status in
        covered_status covered key now (find_group key (groups st.agg now))
          (covers_iff (seen key) key now (clock key) ∙ h)
