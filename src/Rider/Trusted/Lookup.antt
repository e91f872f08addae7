-- ===== src/Rider/Trusted/Lookup.antt =====
-- rider/trusted.go: which position a trip is looked up with, and the health of the feeds.
use vehicle_positions.Prelude.{Option, none, some, List, [], ◌∷◌, length, str_eq, if◌then◌else◌}
use vehicle_positions.Prelude.Int.{ltb_ℤ}
use vehicle_positions.Prelude.Time.{Time, Duration, time_sub}
use vehicle_positions.Rider.Verify.{TrustedVehicle}
use vehicle_positions.Rider.Session.{TripKey}
use vehicle_positions.Rider.Trusted.{FeedState, TrustedFeed, FeedHealth, undated, lookup_trip}

module _ {F : Type 0} where
  abbrev pub fresh_entity : Duration → Time → Option (TrustedVehicle F) → Option (TrustedVehicle F)
  fresh_entity max_age now none = none
  fresh_entity max_age now (some v) =
      if ltb_ℤ max_age (time_sub now v.timestamp) then none else some v

  abbrev pub or_found :
      Option (TrustedVehicle F) → Option (TrustedVehicle F) → Option (TrustedVehicle F)
  or_found none found = found
  or_found (some v) found = some v

  unfoldable pub lookup_from :
      Duration
      → TripKey
      → Time
      → Option (TrustedVehicle F)
      → List (FeedState F)
      → Option (TrustedVehicle F)
  unfolding lookup_trip
  lookup_from max_age key now found [] = found
  lookup_from max_age key now found (feed ∷ rest) =
      lookup_from max_age key now
        (or_found (fresh_entity max_age now (lookup_trip key feed.entities)) found) rest

  unfoldable pub lookup_locked : TrustedFeed F → TripKey → Time → Option (TrustedVehicle F)
  unfolding lookup_from
  lookup_locked f key now = lookup_from f.max_age key now none f.feeds

  unfoldable pub lookup_trusted : TrustedFeed F → TripKey → Time → Option (TrustedVehicle F)
  unfolding lookup_locked
  lookup_trusted f key now =
      or_found (lookup_locked f key now)
        (if str_eq key.start_date "" then none else lookup_locked f (undated key) now)

  unfoldable pub health : List (FeedState F) → List FeedHealth
  health [] = []
  health (feed ∷ rest) =
      record {
        url = feed.url;
        last_success = feed.last_success;
        last_error = feed.last_error;
        entities = length feed.entities;
      }
      ∷ health rest
