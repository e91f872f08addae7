-- ===== src/Rider/Trusted/Polling.antt =====
-- rider/trusted.go: what a poll leaves behind, and which position a lookup finds.
use vehicle_positions.Prelude.{
  ℕ, zero, suc, Bool, not, ◌&&◌, ◌||◌, Option, none, some, List, [], ◌∷◌, ◌≡◌, refl, ap, ◌∙◌, arith,
  any, is_some, str_eq, if◌then◌else◌, String,
}
use vehicle_positions.Prelude.Time.{Time, Duration}
use vehicle_positions.Rider.Verify.{TrustedVehicle}
use vehicle_positions.Rider.Session.{TripKey}
use vehicle_positions.Rider.Aggregator.{same_key}
use vehicle_positions.Rider.Trusted.{
  EntityOps, FetchRequest, FeedResponse, FetchResult, fetch_failed, not_modified, fetched,
  FeedState, TrustedFeed, undated, lookup_trip, is_usable, key_of, vehicle_of, fetch, fold_result,
  poll_one, poll_at, poll,
}
use vehicle_positions.Rider.Trusted.Lookup.{
  fresh_entity, or_found, lookup_from, lookup_locked, lookup_trusted,
}

module _ {F : Type 0} where
  -- whether a feed holds a fresh position for a key
  abbrev pub holds : Duration → TripKey → Time → FeedState F → Bool
  holds max_age key now feed = is_some (fresh_entity max_age now (lookup_trip key feed.entities))

  is_some-or_found :
      (x y : Option (TrustedVehicle F)) → is_some (or_found x y) ≡ is_some x || is_some y
  is_some-or_found none y = refl
  is_some-or_found (some v) y = refl

  is_some-lookup_from :
      (max_age : Duration) (key : TripKey) (now : Time) (found : Option (TrustedVehicle F))
      (feeds : List (FeedState F))
      → is_some (lookup_from max_age key now found feeds)
        ≡ is_some found || any (holds max_age key now) feeds
  unfolding lookup_from any
  is_some-lookup_from max_age key now found [] = ground arith
  is_some-lookup_from max_age key now found (feed ∷ rest) =
      let here = fresh_entity max_age now (lookup_trip key feed.entities) in
      is_some-lookup_from max_age key now (or_found here found) rest
      ∙ ground (arith, is_some-or_found here found)

  pub lookup_trusted_found :
      (f : TrustedFeed F) (key : TripKey) (now : Time)
      → is_some (lookup_trusted f key now)
        ≡ any (holds f.max_age key now) f.feeds
          || (not (str_eq key.start_date "") && any (holds f.max_age (undated key) now) f.feeds)
  unfolding lookup_trusted lookup_locked
  lookup_trusted_found f key now =
      let exact = is_some-lookup_from f.max_age key now none f.feeds in
      let later = is_some-lookup_from f.max_age (undated key) now none f.feeds in
      is_some-or_found (lookup_from f.max_age key now none f.feeds) (
        if str_eq key.start_date ""
        then none
        else lookup_from f.max_age (undated key) now none f.feeds)
      ∙ ground (arith, exact, later)

module _ {E F : Type 0} (ops : EntityOps E F) where
  -- An independent reading of a feed message: the last entity that says where the trip is.
  abbrev pub last_usable : TripKey → List E → Option (TrustedVehicle F) → Option (TrustedVehicle F)
  last_usable key [] found = found
  last_usable key (e ∷ rest) found =
      last_usable key rest
        (if is_usable ops e && same_key (key_of ops e) key then some (vehicle_of ops e) else found)

  -- a result that brings no positions
  abbrev pub IsIdle : FetchResult F → Type 0
  IsIdle (fetch_failed e) = Unit
  IsIdle not_modified = Unit
  IsIdle (fetched entities etag modified) = ⊥

  entities-fold_result :
      (feed : FeedState F) (now : Time) (r : FetchResult F)
      → IsIdle r
      → (fold_result ops feed now r).entities ≡ feed.entities
  entities-fold_result feed now (fetch_failed e) idle = refl
  entities-fold_result feed now not_modified idle = refl
  entities-fold_result feed now (fetched m etag modified) idle = elim idle [ ]

  lookup_from-poll_at :
      (client : FetchRequest → FeedResponse E) (max_age : Duration) (key : TripKey) (asked : Time)
      (found : Option (TrustedVehicle F)) (i : ℕ) (now : Time) (feeds : List (FeedState F))
      → ((url etag modified : String) → IsIdle (fetch ops client url etag modified))
      → lookup_from max_age key asked found (poll_at ops client i now feeds)
        ≡ lookup_from max_age key asked found feeds
  unfolding poll_at lookup_from
  lookup_from-poll_at client max_age key asked found i now [] idle = refl
  lookup_from-poll_at client max_age key asked found zero now (feed ∷ rest) idle =
      let same : (poll_one ops client feed now).entities ≡ feed.entities =
        unfold poll_one in
        entities-fold_result feed now (fetch ops client feed.url feed.etag feed.last_modified)
          (idle feed.url feed.etag feed.last_modified) in
      ap
        (λ m.
          lookup_from max_age key asked
            (or_found (fresh_entity max_age asked (lookup_trip key m)) found) rest)
        same
  lookup_from-poll_at client max_age key asked found (suc i) now (feed ∷ rest) idle =
      lookup_from-poll_at client max_age key asked
        (or_found (fresh_entity max_age asked (lookup_trip key feed.entities)) found) i now rest
        idle

  lookup_from-poll :
      (client : FetchRequest → FeedResponse E) (max_age : Duration) (key : TripKey) (asked : Time)
      (order : List (ℕ × Time)) (feeds : List (FeedState F))
      → ((url etag modified : String) → IsIdle (fetch ops client url etag modified))
      → lookup_from max_age key asked none (poll ops client order feeds)
        ≡ lookup_from max_age key asked none feeds
  unfolding poll
  lookup_from-poll client max_age key asked [] feeds idle = refl
  lookup_from-poll client max_age key asked ((i, now) ∷ order) feeds idle =
      lookup_from-poll client max_age key asked order (poll_at ops client i now feeds) idle
      ∙ lookup_from-poll_at client max_age key asked none i now feeds idle

  -- Polls that fail, or find the feeds unchanged, take no position away: every lookup answers as
  -- it did before.
  pub lookup_trusted-poll :
      (client : FetchRequest → FeedResponse E) (f : TrustedFeed F) (order : List (ℕ × Time))
      (key : TripKey) (asked : Time)
      → ((url etag modified : String) → IsIdle (fetch ops client url etag modified))
      → lookup_trusted (record f { feeds = poll ops client order f.feeds }) key asked
        ≡ lookup_trusted f key asked
  unfolding lookup_trusted lookup_locked
  lookup_trusted-poll client f order key asked idle =
      rw
        (
          lookup_from-poll client f.max_age key asked order f.feeds idle,
          lookup_from-poll client f.max_age (undated key) asked order f.feeds idle,
        )
        refl
