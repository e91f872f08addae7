-- ===== src/Rider/Trusted.antt =====
-- rider/trusted.go: the agency's GTFS-realtime feeds, polled over HTTP and looked up by trip. The
-- client and the entities of a decoded feed are not this repository's code and are parameters.
pub mod Lookup
pub mod Polling
mod Examples
use vehicle_positions.Prelude.{
  ℕ, zero, suc, ◌+◌, ◌%◌, String, Bool, not, ◌&&◌, ◌||◌, Option, none, some, List, [], ◌∷◌, length,
  ltb, ◌==◌, str_eq, if◌then◌else◌,
}
use vehicle_positions.Prelude.Int.{ℤ, pos, ltb_ℤ, sub_ℕ}
use vehicle_positions.Prelude.Time.{Time, Duration, time_sub, time_unix}
use vehicle_positions.Rider.Verify.{TrustedVehicle}
use vehicle_positions.Rider.Session.{TripKey}
use vehicle_positions.Rider.Aggregator.{same_key}

-- `map[TripKey]TrustedVehicle`
abbrev pub TripMap : Type 0 → Type 0
TripMap F = List (TripKey × TrustedVehicle F)

-- What the poller reads of a feed entity. The getters of a message that is absent answer with
-- zero values, so `trip_id` is empty where there is no trip.
pub record EntityOps (E F : Type 0) : Type 0 where
  pub has_vehicle : E → Bool
  pub has_position : E → Bool
  pub timestamp : E → ℕ
  pub trip_id : E → String
  pub start_date : E → String
  pub vehicle_id : E → String
  pub latitude : E → F
  pub longitude : E → F

pub record FetchRequest : Type 0 where
  pub url : String
  pub if_none_match : Option String
  pub if_modified_since : Option String

pub data Body (E : Type 0) : Type 0 where
  unreadable : Body E
  -- its length in bytes, and the entities in it where it decodes
  read : ℕ → Option (List E) → Body E

pub data FeedResponse (E : Type 0) : Type 0 where
  unreachable : FeedResponse E
  answered : ℕ → Body E → String → String → FeedResponse E

-- A request that runs into its timeout has failed.
pub data FetchError : Type 0 where
  request_failed body_failed body_too_long not_decoded : FetchError
  bad_status : ℕ → FetchError

-- `fetchResult`, or the error
pub data FetchResult (F : Type 0) : Type 0 where
  fetch_failed : FetchError → FetchResult F
  not_modified : FetchResult F
  fetched : TripMap F → String → String → FetchResult F

-- `lastError` is empty where there was none.
pub record FeedState (F : Type 0) : Type 0 where
  pub url : String
  pub etag : String
  pub last_modified : String
  pub entities : TripMap F
  pub last_success : Time
  pub last_error : Option FetchError

pub record TrustedFeed (F : Type 0) : Type 0 where
  pub max_age : Duration
  pub feeds : List (FeedState F)

pub record FeedHealth : Type 0 where
  pub url : String
  pub last_success : Time
  pub last_error : Option FetchError
  pub entities : ℕ

abbrev pub trusted_max_body_bytes : ℕ
trusted_max_body_bytes = 33_554_432

-- `int64(n)` of an uint64
abbrev int64_of : ℕ → ℤ
int64_of n = if ltb n 9_223_372_036_854_775_808 then pos n else sub_ℕ n 18_446_744_073_709_551_616

-- the header is sent where there is something to send
abbrev header_of : String → Option String
header_of s = if str_eq s "" then none else some s

-- the key under which a feed publishes a trip without a date
abbrev pub undated : TripKey → TripKey
undated key = record { trip_id = key.trip_id; start_date = "" }

abbrev pub request_of : String → String → String → FetchRequest
request_of url etag modified = record {
  url = url;
  if_none_match = header_of etag;
  if_modified_since = header_of modified;
}

module _ {F : Type 0} where
  unfoldable pub new_trusted_feed : List String → Duration → TrustedFeed F
  new_trusted_feed urls max_age = record { max_age = max_age; feeds = fresh urls }
    where
      fresh : List String → List (FeedState F)
      fresh [] = []
      fresh (u ∷ rest) =
          record {
            url = u;
            etag = "";
            last_modified = "";
            entities = [];
            last_success = 0;
            last_error = none;
          }
          ∷ fresh rest

  abbrev pub configured : TrustedFeed F → Bool
  configured f = not (length f.feeds == 0)

  unfoldable pub lookup_trip : TripKey → TripMap F → Option (TrustedVehicle F)
  lookup_trip key [] = none
  lookup_trip key ((k, v) ∷ m) = if same_key k key then some v else lookup_trip key m

  unfoldable pub insert_trip : TripKey → TrustedVehicle F → TripMap F → TripMap F
  insert_trip key v [] = (key, v) ∷ []
  insert_trip key v ((k, w) ∷ m) =
      let rest = insert_trip key v m in if same_key k key then (key, v) ∷ m else (k, w) ∷ rest

module _ {E F : Type 0} (ops : EntityOps E F) where
  abbrev pub is_usable : E → Bool
  is_usable e =
      not (not (ops.has_vehicle e) || not (ops.has_position e) || ops.timestamp e == 0)
      && not (str_eq (ops.trip_id e) "")

  abbrev pub key_of : E → TripKey
  key_of e = record { trip_id = ops.trip_id e; start_date = ops.start_date e }

  abbrev pub vehicle_of : E → TrustedVehicle F
  vehicle_of e = record {
    vehicle_id = ops.vehicle_id e;
    pos = record { lat = ops.latitude e; lon = ops.longitude e };
    timestamp = time_unix (int64_of (ops.timestamp e));
  }

  unfoldable pub vehicles_from : TripMap F → List E → TripMap F
  unfolding insert_trip
  vehicles_from out [] = out
  vehicles_from out (e ∷ rest) =
      vehicles_from (if is_usable e then insert_trip (key_of e) (vehicle_of e) out else out) rest

  unfoldable pub vehicles_by_trip : List E → TripMap F
  unfolding vehicles_from
  vehicles_by_trip es = vehicles_from [] es

  abbrev decode_message : Option (List E) → String → String → FetchResult F
  decode_message none etag modified = fetch_failed not_decoded
  decode_message (some es) etag modified = fetched (vehicles_by_trip es) etag modified

  abbrev body_of : Body E → String → String → FetchResult F
  body_of unreadable etag modified = fetch_failed body_failed
  body_of (read size message) etag modified =
      if ltb trusted_max_body_bytes size
      then fetch_failed body_too_long
      else decode_message message etag modified

  abbrev fetch_result : FeedResponse E → FetchResult F
  fetch_result unreachable = fetch_failed request_failed
  fetch_result (answered code body etag modified) =
      if code == 304
      then not_modified
      else if code == 200
      then body_of body etag modified
      else fetch_failed (bad_status code)

  unfoldable pub fetch : (FetchRequest → FeedResponse E) → String → String → String → FetchResult F
  unfolding vehicles_by_trip
  fetch client url etag modified = fetch_result (client (request_of url etag modified))

  abbrev pub fold_result : FeedState F → Time → FetchResult F → FeedState F
  fold_result feed now (fetch_failed e) = record feed { last_error = some e }
  fold_result feed now not_modified = record feed { last_error = none; last_success = now }
  fold_result feed now (fetched entities etag modified) = record feed {
    entities = entities;
    etag = etag;
    last_modified = modified;
    last_error = none;
    last_success = now;
  }

  -- A poll of a feed reads and writes the state of that feed only.
  unfoldable pub poll_one : (FetchRequest → FeedResponse E) → FeedState F → Time → FeedState F
  unfolding fetch
  poll_one client feed now =
      fold_result feed now (fetch client feed.url feed.etag feed.last_modified)

  unfoldable pub poll_at :
      (FetchRequest → FeedResponse E) → ℕ → Time → List (FeedState F) → List (FeedState F)
  unfolding poll_one
  poll_at client i now [] = []
  poll_at client zero now (feed ∷ rest) = poll_one client feed now ∷ rest
  poll_at client (suc i) now (feed ∷ rest) = feed ∷ poll_at client i now rest

  -- `Poll`: the feeds by their positions, in the order in which they answer, each with the time;
  -- none answers where the context is done before
  unfoldable pub poll :
      (FetchRequest → FeedResponse E) → List (ℕ × Time) → List (FeedState F) → List (FeedState F)
  unfolding poll_at
  poll client [] feeds = feeds
  poll client ((i, now) ∷ order) feeds = poll client order (poll_at client i now feeds)
