-- ===== src/RiderApi.antt =====
-- rider_handlers.go: the rider API from the decoded request on. This file has what a client sends and
-- gets, the validation of it, and how points and summaries are turned into what is stored.
pub mod Foreign
pub mod RowsFollow
pub mod Keeping
pub mod Service
pub mod Handlers
pub mod Positions
pub mod Starts
pub mod Wire
pub mod Linked
pub mod Following
pub mod Steps
pub mod Lasting
pub mod Filing
pub mod Retry
pub mod Requests
pub mod Opened
pub mod Reachable
pub mod Sources
mod Examples
use vehicle_positions.Prelude.{
  ℕ, ◌+◌, ◌*◌, ◌/◌, ◌-◌, String, Bool, true, false, not, ◌&&◌, ◌||◌, Option, none, some, List, [],
  ◌∷◌, length, ltb, leb, ◌==◌, str_eq, any, map, if◌then◌else◌,
}
use vehicle_positions.Prelude.Int.{ℤ, pos, negsuc, sub_ℕ, leb_ℤ, pos_part, neg_part}
use vehicle_positions.Prelude.Time.{Time, Duration, second, time_unix, unix_of}
use vehicle_positions.Prelude.Float.{FloatOps}
use vehicle_positions.Prelude.Text.{codes, byte_length, all_codes, is_digit, is_id_char}
use vehicle_positions.Rider.Geometry.{LatLon}
use vehicle_positions.Rider.Schedule.{TripInfo, StopTimeInfo}
use vehicle_positions.Rider.Verify.{
  Point, Verdict, Outcome, ignored, off_route, implausible, off_schedule, matched, Corroboration,
  unavailable, no_corroboration, corroborated, contradicted,
}
use vehicle_positions.Rider.Session.{
  State, pending, verified, rejected, EndReason, RideSummary, is_rejected, same_outcome,
}
use vehicle_positions.Rider.Reputation.{score_delta}
use vehicle_positions.Rides.{RideProgress, RideOutcome, RidePointRecord}

abbrev pub rider_report_interval_seconds : ℕ
rider_report_interval_seconds = 5

abbrev pub rider_max_batch_size : ℕ
rider_max_batch_size = 12

abbrev pub rider_max_field_len : ℕ
rider_max_field_len = 100

abbrev pub max_vehicle_id_length : ℕ
max_vehicle_id_length = 50

unfoldable pub state_string : State → String
state_string pending = "pending"
state_string verified = "verified"
state_string rejected = "rejected"

unfoldable pub outcome_string : Outcome → String
outcome_string ignored = "ignored"
outcome_string off_route = "off_route"
outcome_string implausible = "implausible"
outcome_string off_schedule = "off_schedule"
outcome_string matched = "matched"

unfoldable pub corroboration_string : Corroboration → String
corroboration_string unavailable = "unavailable"
corroboration_string no_corroboration = "none"
corroboration_string corroborated = "corroborated"
corroboration_string contradicted = "contradicted"

-- What a client asks, as it stands once the JSON is decoded. `attestation` is the raw message, less
-- the white space around it.
pub record RiderRegisterRequest : Type 0 where
  pub installation_id : String
  pub platform : String
  pub app_id : String
  pub app_version : String
  pub attestation : Option String

pub record StartRideRequest : Type 0 where
  pub trip_id : String
  pub start_date : String
  pub route_id : String
  pub vehicle_id : String
  pub boarding_stop_id : String
  pub destination_stop_id : String

pub record PositionUpload (F : Type 0) : Type 0 where
  pub latitude : F
  pub longitude : F
  pub accuracy : Option F
  pub speed : Option F
  pub bearing : Option F
  pub timestamp : ℤ

pub record RideDestination (F : Type 0) : Type 0 where
  pub stop_id : String
  pub latitude : F
  pub longitude : F

unfoldable pub too_long : String → Bool
too_long v = ltb rider_max_field_len (byte_length v)

-- `^[0-9]{8}$`
unfoldable pub is_service_date : String → Bool
is_service_date s = length (codes s) == 8 && all_codes is_digit (codes s)

-- `validateVehicleID` with `^[a-zA-Z0-9._-]+$`; the message of what is wrong
unfoldable pub validate_vehicle_id : String → Option String
validate_vehicle_id id =
    if str_eq id ""
    then some "vehicle id is required"
    else if ltb max_vehicle_id_length (byte_length id)
    then some "vehicle id must be at most 50 characters"
    else if not (all_codes is_id_char (codes id))
    then some "vehicle id must contain only alphanumeric characters, dots, hyphens, and underscores"
    else none

abbrev rider_platforms : List String
rider_platforms = "ios" ∷ "android" ∷ "other" ∷ []

abbrev has_attestation : Option String → Bool
has_attestation none = false
has_attestation (some raw) = not (str_eq raw "null")

-- `is_uuid` is uuid.Parse without an error.
unfoldable pub validate_registration : (String → Bool) → RiderRegisterRequest → Option String
unfolding too_long any
validate_registration is_uuid req =
    if not (is_uuid req.installation_id)
    then some "installation_id must be a UUID"
    else if not (any (λ p. str_eq p req.platform) rider_platforms)
    then some "platform must be one of ios, android, other"
    else if too_long req.app_id || too_long req.app_version
    then some "app_id and app_version must be at most 100 characters"
    else if has_attestation req.attestation
    then some "attestation not supported"
    else none

-- `int(d.Seconds())`: the seconds of a duration, rounded towards zero
abbrev pub whole_seconds : Duration → ℤ
whole_seconds (pos n) = pos (n / second)
whole_seconds (negsuc n) = sub_ℕ 0 ((n + 1) / second)

-- `scheduleDeviationSeconds`
unfoldable pub schedule_deviation_seconds : {F : Type 0} → Verdict F → Option ℤ
schedule_deviation_seconds v =
    if not (same_outcome v.outcome matched) && not (same_outcome v.outcome off_schedule)
    then none
    else some (whole_seconds v.schedule_deviation)

unfoldable pub progress_of : RideSummary → RideProgress
unfolding state_string
progress_of s = record {
  state = state_string s.state;
  is_corroborated = s.is_corroborated;
  points_total = s.counts.total;
  points_matched = s.counts.matched;
  points_corroborated = s.counts.corroborated;
  points_contradicted = s.counts.contradicted;
}

unfoldable pub ride_outcome_of : RideSummary → EndReason → RideOutcome
unfolding progress_of score_delta
ride_outcome_of s reason =
    let summary = record s { end_reason = reason } in
    record {
      end_reason = reason;
      progress = progress_of summary;
      score_delta = score_delta summary;
      is_rejected = is_rejected s.state;
      is_corroborated = s.is_corroborated;
    }

module _ {F : Type 0} where
  abbrev stop_named : String → List (StopTimeInfo F) → Option (RideDestination F)
  stop_named stop_id [] = none
  stop_named stop_id (st ∷ rest) =
      if str_eq st.stop_id stop_id
      then some (record { stop_id = st.stop_id; latitude = st.pos.lat; longitude = st.pos.lon })
      else stop_named stop_id rest

  unfoldable pub destination_of : TripInfo F → String → Option (RideDestination F)
  destination_of trip stop_id =
      if str_eq stop_id "" then none else stop_named stop_id trip.stop_times

-- `-1` as a float64 is `minus_one`, and `==` on float64 is `same`.
module _ {F : Type 0} ⦃fl : FloatOps F⦄ where
  open fl use {lit, neg, lt, le}

  abbrev pub minus_one : F
  minus_one = neg (lit 1)

  abbrev pub same : F → F → Bool
  same a b = le a b && le b a

  unfoldable pub or_missing : Option F → F
  or_missing none = minus_one
  or_missing (some v) = v

  unfoldable pub reported : F → Option F
  reported v = if same v minus_one then none else some v

  unfoldable pub validate_position : PositionUpload F → Option String
  validate_position p =
      if leb_ℤ p.timestamp (pos 0)
      then some "each position needs a timestamp"
      else if lt p.latitude (neg (lit 90))
          || lt (lit 90) p.latitude
          || lt p.longitude (neg (lit 180))
          || lt (lit 180) p.longitude
      then some "latitude and longitude must be valid coordinates"
      else none

  unfoldable pub point_of : PositionUpload F → Point F
  unfolding or_missing
  point_of p = record {
    pos = record { lat = p.latitude; lon = p.longitude };
    accuracy = or_missing p.accuracy;
    speed = or_missing p.speed;
    bearing = or_missing p.bearing;
    timestamp = time_unix p.timestamp;
  }

  unfoldable pub ride_point_record : Point F × Verdict F → RidePointRecord F
  unfolding reported outcome_string corroboration_string schedule_deviation_seconds
  ride_point_record (p, v) = record {
    latitude = p.pos.lat;
    longitude = p.pos.lon;
    accuracy = reported p.accuracy;
    speed = reported p.speed;
    bearing = reported p.bearing;
    timestamp = unix_of p.timestamp;
    outcome = outcome_string v.outcome;
    corroboration = corroboration_string v.corroboration;
    along_shape = v.along_shape;
    distance_to_shape = v.distance_to_shape;
    schedule_deviation_seconds = schedule_deviation_seconds v;
  }

  unfoldable pub ride_point_records : List (Point F × Verdict F) → List (RidePointRecord F)
  unfolding ride_point_record
  ride_point_records [] = []
  ride_point_records (p ∷ rest) = ride_point_record p ∷ ride_point_records rest
