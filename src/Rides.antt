-- ===== src/Rides.antt =====
-- rider_store.go over the statements of db/query.sql on the tables of migrations/000012_riders.up.sql:
-- riders, their rides and the points behind a ride. A table is a dictionary from its primary key to
-- its rows. A store method is one transaction: `Fault` says which of its statements fail (the
-- overflow of an int4 counter is such a failure), and a failure rolls it back. `now` is NOW().
pub mod Columns
pub mod Written
pub mod Finds
pub mod Over
pub mod Store
pub mod Rows
pub mod Standing
pub mod Sound
pub mod Moves
pub mod Started
pub mod Filed
pub mod Frozen
pub mod Finishing
mod Examples
use vehicle_positions.Prelude.{
  ℕ, suc, ◌-◌, ◌%◌, ◌+◌, length, String, Bool, true, false, not, ◌&&◌, ◌||◌, Option, none, some,
  List, [], ◌∷◌, ◌++◌, map, keep, ltb, is_some, str_eq, if◌then◌else◌,
}
use vehicle_positions.Prelude.Int.{ℤ, pos, negsuc, ◌+ℤ◌, min_ℤ, max_ℤ}
use vehicle_positions.Prelude.Time.{Time, before}
use vehicle_positions.Prelude.Dict.{Dict, lookup, insert}
use vehicle_positions.Rider.Reputation.{tier_for, tier_string}

pub record Rider : Type 0 where
  pub id : String
  pub installation_id : String
  pub platform : String
  pub app_id : String
  pub app_version : String
  pub attested : Bool
  pub score : ℤ
  pub tier : String
  pub rides_total : ℕ
  pub rides_corroborated : ℕ
  pub rides_rejected : ℕ
  pub created_at : Time
  pub last_seen_at : Time

pub record RideProgress : Type 0 where
  pub state : String
  pub is_corroborated : Bool
  pub points_total : ℕ
  pub points_matched : ℕ
  pub points_corroborated : ℕ
  pub points_contradicted : ℕ

-- The counters of a row are int4.
pub record Ride : Type 0 where
  pub id : String
  pub rider_id : String
  pub trip_id : String
  pub start_date : String
  pub route_id : String
  pub vehicle_id : String
  pub boarding_stop_id : String
  pub destination_stop_id : String
  pub status : String
  pub state : String
  pub is_corroborated : Bool
  pub end_reason : String
  pub points_total : ℤ
  pub points_matched : ℤ
  pub points_corroborated : ℤ
  pub points_contradicted : ℤ
  pub started_at : Time
  pub ended_at : Option Time

pub record RidePointRecord (F : Type 0) : Type 0 where
  pub latitude : F
  pub longitude : F
  pub accuracy : Option F
  pub speed : Option F
  pub bearing : Option F
  pub timestamp : ℤ
  pub outcome : String
  pub corroboration : String
  pub along_shape : F
  pub distance_to_shape : F
  pub schedule_deviation_seconds : Option ℤ

pub record RideOutcome : Type 0 where
  pub end_reason : String
  pub progress : RideProgress
  pub score_delta : ℤ
  pub is_rejected : Bool
  pub is_corroborated : Bool

-- a row of ride_points
pub record PointRow (F : Type 0) : Type 0 where
  pub ride_id : String
  pub reading : RidePointRecord F
  pub received_at : Time

pub record Db (F : Type 0) : Type 0 where
  pub riders : Dict Rider
  pub rides : Dict Ride
  pub points : List (PointRow F)

pub data Stage : Type 0 where
  at_begin at_points at_progress at_touch at_end at_outcome at_tier at_commit : Stage

abbrev pub Fault : Type 0
Fault = Stage → Bool

-- What a method returns: an error of the database, ErrRiderNotFound, ErrRideNotFound,
-- ErrActiveRideExists, or its value.
pub data Reply (A : Type 0) : Type 0 where
  failed rider_not_found ride_not_found active_ride_exists : Reply A
  ok : A → Reply A

-- `int32(v)`, which keeps the low 32 bits
abbrev pub int32_of_bits : ℕ → ℤ
int32_of_bits m = if ltb m 2_147_483_648 then pos m else negsuc (4_294_967_295 - m)

abbrev pub flip_bits : ℤ → ℤ
flip_bits (pos n) = negsuc n
flip_bits (negsuc n) = pos n

unfoldable pub int32 : ℤ → ℤ
int32 (pos n) = int32_of_bits (n % 4_294_967_296)
int32 (negsuc n) = flip_bits (int32_of_bits (n % 4_294_967_296))

unfoldable pub optional_int4 : Option ℤ → Option ℤ
unfolding int32
optional_int4 none = none
optional_int4 (some v) = some (int32 v)

unfoldable pub bool_count : Bool → ℕ
bool_count v = if v then 1 else 0

abbrev pub is_active_row : Ride → Bool
is_active_row r = str_eq r.status "active"

-- `WHERE id = $1 AND status = 'active'`
abbrev pub active_only : Option Ride → Option Ride
active_only none = none
active_only (some r) = if is_active_row r then some r else none

unfoldable pub find_active : String → Dict Ride → Option Ride
find_active id rides = active_only (lookup id rides)

-- the first row that passes a test
unfoldable pub find_row : {V : Type 0} → (V → Bool) → Dict V → Option V
find_row p [] = none
find_row p ((k, v) ∷ m) = let rest = find_row p m in if p v then some v else rest

unfoldable pub map_rows : {V : Type 0} → (V → V) → Dict V → Dict V
map_rows f [] = []
map_rows f ((k, v) ∷ m) = (k, f v) ∷ map_rows f m

-- The columns that UpsertRider writes to the row of an installation that is known.
abbrev pub refreshed : Rider → String → String → String → Time → Rider
refreshed r platform app_id app_version now = record r {
  last_seen_at = now;
  app_version = app_version;
  platform = platform;
  app_id = app_id;
}

abbrev pub fresh_rider : String → String → String → String → String → Time → Rider
fresh_rider id installation platform app_id app_version now = record {
  id = id;
  installation_id = installation;
  platform = platform;
  app_id = app_id;
  app_version = app_version;
  attested = false;
  score = pos 0;
  tier = "new";
  rides_total = 0;
  rides_corroborated = 0;
  rides_rejected = 0;
  created_at = now;
  last_seen_at = now;
}

-- The ride as InsertRide stores it: the other columns get their defaults.
abbrev pub opened : Ride → Time → Ride
opened r now = record r {
  status = "active";
  state = "pending";
  is_corroborated = false;
  end_reason = "";
  points_total = pos 0;
  points_matched = pos 0;
  points_corroborated = pos 0;
  points_contradicted = pos 0;
  started_at = now;
  ended_at = none;
}

abbrev pub rides_now : String → Ride → Bool
rides_now rider_id r = is_active_row r && str_eq r.rider_id rider_id

abbrev pub with_progress : Ride → RideProgress → Ride
with_progress r p = record r {
  state = p.state;
  is_corroborated = p.is_corroborated;
  points_total = int32 (pos p.points_total);
  points_matched = int32 (pos p.points_matched);
  points_corroborated = int32 (pos p.points_corroborated);
  points_contradicted = int32 (pos p.points_contradicted);
}

-- TouchRider
abbrev pub touched : String → Time → Dict Rider → Dict Rider
touched id now riders = elim (lookup id riders) [
  | none ↦ riders
  | some r ↦ insert id (record r { last_seen_at = now }) riders
]

-- EndRide
abbrev pub closed : Ride → RideOutcome → Time → Ride
closed r outcome now = record (with_progress r outcome.progress) {
  status = "ended";
  ended_at = some now;
  end_reason = outcome.end_reason;
}

-- ApplyRideOutcome and SetRiderTier: LEAST and GREATEST of the statement are `min_ℤ` and `max_ℤ`
unfoldable pub rescored : Rider → RideOutcome → Time → Rider
unfolding int32 bool_count tier_for tier_string
rescored r outcome now =
    let score = min_ℤ (pos 10) (max_ℤ (negsuc 9) (r.score +ℤ int32 outcome.score_delta)) in
    record r {
      score = score;
      tier = tier_string (tier_for score);
      rides_total = r.rides_total + 1;
      rides_corroborated = r.rides_corroborated + bool_count outcome.is_corroborated;
      rides_rejected = r.rides_rejected + bool_count outcome.is_rejected;
      last_seen_at = now;
    }

abbrev pub swept : String → Time → Ride → Ride
swept reason now r =
    if is_active_row r
    then record r { status = "ended"; ended_at = some now; end_reason = reason }
    else r

unfoldable pub count_active_rides : Dict Ride → ℕ
count_active_rides [] = 0
count_active_rides ((k, r) ∷ m) =
    let n = count_active_rides m in if is_active_row r then suc n else n
