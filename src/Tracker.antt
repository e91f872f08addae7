-- ===== src/Tracker.antt =====
-- tracker.go: the latest position of every vehicle. Each method holds the tracker's lock throughout;
-- `now` is `time.Now()` inside it. The set `seen` is a list of the ids in it.
pub mod Status
pub mod Feed
pub mod Trip
mod Examples
use vehicle_positions.Prelude.{
  ℕ, suc, String, Bool, true, false, not, ◌&&◌, ◌||◌, Option, none, some, List, [], ◌∷◌, length,
  keep, any, ltb, str_eq, if◌then◌else◌,
}
use vehicle_positions.Prelude.Int.{ℤ, pos, ltb_ℤ, leb_ℤ, pos_part}
use vehicle_positions.Prelude.Time.{Time, time_back, after, before, is_zero}
use vehicle_positions.Prelude.Dict.{Dict, insert, values, keep_values}

pub record LocationReport (F : Type 0) : Type 0 where
  pub vehicle_id : String
  pub trip_id : String
  pub route_id : String
  pub start_date : String
  pub latitude : F
  pub longitude : F
  pub bearing : Option F
  pub speed : Option F
  pub accuracy : Option F
  pub timestamp : ℤ
  pub driver_id : String

pub record VehicleState (F : Type 0) : Type 0 where
  pub vehicle_id : String
  pub trip_id : String
  pub route_id : String
  pub start_date : String
  pub latitude : F
  pub longitude : F
  pub bearing : Option F
  pub speed : Option F
  pub accuracy : Option F
  pub timestamp : ℤ
  pub updated_at : Time

-- `maxAge` is positive, so it is a natural number here.
pub record Tracker (F : Type 0) : Type 0 where
  pub vehicles : Dict (VehicleState F)
  pub seen : List String
  pub max_age : ℕ

pub record TrackerStatus : Type 0 where
  pub active_vehicle_count : ℕ
  pub total_vehicles_tracked : ℕ
  pub last_update : Option Time

-- `t.seen[id] = struct{}{}`
abbrev pub add_seen : String → List String → List String
add_seen id seen = if any (λ s. str_eq s id) seen then seen else id ∷ seen

module _ {F : Type 0} where
  -- `none` is the panic on an age that is not positive
  unfoldable pub new_tracker : ℤ → Option (Tracker F)
  new_tracker max_age =
      if leb_ℤ max_age (pos 0)
      then none
      else some (record { vehicles = []; seen = []; max_age = pos_part max_age })

  unfoldable pub state_of : LocationReport F → Time → VehicleState F
  state_of loc now = record {
    vehicle_id = loc.vehicle_id;
    trip_id = loc.trip_id;
    route_id = loc.route_id;
    start_date = loc.start_date;
    latitude = loc.latitude;
    longitude = loc.longitude;
    bearing = loc.bearing;
    speed = loc.speed;
    accuracy = loc.accuracy;
    timestamp = loc.timestamp;
    updated_at = now;
  }

  unfoldable pub update : Tracker F → LocationReport F → Time → Tracker F
  unfolding state_of any
  update t loc now = record t {
    vehicles = insert loc.vehicle_id (state_of loc now) t.vehicles;
    seen = add_seen loc.vehicle_id t.seen;
  }

  -- `v.UpdatedAt.After(cutoff)`
  abbrev pub is_active : Tracker F → Time → VehicleState F → Bool
  is_active t now v = after v.updated_at (time_back now t.max_age)

  unfoldable pub active_vehicles : Tracker F → Time → List (VehicleState F)
  active_vehicles t now = keep (is_active t now) (values t.vehicles)

  -- one round of the loop of `VehicleOnTrip`
  abbrev pub fresher : VehicleState F → Option (VehicleState F) → Option (VehicleState F)
  fresher v none = some v
  fresher v (some found) = if ltb_ℤ found.timestamp v.timestamp then some v else some found

  unfoldable pub freshest_from :
      Tracker F
      → String
      → Time
      → Option (VehicleState F)
      → List (VehicleState F)
      → Option (VehicleState F)
  freshest_from t trip_id now found [] = found
  freshest_from t trip_id now found (v ∷ rest) =
      freshest_from t trip_id now
        (if not (str_eq v.trip_id trip_id) || not (is_active t now v)
          then found
          else fresher v found)
        rest

  unfoldable pub vehicle_on_trip : Tracker F → String → Time → Option (VehicleState F)
  unfolding freshest_from
  vehicle_on_trip t trip_id now =
      let found = freshest_from t trip_id now none (values t.vehicles) in
      if str_eq trip_id "" then none else found

  unfoldable pub count_active : Tracker F → Time → List (VehicleState F) → ℕ
  count_active t now [] = 0
  count_active t now (v ∷ rest) =
      let n = count_active t now rest in if is_active t now v then suc n else n

  unfoldable pub latest_update : Time → List (VehicleState F) → Time
  latest_update latest [] = latest
  latest_update latest (v ∷ rest) =
      latest_update (if after v.updated_at latest then v.updated_at else latest) rest

  unfoldable pub status : Tracker F → Time → TrackerStatus
  unfolding count_active latest_update
  status t now =
      let latest = latest_update 0 (values t.vehicles) in
      record {
        active_vehicle_count = count_active t now (values t.vehicles);
        total_vehicles_tracked = length t.seen;
        last_update = if is_zero latest then none else some latest;
      }

  unfoldable pub cleanup : Tracker F → Time → Tracker F
  cleanup t now = record t {
    vehicles = keep_values (λ v. not (before v.updated_at (time_back now t.max_age))) t.vehicles;
  }
