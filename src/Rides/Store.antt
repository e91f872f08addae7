-- ===== src/Rides/Store.antt =====
-- rider_store.go: the methods of the store, each one transaction on the tables.
use vehicle_positions.Prelude.{
  ℕ, ◌-◌, length, String, Bool, true, false, not, ◌&&◌, ◌||◌, Option, none, some, List, [], ◌∷◌,
  ◌++◌, map, keep, is_some, str_eq, if◌then◌else◌,
}
use vehicle_positions.Prelude.Time.{Time, before}
use vehicle_positions.Prelude.Dict.{lookup, insert}
use vehicle_positions.Rides.{
  Rider, Ride, RideProgress, RideOutcome, RidePointRecord, PointRow, Db, Fault, Reply, failed,
  rider_not_found, ride_not_found, active_ride_exists, ok, at_begin, at_points, at_progress,
  at_touch, at_end, at_outcome, at_tier, at_commit, int32, optional_int4, find_active, find_row,
  map_rows, refreshed, fresh_rider, opened, rides_now, with_progress, touched, closed, rescored,
  swept, count_active_rides,
}

-- GetRider
unfoldable pub get_rider : {F : Type 0} → Db F → Bool → String → Reply Rider
get_rider db broken id =
    if broken then failed else elim (lookup id db.riders) [ none ↦ rider_not_found | some r ↦ ok r ]

module _ {F : Type 0} where
  abbrev with_installation :
      Db F
      → String
      → String
      → String
      → String
      → String
      → Time
      → Option Rider
      → Db F × Reply (Rider × Bool)
  with_installation db id installation platform app_id app_version now none =
      let row = fresh_rider id installation platform app_id app_version now in
      if is_some (lookup id db.riders)
      then (db, failed)
      else (record db { riders = insert id row db.riders }, ok (row, true))
  with_installation db id installation platform app_id app_version now (some r) =
      let row = refreshed r platform app_id app_version now in
      (record db { riders = insert r.id row db.riders }, ok (row, false))

  -- `id` is uuid.NewString(). The checks of the table come first, then the installation that is
  -- there already, then the primary key.
  unfoldable pub register_rider :
      Db F → Bool → String → String → String → String → String → Time → Db F × Reply (Rider × Bool)
  unfolding find_row
  register_rider db broken id installation platform app_id app_version now =
      let known = find_row (λ r. str_eq r.installation_id installation) db.riders in
      if broken || str_eq id "" || str_eq installation ""
      then (db, failed)
      else with_installation db id installation platform app_id app_version now known

  -- The primary key is tested before idx_rides_one_active_per_rider, the foreign key last.
  unfoldable pub start_ride : Db F → Bool → Ride → Time → Db F × Reply Ride
  unfolding find_row
  start_ride db broken ride now =
      let row = opened ride now in
      if broken || str_eq ride.id "" || is_some (lookup ride.id db.rides)
      then (db, failed)
      else if is_some (find_row (rides_now ride.rider_id) db.rides)
      then (db, active_ride_exists)
      else if not (is_some (lookup ride.rider_id db.riders))
      then (db, failed)
      else (record db { rides = insert ride.id row db.rides }, ok row)

  abbrev pub point_row : String → Time → RidePointRecord F → PointRow F
  point_row ride_id now p = record {
    ride_id = ride_id;
    reading = record p { schedule_deviation_seconds = optional_int4 p.schedule_deviation_seconds };
    received_at = now;
  }

  -- InsertRidePoint for a whole batch, with its EXISTS guard
  unfoldable pub insert_ride_points :
      Db F → String → List (RidePointRecord F) → Time → List (PointRow F)
  unfolding find_active optional_int4
  insert_ride_points db ride_id points now =
      if is_some (find_active ride_id db.rides)
      then db.points ++ map (point_row ride_id now) points
      else db.points

  abbrev pub is_empty : List (RidePointRecord F) → Bool
  is_empty [] = true
  is_empty (_ ∷ _) = false

  unfoldable pub record_ride_points :
      Db F
      → Fault
      → String
      → String
      → List (RidePointRecord F)
      → RideProgress
      → Time
      → Db F × Reply Unit
  unfolding insert_ride_points find_active int32
  record_ride_points db fault ride_id rider_id points progress now =
      if fault at_begin || (not (is_empty points) && fault at_points) || fault at_progress
      then (db, failed)
      else elim (find_active ride_id db.rides) [
        | none ↦ (db, ride_not_found)
        | some r ↦
            let next = record db {
              rides = insert ride_id (with_progress r progress) db.rides;
              riders = touched rider_id now db.riders;
              points = insert_ride_points db ride_id points now;
            } in
            if fault at_touch || fault at_commit then (db, failed) else (next, ok tt)
      ]

  abbrev pub score_outcome :
      Db F → Fault → Ride → String → RideOutcome → Time → Option Rider → Db F × Reply Rider
  score_outcome db fault ride ride_id outcome now none = (db, rider_not_found)
  score_outcome db fault ride ride_id outcome now (some r) =
      let row = rescored r outcome now in
      let next = record db {
        rides = insert ride_id (closed ride outcome now) db.rides;
        riders = insert ride.rider_id row db.riders;
      } in
      if fault at_tier || fault at_commit then (db, failed) else (next, ok row)

  unfoldable pub finish_ride : Db F → Fault → String → RideOutcome → Time → Db F × Reply Rider
  unfolding find_active rescored int32
  finish_ride db fault ride_id outcome now =
      if fault at_begin || fault at_end then (db, failed) else elim (find_active ride_id db.rides) [
        | none ↦ (db, ride_not_found)
        | some ride ↦
            if fault at_outcome
            then (db, failed)
            else score_outcome db fault ride ride_id outcome now (lookup ride.rider_id db.riders)
      ]

  unfoldable pub end_all_active_rides : Db F → Bool → String → Time → Db F × Reply ℕ
  unfolding map_rows count_active_rides
  end_all_active_rides db broken reason now = if broken then (db, failed) else (
    record db { rides = map_rows (swept reason now) db.rides },
    ok (count_active_rides db.rides),
  )

  unfoldable pub delete_ride_points_before : Db F → Bool → Time → Db F × Reply ℕ
  unfolding keep
  delete_ride_points_before db broken cutoff =
      let kept = keep (λ p. not (before p.received_at cutoff)) db.points in
      if broken
      then (db, failed)
      else (record db { points = kept }, ok (length db.points - length kept))
