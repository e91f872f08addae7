-- ===== src/Rides/Written.antt =====
-- rider_store.go: which rows an answer of the store is about.
pub mod Finish
pub mod Record
pub mod Start
use vehicle_positions.Prelude.{
  String, Bool, true, false, ◌&&◌, none, some, List, map, ◌++◌, ◌≡◌, ◌≢◌, refl, sym, ap, ◌∙◌, arith,
  is_some, str_eq, eq_iff, subst, Option-cases, inl, inr,
}
use vehicle_positions.Prelude.Time.{Time}
use vehicle_positions.Prelude.Dict.{
  Dict, IsDict, lookup, insert, lookup-insert, lookup-insert_self, lookup-insert_ne,
}
use vehicle_positions.Rides.{
  Rider, Ride, RideProgress, RideOutcome, RidePointRecord, PointRow, Db, Fault, Reply, failed,
  rider_not_found, ride_not_found, active_ride_exists, ok, is_active_row, find_active, find_row,
  rides_now, with_progress, touched, closed, opened, rescored,
}
use vehicle_positions.Rides.Finds.{find_row-none, find_row-some, find_active_lem}
use vehicle_positions.Rides.Store.{start_ride, record_ride_points, finish_ride, point_row}
use vehicle_positions.Rides.Started.{StartedAs, start_ride-StartedAs}
use vehicle_positions.Rides.Filed.{
  FinishedAs, finish_ride-FinishedAs, RecordedAs, record_ride_points-RecordedAs,
}
use vehicle_positions.Rides.Columns.{
  SameBooking, IsFresh, IsEnded, GoesOn, IsScored, AreRowsOf, opened-IsFresh, closed-IsEnded,
  with_progress-GoesOn, rescored-IsScored, map_point_row-AreRowsOf,
}

-- Every row but one is as it was.
abbrev pub OthersKept : {V : Type 0} → String → Dict V → Dict V → Type 0
OthersKept id m m' = (other : String) → str_eq id other ≡ false → lookup other m' ≡ lookup other m

abbrev pub NotActive : String → Dict Ride → Type 0
NotActive id rides = (r : Ride) → lookup id rides ≡ some r → r.status ≢ "active"

-- a ride that is active
pub record IsActive (id : String) (rides : Dict Ride) (r : Ride) : Type 0 where
  pub there : lookup id rides ≡ some r
  pub active : r.status ≡ "active"

pub active_of_row : (r : Ride) → is_active_row r ≡ true → r.status ≡ "active"
active_of_row r h = (eq_iff r.status "active").0 h

pub NotActive-of_none :
    (id : String) (rides : Dict Ride) → find_active id rides ≡ none → NotActive id rides
unfolding find_active
NotActive-of_none id rides e r there live = ground (arith, eq_iff r.status "active")

pub IsActive-of_found :
    (id : String) (rides : Dict Ride) (r : Ride)
    → find_active id rides ≡ some r
    → IsActive id rides r
IsActive-of_found id rides r e =
    let (there, live) = find_active_lem id rides r e in
    record { there = there; active = active_of_row r live }
