-- ===== src/Rides/Written/Finish.antt =====
-- rider_store.go: what FinishRide answers and writes.
use vehicle_positions.Prelude.{String, none, some, ◌≡◌, sym, ap, ◌∙◌, subst}
use vehicle_positions.Prelude.Time.{Time}
use vehicle_positions.Prelude.Dict.{lookup, insert, lookup-insert_self, lookup-insert_ne}
use vehicle_positions.Rides.{
  Rider, Ride, RideOutcome, Db, Fault, Reply, failed, rider_not_found, ride_not_found,
  active_ride_exists, ok, closed, rescored,
}
use vehicle_positions.Rides.Store.{finish_ride}
use vehicle_positions.Rides.Filed.{FinishedAs, finish_ride-FinishedAs}
use vehicle_positions.Rides.Columns.{IsEnded, IsScored, closed-IsEnded, rescored-IsScored}
use vehicle_positions.Rides.Written.{
  OthersKept, NotActive, IsActive, active_of_row, NotActive-of_none, IsActive-of_found,
}

module _ {F : Type 0} where
  -- what a ride that was filed left
  pub record AfterFinish (db : Db F) (id : String) (outcome : RideOutcome) (now : Time)
      (row : Rider) (db' : Db F) : Type 0 where
    pub ride : Ride
    pub over : Ride
    pub rider : Rider
    pub was : IsActive id db.rides ride
    pub stored : lookup id db'.rides ≡ some over
    pub ended : IsEnded outcome now ride over
    pub owner : lookup ride.rider_id db.riders ≡ some rider
    pub owner_stored : lookup ride.rider_id db'.riders ≡ some row
    pub scored : IsScored outcome now rider row
    pub other_rides : OthersKept id db.rides db'.rides
    pub other_riders : OthersKept ride.rider_id db.riders db'.riders
    pub points : db'.points ≡ db.points

  abbrev pub IsFinish : Db F → String → RideOutcome → Time → Db F × Reply Rider → Type 0
  IsFinish db id outcome now (db', ok row) = AfterFinish db id outcome now row db'
  IsFinish db id outcome now (db', ride_not_found) = (db' ≡ db) × NotActive id db.rides
  IsFinish db id outcome now (db', rider_not_found) =
      (db' ≡ db) × ((r : Ride) × IsActive id db.rides r × (lookup r.rider_id db.riders ≡ none))
  IsFinish db id outcome now (db', failed) = db' ≡ db
  IsFinish db id outcome now (db', active_ride_exists) = ⊥

  FinishedAs-IsFinish :
      (db : Db F) (id : String) (outcome : RideOutcome) (now : Time) (result : Db F × Reply Rider)
      → FinishedAs db id outcome now result
      → IsFinish db id outcome now result
  FinishedAs-IsFinish db id outcome now (db', ok row) f =
      let over = closed f.ride outcome now in
      let new_row = rescored f.rider outcome now in
      let rides : db'.rides ≡ insert id over db.rides = ap (λ (d : Db F). d.rides) f.stored in
      let riders : db'.riders ≡ insert f.ride.rider_id new_row db.riders =
        ap (λ (d : Db F). d.riders) f.stored in
      record {
        ride = f.ride;
        over = over;
        rider = f.rider;
        was = record { there = f.there; active = active_of_row f.ride f.was_active };
        stored = ap (lookup id) rides ∙ lookup-insert_self id over db.rides;
        ended = closed-IsEnded f.ride outcome now;
        owner = f.owned;
        owner_stored =
            ap (lookup f.ride.rider_id) riders
            ∙ lookup-insert_self f.ride.rider_id new_row db.riders
            ∙ ap some (sym f.scored);
        scored =
            subst (IsScored outcome now f.rider) (sym f.scored)
              (rescored-IsScored f.rider outcome now);
        other_rides =
            λ other ne. ap (lookup other) rides ∙ lookup-insert_ne id other over db.rides ne;
        other_riders = λ other ne.
            ap (lookup other) riders ∙ lookup-insert_ne f.ride.rider_id other new_row db.riders ne;
        points = ap (λ (d : Db F). d.points) f.stored;
      }
  FinishedAs-IsFinish db id outcome now (db', ride_not_found) (same, gone) =
      (same, NotActive-of_none id db.rides gone)
  FinishedAs-IsFinish db id outcome now (db', rider_not_found) (same, (r, live, nobody)) =
      (same, (r, IsActive-of_found id db.rides r live, nobody))
  FinishedAs-IsFinish db id outcome now (db', failed) same = same
  FinishedAs-IsFinish db id outcome now (db', active_ride_exists) f = elim f [ ]

  -- FinishRide succeeds only for a ride that is active and whose rider is on file. It then ends
  -- that row at NOW() with the outcome's reason, state and counters (where they fit an int4) and
  -- leaves what the ride was started with; it adds the change, where that fits an int4 too, to the
  -- rider's score and keeps the sum between -10 and 10, writes the tier of the new score (blocked
  -- from -3 down, trusted from 3 up), counts the ride, and as corroborated or rejected exactly if
  -- the outcome says so; it changes no other ride, rider or point. ErrRideNotFound means that no
  -- active ride has the id, ErrRiderNotFound that its rider is missing, and with any error the
  -- tables are as before, whichever statement failed.
  pub finish_ride-IsFinish :
      (db : Db F) (fault : Fault) (id : String) (outcome : RideOutcome) (now : Time)
      → IsFinish db id outcome now (finish_ride db fault id outcome now)
  finish_ride-IsFinish db fault id outcome now =
      FinishedAs-IsFinish db id outcome now (finish_ride db fault id outcome now)
        (finish_ride-FinishedAs db fault id outcome now)
