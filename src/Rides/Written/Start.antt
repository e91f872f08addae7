-- ===== src/Rides/Written/Start.antt =====
-- rider_store.go: what StartRide answers and writes.
use vehicle_positions.Prelude.{
  String, Bool, true, none, some, ◌≡◌, ◌≢◌, sym, ap, ◌∙◌, arith, is_some, eq_iff, subst,
}
use vehicle_positions.Prelude.Time.{Time}
use vehicle_positions.Prelude.Dict.{IsDict, lookup, insert, lookup-insert_self, lookup-insert_ne}
use vehicle_positions.Rides.{
  Ride, Db, Reply, failed, rider_not_found, ride_not_found, active_ride_exists, ok, rides_now,
  opened,
}
use vehicle_positions.Rides.Finds.{find_row-none, find_row-some}
use vehicle_positions.Rides.Store.{start_ride}
use vehicle_positions.Rides.Started.{StartedAs, start_ride-StartedAs}
use vehicle_positions.Rides.Columns.{SameBooking, IsFresh, opened-IsFresh}
use vehicle_positions.Rides.Written.{OthersKept, IsActive}

module _ {F : Type 0} where
  -- what a ride that was started left
  pub record AfterStart (db : Db F) (ride : Ride) (now : Time) (row : Ride) (db' : Db F)
      : Type 0 where
    pub new_id : lookup ride.id db.rides ≡ none
    pub free :
        (k : String)
        → (r : Ride) → lookup k db.rides ≡ some r
        → r.rider_id ≡ ride.rider_id
        → r.status ≢ "active"
    pub known : is_some (lookup ride.rider_id db.riders) ≡ true
    pub stored : lookup ride.id db'.rides ≡ some row
    pub booking : SameBooking ride row
    pub fresh : IsFresh now row
    pub other_rides : OthersKept ride.id db.rides db'.rides
    pub riders : db'.riders ≡ db.riders
    pub points : db'.points ≡ db.points

  abbrev pub IsStart : Db F → Ride → Time → Db F × Reply Ride → Type 0
  IsStart db ride now (db', ok row) = AfterStart db ride now row db'
  IsStart db ride now (db', active_ride_exists) =
      (db' ≡ db)
      × ((k : String) × (r : Ride) × IsActive k db.rides r × (r.rider_id ≡ ride.rider_id))
  IsStart db ride now (db', failed) = db' ≡ db
  IsStart db ride now (db', rider_not_found) = ⊥
  IsStart db ride now (db', ride_not_found) = ⊥

  StartedAs-IsStart :
      (db : Db F) (ride : Ride) (now : Time) (result : Db F × Reply Ride)
      → IsDict db.rides
      → StartedAs db ride now result
      → IsStart db ride now result
  StartedAs-IsStart db ride now (db', ok row) keyed f =
      let new_row = opened ride now in
      let (booking, fresh) = opened-IsFresh ride now in
      let rides : db'.rides ≡ insert ride.id new_row db.rides =
        ap (λ (d : Db F). d.rides) f.stored in
      record {
        new_id = f.fresh;
        free = λ k r there own live.
            let idle = find_row-none (rides_now ride.rider_id) db.rides k r f.free there in
            ground (arith, eq_iff r.status "active", eq_iff r.rider_id ride.rider_id);
        known = f.known;
        stored =
            ap (lookup ride.id) rides
            ∙ lookup-insert_self ride.id new_row db.rides
            ∙ ap some (sym f.row_of);
        booking = subst (SameBooking ride) (sym f.row_of) booking;
        fresh = subst (IsFresh now) (sym f.row_of) fresh;
        other_rides = λ other ne.
            ap (lookup other) rides ∙ lookup-insert_ne ride.id other new_row db.rides ne;
        riders = ap (λ (d : Db F). d.riders) f.stored;
        points = ap (λ (d : Db F). d.points) f.stored;
      }
  StartedAs-IsStart db ride now (db', active_ride_exists) keyed (same, (s, found)) =
      let (k, there, now_on) = find_row-some (rides_now ride.rider_id) db.rides s keyed found in
      (
        same,
        (
          k,
          s,
          record { there = there; active = ground (arith, eq_iff s.status "active") },
          ground (arith, eq_iff s.rider_id ride.rider_id),
        ),
      )
  StartedAs-IsStart db ride now (db', failed) keyed same = same
  StartedAs-IsStart db ride now (db', rider_not_found) keyed f = elim f [ ]
  StartedAs-IsStart db ride now (db', ride_not_found) keyed f = elim f [ ]

  -- On a table of rides with one row for an id, StartRide succeeds only for an id that is not taken
  -- and a rider that is on file and has no active ride. It then adds the ride as it was booked,
  -- active and pending, started at NOW(), not ended and with nothing counted, which is the row that
  -- it returns, and changes nothing else. ErrActiveRideExists means that the rider has an active
  -- ride, and with any error the tables are as before.
  pub start_ride-IsStart :
      (db : Db F) (broken : Bool) (ride : Ride) (now : Time)
      → IsDict db.rides
      → IsStart db ride now (start_ride db broken ride now)
  start_ride-IsStart db broken ride now keyed =
      StartedAs-IsStart db ride now (start_ride db broken ride now) keyed
        (start_ride-StartedAs db broken ride now)
