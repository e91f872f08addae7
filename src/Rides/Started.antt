-- ===== src/Rides/Started.antt =====
-- rider_store.go: what StartRide does on each of its branches.
use vehicle_positions.Prelude.{
  String, Bool, true, false, ◌||◌, none, some, ◌≡◌, refl, arith, is_some, str_eq, Option-cases,
  Bool-cases, inl, inr,
}
use vehicle_positions.Prelude.Time.{Time}
use vehicle_positions.Prelude.Dict.{lookup, insert}
use vehicle_positions.Rides.{
  Ride, Db, Reply, failed, rider_not_found, ride_not_found, active_ride_exists, ok, find_row,
  opened, rides_now,
}
use vehicle_positions.Rides.Store.{start_ride}

module _ {F : Type 0} where
  -- What was the case when a ride was stored.
  pub record Opening (db : Db F) (ride row : Ride) (now : Time) (db' : Db F) : Type 0 where
    pub fresh : lookup ride.id db.rides ≡ none
    pub free : find_row (rides_now ride.rider_id) db.rides ≡ none
    pub known : is_some (lookup ride.rider_id db.riders) ≡ true
    pub row_of : row ≡ opened ride now
    pub stored : db' ≡ record db { rides = insert ride.id (opened ride now) db.rides }

  abbrev pub StartedAs : Db F → Ride → Time → Db F × Reply Ride → Type 0
  StartedAs db ride now (db', ok row) = Opening db ride row now db'
  StartedAs db ride now (db', active_ride_exists) =
      (db' ≡ db) × ((s : Ride) × (find_row (rides_now ride.rider_id) db.rides ≡ some s))
  StartedAs db ride now (db', failed) = db' ≡ db
  StartedAs db ride now (db', rider_not_found) = ⊥
  StartedAs db ride now (db', ride_not_found) = ⊥

  free_is_none :
      (db : Db F) (id : String) → is_some (lookup id db.rides) ≡ false → lookup id db.rides ≡ none
  free_is_none db id e = elim (Option-cases (lookup id db.rides)) [
    | inl gone ↦ gone
    | inr (r, there) ↦ ground arith
  ]

  -- StartRide succeeds only for an id that is not taken and a rider that is on file and has no active
  -- ride: it adds the ride, active and pending, with nothing counted, and changes nothing else.
  -- ErrActiveRideExists means that the rider has an active ride, and with any error the tables are as
  -- before.
  pub start_ride-StartedAs :
      (db : Db F) (broken : Bool) (ride : Ride) (now : Time)
      → StartedAs db ride now (start_ride db broken ride now)
  unfolding start_ride
  start_ride-StartedAs db broken ride now = elim (Bool-cases (broken || str_eq ride.id "")) [
    | inl refused ↦ rw refused refl
    | inr fine ↦ elim (Bool-cases (is_some (lookup ride.id db.rides))) [
      | inl taken ↦ rw (fine, taken) refl
      | inr fresh ↦ elim (Option-cases (find_row (rides_now ride.rider_id) db.rides)) [
        | inr (s, riding) ↦ rw (fine, fresh, riding) (refl, (s, riding))
        | inl free ↦ elim (Bool-cases (is_some (lookup ride.rider_id db.riders))) [
          | inr nobody ↦ rw (fine, fresh, free, nobody) refl
          | inl known ↦
              rw (fine, fresh, free, known)
                (record {
                  fresh = free_is_none db ride.id fresh;
                  free = free;
                  known = known;
                  row_of = refl;
                  stored = refl;
                })
        ]
      ]
    ]
  ]

  pub Opening-started :
      (db : Db F) (ride row : Ride) (now : Time) (result : Db F × Reply Ride)
      → StartedAs db ride now result
      → result.1 ≡ ok row
      → Opening db ride row now result.0
  Opening-started db ride row now (db', ok other) f e = record {
    fresh = f.fresh;
    free = f.free;
    known = f.known;
    row_of = cc (e, f.row_of);
    stored = f.stored;
  }
  Opening-started db ride row now (db', active_ride_exists) f e = cc e
  Opening-started db ride row now (db', failed) f e = cc e
  Opening-started db ride row now (db', rider_not_found) f e = cc e
  Opening-started db ride row now (db', ride_not_found) f e = cc e
