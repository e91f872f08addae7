-- ===== src/Rides/Filed.antt =====
-- rider_store.go: what RecordRidePoints and FinishRide do on each of their branches.
use vehicle_positions.Prelude.{
  String, true, not, ◌&&◌, ◌||◌, none, some, List, ◌++◌, map, ◌≡◌, refl, Option-cases, Bool-cases,
  inl, inr,
}
use vehicle_positions.Prelude.Time.{Time}
use vehicle_positions.Prelude.Dict.{lookup, insert}
use vehicle_positions.Rides.{
  Rider, Ride, RideProgress, RideOutcome, RidePointRecord, Db, Fault, Reply, failed,
  rider_not_found, ride_not_found, active_ride_exists, ok, at_begin, at_points, at_progress,
  at_touch, at_end, at_outcome, at_tier, at_commit, is_active_row, find_active, with_progress,
  touched, closed, rescored,
}
use vehicle_positions.Rides.Finds.{find_active_lem}
use vehicle_positions.Rides.Store.{
  record_ride_points, finish_ride, insert_ride_points, point_row, is_empty,
}

module _ {F : Type 0} where
  -- The row of a ride that is active, and of its rider.
  pub record Filing (db : Db F) (ride_id : String) (outcome : RideOutcome) (now : Time)
      (row : Rider) (db' : Db F) : Type 0 where
    pub ride : Ride
    pub rider : Rider
    pub there : lookup ride_id db.rides ≡ some ride
    pub was_active : is_active_row ride ≡ true
    pub owned : lookup ride.rider_id db.riders ≡ some rider
    pub scored : row ≡ rescored rider outcome now
    pub stored : db' ≡ record db {
      rides = insert ride_id (closed ride outcome now) db.rides;
      riders = insert ride.rider_id (rescored rider outcome now) db.riders;
    }

  -- What an answer of FinishRide says.
  abbrev pub FinishedAs : Db F → String → RideOutcome → Time → Db F × Reply Rider → Type 0
  FinishedAs db id outcome now (db', ok row) = Filing db id outcome now row db'
  FinishedAs db id outcome now (db', ride_not_found) = (db' ≡ db) × (find_active id db.rides ≡ none)
  FinishedAs db id outcome now (db', rider_not_found) =
      (db' ≡ db)
      × ((ride : Ride) × (find_active id db.rides ≡ some ride)
          × (lookup ride.rider_id db.riders ≡ none))
  FinishedAs db id outcome now (db', failed) = db' ≡ db
  FinishedAs db id outcome now (db', active_ride_exists) = ⊥

  -- FinishRide succeeds only for a ride that is active and whose rider is on file: it ends that row
  -- with the outcome's reason and counters, adds the clamped score, the tier of the new score and the
  -- counters to that rider, and changes nothing else. ErrRideNotFound means that no active ride has
  -- the id, ErrRiderNotFound that its rider is missing, and with any error the tables are as before,
  -- whichever statement failed.
  pub finish_ride-FinishedAs :
      (db : Db F) (fault : Fault) (id : String) (outcome : RideOutcome) (now : Time)
      → FinishedAs db id outcome now (finish_ride db fault id outcome now)
  unfolding finish_ride
  finish_ride-FinishedAs db fault id outcome now =
      elim (Bool-cases (fault at_begin || fault at_end)) [
        | inl broken ↦ rw broken refl
        | inr fine ↦ elim (Option-cases (find_active id db.rides)) [
          | inl gone ↦ rw (fine, gone) (refl, gone)
          | inr (ride, live) ↦ elim (Bool-cases (fault at_outcome)) [
            | inl broken ↦ rw (fine, live, broken) refl
            | inr well ↦ elim (Option-cases (lookup ride.rider_id db.riders)) [
              | inl nobody ↦ rw (fine, live, well, nobody) (refl, (ride, live, nobody))
              | inr (rider, owned) ↦ elim (Bool-cases (fault at_tier || fault at_commit)) [
                | inl lost ↦ rw (fine, live, well, owned, lost) refl
                | inr done ↦
                    let (there, was_active) = find_active_lem id db.rides ride live in
                    rw (fine, live, well, owned, done)
                      (record {
                        ride = ride;
                        rider = rider;
                        there = there;
                        was_active = was_active;
                        owned = owned;
                        scored = refl;
                        stored = refl;
                      })
              ]
            ]
          ]
        ]
      ]

  -- What an answer of RecordRidePoints says.
  abbrev pub RecordedAs :
      Db F
      → String
      → String
      → List (RidePointRecord F)
      → RideProgress
      → Time
      → Db F × Reply Unit
      → Type 0
  RecordedAs db id rider points progress now (db', ok done) =
      (ride : Ride) × (lookup id db.rides ≡ some ride)
      × (is_active_row ride ≡ true)
      × (db' ≡ record db {
        rides = insert id (with_progress ride progress) db.rides;
        riders = touched rider now db.riders;
        points = db.points ++ map (point_row id now) points;
      })
  RecordedAs db id rider points progress now (db', ride_not_found) =
      (db' ≡ db) × (find_active id db.rides ≡ none)
  RecordedAs db id rider points progress now (db', failed) = db' ≡ db
  RecordedAs db id rider points progress now (db', rider_not_found) = ⊥
  RecordedAs db id rider points progress now (db', active_ride_exists) = ⊥

  insert_ride_points-active :
      (db : Db F) (id : String) (points : List (RidePointRecord F)) (now : Time) (ride : Ride)
      → find_active id db.rides ≡ some ride
      → insert_ride_points db id points now ≡ db.points ++ map (point_row id now) points
  unfolding insert_ride_points
  insert_ride_points-active db id points now ride live = rw live refl

  -- RecordRidePoints succeeds only for an active ride: it appends every point of the batch to it,
  -- writes the absolute counters and touches the rider. ErrRideNotFound means that no active ride has
  -- the id, and with any error no point, counter or rider has changed, whichever statement failed.
  pub record_ride_points-RecordedAs :
      (db : Db F) (fault : Fault) (id rider : String) (points : List (RidePointRecord F))
      (progress : RideProgress) (now : Time)
      → RecordedAs db id rider points progress now
          (record_ride_points db fault id rider points progress now)
  unfolding record_ride_points
  record_ride_points-RecordedAs db fault id rider points progress now =
      elim (Bool-cases
        (fault at_begin || (not (is_empty points) && fault at_points) || fault at_progress)) [
          | inl broken ↦ rw broken refl
          | inr fine ↦ elim (Option-cases (find_active id db.rides)) [
            | inl gone ↦ rw (fine, gone) (refl, gone)
            | inr (ride, live) ↦ elim (Bool-cases (fault at_touch || fault at_commit)) [
              | inl lost ↦ rw (fine, live, lost) refl
              | inr done ↦
                  let (there, was_active) = find_active_lem id db.rides ride live in
                  rw (fine, live, done)
                    (
                      ride,
                      there,
                      was_active,
                      rw (insert_ride_points-active db id points now ride live) refl,
                    )
            ]
          ]
        ]
