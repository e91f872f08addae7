-- ===== src/Rides/Written/Record.antt =====
-- rider_store.go: what RecordRidePoints answers and writes.
use vehicle_positions.Prelude.{
  String, none, some, List, map, ◌++◌, ◌≡◌, refl, sym, ap, ◌∙◌, subst, Option-cases, inl, inr,
}
use vehicle_positions.Prelude.Time.{Time}
use vehicle_positions.Prelude.Dict.{Dict, lookup, insert, lookup-insert_self, lookup-insert_ne}
use vehicle_positions.Rides.{
  Rider, Ride, RideProgress, RidePointRecord, PointRow, Db, Fault, Reply, failed, rider_not_found,
  ride_not_found, active_ride_exists, ok, with_progress, touched,
}
use vehicle_positions.Rides.Store.{record_ride_points, point_row}
use vehicle_positions.Rides.Filed.{RecordedAs, record_ride_points-RecordedAs}
use vehicle_positions.Rides.Columns.{
  GoesOn, AreRowsOf, with_progress-GoesOn, map_point_row-AreRowsOf,
}
use vehicle_positions.Rides.Written.{
  OthersKept, NotActive, IsActive, active_of_row, NotActive-of_none,
}

-- A rider is touched: seen now, and otherwise as before.
abbrev pub IsTouched : String → Time → Dict Rider → Dict Rider → Type 0
IsTouched id now riders riders' =
    OthersKept id riders riders'
    × (lookup id riders ≡ none → lookup id riders' ≡ none)
    × ((r : Rider)
        → lookup id riders ≡ some r
        → lookup id riders' ≡ some (record r { last_seen_at = now }))

touched-IsTouched :
    (id : String) (now : Time) (riders : Dict Rider)
    → IsTouched id now riders (touched id now riders)
touched-IsTouched id now riders = elim (Option-cases (lookup id riders)) [
  | inl nobody ↦ rw (nobody, touched) (λ other ne. refl, λ e. nobody, λ r e. cc e)
  | inr (s, there) ↦
      let row : Rider = record s { last_seen_at = now } in
      rw (there, touched)
        (
          λ other ne. lookup-insert_ne id other row riders ne,
          λ e. cc e,
          λ r e.
              let same : s ≡ r = cc e in
              lookup-insert_self id row riders
              ∙ ap (λ (x : Rider). some (record x { last_seen_at = now })) same,
        )
]

module _ {F : Type 0} where
  -- what a batch that was stored left
  pub record AfterRecord (db : Db F) (id rider : String) (points : List (RidePointRecord F))
      (progress : RideProgress) (now : Time) (db' : Db F) : Type 0 where
    pub ride : Ride
    pub on : Ride
    pub was : IsActive id db.rides ride
    pub stored : lookup id db'.rides ≡ some on
    pub goes_on : GoesOn progress ride on
    pub other_rides : OthersKept id db.rides db'.rides
    pub touch : IsTouched rider now db.riders db'.riders
    pub added : List (PointRow F)
    pub appended : db'.points ≡ db.points ++ added
    pub rows : AreRowsOf id now points added

  abbrev pub IsRecord :
      Db F
      → String
      → String
      → List (RidePointRecord F)
      → RideProgress
      → Time
      → Db F × Reply Unit
      → Type 0
  IsRecord db id rider points progress now (db', ok done) =
      AfterRecord db id rider points progress now db'
  IsRecord db id rider points progress now (db', ride_not_found) =
      (db' ≡ db) × NotActive id db.rides
  IsRecord db id rider points progress now (db', failed) = db' ≡ db
  IsRecord db id rider points progress now (db', rider_not_found) = ⊥
  IsRecord db id rider points progress now (db', active_ride_exists) = ⊥

  RecordedAs-IsRecord :
      (db : Db F) (id rider : String) (points : List (RidePointRecord F)) (progress : RideProgress)
      (now : Time) (result : Db F × Reply Unit)
      → RecordedAs db id rider points progress now result
      → IsRecord db id rider points progress now result
  RecordedAs-IsRecord db id rider points progress now (db', ok done) (ride, there, live, e) =
      let on = with_progress ride progress in
      let rides : db'.rides ≡ insert id on db.rides = ap (λ (d : Db F). d.rides) e in
      let riders : db'.riders ≡ touched rider now db.riders = ap (λ (d : Db F). d.riders) e in
      record {
        ride = ride;
        on = on;
        was = record { there = there; active = active_of_row ride live };
        stored = ap (lookup id) rides ∙ lookup-insert_self id on db.rides;
        goes_on = with_progress-GoesOn ride progress (active_of_row ride live);
        other_rides =
            λ other ne. ap (lookup other) rides ∙ lookup-insert_ne id other on db.rides ne;
        touch =
            subst (IsTouched rider now db.riders) (sym riders)
              (touched-IsTouched rider now db.riders);
        added = map (point_row id now) points;
        appended = ap (λ (d : Db F). d.points) e;
        rows = map_point_row-AreRowsOf id now points;
      }
  RecordedAs-IsRecord db id rider points progress now (db', ride_not_found) (same, gone) =
      (same, NotActive-of_none id db.rides gone)
  RecordedAs-IsRecord db id rider points progress now (db', failed) same = same
  RecordedAs-IsRecord db id rider points progress now (db', rider_not_found) f = elim f [ ]
  RecordedAs-IsRecord db id rider points progress now (db', active_ride_exists) f = elim f [ ]

  -- RecordRidePoints succeeds only for an active ride. It then appends a row for every point of the
  -- batch, in order, as it was reported (its deviation where that fits an int4); the ride goes on, with the state and the counters of the
  -- progress in place of what it had (where they fit an int4); the rider, if on file, is seen at
  -- NOW() and otherwise unchanged; no other ride or rider changes. ErrRideNotFound means that no
  -- active ride has the id, and with any error the tables are as before, whichever statement failed.
  pub record_ride_points-IsRecord :
      (db : Db F) (fault : Fault) (id rider : String) (points : List (RidePointRecord F))
      (progress : RideProgress) (now : Time)
      → IsRecord db id rider points progress now
          (record_ride_points db fault id rider points progress now)
  record_ride_points-IsRecord db fault id rider points progress now =
      RecordedAs-IsRecord db id rider points progress now
        (record_ride_points db fault id rider points progress now)
        (record_ride_points-RecordedAs db fault id rider points progress now)
