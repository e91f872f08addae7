-- ===== src/Rides/Sound.antt =====
-- rider_store.go: what holds of the tables of riders and rides after any transactions.
use vehicle_positions.Prelude.{
  String, Bool, true, false, ◌||◌, some, List, ◌≡◌, refl, sym, arith, is_some, str_eq, eq_refl,
  Option-cases, Bool-cases, inl, inr, subst,
}
use vehicle_positions.Prelude.Time.{Time}
use vehicle_positions.Prelude.Dict.{lookup, insert}
use vehicle_positions.Rides.{
  Rider, Ride, RideProgress, RideOutcome, RidePointRecord, Db, Reply, failed, rider_not_found,
  ride_not_found, active_ride_exists, ok, find_row, with_progress, closed, rescored, refreshed,
  fresh_rider, opened, rides_now,
}
use vehicle_positions.Rides.Rows.{
  RidersInv, RidesInv, AreOwned, put_rider, new_rider, put_ride, new_ride,
}
use vehicle_positions.Rides.Finds.{sweep_rides, find_row-none, find_row-some}
use vehicle_positions.Rides.Standing.{
  AreOwned-insert_rider, AreOwned-insert_ride, AreOwned-sweep, AreOwned-touched,
  fresh_rider-IsInStanding, rescored-IsInStanding, touched-RidersInv, rescored_same,
}
use vehicle_positions.Rides.Store.{
  register_rider, start_ride, end_all_active_rides, delete_ride_points_before,
}
use vehicle_positions.Rides.Filed.{FinishedAs, RecordedAs}

module _ {F : Type 0} where
  pub record IsSound (db : Db F) : Type 0 where
    pub riders : RidersInv db.riders
    pub rides : RidesInv db.rides
    pub owned : AreOwned db.riders db.rides

  pub register_rider-IsSound :
      (db : Db F) (broken : Bool) (id installation platform app_id app_version : String)
      (now : Time)
      → IsSound db
      → IsSound (register_rider db broken id installation platform app_id app_version now).0
  unfolding register_rider
  register_rider-IsSound db broken id installation platform app_id app_version now h =
      let known = find_row (λ (r : Rider). str_eq r.installation_id installation) db.riders in
      elim (Bool-cases (broken || str_eq id "" || str_eq installation "")) [
        | inl refused ↦ rw refused h
        | inr fine ↦ elim (Option-cases known) [
          | inl unknown ↦ elim (Bool-cases (is_some (lookup id db.riders))) [
            | inl taken ↦ rw (fine, unknown, taken) h
            | inr free ↦
                let row = fresh_rider id installation platform app_id app_version now in
                rw (fine, unknown, free)
                  (record {
                    riders =
                        new_rider db.riders row h.riders
                          (λ b s e.
                            find_row-none (λ (r : Rider). str_eq r.installation_id installation)
                              db.riders b s unknown e)
                          (fresh_rider-IsInStanding id installation platform app_id app_version
                            now);
                    rides = h.rides;
                    owned = AreOwned-insert_rider db.riders db.rides id row h.owned;
                  })
          ]
          | inr (r, there) ↦
              let row = refreshed r platform app_id app_version now in
              let (k, filed, same) =
                find_row-some (λ (r : Rider). str_eq r.installation_id installation) db.riders r
                  h.riders.dict there in
              let filed' =
                subst (λ j. lookup j db.riders ≡ some r) (sym (h.riders.keyed k r filed)) filed in
              rw (fine, there)
                (record {
                  riders =
                      put_rider db.riders r.id r row h.riders filed' refl refl
                        (h.riders.standing k r filed);
                  rides = h.rides;
                  owned = AreOwned-insert_rider db.riders db.rides r.id row h.owned;
                })
        ]
      ]

  pub start_ride-IsSound :
      (db : Db F) (broken : Bool) (ride : Ride) (now : Time)
      → IsSound db
      → IsSound (start_ride db broken ride now).0
  unfolding start_ride
  start_ride-IsSound db broken ride now h =
      elim (Bool-cases (broken || str_eq ride.id "" || is_some (lookup ride.id db.rides))) [
        | inl refused ↦ rw refused h
        | inr fine ↦ elim (Option-cases (find_row (rides_now ride.rider_id) db.rides)) [
          | inr (s, riding) ↦ rw (fine, riding) h
          | inl free ↦ elim (Bool-cases (is_some (lookup ride.rider_id db.riders))) [
            | inr nobody ↦ rw (fine, free, nobody) h
            | inl known ↦
                rw (fine, free, known)
                  (record {
                    riders = h.riders;
                    rides =
                        new_ride db.rides (opened ride now) h.rides
                          (λ b s e live.
                            let passed =
                              find_row-none (rides_now ride.rider_id) db.rides b s free e in
                            ground (arith, passed, live))
                          (ground (arith, eq_refl "active"));
                    owned =
                        AreOwned-insert_ride db.riders db.rides ride.id (opened ride now) h.owned
                          known;
                  })
          ]
        ]
      ]

  pub IsSound-finished :
      (db : Db F) (id : String) (outcome : RideOutcome) (now : Time) (result : Db F × Reply Rider)
      → FinishedAs db id outcome now result
      → IsSound db
      → IsSound result.0
  IsSound-finished db id outcome now (db', ok row) f h =
      subst (λ (d : Db F). IsSound d) (sym f.stored)
        (record {
          riders =
              put_rider db.riders f.ride.rider_id f.rider (rescored f.rider outcome now) h.riders
                f.owned (rescored_same f.rider outcome now).0 (rescored_same f.rider outcome now).1
                (rescored-IsInStanding f.rider outcome now
                  (h.riders.standing f.ride.rider_id f.rider f.owned));
          rides =
              put_ride db.rides id f.ride (closed f.ride outcome now) h.rides f.there refl refl
                (λ live. ground arith) (ground arith);
          owned =
              AreOwned-insert_rider db.riders (insert id (closed f.ride outcome now) db.rides)
                f.ride.rider_id (rescored f.rider outcome now)
                (AreOwned-insert_ride db.riders db.rides id (closed f.ride outcome now) h.owned
                  (h.owned id f.ride f.there));
        })
  IsSound-finished db id outcome now (db', ride_not_found) f h =
      subst (λ (d : Db F). IsSound d) (sym f.0) h
  IsSound-finished db id outcome now (db', rider_not_found) f h =
      subst (λ (d : Db F). IsSound d) (sym f.0) h
  IsSound-finished db id outcome now (db', failed) f h = subst (λ (d : Db F). IsSound d) (sym f) h
  IsSound-finished db id outcome now (db', active_ride_exists) f h = elim f [ ]

  pub IsSound-recorded :
      (db : Db F) (id rider : String) (points : List (RidePointRecord F)) (progress : RideProgress)
      (now : Time) (result : Db F × Reply Unit)
      → RecordedAs db id rider points progress now result
      → IsSound db
      → IsSound result.0
  IsSound-recorded db id rider points progress now (db', ok done) (ride, there, live, stored) h =
      subst (λ (d : Db F). IsSound d) (sym stored)
        (record {
          riders = touched-RidersInv rider now db.riders h.riders;
          rides =
              put_ride db.rides id ride (with_progress ride progress) h.rides there refl refl
                (λ e. e) (h.rides.dated id ride there);
          owned =
              AreOwned-touched rider now db.riders
                (insert id (with_progress ride progress) db.rides)
                (AreOwned-insert_ride db.riders db.rides id (with_progress ride progress) h.owned
                  (h.owned id ride there));
        })
  IsSound-recorded db id rider points progress now (db', ride_not_found) f h =
      subst (λ (d : Db F). IsSound d) (sym f.0) h
  IsSound-recorded db id rider points progress now (db', rider_not_found) f h = elim f [ ]
  IsSound-recorded db id rider points progress now (db', failed) f h =
      subst (λ (d : Db F). IsSound d) (sym f) h
  IsSound-recorded db id rider points progress now (db', active_ride_exists) f h = elim f [ ]

  pub end_all_active_rides-IsSound :
      (db : Db F) (broken : Bool) (reason : String) (now : Time)
      → IsSound db
      → IsSound (end_all_active_rides db broken reason now).0
  unfolding end_all_active_rides
  end_all_active_rides-IsSound db true reason now h = h
  end_all_active_rides-IsSound db false reason now h = record {
    riders = h.riders;
    rides = sweep_rides db.rides reason now h.rides;
    owned = AreOwned-sweep db.riders db.rides reason now h.owned;
  }

  pub delete_ride_points_before-IsSound :
      (db : Db F) (broken : Bool) (cutoff : Time)
      → IsSound db
      → IsSound (delete_ride_points_before db broken cutoff).0
  unfolding delete_ride_points_before
  delete_ride_points_before-IsSound db true cutoff h = h
  delete_ride_points_before-IsSound db false cutoff h = record {
    riders = h.riders;
    rides = h.rides;
    owned = h.owned;
  }
