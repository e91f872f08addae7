-- ===== src/Rides/Frozen.antt =====
-- rider_store.go: rides that have ended, under later transactions.
use vehicle_positions.Prelude.{
  ℕ, ◌≤◌, String, Bool, true, false, not, none, ◌≡◌, ◌⊎◌, refl, sym, ap, ◌∙◌, arith, inl, inr,
  subst,
}
use vehicle_positions.Prelude.Time.{Time, before}
use vehicle_positions.Prelude.Dict.{lookup, lookup-insert_self}
use vehicle_positions.Rides.{
  Rider, Ride, RideOutcome, Db, Fault, Reply, failed, ok, ride_not_found, rider_not_found,
  active_ride_exists, find_active, swept, closed,
}
use vehicle_positions.Rides.Finds.{lookup-map_rows}
use vehicle_positions.Rides.Store.{
  register_rider, record_ride_points, finish_ride, end_all_active_rides, delete_ride_points_before,
}
use vehicle_positions.Rides.Filed.{
  finish_ride-FinishedAs, FinishedAs, record_ride_points-RecordedAs,
}
use vehicle_positions.Rides.Moves.{
  Tx, Txs, registers, starts, records, finishes, sweeps, prunes, here, next,
}
use vehicle_positions.Rides.Over.{
  count_points, IsOver, count_points-keep, finished-IsOver, recorded-IsOver, started-IsOver,
}

module _ {F : Type 0} where
  pub register_rider-rides :
      (db : Db F) (broken : Bool) (fresh installation platform app_id app_version : String)
      (now : Time)
      → ((register_rider db broken fresh installation platform app_id app_version now).0.rides
          ≡ db.rides)
        × ((register_rider db broken fresh installation platform app_id app_version now).0.points
            ≡ db.points)
  unfolding register_rider
  register_rider-rides db broken fresh installation platform app_id app_version now = ground arith

  swept-IsOver :
      (db : Db F) (broken : Bool) (reason : String) (now : Time) (id : String) (r : Ride) (n : ℕ)
      → IsOver id r n db
      → IsOver id r n (end_all_active_rides db broken reason now).0
  unfolding end_all_active_rides
  swept-IsOver db true reason now id r n h = h
  swept-IsOver db false reason now id r n (there, over, few) =
      (lookup-map_rows (swept reason now) id db.rides ∙ rw (there, over) refl, over, few)

  pruned-IsOver :
      (db : Db F) (broken : Bool) (cutoff : Time) (id : String) (r : Ride) (n : ℕ)
      → IsOver id r n db
      → IsOver id r n (delete_ride_points_before db broken cutoff).0
  unfolding delete_ride_points_before
  pruned-IsOver db true cutoff id r n h = h
  pruned-IsOver db false cutoff id r n (there, over, few) = (
    there,
    over,
    omega (arith, few, count_points-keep id (λ p. not (before p.received_at cutoff)) db.points),
  )

  pub Tx-IsOver :
      {db db' : Db F} (id : String) (r : Ride) (n : ℕ)
      → Tx db db'
      → IsOver id r n db
      → IsOver id r n db'
  Tx-IsOver {db} id r n (registers broken fresh installation platform app_id app_version now e)
        (there, over, few) =
      let (rides, points) =
        register_rider-rides db broken fresh installation platform app_id app_version now in
      subst (λ (d : Db F). IsOver id r n d) (sym e)
        (ap (lookup id) rides ∙ there, over, subst (λ ps. count_points id ps ≤ n) (sym points) few)
  Tx-IsOver {db} id r n (starts broken ride now e) h =
      subst (λ (d : Db F). IsOver id r n d) (sym e) (started-IsOver db broken ride now id r n h)
  Tx-IsOver {db} id r n (records fault other rider points progress now e) h =
      subst (λ (d : Db F). IsOver id r n d) (sym e)
        (recorded-IsOver db other rider points progress now
          (record_ride_points db fault other rider points progress now) id r n
          (record_ride_points-RecordedAs db fault other rider points progress now) h)
  Tx-IsOver {db} id r n (finishes fault other outcome now e) h =
      subst (λ (d : Db F). IsOver id r n d) (sym e)
        (finished-IsOver db other outcome now (finish_ride db fault other outcome now) id r n
          (finish_ride-FinishedAs db fault other outcome now) h)
  Tx-IsOver {db} id r n (sweeps broken reason now e) h =
      subst (λ (d : Db F). IsOver id r n d) (sym e) (swept-IsOver db broken reason now id r n h)
  Tx-IsOver {db} id r n (prunes broken cutoff e) h =
      subst (λ (d : Db F). IsOver id r n d) (sym e) (pruned-IsOver db broken cutoff id r n h)

  -- Once a ride has ended, no transaction and no failure changes its row or adds a point to it.
  pub Txs-IsOver :
      {db db' : Db F} (id : String) (r : Ride) (n : ℕ)
      → Txs db db'
      → IsOver id r n db
      → IsOver id r n db'
  Txs-IsOver id r n here h = h
  Txs-IsOver id r n (next txs tx) h = Tx-IsOver id r n tx (Txs-IsOver id r n txs h)

  pub filed-IsOver :
      (db : Db F) (id : String) (outcome : RideOutcome) (now : Time) (row : Rider)
      (result : Db F × Reply Rider)
      → FinishedAs db id outcome now result
      → result.1 ≡ ok row
      → (r : Ride) × IsOver id r (count_points id db.points) result.0
  filed-IsOver db id outcome now row (db', ok other) f e = (
    closed f.ride outcome now,
    subst (λ (d : Db F). IsOver id (closed f.ride outcome now) (count_points id db.points) d)
        (sym f.stored)
        (lookup-insert_self id (closed f.ride outcome now) db.rides, refl, omega arith),
  )
  filed-IsOver db id outcome now row (db', ride_not_found) f e = cc e
  filed-IsOver db id outcome now row (db', rider_not_found) f e = cc e
  filed-IsOver db id outcome now row (db', failed) f e = cc e
  filed-IsOver db id outcome now row (db', active_ride_exists) f e = elim f [ ]

  pub over_find_active :
      (db : Db F) (id : String) (r : Ride) (n : ℕ)
      → IsOver id r n db
      → find_active id db.rides ≡ none
  unfolding find_active
  over_find_active db id r n (there, over, few) = ground arith

  refused_when_over :
      (db : Db F) (id : String) (outcome : RideOutcome) (now : Time) (result : Db F × Reply Rider)
      → FinishedAs db id outcome now result
      → find_active id db.rides ≡ none
      → (result.0 ≡ db) × ((result.1 ≡ failed) ⊎ (result.1 ≡ ride_not_found))
  unfolding find_active
  refused_when_over db id outcome now (db', ok row) f gone =
      let live = f.was_active in let there = f.there in ground arith
  refused_when_over db id outcome now (db', ride_not_found) f gone = (f.0, inr refl)
  refused_when_over db id outcome now (db', rider_not_found) f gone = (f.0, cc (f.1.1, gone))
  refused_when_over db id outcome now (db', failed) f gone = (f, inl refl)
  refused_when_over db id outcome now (db', active_ride_exists) f gone = elim f [ ]

  -- A ride's outcome is applied to its rider at most once: after FinishRide has succeeded for it,
  -- whatever transactions follow, finishing it again, with any outcome and any failures, changes
  -- nothing and answers ErrRideNotFound or an error of the database.
  pub finish_ride_once :
      (db db' : Db F) (fault fault' : Fault) (id : String) (outcome outcome' : RideOutcome)
      (now now' : Time) (row : Rider)
      → (finish_ride db fault id outcome now).1 ≡ ok row
      → Txs (finish_ride db fault id outcome now).0 db'
      → ((finish_ride db' fault' id outcome' now').0 ≡ db')
        × (((finish_ride db' fault' id outcome' now').1 ≡ failed)
            ⊎ ((finish_ride db' fault' id outcome' now').1 ≡ ride_not_found))
  finish_ride_once db db' fault fault' id outcome outcome' now now' row done txs =
      let n = count_points id db.points in
      let (r, over) =
        filed-IsOver db id outcome now row (finish_ride db fault id outcome now)
          (finish_ride-FinishedAs db fault id outcome now) done in
      refused_when_over db' id outcome' now' (finish_ride db' fault' id outcome' now')
        (finish_ride-FinishedAs db' fault' id outcome' now')
        (over_find_active db' id r n (Txs-IsOver id r n txs over))
