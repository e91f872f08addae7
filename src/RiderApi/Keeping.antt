-- ===== src/RiderApi/Keeping.antt =====
-- rider_handlers.go: the tie between registry and tables under each step.
use vehicle_positions.Prelude.{
  String, Bool, true, false, Option, none, List, ◌≡◌, refl, sym, ap, ◌∙◌, subst,
}
use vehicle_positions.Prelude.Time.{Time}
use vehicle_positions.Prelude.Float.{FloatOps}
use vehicle_positions.Prelude.Dict.{lookup}
use vehicle_positions.Rider.Schedule.{TripInfo}
use vehicle_positions.Rider.Session.{Tier, TripKey}
use vehicle_positions.Rider.Session.Invariant.{new_session-Inv}
use vehicle_positions.Rider.Session.Step.{new_session}
use vehicle_positions.Rider.Aggregator.{Aggregator, end_ride, set_tier, remove_locked, reap}
use vehicle_positions.Rider.Aggregator.Batch.{apply_batch_locked}
use vehicle_positions.Rider.Aggregator.Registry.{
  end_ride-RegistryInv, set_tier-RegistryInv, remove-RegistryInv,
}
use vehicle_positions.Rider.Aggregator.Moves.{reap-RegistryInv, batch-RegistryInv}
use vehicle_positions.Rides.{
  Rider, Ride, RideProgress, RideOutcome, RidePointRecord, Db, Reply, failed, rider_not_found,
  ride_not_found, active_ride_exists, ok, is_active_row, find_active, closed, with_progress,
}
use vehicle_positions.Rides.Store.{
  register_rider, start_ride, record_ride_points, finish_ride, delete_ride_points_before,
}
use vehicle_positions.Rides.Sound.{
  IsSound, register_rider-IsSound, start_ride-IsSound, IsSound-finished, IsSound-recorded,
  delete_ride_points_before-IsSound,
}
use vehicle_positions.Rides.Started.{Opening, Opening-started, start_ride-StartedAs}
use vehicle_positions.Rides.Filed.{
  FinishedAs, finish_ride-FinishedAs, RecordedAs, record_ride_points-RecordedAs,
}
use vehicle_positions.Rides.Frozen.{register_rider-rides}
use vehicle_positions.RiderApi.Service.{Live}
use vehicle_positions.RiderApi.Linked.{IsNotLive, Linked, agg_Linked}
use vehicle_positions.RiderApi.RowsFollow.{
  RowsFollow, RowsFollow-same, RowsFollow-insert, db_Linked, add_Linked,
}
use vehicle_positions.RiderApi.Following.{
  end_ride-moves, set_tier-moves, reap-moves, remove-moves, remove-others, batch-moves,
}
use vehicle_positions.RiderApi.Steps.{
  with_ride, active_apart, Step, Steps, ends, retiers, reaps, judges, unregisters, opens, files,
  stores, enrols, forgets, here, next,
}

module _ {F : Type 0} ⦃fl : FloatOps F⦄ where
  -- The rows after a transaction that opens no ride.
  pub finished-RowsFollow :
      (a : Aggregator F) (db : Db F) (id : String) (outcome : RideOutcome) (now : Time)
      (result : Db F × Reply Rider)
      → IsNotLive id a
      → FinishedAs db id outcome now result
      → RowsFollow a db.rides result.0.rides
  finished-RowsFollow a db id outcome now (db', ok row) over f =
      subst (λ (d : Db F). RowsFollow a db.rides d.rides) (sym f.stored)
        (RowsFollow-insert a db.rides id f.ride (closed f.ride outcome now) f.there refl
          (λ live. f.was_active) (λ s filed live active. cc (over s filed, live)))
  finished-RowsFollow a db id outcome now (db', ride_not_found) over f =
      subst (λ (d : Db F). RowsFollow a db.rides d.rides) (sym f.0) (RowsFollow-same a db.rides)
  finished-RowsFollow a db id outcome now (db', rider_not_found) over f =
      subst (λ (d : Db F). RowsFollow a db.rides d.rides) (sym f.0) (RowsFollow-same a db.rides)
  finished-RowsFollow a db id outcome now (db', failed) over f =
      subst (λ (d : Db F). RowsFollow a db.rides d.rides) (sym f) (RowsFollow-same a db.rides)
  finished-RowsFollow a db id outcome now (db', active_ride_exists) over f = elim f [ ]

  pub recorded-RowsFollow :
      (a : Aggregator F) (db : Db F) (id rider : String) (points : List (RidePointRecord F))
      (progress : RideProgress) (now : Time) (result : Db F × Reply Unit)
      → RecordedAs db id rider points progress now result
      → RowsFollow a db.rides result.0.rides
  recorded-RowsFollow a db id rider points progress now (db', ok done) (ride, there, live, stored) =
      subst (λ (d : Db F). RowsFollow a db.rides d.rides) (sym stored)
        (RowsFollow-insert a db.rides id ride (with_progress ride progress) there refl (λ e. e)
          (λ s filed over active. active))
  recorded-RowsFollow a db id rider points progress now (db', ride_not_found) f =
      subst (λ (d : Db F). RowsFollow a db.rides d.rides) (sym f.0) (RowsFollow-same a db.rides)
  recorded-RowsFollow a db id rider points progress now (db', failed) f =
      subst (λ (d : Db F). RowsFollow a db.rides d.rides) (sym f) (RowsFollow-same a db.rides)
  recorded-RowsFollow a db id rider points progress now (db', rider_not_found) f = elim f [ ]
  recorded-RowsFollow a db id rider points progress now (db', active_ride_exists) f = elim f [ ]

  opened_Linked :
      (st : Live F) (ride row : Ride) (now : Time) (trip : Option (TripInfo F)) (tier : Tier)
      (db' : Db F)
      → Opening st.db ride row now db'
      → IsSound db'
      → Linked st
      → Linked (with_ride st db' row trip tier)
  unfolding new_session
  opened_Linked st ride row now trip tier db' o sound h =
      let key : TripKey = record { trip_id = row.trip_id; start_date = row.start_date } in
      let s = new_session row.id row.rider_id key trip tier row.started_at in
      let same_id : row.id ≡ ride.id = ap (λ (r : Ride). r.id) o.row_of in
      add_Linked st db' row s h sound
        (ap (λ (d : Db F). d.rides) o.stored ∙ rw (sym same_id, o.row_of) refl)
        (ap (λ k. lookup k st.db.rides) same_id ∙ o.fresh) refl
        (ap (λ (r : Ride). is_active_row r) o.row_of)
        (new_session-Inv row.id row.rider_id key trip tier row.started_at)

  unregistered_Linked :
      (st : Live F) (id : String)
      → find_active id st.db.rides ≡ none
      → Linked st
      → Linked (record st { agg = (remove_locked st.agg id).0 })
  unregistered_Linked st id over h =
      agg_Linked st (remove_locked st.agg id).0 h (remove-RegistryInv st.agg id h.registry)
        (remove-moves st.agg id)
        (λ other r s there live filed.
          let ne = active_apart st.db.rides id other r over there live in
          (s, remove-others st.agg id other s ne filed, refl))

  pub delete_ride_points_before-rides :
      (db : Db F) (broken : Bool) (cutoff : Time)
      → (delete_ride_points_before db broken cutoff).0.rides ≡ db.rides
  unfolding delete_ride_points_before
  delete_ride_points_before-rides db true cutoff = refl
  delete_ride_points_before-rides db false cutoff = refl

  pub Step-Linked : {st st' : Live F} → Step st st' → Linked st → Linked st'
  Step-Linked {st} (ends id r now e) h =
      let (back, on) = end_ride-moves st.agg id r now in
      subst (λ (u : Live F). Linked u) (sym e)
        (agg_Linked st (end_ride st.agg id r now).0 h
          (end_ride-RegistryInv st.agg id r now h.registry) back
          (λ j x s there live filed. on j s filed))
  Step-Linked {st} (retiers r t e) h =
      let (back, on) = set_tier-moves st.agg r t h.registry in
      subst (λ (u : Live F). Linked u) (sym e)
        (agg_Linked st (set_tier st.agg r t) h (set_tier-RegistryInv st.agg r t h.registry) back
          (λ j x s there live filed. on j s filed))
  Step-Linked {st} (reaps now e) h =
      let (back, on) = reap-moves st.agg now in
      subst (λ (u : Live F). Linked u) (sym e)
        (agg_Linked st (reap st.agg now).0 h (reap-RegistryInv st.agg now h.registry) back
          (λ j x s there live filed. on j s filed))
  Step-Linked {st} (judges id key ps trusted now e) h =
      let (back, on) = batch-moves st.agg id key ps trusted now in
      subst (λ (u : Live F). Linked u) (sym e)
        (agg_Linked st (apply_batch_locked st.agg id key ps trusted now).0 h
          (batch-RegistryInv st.agg id key ps trusted now h.registry) back
          (λ j x s there live filed. on j s filed))
  Step-Linked {st} (unregisters id over e) h =
      subst (λ (u : Live F). Linked u) (sym e) (unregistered_Linked st id over h)
  Step-Linked {st} (opens broken ride row trip tier now done e) h =
      subst (λ (u : Live F). Linked u) (sym e)
        (opened_Linked st ride row now trip tier (start_ride st.db broken ride now).0
          (Opening-started st.db ride row now (start_ride st.db broken ride now)
            (start_ride-StartedAs st.db broken ride now) done)
          (start_ride-IsSound st.db broken ride now h.tables) h)
  Step-Linked {st} (files fault id outcome now over e) h =
      let said = finish_ride-FinishedAs st.db fault id outcome now in
      subst (λ (u : Live F). Linked u) (sym e)
        (db_Linked st (finish_ride st.db fault id outcome now).0 h
          (IsSound-finished st.db id outcome now (finish_ride st.db fault id outcome now) said
            h.tables)
          (finished-RowsFollow st.agg st.db id outcome now (finish_ride st.db fault id outcome now)
            over said))
  Step-Linked {st} (stores fault id rider points progress now e) h =
      let said = record_ride_points-RecordedAs st.db fault id rider points progress now in
      let result = record_ride_points st.db fault id rider points progress now in
      subst (λ (u : Live F). Linked u) (sym e)
        (db_Linked st result.0 h
          (IsSound-recorded st.db id rider points progress now result said h.tables)
          (recorded-RowsFollow st.agg st.db id rider points progress now result said))
  Step-Linked {st} (enrols broken id installation platform app_id app_version now e) h =
      let (rides, points) =
        register_rider-rides st.db broken id installation platform app_id app_version now in
      let db' = (register_rider st.db broken id installation platform app_id app_version now).0 in
      subst (λ (u : Live F). Linked u) (sym e)
        (db_Linked st db' h
          (register_rider-IsSound st.db broken id installation platform app_id app_version now
            h.tables)
          (subst (λ rs. RowsFollow st.agg st.db.rides rs) (sym rides)
            (RowsFollow-same st.agg st.db.rides)))
  Step-Linked {st} (forgets broken cutoff e) h =
      subst (λ (u : Live F). Linked u) (sym e)
        (db_Linked st (delete_ride_points_before st.db broken cutoff).0 h
          (delete_ride_points_before-IsSound st.db broken cutoff h.tables)
          (subst (λ rs. RowsFollow st.agg st.db.rides rs)
            (sym (delete_ride_points_before-rides st.db broken cutoff))
            (RowsFollow-same st.agg st.db.rides)))

  pub Steps-Linked : {st st' : Live F} → Steps st st' → Linked st → Linked st'
  Steps-Linked here h = h
  Steps-Linked (next ss s) h = Step-Linked s (Steps-Linked ss h)
