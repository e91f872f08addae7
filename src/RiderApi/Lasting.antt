-- ===== src/RiderApi/Lasting.antt =====
-- rider_handlers.go: what no later step undoes.
use vehicle_positions.Prelude.{
  ℕ, String, false, Option, none, some, ◌≡◌, refl, sym, ap, ◌∙◌, arith, str_eq, eq_iff, Bool-cases,
  inl, inr, subst,
}
use vehicle_positions.Prelude.Float.{FloatOps}
use vehicle_positions.Prelude.Dict.{lookup, lookup-insert_ne}
use vehicle_positions.Rider.Session.{TripKey, Tier}
use vehicle_positions.Rider.Schedule.{TripInfo}
use vehicle_positions.Rider.Session.Step.{new_session}
use vehicle_positions.Rider.Aggregator.{Aggregator, add, end_ride, set_tier, remove_locked, reap}
use vehicle_positions.Rider.Aggregator.Batch.{apply_batch_locked}
use vehicle_positions.Rides.{Ride, Db, opened}
use vehicle_positions.Rides.Store.{
  register_rider, start_ride, record_ride_points, finish_ride, delete_ride_points_before,
}
use vehicle_positions.Rides.Started.{Opening, Opening-started, start_ride-StartedAs}
use vehicle_positions.Rides.Filed.{finish_ride-FinishedAs, record_ride_points-RecordedAs}
use vehicle_positions.Rides.Moves.{Tx, registers, starts, records, finishes, prunes}
use vehicle_positions.Rides.Frozen.{Tx-IsOver, register_rider-rides}
use vehicle_positions.Rides.Over.{IsOver}
use vehicle_positions.RiderApi.Service.{Live}
use vehicle_positions.RiderApi.Linked.{IsNotLive, Linked, ComesFrom}
use vehicle_positions.RiderApi.RowsFollow.{RowsFollow, RowsFollow-same}
use vehicle_positions.RiderApi.Following.{
  end_ride-moves, set_tier-moves, reap-moves, remove-moves, batch-moves,
}
use vehicle_positions.RiderApi.Steps.{
  Step, ends, retiers, reaps, judges, unregisters, opens, files, stores, enrols, forgets, Steps,
  here, next, with_ride,
}
use vehicle_positions.RiderApi.Keeping.{
  finished-RowsFollow, recorded-RowsFollow, Steps-Linked, delete_ride_points_before-rides,
}

module _ {F : Type 0} where
  -- What a step did: to the registry alone, to the tables alone, or a new ride to both.
  pub data Did (st : Live F) : Live F → Type 0 where
    to_registry : (a' : Aggregator F) → ComesFrom st.agg a' → Did st (record st { agg = a' })
    to_tables :
        (db' : Db F)
        → RowsFollow st.agg st.db.rides db'.rides
        → Tx st.db db'
        → Did st (record st { db = db' })
    to_both :
        (ride row : Ride) (now : ℕ) (trip : Option (TripInfo F)) (tier : Tier) (db' : Db F)
        → Opening st.db ride row now db'
        → Tx st.db db'
        → Did st (with_ride st db' row trip tier)

  -- The ride has its row, and is not live.
  pub record IsDone (id : String) (st : Live F) : Type 0 where
    pub row : Ride
    pub there : lookup id st.db.rides ≡ some row
    pub over : IsNotLive id st.agg

  ride_apart :
      (db : Db F) (id : String) (ride r : Ride)
      → lookup ride.id db.rides ≡ none
      → lookup id db.rides ≡ some r
      → str_eq ride.id id ≡ false
  ride_apart db id ride r fresh there = ground (arith, eq_iff ride.id id)

  Did-IsDone : (id : String) (st st' : Live F) → Did st st' → IsDone id st → IsDone id st'
  unfolding add new_session
  Did-IsDone id st st' (to_registry a' back) h = record {
    row = h.row;
    there = h.there;
    over = λ s' filed'.
        let (s, filed, rider, mono) = back id s' filed' in
        elim (Bool-cases s'.ended) [
          | inl ended ↦ ended
          | inr live ↦ cc (mono live, h.over s filed)
        ];
  }
  Did-IsDone id st st' (to_tables db' follow tx) h =
      let (r', there', rider, stays) = follow.on id h.row h.there in
      record { row = r'; there = there'; over = h.over }
  Did-IsDone id st st' (to_both ride row now trip tier db' o tx) h =
      let key : TripKey = record { trip_id = row.trip_id; start_date = row.start_date } in
      let s = new_session row.id row.rider_id key trip tier row.started_at in
      let same_id : row.id ≡ ride.id = ap (λ (r : Ride). r.id) o.row_of in
      let ne : str_eq ride.id id ≡ false = ride_apart st.db id ride h.row o.fresh h.there in
      let ne' : str_eq row.id id ≡ false = ap (λ k. str_eq k id) same_id ∙ ne in
      record {
        row = h.row;
        there =
            ap (λ (d : Db F). lookup id d.rides) o.stored
            ∙ lookup-insert_ne ride.id id (opened ride now) st.db.rides ne
            ∙ h.there;
        over = λ t filed. h.over t (sym (lookup-insert_ne row.id id s st.agg.sessions ne') ∙ filed);
      }

module _ {F : Type 0} ⦃fl : FloatOps F⦄ where
  pub Step-Did : (st st' : Live F) → Step st st' → Linked st → Did st st'
  Step-Did st st' (ends id r now e) h =
      subst (Did st) (sym e)
        (to_registry (end_ride st.agg id r now).0 (end_ride-moves st.agg id r now).0)
  Step-Did st st' (retiers r t e) h =
      subst (Did st) (sym e)
        (to_registry (set_tier st.agg r t) (set_tier-moves st.agg r t h.registry).0)
  Step-Did st st' (reaps now e) h =
      subst (Did st) (sym e) (to_registry (reap st.agg now).0 (reap-moves st.agg now).0)
  Step-Did st st' (judges id key ps trusted now e) h = subst (Did st) (sym e) (
      to_registry (apply_batch_locked st.agg id key ps trusted now).0
        (batch-moves st.agg id key ps trusted now).0)
  Step-Did st st' (unregisters id over e) h =
      subst (Did st) (sym e) (to_registry (remove_locked st.agg id).0 (remove-moves st.agg id))
  Step-Did st st' (opens broken ride row trip tier now done e) h = subst (Did st) (sym e) (
      to_both ride row now trip tier (start_ride st.db broken ride now).0
        (Opening-started st.db ride row now (start_ride st.db broken ride now)
          (start_ride-StartedAs st.db broken ride now) done)
        (starts broken ride now refl))
  Step-Did st st' (files fault id outcome now over e) h = subst (Did st) (sym e) (
      to_tables (finish_ride st.db fault id outcome now).0
        (finished-RowsFollow st.agg st.db id outcome now (finish_ride st.db fault id outcome now)
          over (finish_ride-FinishedAs st.db fault id outcome now))
        (finishes fault id outcome now refl))
  Step-Did st st' (stores fault id rider points progress now e) h = subst (Did st) (sym e) (
      to_tables (record_ride_points st.db fault id rider points progress now).0
        (recorded-RowsFollow st.agg st.db id rider points progress now
          (record_ride_points st.db fault id rider points progress now)
          (record_ride_points-RecordedAs st.db fault id rider points progress now))
        (records fault id rider points progress now refl))
  Step-Did st st' (enrols broken id installation platform app_id app_version now e) h =
      subst (Did st) (sym e) (
        to_tables (register_rider st.db broken id installation platform app_id app_version now).0
          (subst (λ rs. RowsFollow st.agg st.db.rides rs)
            (sym
              (register_rider-rides st.db broken id installation platform app_id app_version now).0)
            (RowsFollow-same st.agg st.db.rides))
          (registers broken id installation platform app_id app_version now refl))
  Step-Did st st' (forgets broken cutoff e) h = subst (Did st) (sym e) (
      to_tables (delete_ride_points_before st.db broken cutoff).0
        (subst (λ rs. RowsFollow st.agg st.db.rides rs)
          (sym (delete_ride_points_before-rides st.db broken cutoff))
          (RowsFollow-same st.agg st.db.rides))
        (prunes broken cutoff refl))

  pub Steps-IsDone :
      (id : String) (st st' : Live F) → Steps st st' → Linked st → IsDone id st → IsDone id st'
  Steps-IsDone id st st' here h d = d
  Steps-IsDone id st st' (next {b} ss s) h d =
      Did-IsDone id b st' (Step-Did b st' s (Steps-Linked ss h)) (Steps-IsDone id st b ss h d)

  Did-IsOver :
      (id : String) (r : Ride) (n : ℕ) (st st' : Live F)
      → Did st st'
      → IsOver id r n st.db
      → IsOver id r n st'.db
  Did-IsOver id r n st st' (to_registry a' back) h = h
  Did-IsOver id r n st st' (to_tables db' follow tx) h = Tx-IsOver id r n tx h
  Did-IsOver id r n st st' (to_both ride row now trip tier db' o tx) h = Tx-IsOver id r n tx h

  pub Steps-IsOver :
      (id : String) (r : Ride) (n : ℕ) (st st' : Live F)
      → Steps st st'
      → Linked st
      → IsOver id r n st.db
      → IsOver id r n st'.db
  Steps-IsOver id r n st st' here h o = o
  Steps-IsOver id r n st st' (next {b} ss s) h o =
      Did-IsOver id r n b st' (Step-Did b st' s (Steps-Linked ss h))
        (Steps-IsOver id r n st b ss h o)
