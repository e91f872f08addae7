-- ===== src/RiderApi/Filing.antt =====
-- rider_handlers.go: finishRide, whatever runs between its calls.
use vehicle_positions.Prelude.{
  ℕ, String, true, Option, none, some, List, [], ◌∷◌, ◌≡◌, refl, sym, ap, arith, Option-cases, inl,
  inr, subst,
}
use vehicle_positions.Prelude.Float.{FloatOps}
use vehicle_positions.Prelude.Time.{Time}
use vehicle_positions.Prelude.Dict.{lookup, insert, lookup-insert_self}
use vehicle_positions.Rider.Session.{Session, EndReason, end_idle}
use vehicle_positions.Rider.Session.Step.{end_session}
use vehicle_positions.Rider.Reputation.{parse_tier}
use vehicle_positions.Rider.Aggregator.{Aggregator, RideSnapshot, end_ride, snapshot_of, reap}
use vehicle_positions.Rides.{
  Rider, Ride, RideOutcome, Db, Reply, failed, rider_not_found, ride_not_found, active_ride_exists,
  ok, find_active,
}
use vehicle_positions.Rides.Store.{finish_ride}
use vehicle_positions.Rides.Filed.{FinishedAs, finish_ride-FinishedAs}
use vehicle_positions.Rides.Frozen.{over_find_active, filed-IsOver}
use vehicle_positions.Rides.Over.{IsOver, count_points}
use vehicle_positions.RiderApi.Service.{
  Live, Filer, unregistered, outcome_of, after_store, file, finish, file_all, reap_tick,
}
use vehicle_positions.RiderApi.Linked.{IsNotLive, Linked}
use vehicle_positions.RiderApi.Steps.{
  Step, ends, retiers, reaps, unregisters, files, Steps, here, next, Steps-trans, one,
}
use vehicle_positions.RiderApi.Keeping.{Steps-Linked}
use vehicle_positions.RiderApi.Lasting.{IsDone, Steps-IsDone, Steps-IsOver}

module _ {F : Type 0} where
  -- a row that is there and not active
  closed-IsOver :
      (db : Db F) (id : String) (r : Ride)
      → lookup id db.rides ≡ some r
      → find_active id db.rides ≡ none
      → IsOver id r (count_points id db.points) db
  unfolding find_active
  closed-IsOver db id r there gone = (there, ground arith, omega arith)

  end_ride-none :
      (a : Aggregator F) (id : String) (r : EndReason) (now : Time)
      → lookup id a.sessions ≡ none
      → end_ride a id r now ≡ (a, none)
  unfolding end_ride
  end_ride-none a id r now gone = rw (gone, end_ride) refl

  pub end_ride-some :
      (a : Aggregator F) (id : String) (r : EndReason) (now : Time) (s : Session F)
      → lookup id a.sessions ≡ some s
      → end_ride a id r now ≡ (
        record a { sessions = insert id (end_session s r now) a.sessions },
        some (record (snapshot_of (end_session s r now)) { ended = true }),
      )
  unfolding end_ride
  end_ride-some a id r now s there = rw (there, end_ride) refl

  end_session-ended :
      (s : Session F) (r : EndReason) (now : Time) → (end_session s r now).ended ≡ true
  unfolding end_session
  end_session-ended s r now = ground arith

  end_ride-IsNotLive :
      (a : Aggregator F) (id : String) (r : EndReason) (now : Time) (s : Session F)
      → lookup id a.sessions ≡ some s
      → IsNotLive id (end_ride a id r now).0
  end_ride-IsNotLive a id r now s there t filed =
      let s' = end_session s r now in
      let e =
        ap (λ (p : Aggregator F × Option RideSnapshot). lookup id p.0.sessions)
          (end_ride-some a id r now s there) in
      cc (e, lookup-insert_self id s' a.sessions, filed, end_session-ended s r now)

module _ {F : Type 0} ⦃fl : FloatOps F⦄ where
  -- What runs between the calls of one finishRide is steps of other requests.
  pub record Interleaved (c : Filer F) : Type 0 where
    pub store : (st : Live F) → Linked st → Steps st (c.before_store st)
    pub remove : (st : Live F) → Linked st → Steps st (c.before_remove st)
    pub tier : (st : Live F) → Linked st → Steps st (c.before_tier st)

  unregistered-Steps :
      (c : Filer F) (id : String) (r : Ride) (n : ℕ) (st : Live F)
      → Interleaved c
      → Linked st
      → IsOver id r n st.db
      → Steps st (unregistered (c.before_remove st) id)
  unregistered-Steps c id r n st gaps h over =
      let ss = gaps.remove st h in
      next ss (
        unregisters id
          (over_find_active (c.before_remove st).db id r n
            (Steps-IsOver id r n st (c.before_remove st) ss h over))
          refl)

  after_store-Steps :
      (c : Filer F) (id : String) (outcome : RideOutcome) (now : Time) (st : Live F)
      (result : Db F × Reply Rider)
      → Interleaved c
      → IsDone id st
      → Linked (record st { db = result.0 })
      → FinishedAs st.db id outcome now result
      → Steps
          (record st { db = result.0 })
          (after_store c id (record st { db = result.0 }) result.1).0
  after_store-Steps c id outcome now st (db', ok rd) gaps d h f =
      let (r, over) = filed-IsOver st.db id outcome now rd (db', ok rd) f refl in
      let there =
        unregistered-Steps c id r (count_points id st.db.points) (record st { db = db' }) gaps h
          over in
      let later =
        gaps.tier (unregistered (c.before_remove (record st { db = db' })) id)
          (Steps-Linked there h) in
      next (Steps-trans there later) (retiers rd.id (parse_tier rd.tier) refl)
  after_store-Steps c id outcome now st (db', ride_not_found) gaps d h f =
      let n = count_points id st.db.points in
      let over : IsOver id d.row n db' =
        subst (λ x. IsOver id d.row n x) (sym f.0) (closed-IsOver st.db id d.row d.there f.1) in
      unregistered-Steps c id d.row n (record st { db = db' }) gaps h over
  after_store-Steps c id outcome now st (db', rider_not_found) gaps d h f = here
  after_store-Steps c id outcome now st (db', failed) gaps d h f = here
  after_store-Steps c id outcome now st (db', active_ride_exists) gaps d h f = here

  file-Steps :
      (c : Filer F) (id : String) (snap : RideSnapshot) (st : Live F)
      → Interleaved c
      → IsDone id st
      → Linked st
      → Steps st (file c id snap st).0
  unfolding file
  file-Steps c id snap st gaps d h =
      let result = finish_ride st.db c.fault id (outcome_of snap) c.db_now in
      let s : Step st (record st { db = result.0 }) =
        files c.fault id (outcome_of snap) c.db_now d.over refl in
      Steps-trans (one s) (
        after_store-Steps c id (outcome_of snap) c.db_now st result gaps d (Steps-Linked (one s) h)
          (finish_ride-FinishedAs st.db c.fault id (outcome_of snap) c.db_now))

  -- From a state where registry and tables are linked, finishing a ride is nothing but steps, whatever
  -- other requests do between its calls: its ride is filed after it has ended in the registry and is
  -- unregistered once its row has ended.
  pub finish-Steps :
      (c : Filer F) (id : String) (reason : EndReason) (st : Live F)
      → Interleaved c
      → Linked st
      → Steps st (finish c id reason st).0
  unfolding finish
  finish-Steps c id reason st gaps h =
      let st1 = record st { agg = (end_ride st.agg id reason c.now).0 } in
      let first : Step st st1 = ends id reason c.now refl in
      elim (Option-cases (lookup id st.agg.sessions)) [
        | inl gone ↦
            let e =
              ap (λ (p : Aggregator F × Option RideSnapshot). p.1)
                (end_ride-none st.agg id reason c.now gone) in
            rw e (one first)
        | inr (s, filed) ↦
            let e =
              ap (λ (p : Aggregator F × Option RideSnapshot). p.1)
                (end_ride-some st.agg id reason c.now s filed) in
            let snap = record (snapshot_of (end_session s reason c.now)) { ended = true } in
            let (r, there, rider, active) = h.rowed id s filed in
            let h1 = Steps-Linked (one first) h in
            let gap = gaps.store st1 h1 in
            let d1 : IsDone id st1 = record {
              row = r;
              there = there;
              over = end_ride-IsNotLive st.agg id reason c.now s filed;
            } in
            let d2 = Steps-IsDone id st1 (c.before_store st1) gap h1 d1 in
            rw e (
              Steps-trans (Steps-trans (one first) gap)
                (file-Steps c id snap (c.before_store st1) gaps d2 (Steps-Linked gap h1)))
      ]

  pub file_all-Steps :
      (c : String → Filer F) (ids : List String) (st : Live F)
      → ((id : String) → Interleaved (c id))
      → Linked st
      → Steps st (file_all c ids st)
  unfolding file_all
  file_all-Steps c [] st gaps h = here
  file_all-Steps c (id ∷ rest) st gaps h =
      let ss = finish-Steps (c id) id end_idle st (gaps id) h in
      Steps-trans ss
        (file_all-Steps c rest (finish (c id) id end_idle st).0 gaps (Steps-Linked ss h))

  pub reap_tick-Steps :
      (c : String → Filer F) (now : Time) (st : Live F)
      → ((id : String) → Interleaved (c id))
      → Linked st
      → Steps st (reap_tick c now st)
  unfolding reap_tick
  reap_tick-Steps c now st gaps h =
      let first : Step st (record st { agg = (reap st.agg now).0 }) = reaps now refl in
      Steps-trans (one first) (
        file_all-Steps c (reap st.agg now).1 (record st { agg = (reap st.agg now).0 }) gaps
          (Steps-Linked (one first) h))
