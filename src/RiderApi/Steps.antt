-- ===== src/RiderApi/Steps.antt =====
-- rider_handlers.go in one process: every call of the registry or the store that a request makes is a
-- step, and requests interleave step by step. Storing a new ride and registering its session are one
-- step: until then no other request knows the ride.
use vehicle_positions.Prelude.{
  String, Bool, true, false, Option, none, some, List, ◌≡◌, arith, str_eq, eq_iff,
}
use vehicle_positions.Prelude.Time.{Time}
use vehicle_positions.Prelude.Float.{FloatOps}
use vehicle_positions.Prelude.Dict.{Dict, lookup}
use vehicle_positions.Rider.Schedule.{TripInfo}
use vehicle_positions.Rider.Verify.{Point, TrustedVehicle}
use vehicle_positions.Rider.Session.{EndReason, Tier, TripKey}
use vehicle_positions.Rider.Session.Step.{new_session}
use vehicle_positions.Rider.Aggregator.{add, end_ride, set_tier, remove_locked, reap}
use vehicle_positions.Rider.Aggregator.Batch.{apply_batch_locked}
use vehicle_positions.Rides.{
  Ride, RideProgress, RideOutcome, RidePointRecord, Db, Fault, ok, is_active_row, find_active,
}
use vehicle_positions.Rides.Store.{
  register_rider, start_ride, record_ride_points, finish_ride, delete_ride_points_before,
}
use vehicle_positions.RiderApi.Service.{Live}
use vehicle_positions.RiderApi.Linked.{IsNotLive}

-- What a started ride changes: its row and its session.
abbrev pub with_ride : {F : Type 0} → Live F → Db F → Ride → Option (TripInfo F) → Tier → Live F
with_ride st db' row trip tier =
    let key : TripKey = record { trip_id = row.trip_id; start_date = row.start_date } in
    record {
      agg = add st.agg (new_session row.id row.rider_id key trip tier row.started_at);
      db = db';
    }

pub active_apart :
    (rides : Dict Ride) (id other : String) (r : Ride)
    → find_active id rides ≡ none
    → lookup other rides ≡ some r
    → is_active_row r ≡ true
    → str_eq id other ≡ false
unfolding find_active
active_apart rides id other r over there live = ground (arith, eq_iff id other)

module _ {F : Type 0} ⦃fl : FloatOps F⦄ where
  pub data Step (st st' : Live F) : Type 0 where
    ends :
        (id : String) (r : EndReason) (now : Time)
        → st' ≡ record st { agg = (end_ride st.agg id r now).0 }
        → Step st st'
    retiers : (r : String) (t : Tier) → st' ≡ record st { agg = set_tier st.agg r t } → Step st st'
    reaps : (now : Time) → st' ≡ record st { agg = (reap st.agg now).0 } → Step st st'
    judges :
        (id : String) (key : TripKey) (ps : List (Point F)) (trusted : Option (TrustedVehicle F))
        (now : Time)
        → st' ≡ record st { agg = (apply_batch_locked st.agg id key ps trusted now).0 }
        → Step st st'
    -- a ride is unregistered once its row is not active
    unregisters :
        (id : String)
        → find_active id st.db.rides ≡ none
        → st' ≡ record st { agg = (remove_locked st.agg id).0 }
        → Step st st'
    opens :
        (broken : Bool) (ride row : Ride) (trip : Option (TripInfo F)) (tier : Tier) (now : Time)
        → (start_ride st.db broken ride now).1 ≡ ok row
        → st' ≡ with_ride st (start_ride st.db broken ride now).0 row trip tier
        → Step st st'
    -- a ride is filed once it has ended in the registry
    files :
        (fault : Fault) (id : String) (outcome : RideOutcome) (now : Time)
        → IsNotLive id st.agg
        → st' ≡ record st { db = (finish_ride st.db fault id outcome now).0 }
        → Step st st'
    stores :
        (fault : Fault) (id rider : String) (points : List (RidePointRecord F))
        (progress : RideProgress) (now : Time)
        → st' ≡ record st { db = (record_ride_points st.db fault id rider points progress now).0 }
        → Step st st'
    enrols :
        (broken : Bool) (id installation platform app_id app_version : String) (now : Time)
        → st' ≡ record st {
          db = (register_rider st.db broken id installation platform app_id app_version now).0;
        }
        → Step st st'
    forgets :
        (broken : Bool) (cutoff : Time)
        → st' ≡ record st { db = (delete_ride_points_before st.db broken cutoff).0 }
        → Step st st'

  pub data Steps (st : Live F) : Live F → Type 0 where
    here : Steps st st
    next : {b c : Live F} → Steps st b → Step b c → Steps st c

  pub Steps-trans : {a b c : Live F} → Steps a b → Steps b c → Steps a c
  Steps-trans ab here = ab
  Steps-trans ab (next bc s) = next (Steps-trans ab bc) s

  pub one : {a b : Live F} → Step a b → Steps a b
  one s = next here s
