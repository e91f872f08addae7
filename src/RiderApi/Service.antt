-- ===== src/RiderApi/Service.antt =====
-- rider_handlers.go: what the service holds, finishRide and resolveRide; rider_wiring.go: the body of
-- the reap loop. The registry of live rides and the tables are one state. Between two calls of the
-- registry or the store other requests run: a `before_…` is what they did to the state.
use vehicle_positions.Prelude.{
  String, Bool, not, Option, none, some, List, [], ◌∷◌, ℕ, str_eq, if◌then◌else◌,
}
use vehicle_positions.Prelude.Time.{Time}
use vehicle_positions.Rider.Session.{EndReason, end_idle}
use vehicle_positions.Rider.Reputation.{parse_tier}
use vehicle_positions.Rider.Aggregator.{
  Aggregator, RideSnapshot, end_ride, remove_locked, set_tier, snapshot, reap, new_aggregator,
}
use vehicle_positions.Rides.{Rider, RideOutcome, Db, Fault, Reply, ride_not_found, ok}
use vehicle_positions.Rides.Store.{finish_ride, end_all_active_rides}
use vehicle_positions.Rider.Verify.{Thresholds}
use vehicle_positions.Rider.Schedule.{Zone}
use vehicle_positions.RiderApi.{ride_outcome_of}

pub record Live (F : Type 0) : Type 0 where
  pub agg : Aggregator F
  pub db : Db F

-- One call of finishRide: the service's clock, NOW(), which statements fail, and what runs in between.
pub record Filer (F : Type 0) : Type 0 where
  pub now : Time
  pub db_now : Time
  pub fault : Fault
  pub before_store : Live F → Live F
  pub before_remove : Live F → Live F
  pub before_tier : Live F → Live F

-- What finishRide returns: the rider, errRideNotActive, or an error of the store.
pub data Finished : Type 0 where
  finished : Rider → Finished
  not_active : Finished
  not_filed : Finished

-- what the store is asked to write
abbrev pub outcome_of : RideSnapshot → RideOutcome
outcome_of snap = ride_outcome_of snap.ride_summary snap.ride_summary.end_reason

-- What resolveRide leads to: its refusal, with the status, or the ride.
pub data Resolved : Type 0 where
  refused : ℕ → String → Resolved
  resolved : RideSnapshot → Resolved

abbrev pub resolve_snapshot : Bool → String → Option RideSnapshot → Resolved
resolve_snapshot is_uuid rider_id none =
    if not is_uuid then refused 404 "ride not found" else refused 409 "ride ended"
resolve_snapshot is_uuid rider_id (some snap) =
    if snap.ended
    then refused 409 "ride ended"
    else if not (str_eq snap.rider_id rider_id)
    then refused 404 "ride not found"
    else resolved snap

module _ {F : Type 0} where
  -- `(a *Aggregator) Remove`
  abbrev pub unregistered : Live F → String → Live F
  unregistered st id = record st { agg = (remove_locked st.agg id).0 }

  abbrev pub retiered : Live F → Rider → Live F
  retiered st rd = record st { agg = set_tier st.agg rd.id (parse_tier rd.tier) }

  -- from the store's answer on
  abbrev pub after_store : Filer F → String → Live F → Reply Rider → Live F × Finished
  after_store c id st (ok rd) =
      (retiered (c.before_tier (unregistered (c.before_remove st) id)) rd, finished rd)
  after_store c id st ride_not_found = (unregistered (c.before_remove st) id, not_active)
  after_store c id st _ = (st, not_filed)

  unfoldable pub file : Filer F → String → RideSnapshot → Live F → Live F × Finished
  unfolding ride_outcome_of finish_ride remove_locked set_tier parse_tier
  file c id snap st =
      let filed = finish_ride st.db c.fault id (outcome_of snap) c.db_now in
      after_store c id (record st { db = filed.0 }) filed.1

  abbrev pub after_end : Filer F → String → Live F → Option RideSnapshot → Live F × Finished
  after_end c id st none = (st, not_active)
  after_end c id st (some snap) = file c id snap (c.before_store st)

  -- `finishRide`
  unfoldable pub finish : Filer F → String → EndReason → Live F → Live F × Finished
  unfolding end_ride file
  finish c id reason st =
      let over = end_ride st.agg id reason c.now in
      after_end c id (record st { agg = over.0 }) over.1

  -- `is_uuid` is uuid.Validate without an error.
  unfoldable pub resolve_ride : (String → Bool) → Live F → String → String → Resolved
  unfolding snapshot
  resolve_ride is_uuid st ride_id rider_id =
      resolve_snapshot (is_uuid ride_id) rider_id (snapshot st.agg ride_id)

  -- the loop over the rides that have run out
  unfoldable pub file_all : (String → Filer F) → List String → Live F → Live F
  unfolding finish
  file_all c [] st = st
  file_all c (id ∷ rest) st = file_all c rest (finish (c id) id end_idle st).0

  -- one tick of `reapLoop`
  unfoldable pub reap_tick : (String → Filer F) → Time → Live F → Live F
  unfolding reap file_all
  reap_tick c now st = let gone = reap st.agg now in file_all c gone.1 (record st { agg = gone.0 })

  -- `newRiderRuntime`, as far as state goes: the rides of the process before are ended, and the registry
  -- starts empty; `none` is the error of the sweep.
  abbrev pub after_sweep : Thresholds F → Zone → Db F × Reply ℕ → Option (Live F)
  after_sweep th tz (db, ok ended) = some (record { agg = new_aggregator th tz; db = db })
  after_sweep th tz (db, _) = none

  unfoldable pub new_rider_runtime : Thresholds F → Zone → Db F → Bool → Time → Option (Live F)
  unfolding end_all_active_rides new_aggregator
  new_rider_runtime th tz db broken now =
      after_sweep th tz (end_all_active_rides db broken "server_restart" now)
