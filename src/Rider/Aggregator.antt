-- ===== src/Rider/Aggregator.antt =====
-- rider/aggregator.go: the registry of live rides. Each method holds the registry's lock from its
-- first line to its last, so it is one function from registries to registries; the one that lets go
-- of the lock on the way is in `Batch`.
pub mod Grouping
pub mod Batch
pub mod Estimate
pub mod Registry
pub mod Folding
pub mod Accounting
pub mod Reaping
pub mod Ordering
pub mod Moves
pub mod Riders
pub mod Status
pub mod Credible
pub mod Examples
use vehicle_positions.Prelude.{
  ℕ, suc, ◌+◌, ◌*◌, String, Bool, true, false, not, ◌&&◌, ◌||◌, Option, none, some, List, [], ◌∷◌,
  str_eq, if◌then◌else◌,
}
use vehicle_positions.Prelude.Int.{ltb_ℤ, pos}
use vehicle_positions.Prelude.Time.{Time, minute, hour, time_sub, is_zero}
use vehicle_positions.Prelude.Dict.{Dict, lookup, insert, delete}
use vehicle_positions.Prelude.Sort.{sort, str_leb}
use vehicle_positions.Rider.Schedule.{Zone}
use vehicle_positions.Rider.Verify.{Thresholds}
use vehicle_positions.Rider.Session.{
  EndReason, Tier, TripKey, Session, RideSummary, end_max_duration, end_idle,
}
use vehicle_positions.Rider.Session.Step.{end_session, last_accepted_at, summary}
use vehicle_positions.Rider.Session.Step as Step

abbrev pub idle_timeout : ℕ
idle_timeout = 15 * minute

abbrev pub max_ride_duration : ℕ
max_ride_duration = 3 * hour

-- `a == b` on trip keys
abbrev pub same_key : TripKey → TripKey → Bool
same_key a b = str_eq a.trip_id b.trip_id && str_eq a.start_date b.start_date

-- `a.byRider[riderID]`, which is the zero value "" for a rider that is not there
abbrev pub ride_of_rider : Option String → String
ride_of_rider none = ""
ride_of_rider (some id) = id

pub record Aggregator (F : Type 0) : Type 0 where
  pub th : Thresholds F
  pub tz : Zone
  pub sessions : Dict (Session F)
  pub by_rider : Dict String

pub record RideSnapshot : Type 0 where
  pub id : String
  pub rider_id : String
  pub key : TripKey
  pub tier : Tier
  pub started_at : Time
  pub ended : Bool
  pub ride_summary : RideSummary

module _ {F : Type 0} where
  unfoldable pub new_aggregator : Thresholds F → Zone → Aggregator F
  new_aggregator th tz = record { th = th; tz = tz; sessions = []; by_rider = [] }

  unfoldable pub add : Aggregator F → Session F → Aggregator F
  add a s = record a {
    sessions = insert s.id s a.sessions;
    by_rider = insert s.rider_id s.id a.by_rider;
  }

  unfoldable pub snapshot_of : Session F → RideSnapshot
  snapshot_of s = record {
    id = s.id;
    rider_id = s.rider_id;
    key = s.key;
    tier = s.tier;
    started_at = s.started_at;
    ended = s.ended;
    ride_summary = summary s;
  }

  unfoldable pub snapshot : Aggregator F → String → Option RideSnapshot
  unfolding snapshot_of
  snapshot a ride_id = elim (lookup ride_id a.sessions) [
    | none ↦ none
    | some s ↦ some (snapshot_of s)
  ]

  -- A registered session is a pointer, so ending it changes what is registered; its key is `ride_id`.
  unfoldable pub end_ride :
      Aggregator F → String → EndReason → Time → Aggregator F × Option RideSnapshot
  unfolding snapshot_of end_session
  end_ride a ride_id reason now = elim (lookup ride_id a.sessions) [
    | none ↦ (a, none)
    | some s ↦
        let s' = end_session s reason now in
        (
          record a { sessions = insert ride_id s' a.sessions },
          some (record (snapshot_of s') { ended = true }),
        )
  ]

  -- `s, ok := a.sessions[rideID]; if !ok || s.Ended()`
  unfoldable pub live_session : Aggregator F → String → Option (Session F)
  live_session a ride_id = elim (lookup ride_id a.sessions) [
    | none ↦ none
    | some s ↦ if s.ended then none else some s
  ]

  unfoldable pub active_for_rider_locked : Aggregator F → String → Option (Session F)
  unfolding live_session
  active_for_rider_locked a rider_id = elim (lookup rider_id a.by_rider) [
    | none ↦ none
    | some ride_id ↦ live_session a ride_id
  ]

  unfoldable pub active_ride_for_rider : Aggregator F → String → Option String
  active_ride_for_rider a rider_id = elim (active_for_rider_locked a rider_id) [
    | none ↦ none
    | some s ↦ some s.id
  ]

  unfoldable pub set_tier : Aggregator F → String → Tier → Aggregator F
  set_tier a rider_id tier = elim (active_for_rider_locked a rider_id) [
    | none ↦ a
    | some s ↦ record a { sessions = insert s.id (Step.set_tier s tier) a.sessions }
  ]

  unfoldable pub remove_locked : Aggregator F → String → Aggregator F × Option (Session F)
  remove_locked a ride_id = elim (lookup ride_id a.sessions) [
    | none ↦ (a, none)
    | some s ↦ (
      record a {
        sessions = delete ride_id a.sessions;
        by_rider =
            if str_eq (ride_of_rider (lookup s.rider_id a.by_rider)) ride_id
            then delete s.rider_id a.by_rider
            else a.by_rider;
      },
      some s,
    )
  ]

  count_live : Dict (Session F) → ℕ
  count_live [] = 0
  count_live ((id, s) ∷ rest) = let n = count_live rest in if s.ended then n else suc n

  unfoldable pub active_count : Aggregator F → ℕ
  unfolding count_live
  active_count a = count_live a.sessions

  unfoldable pub live_key : Aggregator F → String → Option TripKey
  unfolding live_session
  live_key a ride_id = elim (live_session a ride_id) [ none ↦ none | some s ↦ some s.key ]

  -- the reason and whether the ride has run out of time
  unfoldable pub expiry : Session F → Time → Option EndReason
  unfolding last_accepted_at
  expiry s now =
      let accepted = last_accepted_at s in
      let last = if is_zero accepted then s.started_at else accepted in
      if ltb_ℤ (pos max_ride_duration) (time_sub now s.started_at)
      then some end_max_duration
      else if ltb_ℤ (pos idle_timeout) (time_sub now last)
      then some end_idle
      else none

  -- the body of the loop of `Reap` for one session
  unfoldable pub reap_session : Time → Session F → Session F
  reap_session now s =
      if s.ended
      then s
      else elim (expiry s now) [ none ↦ s | some reason ↦ end_session s reason now ]

  unfoldable pub reap_sessions : Time → Dict (Session F) → Dict (Session F)
  unfolding reap_session
  reap_sessions now [] = []
  reap_sessions now ((id, s) ∷ rest) = (id, reap_session now s) ∷ reap_sessions now rest

  unfoldable pub ended_ids : Dict (Session F) → List String
  ended_ids [] = []
  ended_ids ((id, s) ∷ rest) = let ids = ended_ids rest in if s.ended then id ∷ ids else ids

  unfoldable pub reap : Aggregator F → Time → Aggregator F × List String
  unfolding reap_sessions ended_ids
  reap a now =
      let sessions = reap_sessions now a.sessions in
      (record a { sessions = sessions }, sort str_leb (ended_ids sessions))
