-- ===== src/RiderApi/Starts.antt =====
-- rider_handlers.go: handleStartRide. The starts of one rider are serialised by riderLock, so what
-- runs in between is not another start of the same rider in this process.
use vehicle_positions.Prelude.{
  String, Bool, false, not, ◌&&◌, ◌||◌, Option, none, some, str_eq, if◌then◌else◌,
}
use vehicle_positions.Prelude.Int.{pos}
use vehicle_positions.Prelude.Time.{Time}
use vehicle_positions.Prelude.Dict.{lookup}
use vehicle_positions.Rider.Schedule.{TripInfo, Index, active_on, service_date_for}
use vehicle_positions.Rider.Session.{TripKey}
use vehicle_positions.Rider.Session.Step.{new_session}
use vehicle_positions.Rider.Reputation.{parse_tier}
use vehicle_positions.Rider.Aggregator.{add, active_ride_for_rider}
use vehicle_positions.Rides.{Rider, Ride, Reply, rider_not_found, active_ride_exists, ok}
use vehicle_positions.Rides.Store.{get_rider, start_ride}
use vehicle_positions.RiderApi.{
  StartRideRequest, rider_report_interval_seconds, rider_max_batch_size, too_long, is_service_date,
  validate_vehicle_id, destination_of,
}
use vehicle_positions.RiderApi.Service.{
  Live, Filer, Finished, finished, not_active, not_filed, finish,
}
use vehicle_positions.RiderApi.Handlers.{
  Decoded, undecoded, decoded, Response, answer_error, ride_started, server_error, Call,
}

-- The parts of one start: how the old ride is finished, what runs before the rider is read and before
-- the ride is stored, whether those fail, NOW(), and uuid.NewString().
pub record Starter (F : Type 0) : Type 0 where
  pub superseding : Filer F
  pub before_load : Live F → Live F
  pub load_fails : Bool
  pub before_start : Live F → Live F
  pub start_fails : Bool
  pub db_now : Time
  pub new_id : String

-- the first fault of the request itself
unfoldable pub validate_start : StartRideRequest → Option String
unfolding too_long validate_vehicle_id is_service_date
validate_start req =
    if str_eq req.trip_id "" || too_long req.trip_id
    then some "trip_id is required"
    else if too_long req.route_id
        || too_long req.boarding_stop_id
        || too_long req.destination_stop_id
    then some "identifiers must be at most 100 characters"
    else elim (if str_eq req.vehicle_id "" then none else validate_vehicle_id req.vehicle_id) [
      | some msg ↦ some msg
      | none ↦
          if not (str_eq req.start_date "") && not (is_service_date req.start_date)
          then some "start_date must be YYYYMMDD"
          else none
    ]

-- `&Ride{...}`: the fields that are not named are zero
abbrev pub ride_to_store : String → String → StartRideRequest → String → String → Ride
ride_to_store id rider_id req start_date route_id = record {
  id = id;
  rider_id = rider_id;
  trip_id = req.trip_id;
  start_date = start_date;
  route_id = route_id;
  vehicle_id = req.vehicle_id;
  boarding_stop_id = req.boarding_stop_id;
  destination_stop_id = req.destination_stop_id;
  status = "";
  state = "";
  is_corroborated = false;
  end_reason = "";
  points_total = pos 0;
  points_matched = pos 0;
  points_corroborated = pos 0;
  points_contradicted = pos 0;
  started_at = 0;
  ended_at = none;
}

module _ {F : Type 0} where
  -- the session that is registered for a stored ride
  abbrev pub session_for : TripInfo F → Rider → Ride → Live F → Live F
  session_for trip rd ride st =
      let key : TripKey = record { trip_id = ride.trip_id; start_date = ride.start_date } in
      record st {
        agg = add st.agg (
            new_session ride.id ride.rider_id key (some trip) (parse_tier rd.tier) ride.started_at);
      }

  -- from the store's answer on; storing and registering are one step, as `Steps` says
  abbrev pub after_start : TripInfo F → Rider → Live F → Reply Ride → Live F × Response F
  after_start trip rd st (ok ride) = (
    session_for trip rd ride st,
    ride_started ride.id ride.state rider_report_interval_seconds rider_max_batch_size
        (destination_of trip ride.destination_stop_id),
  )
  after_start trip rd st active_ride_exists =
      (st, answer_error 409 "rider already has an active ride")
  after_start trip rd st _ = (st, server_error)

  unfoldable pub store_start : Starter F → TripInfo F → Rider → Ride → Live F → Live F × Response F
  unfolding start_ride add new_session parse_tier destination_of
  store_start c trip rd ride st =
      let out = start_ride st.db c.start_fails ride c.db_now in
      after_start trip rd (record st { db = out.0 }) out.1

  -- what to do with the rider, once read
  abbrev pub after_load : Starter F → TripInfo F → Ride → Live F → Reply Rider → Live F × Response F
  after_load c trip ride st (ok rd) = store_start c trip rd ride (c.before_start st)
  after_load c trip ride st rider_not_found = (st, answer_error 401 "unknown rider")
  after_load c trip ride st _ = (st, server_error)

  unfoldable pub load_and_start : Starter F → TripInfo F → Ride → Live F → Live F × Response F
  unfolding get_rider store_start
  load_and_start c trip ride st =
      after_load c trip ride st (get_rider st.db c.load_fails ride.rider_id)

  -- once the old ride is finished, or was not there to finish
  abbrev pub after_supersede :
      Starter F → TripInfo F → Ride → Live F × Finished → Live F × Response F
  after_supersede c trip ride (st, finished rd) = store_start c trip rd ride (c.before_start st)
  after_supersede c trip ride (st, not_active) = load_and_start c trip ride (c.before_load st)
  after_supersede c trip ride (st, not_filed) = (st, server_error)

  unfoldable pub supersede_and_start : Starter F → TripInfo F → Ride → Live F → Live F × Response F
  unfolding active_ride_for_rider finish load_and_start store_start
  supersede_and_start c trip ride st = elim (active_ride_for_rider st.agg ride.rider_id) [
    | none ↦ load_and_start c trip ride (c.before_load st)
    | some old ↦ after_supersede c trip ride (finish c.superseding old "superseded" st)
  ]

  abbrev pub start_on_trip :
      Call
      → Starter F
      → Index F
      → Live F
      → String
      → StartRideRequest
      → Option (TripInfo F)
      → Live F × Response F
  start_on_trip call c ix st rider_id req none = (st, answer_error 404 "unknown trip")
  start_on_trip call c ix st rider_id req (some trip) =
      let start_date =
        if str_eq req.start_date ""
        then service_date_for ix (some trip) call.now
        else req.start_date in
      let route_id = if str_eq req.route_id "" then trip.route_id else req.route_id in
      if not (active_on ix (some trip) start_date)
      then (st, answer_error 422 "trip not active on start_date")
      else if not (str_eq req.route_id "") && not (str_eq req.route_id trip.route_id)
      then (st, answer_error 422 "route_id does not match the trip")
      else supersede_and_start c trip (ride_to_store c.new_id rider_id req start_date route_id) st

  abbrev pub start_indexed :
      Call → Starter F → Live F → String → StartRideRequest → Option (Index F) → Live F × Response F
  start_indexed call c st rider_id req none = (st, answer_error 503 "schedule data unavailable")
  start_indexed call c st rider_id req (some ix) =
      start_on_trip call c ix st rider_id req (lookup req.trip_id ix.trips)

  abbrev pub start_decoded :
      Call
      → Starter F
      → Option (Index F)
      → Live F
      → String
      → Decoded StartRideRequest
      → Live F × Response F
  start_decoded call c index st rider_id (undecoded status msg) = (st, answer_error status msg)
  start_decoded call c index st rider_id (decoded req) = elim (validate_start req) [
    | some msg ↦ (st, answer_error 400 msg)
    | none ↦ start_indexed call c st rider_id req index
  ]

  abbrev pub start_by :
      Call
      → Starter F
      → Option (Index F)
      → Live F
      → Decoded StartRideRequest
      → Option String
      → Live F × Response F
  start_by call c index st body none = (st, answer_error 401 "invalid token")
  start_by call c index st body (some rider_id) =
      if not call.allowed
      then (st, answer_error 429 "too many ride changes, slow down")
      else start_decoded call c index st rider_id body

  unfoldable pub handle_start_ride :
      Call → Starter F → Option (Index F) → Live F → Decoded StartRideRequest → Live F × Response F
  unfolding validate_start service_date_for active_on supersede_and_start
  handle_start_ride call c index st body = start_by call c index st body call.caller
