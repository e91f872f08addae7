-- ===== src/RiderApi/Reachable.antt =====
-- rider_handlers.go and rider_wiring.go: the service from its start on, whatever requests it serves.
use mathlib.Core.Option.{some-injective}
use vehicle_positions.Prelude.{
  String, Bool, true, false, Option, some, List, ◌≡◌, refl, sym, ◌∙◌, subst,
}
use vehicle_positions.Prelude.Float.{FloatOps}
use vehicle_positions.Prelude.Time.{Time}
use vehicle_positions.Prelude.Dict.{lookup}
use vehicle_positions.Rider.Schedule.{Index, Zone}
use vehicle_positions.Rider.Verify.{Thresholds}
use vehicle_positions.Rider.Session.{Session}
use vehicle_positions.Rider.Aggregator.{new_aggregator}
use vehicle_positions.Rider.Aggregator.Moves.{new_aggregator-RegistryInv}
use vehicle_positions.Rides.{Db, swept}
use vehicle_positions.Rides.Finds.{map_rows-cases, swept-IsEnded}
use vehicle_positions.Rides.Store.{delete_ride_points_before, end_all_active_rides}
use vehicle_positions.Rides.Sound.{IsSound, end_all_active_rides-IsSound}
use vehicle_positions.RiderApi.{PositionUpload, StartRideRequest, RiderRegisterRequest}
use vehicle_positions.RiderApi.Service.{Live, Filer, reap_tick, new_rider_runtime}
use vehicle_positions.RiderApi.Handlers.{Decoded, Call, handle_end_ride, handle_register}
use vehicle_positions.RiderApi.Positions.{Reporter, handle_positions}
use vehicle_positions.RiderApi.Starts.{Starter, handle_start_ride}
use vehicle_positions.RiderApi.Linked.{Linked}
use vehicle_positions.RiderApi.Steps.{Steps, forgets, one}
use vehicle_positions.RiderApi.Keeping.{Steps-Linked}
use vehicle_positions.RiderApi.Filing.{Interleaved, reap_tick-Steps}
use vehicle_positions.RiderApi.Requests.{
  ReportInterleaved, handle_end_ride-Steps, handle_positions-Steps,
}
use vehicle_positions.RiderApi.Opened.{
  StartInterleaved, handle_start_ride-Steps, handle_register-Steps,
}

module _ {F : Type 0} ⦃fl : FloatOps F⦄ where
  -- One request or one tick of a background loop.
  pub data Serves (st st' : Live F) : Type 0 where
    registers :
        (call : Call) (broken : Bool) (new_id : String) (token : Option String) (now : Time)
        (body : Decoded RiderRegisterRequest)
        → st' ≡ record st { db = (handle_register call broken new_id token now st.db body).0 }
        → Serves st st'
    starts :
        (call : Call) (c : Starter F) (index : Option (Index F)) (body : Decoded StartRideRequest)
        → StartInterleaved c
        → st' ≡ (handle_start_ride call c index st body).0
        → Serves st st'
    reports :
        (call : Call) (c : Reporter F) (ride_id : String) (body : Decoded (List (PositionUpload F)))
        → ReportInterleaved c
        → st' ≡ (handle_positions call c st ride_id body).0
        → Serves st st'
    ends :
        (call : Call) (c : Filer F) (ride_id : String) (body : Decoded String)
        → Interleaved c
        → st' ≡ (handle_end_ride call c st ride_id body).0
        → Serves st st'
    reaps :
        (c : String → Filer F) (now : Time)
        → ((id : String) → Interleaved (c id))
        → st' ≡ reap_tick c now st
        → Serves st st'
    prunes :
        (broken : Bool) (cutoff : Time)
        → st' ≡ record st { db = (delete_ride_points_before st.db broken cutoff).0 }
        → Serves st st'

  pub data Service (st : Live F) : Live F → Type 0 where
    here : Service st st
    next : {b c : Live F} → Service st b → Serves b c → Service st c

  Serves-Steps : {st st' : Live F} → Serves st st' → Linked st → Steps st st'
  Serves-Steps {st} (registers call broken new_id token now body e) h =
      subst (Steps st) (sym e) (handle_register-Steps call broken new_id token now st body)
  Serves-Steps {st} (starts call c index body gaps e) h =
      subst (Steps st) (sym e) (handle_start_ride-Steps call c index st body gaps h)
  Serves-Steps {st} (reports call c ride_id body gaps e) h =
      subst (Steps st) (sym e) (handle_positions-Steps call c st ride_id body gaps h)
  Serves-Steps {st} (ends call c ride_id body gaps e) h =
      subst (Steps st) (sym e) (handle_end_ride-Steps call c st ride_id body gaps h)
  Serves-Steps {st} (reaps c now gaps e) h =
      subst (Steps st) (sym e) (reap_tick-Steps c now st gaps h)
  Serves-Steps {st} (prunes broken cutoff e) h =
      subst (Steps st) (sym e) (one (forgets broken cutoff refl))

  Service-Linked : {st st' : Live F} → Service st st' → Linked st → Linked st'
  Service-Linked here h = h
  Service-Linked (next ss s) h = let h' = Service-Linked ss h in Steps-Linked (Serves-Steps s h') h'

  started-Linked :
      (th : Thresholds F) (tz : Zone) (db : Db F) (broken : Bool) (now : Time) (st : Live F)
      → IsSound db
      → new_rider_runtime th tz db broken now ≡ some st
      → Linked st
  unfolding new_rider_runtime end_all_active_rides new_aggregator lookup
  started-Linked th tz db true now st h e = cc e
  started-Linked th tz db false now st h e =
      subst (λ (u : Live F). Linked u) (some-injective _ _ e)
        (record {
          registry = new_aggregator-RegistryInv th tz;
          tables = end_all_active_rides-IsSound db false "server_restart" now h;
          held = λ id r there live.
              let (s, before, q) =
                map_rows-cases (swept "server_restart" now) id db.rides r there in
              let (over, some_end, same, rider) =
                swept-IsEnded "server_restart" now s (h.rides.dated id s before) in
              cc (over, q, live);
          rowed = λ id s filed. cc filed;
        })

  -- From the start of the server on tables that are sound, whatever requests are served and reaps run,
  -- with whatever failures and however other requests run between their calls: registry and tables
  -- keep their invariants, a ride that is active in the tables is registered under its rider, so that
  -- it is ended and filed in time, and a registered ride has its row, active while the ride is live.
  pub new_rider_runtime-Linked :
      (th : Thresholds F) (tz : Zone) (db : Db F) (broken : Bool) (now : Time) (start st : Live F)
      → IsSound db
      → new_rider_runtime th tz db broken now ≡ some start
      → Service start st
      → Linked st
  new_rider_runtime-Linked th tz db broken now start st sound e ss =
      Service-Linked ss (started-Linked th tz db broken now start sound e)

  -- One rider rides one vehicle: in every such state, two live rides of one rider are the same ride.
  pub one_live_ride :
      (th : Thresholds F) (tz : Zone) (db : Db F) (broken : Bool) (now : Time) (start st : Live F)
      (a b : String) (s t : Session F)
      → IsSound db
      → new_rider_runtime th tz db broken now ≡ some start
      → Service start st
      → lookup a st.agg.sessions ≡ some s
      → lookup b st.agg.sessions ≡ some t
      → s.ended ≡ false
      → t.ended ≡ false
      → s.rider_id ≡ t.rider_id
      → a ≡ b
  one_live_ride th tz db broken now start st a b s t sound e ss filed filed' live live' same =
      let h = new_rider_runtime-Linked th tz db broken now start st sound e ss in
      let (r, there, rider, active) = h.rowed a s filed in
      let (r', there', rider', active') = h.rowed b t filed' in
      h.tables.rides.alone a b r r' there there' (active live) (active' live')
        (rider ∙ same ∙ sym rider')
