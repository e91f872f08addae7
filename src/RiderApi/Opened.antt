-- ===== src/RiderApi/Opened.antt =====
-- rider_handlers.go: handleStartRide and handleRegister as steps.
use vehicle_positions.Prelude.{
  String, Bool, not, ◌&&◌, Option, none, some, ◌≡◌, refl, sym, ap, ◌∙◌, str_eq, Option-cases,
  Bool-cases, inl, inr, subst, if◌then◌else◌,
}
use vehicle_positions.Prelude.Float.{FloatOps}
use vehicle_positions.Prelude.Time.{Time}
use vehicle_positions.Prelude.Dict.{lookup}
use vehicle_positions.Rider.Schedule.{TripInfo, Index, active_on, service_date_for}
use vehicle_positions.Rider.Reputation.{parse_tier}
use vehicle_positions.Rider.Aggregator.{active_ride_for_rider}
use vehicle_positions.Rides.{
  Rider, Ride, Db, Reply, failed, rider_not_found, ride_not_found, active_ride_exists, ok,
}
use vehicle_positions.Rides.Store.{start_ride, get_rider, register_rider}
use vehicle_positions.Rides.Started.{StartedAs, start_ride-StartedAs}
use vehicle_positions.RiderApi.{StartRideRequest, RiderRegisterRequest, validate_registration}
use vehicle_positions.RiderApi.Service.{Live, Finished, finished, not_active, not_filed, finish}
use vehicle_positions.RiderApi.Handlers.{
  Decoded, undecoded, decoded, Call, after_register, register_decoded, handle_register,
}
use vehicle_positions.RiderApi.Starts.{
  Starter, validate_start, ride_to_store, after_start, store_start, after_load, load_and_start,
  after_supersede, supersede_and_start, start_on_trip, start_decoded, start_by, handle_start_ride,
}
use vehicle_positions.RiderApi.Linked.{Linked}
use vehicle_positions.RiderApi.Steps.{opens, enrols, Steps, here, Steps-trans, one}
use vehicle_positions.RiderApi.Keeping.{Steps-Linked}
use vehicle_positions.RiderApi.Filing.{Interleaved, finish-Steps}

module _ {F : Type 0} where
  after_register-db :
      (token : Option String) (result : Db F × Reply (Rider × Bool))
      → (after_register token result).0 ≡ result.0
  after_register-db none (db, ok (rd, created)) = refl
  after_register-db (some t) (db, ok (rd, created)) = refl
  after_register-db none (db, failed) = refl
  after_register-db (some t) (db, failed) = refl
  after_register-db none (db, rider_not_found) = refl
  after_register-db (some t) (db, rider_not_found) = refl
  after_register-db none (db, ride_not_found) = refl
  after_register-db (some t) (db, ride_not_found) = refl
  after_register-db none (db, active_ride_exists) = refl
  after_register-db (some t) (db, active_ride_exists) = refl

module _ {F : Type 0} ⦃fl : FloatOps F⦄ where
  pub record StartInterleaved (c : Starter F) : Type 0 where
    pub superseding : Interleaved c.superseding
    pub loading : (st : Live F) → Linked st → Steps st (c.before_load st)
    pub starting : (st : Live F) → Linked st → Steps st (c.before_start st)

  -- A start that is refused leaves the tables as they are.
  after_start-Steps :
      (trip : TripInfo F) (rd : Rider) (st : Live F) (broken : Bool) (ride : Ride) (now : Time)
      (result : Db F × Reply Ride)
      → result ≡ start_ride st.db broken ride now
      → StartedAs st.db ride now result
      → Steps st (after_start trip rd (record st { db = result.0 }) result.1).0
  after_start-Steps trip rd st broken ride now (db', ok row) e f = one (
      opens broken ride row (some trip) (parse_tier rd.tier) now
        (ap (λ (p : Db F × Reply Ride). p.1) (sym e))
        (ap (λ (p : Db F × Reply Ride). (after_start trip rd (record st { db = p.0 }) (ok row)).0)
          e))
  after_start-Steps trip rd st broken ride now (db', active_ride_exists) e f =
      subst (λ d. Steps st (record st { db = d })) (sym f.0) here
  after_start-Steps trip rd st broken ride now (db', failed) e f =
      subst (λ d. Steps st (record st { db = d })) (sym f) here
  after_start-Steps trip rd st broken ride now (db', rider_not_found) e f = elim f [ ]
  after_start-Steps trip rd st broken ride now (db', ride_not_found) e f = elim f [ ]

  store_start-Steps :
      (c : Starter F) (trip : TripInfo F) (rd : Rider) (ride : Ride) (st : Live F)
      → Steps st (store_start c trip rd ride st).0
  unfolding store_start
  store_start-Steps c trip rd ride st =
      after_start-Steps trip rd st c.start_fails ride c.db_now
        (start_ride st.db c.start_fails ride c.db_now) refl
        (start_ride-StartedAs st.db c.start_fails ride c.db_now)

  after_load-Steps :
      (c : Starter F) (trip : TripInfo F) (ride : Ride) (st : Live F) (r : Reply Rider)
      → StartInterleaved c
      → Linked st
      → Steps st (after_load c trip ride st r).0
  after_load-Steps c trip ride st (ok rd) gaps h =
      Steps-trans (gaps.starting st h) (store_start-Steps c trip rd ride (c.before_start st))
  after_load-Steps c trip ride st rider_not_found gaps h = here
  after_load-Steps c trip ride st failed gaps h = here
  after_load-Steps c trip ride st ride_not_found gaps h = here
  after_load-Steps c trip ride st active_ride_exists gaps h = here

  load_and_start-Steps :
      (c : Starter F) (trip : TripInfo F) (ride : Ride) (st : Live F)
      → StartInterleaved c
      → Linked st
      → Steps st (load_and_start c trip ride st).0
  unfolding load_and_start
  load_and_start-Steps c trip ride st gaps h =
      after_load-Steps c trip ride st (get_rider st.db c.load_fails ride.rider_id) gaps h

  after_supersede-Steps :
      (c : Starter F) (trip : TripInfo F) (ride : Ride) (p : Live F × Finished)
      → StartInterleaved c
      → Linked p.0
      → Steps p.0 (after_supersede c trip ride p).0
  after_supersede-Steps c trip ride (st, finished rd) gaps h =
      Steps-trans (gaps.starting st h) (store_start-Steps c trip rd ride (c.before_start st))
  after_supersede-Steps c trip ride (st, not_active) gaps h =
      let gap = gaps.loading st h in
      Steps-trans gap
        (load_and_start-Steps c trip ride (c.before_load st) gaps (Steps-Linked gap h))
  after_supersede-Steps c trip ride (st, not_filed) gaps h = here

  supersede_and_start-Steps :
      (c : Starter F) (trip : TripInfo F) (ride : Ride) (st : Live F)
      → StartInterleaved c
      → Linked st
      → Steps st (supersede_and_start c trip ride st).0
  unfolding supersede_and_start
  supersede_and_start-Steps c trip ride st gaps h =
      elim (Option-cases (active_ride_for_rider st.agg ride.rider_id)) [
        | inl idle ↦
            let gap = gaps.loading st h in
            rw (idle, supersede_and_start)
              (Steps-trans gap
                (load_and_start-Steps c trip ride (c.before_load st) gaps (Steps-Linked gap h)))
        | inr (old, riding) ↦
            let ss = finish-Steps c.superseding old "superseded" st gaps.superseding h in
            rw (riding, supersede_and_start)
              (Steps-trans ss (
                after_supersede-Steps c trip ride (finish c.superseding old "superseded" st) gaps
                  (Steps-Linked ss h)))
      ]

  start_on_trip-Steps :
      (call : Call) (c : Starter F) (ix : Index F) (st : Live F) (rider_id : String)
      (req : StartRideRequest) (trip : Option (TripInfo F))
      → StartInterleaved c
      → Linked st
      → Steps st (start_on_trip call c ix st rider_id req trip).0
  start_on_trip-Steps call c ix st rider_id req none gaps h = here
  start_on_trip-Steps call c ix st rider_id req (some trip) gaps h =
      let start_date =
        if str_eq req.start_date ""
        then service_date_for ix (some trip) call.now
        else req.start_date in
      let route_id = if str_eq req.route_id "" then trip.route_id else req.route_id in
      elim (Bool-cases (active_on ix (some trip) start_date)) [
        | inr off ↦ rw off here
        | inl runs ↦
            elim (Bool-cases
              (not (str_eq req.route_id "") && not (str_eq req.route_id trip.route_id))) [
                | inl other ↦ rw (runs, other) here
                | inr fits ↦
                    rw (runs, fits)
                      (supersede_and_start-Steps c trip
                        (ride_to_store c.new_id rider_id req start_date route_id) st gaps h)
              ]
      ]

  start_by-Steps :
      (call : Call) (c : Starter F) (index : Option (Index F)) (st : Live F)
      (body : Decoded StartRideRequest) (caller : Option String)
      → StartInterleaved c
      → Linked st
      → Steps st (start_by call c index st body caller).0
  start_by-Steps call c index st body none gaps h = here
  start_by-Steps call c index st (undecoded status msg) (some rider_id) gaps h =
      elim (Bool-cases call.allowed) [
        | inl let_in ↦ rw let_in here
        | inr held_off ↦ rw held_off here
      ]
  start_by-Steps call c none st (decoded req) (some rider_id) gaps h =
      elim (Bool-cases call.allowed) [
        | inr held_off ↦ rw held_off here
        | inl let_in ↦ elim (Option-cases (validate_start req)) [
          | inl fine ↦ rw (let_in, fine, start_decoded) here
          | inr (msg, wrong) ↦ rw (let_in, wrong, start_decoded) here
        ]
      ]
  start_by-Steps call c (some ix) st (decoded req) (some rider_id) gaps h =
      elim (Bool-cases call.allowed) [
        | inr held_off ↦ rw held_off here
        | inl let_in ↦ elim (Option-cases (validate_start req)) [
          | inr (msg, wrong) ↦ rw (let_in, wrong, start_decoded) here
          | inl fine ↦
              rw (let_in, fine, start_decoded)
                (start_on_trip-Steps call c ix st rider_id req (lookup req.trip_id ix.trips) gaps h)
        ]
      ]

  pub handle_start_ride-Steps :
      (call : Call) (c : Starter F) (index : Option (Index F)) (st : Live F)
      (body : Decoded StartRideRequest)
      → StartInterleaved c
      → Linked st
      → Steps st (handle_start_ride call c index st body).0
  unfolding handle_start_ride
  handle_start_ride-Steps call c index st body gaps h =
      start_by-Steps call c index st body call.caller gaps h

  -- The tables after a registration are those that the store leaves.
  registered-Steps :
      (broken : Bool) (id installation platform app_id app_version : String) (now : Time)
      (token : Option String) (st : Live F) (result : Db F × Reply (Rider × Bool))
      → result ≡ register_rider st.db broken id installation platform app_id app_version now
      → Steps st (record st { db = (after_register token result).0 })
  registered-Steps broken id installation platform app_id app_version now token st result e = one (
      enrols broken id installation platform app_id app_version now (
        ap (λ d. record st { db = d })
          (after_register-db token result ∙ ap (λ (p : Db F × Reply (Rider × Bool)). p.0) e)))

  register_decoded-Steps :
      (call : Call) (broken : Bool) (new_id : String) (token : Option String) (now : Time)
      (st : Live F) (body : Decoded RiderRegisterRequest)
      → Steps st (record st { db = (register_decoded call broken new_id token now st.db body).0 })
  register_decoded-Steps call broken new_id token now st (undecoded status msg) = here
  register_decoded-Steps call broken new_id token now st (decoded req) =
      elim (Option-cases (validate_registration call.is_uuid req)) [
        | inr (msg, wrong) ↦ rw (wrong, register_decoded) here
        | inl fine ↦
            rw (fine, register_decoded)
              (registered-Steps broken new_id req.installation_id req.platform req.app_id
                req.app_version now token st
                (register_rider st.db broken new_id req.installation_id req.platform req.app_id
                  req.app_version now)
                refl)
      ]

  pub handle_register-Steps :
      (call : Call) (broken : Bool) (new_id : String) (token : Option String) (now : Time)
      (st : Live F) (body : Decoded RiderRegisterRequest)
      → Steps st (record st { db = (handle_register call broken new_id token now st.db body).0 })
  unfolding handle_register
  handle_register-Steps call broken new_id token now st body = elim (Bool-cases call.allowed) [
    | inl let_in ↦ rw let_in (register_decoded-Steps call broken new_id token now st body)
    | inr held_off ↦ rw held_off here
  ]
