-- ===== src/RiderApi/Handlers.antt =====
-- rider_handlers.go: the handlers. The rate limiters, which `Limits` has, and the decoding of the JSON
-- are arguments: whether the request is let in and what it decodes to.
use vehicle_positions.Prelude.{
  ℕ, ◌/◌, String, Bool, not, ◌&&◌, Option, none, some, List, is_some, str_eq, if◌then◌else◌,
}
use vehicle_positions.Prelude.Int.{pos_part}
use vehicle_positions.Prelude.Time.{Time, second, time_sub}
use vehicle_positions.Prelude.Float.{FloatOps}
use vehicle_positions.Prelude.Dict.{lookup}
use vehicle_positions.Rider.Schedule.{Index, service_date}
use vehicle_positions.Rider.Session.{EndReason, TripKey, parse_client_end_reason}
use vehicle_positions.Rider.Aggregator.{RideSnapshot}
use vehicle_positions.Rider.Aggregator.Estimate.{TripEstimate, trip_status, estimates, is_covered}
use vehicle_positions.Rides.{Rider, Db, Reply, ok}
use vehicle_positions.Rides.Store.{register_rider}
use vehicle_positions.RiderApi.{
  RiderRegisterRequest, RideDestination, rider_report_interval_seconds, rider_max_batch_size,
  is_service_date, validate_registration,
}
use vehicle_positions.RiderApi.Service.{
  Live, Filer, Finished, finished, not_active, not_filed, finish, Resolved, refused, resolved,
  resolve_ride,
}

-- `decodeRiderJSON`: the status and the message that it answers, or what the body says.
pub data Decoded (A : Type 0) : Type 0 where
  undecoded : ℕ → String → Decoded A
  decoded : A → Decoded A

pub record RideSummaryJson : Type 0 where
  pub points : ℕ
  pub matched : ℕ
  pub corroborated : ℕ
  pub duration_seconds : ℕ

pub record PositionsResponse : Type 0 where
  pub state : String
  pub published : Bool
  pub corroboration : String
  pub accepted : ℕ
  pub ignored : ℕ
  pub off_route_streak : ℕ
  pub ended : Bool
  pub end_reason : String

pub data Response (F : Type 0) : Type 0 where
  answer_error : ℕ → String → Response F
  registered : ℕ → String → String → ℕ → ℕ → Response F
  ride_started : String → String → ℕ → ℕ → Option (RideDestination F) → Response F
  ride_ended : RideSummaryJson → Response F
  judged : PositionsResponse → Response F
  status_of_trip : TripKey → Bool → Bool → ℕ → Response F

-- What a request finds: who calls (`riderIDFromContext`), whether the limiter lets it in, and the
-- service's clock when it is read first and, where it is read again at the end, then.
pub record Call : Type 0 where
  pub caller : Option String
  pub allowed : Bool
  pub is_uuid : String → Bool
  pub now : Time
  pub later : Time

abbrev pub server_error : {F : Type 0} → Response F
server_error = answer_error 500 "internal server error"

module _ {F : Type 0} where
  -- the tail of the handler, once the ride has ended or not
  abbrev pub after_finish : Call → RideSnapshot → Live F × Finished → Live F × Response F
  after_finish call snap (st, finished rd) = (
    st,
    ride_ended (record {
      points = snap.ride_summary.counts.total;
      matched = snap.ride_summary.counts.matched;
      corroborated = snap.ride_summary.counts.corroborated;
      duration_seconds = pos_part (time_sub call.later snap.started_at) / second;
    }),
  )
  after_finish call snap (st, not_active) = (st, answer_error 409 "ride ended")
  after_finish call snap (st, not_filed) = (st, server_error)

  abbrev pub end_resolved : Call → Filer F → Live F → EndReason → Resolved → Live F × Response F
  end_resolved call c st reason (refused status msg) = (st, answer_error status msg)
  end_resolved call c st reason (resolved snap) =
      after_finish call snap (finish c snap.id reason st)

  abbrev pub end_decoded :
      Call → Filer F → Live F → String → String → Decoded String → Live F × Response F
  end_decoded call c st ride_id rider_id (undecoded status msg) = (st, answer_error status msg)
  end_decoded call c st ride_id rider_id (decoded reason) =
      let parsed = parse_client_end_reason reason in
      if not parsed.1
      then (st, answer_error 400 "unknown end reason")
      else end_resolved call c st parsed.0 (resolve_ride call.is_uuid st ride_id rider_id)

  abbrev pub end_by :
      Call → Filer F → Live F → String → Decoded String → Option String → Live F × Response F
  end_by call c st ride_id body none = (st, answer_error 401 "invalid token")
  end_by call c st ride_id body (some rider_id) =
      if not call.allowed
      then (st, answer_error 429 "too many ride changes, slow down")
      else end_decoded call c st ride_id rider_id body

  unfoldable pub handle_end_ride :
      Call → Filer F → Live F → String → Decoded String → Live F × Response F
  unfolding parse_client_end_reason resolve_ride finish
  handle_end_ride call c st ride_id body = end_by call c st ride_id body call.caller

  -- the rider's token and the first answer of `handleRegister`, once the store has answered
  abbrev pub after_register : Option String → Db F × Reply (Rider × Bool) → Db F × Response F
  after_register none (db, ok (rd, created)) = (db, server_error)
  after_register (some token) (db, ok (rd, created)) = (
    db,
    registered (if created then 201 else 200) rd.id token rider_report_interval_seconds
        rider_max_batch_size,
  )
  after_register token (db, _) = (db, server_error)

  abbrev pub register_decoded :
      Call
      → Bool
      → String
      → Option String
      → Time
      → Db F
      → Decoded RiderRegisterRequest
      → Db F × Response F
  register_decoded call broken new_id token db_now db (undecoded status msg) =
      (db, answer_error status msg)
  register_decoded call broken new_id token db_now db (decoded req) =
      elim (validate_registration call.is_uuid req) [
        | some msg ↦ (db, answer_error 400 msg)
        | none ↦ after_register token (
            register_rider db broken new_id req.installation_id req.platform req.app_id
              req.app_version db_now)
      ]

  -- `new_id` is uuid.NewString(), `token` what generateRiderJWT gives, if it does.
  unfoldable pub handle_register :
      Call
      → Bool
      → String
      → Option String
      → Time
      → Db F
      → Decoded RiderRegisterRequest
      → Db F × Response F
  unfolding validate_registration register_rider
  handle_register call broken new_id token db_now db body =
      if not call.allowed
      then (db, answer_error 429 "too many registrations, try again later")
      else register_decoded call broken new_id token db_now db body

module _ {F : Type 0} ⦃fl : FloatOps F⦄ where
  abbrev pub status_on :
      Live F → Option (TripKey → Bool) → Time → String → String → Index F → Response F
  status_on st covered now trip_id asked ix =
      let start_date = if str_eq asked "" then service_date ix now else asked in
      let key : TripKey = record { trip_id = trip_id; start_date = start_date } in
      let told = trip_status st.agg key now covered in
      if not (str_eq asked "") && not (is_service_date asked)
      then answer_error 400 "start_date must be YYYYMMDD"
      else if not (is_some (lookup trip_id ix.trips))
      then answer_error 404 "unknown trip"
      else status_of_trip key (is_covered covered key) told.0 told.1

  unfoldable pub handle_trip_status :
      Live F → Option (Index F) → Option (TripKey → Bool) → Time → String → String → Response F
  unfolding service_date is_service_date trip_status
  handle_trip_status st none covered now trip_id asked =
      answer_error 503 "schedule data unavailable"
  handle_trip_status st (some ix) covered now trip_id asked =
      status_on st covered now trip_id asked ix

  -- `Estimates`
  unfoldable pub service_estimates : Live F → Option (TripKey → Bool) → Time → List (TripEstimate F)
  unfolding estimates
  service_estimates st covered now = estimates st.agg now covered
