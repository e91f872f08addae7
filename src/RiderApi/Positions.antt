-- ===== src/RiderApi/Positions.antt =====
-- rider_handlers.go: handlePositions.
use vehicle_positions.Prelude.{
  ◌==◌, String, Bool, true, false, not, ◌&&◌, Option, none, some, List, [], ◌∷◌, length, ltb,
  if◌then◌else◌,
}
use vehicle_positions.Prelude.Time.{Time}
use vehicle_positions.Prelude.Float.{FloatOps}
use vehicle_positions.Rider.Verify.{Point, TrustedVehicle}
use vehicle_positions.Rider.Session.{TripKey, end_idle, is_blocked}
use vehicle_positions.Rider.Session.Step.{summary_ended}
use vehicle_positions.Rider.Aggregator.{RideSnapshot, live_key}
use vehicle_positions.Rider.Aggregator.Batch.{BatchResult, apply_batch_locked}
use vehicle_positions.Rides.{Fault, Reply, ride_not_found, ok}
use vehicle_positions.Rides.Store.{record_ride_points}
use vehicle_positions.RiderApi.{
  PositionUpload, rider_max_batch_size, state_string, corroboration_string, validate_position,
  point_of, ride_point_records, progress_of,
}
use vehicle_positions.RiderApi.Service.{
  Live, Filer, finish, Resolved, refused, resolved, resolve_ride,
}
use vehicle_positions.RiderApi.Handlers.{
  Decoded, undecoded, decoded, PositionsResponse, Response, answer_error, judged, server_error,
  Call,
}

-- The parts of one call: what runs before the batch takes the lock again and before the points are
-- stored, the statements that fail and NOW(), and the two places that end a ride.
pub record Reporter (F : Type 0) : Type 0 where
  pub lookup_trusted : TripKey → Option (TrustedVehicle F)
  pub before_batch : Live F → Live F
  pub before_record : Live F → Live F
  pub fault : Fault
  pub db_now : Time
  pub when_ended : Filer F
  pub when_refused : Filer F

-- What storing the points led to: nothing to store or stored, ErrRideNotFound, or another error.
pub data Stored : Type 0 where
  stored refused_as_ended not_stored : Stored

abbrev pub stored_of : Reply Unit → Stored
stored_of (ok done) = stored
stored_of ride_not_found = refused_as_ended
stored_of _ = not_stored

abbrev pub is_empty : {A : Type 0} → List A → Bool
is_empty [] = true
is_empty (_ ∷ _) = false

module _ {F : Type 0} where
  -- the ride that the engine ended itself
  unfoldable pub file_ended : Reporter F → RideSnapshot → BatchResult F → Live F → Live F
  unfolding summary_ended finish
  file_ended c snap res st =
      let filed = finish c.when_ended snap.id res.ride_summary.end_reason st in
      if summary_ended res.ride_summary then filed.0 else st

  abbrev pub positions_response : BatchResult F → PositionsResponse
  positions_response res = record {
    state = state_string res.ride_summary.state;
    published = res.published;
    corroboration = corroboration_string res.corroboration;
    accepted = res.accepted;
    ignored = res.ignored_count;
    off_route_streak = res.off_route_count;
    ended = summary_ended res.ride_summary;
    end_reason = res.ride_summary.end_reason;
  }

  -- the answer, once the ride that ended is filed
  abbrev pub answer_batch :
      Reporter F → RideSnapshot → BatchResult F → Live F → Stored → Live F × Response F
  answer_batch c snap res st refused_as_ended =
      ((finish c.when_refused snap.id end_idle st).0, answer_error 409 "ride ended")
  answer_batch c snap res st not_stored = (st, server_error)
  answer_batch c snap res st stored = (st, judged (positions_response res))

module _ {F : Type 0} ⦃fl : FloatOps F⦄ where
  -- RecordRidePoints, where there is something to store
  unfoldable pub store_batch : Reporter F → RideSnapshot → BatchResult F → Live F → Live F × Stored
  unfolding record_ride_points ride_point_records progress_of
  store_batch c snap res st =
      let wrote =
        record_ride_points st.db c.fault snap.id snap.rider_id (ride_point_records res.points)
          (progress_of res.ride_summary) c.db_now in
      if not (is_blocked snap.tier) && not (is_empty res.points)
      then (record st { db = wrote.0 }, stored_of wrote.1)
      else (st, stored)

  abbrev pub after_batch :
      Reporter F → RideSnapshot → Live F → Option (BatchResult F) → Live F × Response F
  after_batch c snap st none = (st, answer_error 409 "ride ended")
  after_batch c snap st (some res) =
      let wrote = store_batch c snap res (c.before_record st) in
      answer_batch c snap res (file_ended c snap res wrote.0) wrote.1

  abbrev pub batch_on :
      Reporter F → RideSnapshot → List (Point F) → Time → Live F → TripKey → Live F × Response F
  batch_on c snap points now st key =
      let out = apply_batch_locked st.agg snap.id key points (c.lookup_trusted key) now in
      after_batch c snap (record st { agg = out.0 }) out.1

  -- ApplyBatch, which lets go of the lock between reading the trip and folding the points, and what
  -- follows.
  unfoldable pub judge_batch :
      Reporter F → RideSnapshot → List (Point F) → Time → Live F → Live F × Response F
  unfolding live_key apply_batch_locked store_batch file_ended finish
  judge_batch c snap points now st = elim (live_key st.agg snap.id) [
    | none ↦ after_batch c snap st none
    | some key ↦ batch_on c snap points now (c.before_batch st) key
  ]

  -- the loop over the positions: the first message, or the points
  unfoldable pub take_positions : List (PositionUpload F) → Option String × List (Point F)
  unfolding validate_position point_of
  take_positions [] = (none, [])
  take_positions (p ∷ rest) =
      let taken = take_positions rest in
      elim (validate_position p) [
        | some msg ↦ (some msg, [])
        | none ↦ (taken.0, point_of p ∷ taken.1)
      ]

  abbrev pub judge_taken :
      Call
      → Reporter F
      → RideSnapshot
      → Live F
      → Option String × List (Point F)
      → Live F × Response F
  judge_taken call c snap st (some msg, points) = (st, answer_error 400 msg)
  judge_taken call c snap st (none, points) = judge_batch c snap points call.now st

  abbrev pub positions_decoded :
      Call
      → Reporter F
      → RideSnapshot
      → Live F
      → Decoded (List (PositionUpload F))
      → Live F × Response F
  positions_decoded call c snap st (undecoded status msg) = (st, answer_error status msg)
  positions_decoded call c snap st (decoded uploads) =
      if length uploads == 0
      then (st, answer_error 400 "positions must contain at least one position")
      else if ltb rider_max_batch_size (length uploads)
      then (st, answer_error 400 "too many positions in one report")
      else judge_taken call c snap st (take_positions uploads)

  abbrev pub positions_resolved :
      Call
      → Reporter F
      → Live F
      → Decoded (List (PositionUpload F))
      → Resolved
      → Live F × Response F
  positions_resolved call c st body (refused status msg) = (st, answer_error status msg)
  positions_resolved call c st body (resolved snap) = positions_decoded call c snap st body

  abbrev pub positions_by :
      Call
      → Reporter F
      → Live F
      → String
      → Decoded (List (PositionUpload F))
      → Option String
      → Live F × Response F
  positions_by call c st ride_id body none = (st, answer_error 401 "invalid token")
  positions_by call c st ride_id body (some rider_id) =
      if not call.allowed
      then (st, answer_error 429 "too many position reports, slow down")
      else positions_resolved call c st body (resolve_ride call.is_uuid st ride_id rider_id)

  unfoldable pub handle_positions :
      Call → Reporter F → Live F → String → Decoded (List (PositionUpload F)) → Live F × Response F
  unfolding resolve_ride take_positions judge_batch
  handle_positions call c st ride_id body = positions_by call c st ride_id body call.caller
