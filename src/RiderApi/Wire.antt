-- ===== src/RiderApi/Wire.antt =====
-- rider_handlers.go: what a client sends against what is stored, and which rides it may address.
mod Examples
use vehicle_positions.Prelude.{
  ℕ, String, Bool, true, false, Option, none, some, ◌≡◌, refl, ap, ◌∙◌, arith, str_eq, Bool-cases,
  inl, inr, if◌then◌else◌,
}
use vehicle_positions.Prelude.Int.{ℤ, pos, negsuc, ◌+ℤ◌, leb_ℤ, min_ℤ, max_ℤ}
use vehicle_positions.Prelude.Time.{time_unix, unix_of, Time}
use vehicle_positions.Prelude.Float.{FloatOps}
use vehicle_positions.Prelude.Dict.{lookup}
use vehicle_positions.Rider.Verify.{Verdict}
use vehicle_positions.Rider.Session.{Session, RideSummary}
use vehicle_positions.Rider.Reputation.{clamp, score_delta, max_score, min_score}
use vehicle_positions.Rider.Aggregator.{snapshot, snapshot_of}
use vehicle_positions.Rides.{Rider, RideOutcome, rescored, int32}
use vehicle_positions.RiderApi.{
  PositionUpload, minus_one, same, or_missing, reported, validate_position, point_of,
  ride_point_record,
}
use vehicle_positions.RiderApi.Service.{Live, refused, resolved, resolve_ride}

unix_round_trip : (s : ℕ) → unix_of (time_unix (pos s)) ≡ pos s
unix_round_trip s = ground arith

unix_of-time_unix : (t : ℤ) → leb_ℤ t (pos 0) ≡ false → unix_of (time_unix t) ≡ t
unix_of-time_unix (pos n) h = unix_round_trip n
unix_of-time_unix (negsuc n) h = ground arith

module _ {F : Type 0} ⦃fl : FloatOps F⦄ where
  -- the device's reading is not the sentinel
  abbrev pub IsReading : Option F → Type 0
  IsReading none = Unit
  IsReading (some v) = same v minus_one ≡ false

  reported-or_missing :
      (o : Option F)
      → same {F = F} minus_one minus_one ≡ true
      → IsReading o
      → reported (or_missing o) ≡ o
  unfolding reported or_missing
  reported-or_missing none eq h = rw eq refl
  reported-or_missing (some v) eq h = rw h refl

  timestamp_kept :
      (p : PositionUpload F)
      → validate_position p ≡ none
      → unix_of (time_unix p.timestamp) ≡ p.timestamp
  unfolding validate_position
  timestamp_kept p valid = unix_of-time_unix p.timestamp (ground arith)

  -- What a device sends is what is stored: for a position that passes validation and whose readings
  -- are not -1, the record of its point has the position, the readings and the time of the upload, and
  -- is empty exactly where the device sent nothing; -1 equals itself as a float.
  pub ride_point_record-point_of :
      (p : PositionUpload F) (v : Verdict F)
      → same {F = F} minus_one minus_one ≡ true
      → validate_position p ≡ none
      → IsReading p.accuracy
      → IsReading p.speed
      → IsReading p.bearing
      → ((ride_point_record (point_of p, v)).latitude ≡ p.latitude)
        × ((ride_point_record (point_of p, v)).longitude ≡ p.longitude)
        × ((ride_point_record (point_of p, v)).accuracy ≡ p.accuracy)
        × ((ride_point_record (point_of p, v)).speed ≡ p.speed)
        × ((ride_point_record (point_of p, v)).bearing ≡ p.bearing)
        × ((ride_point_record (point_of p, v)).timestamp ≡ p.timestamp)
  unfolding ride_point_record point_of
  ride_point_record-point_of p v eq valid accuracy speed bearing = (
    refl,
    refl,
    reported-or_missing p.accuracy eq accuracy,
    reported-or_missing p.speed eq speed,
    reported-or_missing p.bearing eq bearing,
    timestamp_kept p valid,
  )

int32-score_delta : (s : RideSummary) → int32 (score_delta s) ≡ score_delta s
unfolding int32 score_delta
int32-score_delta s = ground arith

-- the literals of the statement beside the constants of the engine
clamp_order : (a : ℤ) → min_ℤ (pos 10) (max_ℤ (negsuc 9) a) ≡ clamp a
unfolding clamp
clamp_order a = ground arith

-- The database and the engine agree on the score: for an outcome that carries the change of the ride's
-- summary, what FinishRide stores by the literals of its statement is the engine's clamp of the old
-- score and the change, which the conversion to int32 leaves as it is.
pub rescored-clamp :
    (r : Rider) (outcome : RideOutcome) (s : RideSummary) (now : Time)
    → outcome.score_delta ≡ score_delta s
    → (rescored r outcome now).score ≡ clamp (r.score +ℤ score_delta s)
unfolding rescored
rescored-clamp r outcome s now e =
    clamp_order (r.score +ℤ int32 outcome.score_delta)
    ∙ ap (λ d. clamp (r.score +ℤ d)) (ap int32 e ∙ int32-score_delta s)
