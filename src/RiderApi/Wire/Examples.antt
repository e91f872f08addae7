-- ===== src/RiderApi/Wire/Examples.antt =====
-- rider_handlers.go: one upload, one outcome and one ride that is asked for.
use vehicle_positions.Prelude.{false, none, some, ◌≡◌, refl}
use vehicle_positions.Prelude.Int.{ℤ, pos, ◌+ℤ◌}
use vehicle_positions.Prelude.Float.{whole}
use vehicle_positions.Rider.Verify.{Verdict, no_reason, matched, unavailable}
use vehicle_positions.Rider.Session.{RideSummary, rejected, no_counts}
use vehicle_positions.Rider.Reputation.{score_delta, clamp}
use vehicle_positions.Rides.{Rider, rescored, fresh_rider}
use vehicle_positions.RiderApi.{
  PositionUpload, validate_position, ride_point_record, point_of, ride_outcome_of,
}
use vehicle_positions.RiderApi.Wire.{ride_point_record-point_of, rescored-clamp}

abbrev upload : PositionUpload ℤ
upload = record {
  latitude = pos 1;
  longitude = pos 2;
  accuracy = some (pos 5);
  speed = none;
  bearing = none;
  timestamp = pos 1_700_000_000;
}

abbrev verdict : Verdict ℤ
verdict = record {
  outcome = matched;
  corroboration = unavailable;
  along_shape = pos 40;
  distance_to_shape = pos 3;
  schedule_deviation = pos 0;
  reason = no_reason;
}

ride_point_record-point_of_example :
    ((ride_point_record ⦃fl = whole⦄ (point_of ⦃fl = whole⦄ upload, verdict)).latitude ≡ pos 1)
    × ((ride_point_record ⦃fl = whole⦄ (point_of ⦃fl = whole⦄ upload, verdict)).longitude ≡ pos 2)
    × ((ride_point_record ⦃fl = whole⦄ (point_of ⦃fl = whole⦄ upload, verdict)).accuracy
        ≡ some (pos 5))
    × ((ride_point_record ⦃fl = whole⦄ (point_of ⦃fl = whole⦄ upload, verdict)).speed ≡ none)
    × ((ride_point_record ⦃fl = whole⦄ (point_of ⦃fl = whole⦄ upload, verdict)).bearing ≡ none)
    × ((ride_point_record ⦃fl = whole⦄ (point_of ⦃fl = whole⦄ upload, verdict)).timestamp
        ≡ pos 1_700_000_000)
unfolding validate_position whole
ride_point_record-point_of_example =
    ride_point_record-point_of ⦃fl = whole⦄ upload verdict refl refl refl tt tt

abbrev contradicted_ride : RideSummary
contradicted_ride = record {
  state = rejected;
  end_reason = "contradicted";
  is_corroborated = false;
  matched_duration = pos 0;
  counts = no_counts;
  duration = pos 0;
}

abbrev ann : Rider
ann = fresh_rider "ann" "phone" "ios" "app" "1" 10

rescored-clamp_example :
    (rescored ann (ride_outcome_of contradicted_ride "contradicted") 30).score
    ≡ clamp (pos 0 +ℤ score_delta contradicted_ride)
unfolding ride_outcome_of
rescored-clamp_example =
    rescored-clamp ann (ride_outcome_of contradicted_ride "contradicted") contradicted_ride 30 refl
