-- ===== src/Rider/Verify/Examples.antt =====
-- rider/verify.go at a point at the far end of a straight trip, which the trusted feed confirms.
use vehicle_positions.Prelude.{ℕ, none, some, [], ◌∷◌, ◌≡◌, ◌↔◌, refl, arith}
use vehicle_positions.Prelude.Int.{ℤ, pos}
use vehicle_positions.Prelude.Time.{time_sub}
use vehicle_positions.Prelude.Float.{whole}
use vehicle_positions.Rider.Geometry.{
  LatLon, ShapeGeom, project, nearest_from, local_at, project_onto,
}
use vehicle_positions.Rider.Schedule.{Zone, TripInfo, service_day_start, scheduled_offset_at}
use vehicle_positions.Rider.Verify.{Thresholds, VerifyInput, matched, corroborated, verify}
use vehicle_positions.Rider.Verify.Gates.{IsUsable, IsMatch}
use vehicle_positions.Rider.Verify.Verdicts.{verify_matched_iff}
use vehicle_positions.Rider.Verify.Compared.{IsCompared, verify-IsCompared}

abbrev place : ℕ → LatLon ℤ
place n = record { lat = pos 0; lon = pos n }

abbrev zone : Zone
zone = record {
  parse_day = λ s. some 0;
  noon = λ t. t;
  hour_of = λ t. 12;
  format_day = λ t. "20260101";
  day_before = λ t. t;
  date_key = λ t. 20260101;
  weekday = λ t. 4;
}

abbrev limits : Thresholds ℤ
limits = record {
  max_shape_distance = pos 60;
  max_speed = pos 35;
  max_accuracy = pos 100;
  past_window = pos 600;
  future_window = pos 30;
  schedule_early = pos 900;
  schedule_late = pos 5400;
  point_max_age = pos 90;
  max_regression = pos 50;
  corroboration_base = pos 150;
  contradiction_extra = pos 500;
}

abbrev line : ShapeGeom ℤ
line = record {
  points = place 0 ∷ place 2 ∷ [];
  cumulative = pos 0 ∷ pos 222_640 ∷ [];
  shape_length = pos 222_640;
  origin = place 0;
  cos_lat = pos 1;
  local_x = pos 0 ∷ pos 222_640 ∷ [];
  local_y = pos 0 ∷ pos 0 ∷ [];
}

abbrev trip : TripInfo ℤ
trip = record {
  id = "t1";
  route_id = "r1";
  service_id = "daily";
  headsign = "Harbour";
  direction_id = pos 0;
  shape = some line;
  stop_times = [];
}

abbrev input : VerifyInput ℤ
input = record {
  trip = some trip;
  timezone = zone;
  start_date = "20260101";
  prev = none;
  last_accepted = 95;
  point = record {
    pos = place 2;
    accuracy = pos 5;
    speed = pos 9;
    bearing = pos 0;
    timestamp = 103;
  };
  trusted = some (record { vehicle_id = "bus7"; pos = place 2; timestamp = 103 });
  trusted_along = some (pos 222_600);
  thresholds = limits;
  now = 110;
}

verify_matched_iff_example :
    ((verify ⦃fl = whole⦄ input).outcome ≡ matched)
    ↔ ((u : IsUsable ⦃fl = whole⦄ input 600 30) × IsMatch ⦃fl = whole⦄ input u.shape)
verify_matched_iff_example =
    verify_matched_iff ⦃fl = whole⦄ input 600 30 refl refl (omega arith) (omega arith)

seen : (verify ⦃fl = whole⦄ input).corroboration ≡ corroborated
unfolding verify project nearest_from local_at project_onto whole time_sub service_day_start
    scheduled_offset_at
seen = refl

verify-IsCompared_example :
    ((verify ⦃fl = whole⦄ input).outcome ≡ matched)
    × IsCompared ⦃fl = whole⦄ input
        (verify ⦃fl = whole⦄ input).along_shape
        (verify ⦃fl = whole⦄ input).corroboration
verify-IsCompared_example = verify-IsCompared ⦃fl = whole⦄ input (λ e. cc (seen, e))
