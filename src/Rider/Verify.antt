-- ===== src/Rider/Verify.antt =====
-- rider/verify.go: the verdict on one rider point. A reason is a constructor named for its message;
-- the numbers that the source formats into the text are left out.
pub mod Gates
pub mod Verdicts
pub mod Compared
mod Examples
use vehicle_positions.Prelude.{
  ◌*◌, String, Bool, true, false, not, ◌&&◌, ◌||◌, Option, none, some, if◌then◌else◌,
}
use vehicle_positions.Prelude.Int.{pos, ltb_ℤ}
use vehicle_positions.Prelude.Time.{
  Time, Duration, second, minute, time_sub, time_add, after, is_zero, neg_duration, abs_duration,
}
use vehicle_positions.Prelude.Float.{FloatOps}
use vehicle_positions.Rider.Geometry.{LatLon, ShapeGeom, Projection, project}
use vehicle_positions.Rider.Schedule.{Zone, TripInfo, service_day_start, scheduled_offset_at}

pub record Thresholds (F : Type 0) : Type 0 where
  pub max_shape_distance : F
  pub max_speed : F
  pub max_accuracy : F
  pub past_window : Duration
  pub future_window : Duration
  pub schedule_early : Duration
  pub schedule_late : Duration
  pub point_max_age : Duration
  pub max_regression : F
  pub corroboration_base : F
  pub contradiction_extra : F

pub record Point (F : Type 0) : Type 0 where
  pub pos : LatLon F
  pub accuracy : F
  pub speed : F
  pub bearing : F
  pub timestamp : Time

pub record AcceptedPoint (F : Type 0) : Type 0 where
  pub point : Point F
  pub along_shape : F

pub record TrustedVehicle (F : Type 0) : Type 0 where
  pub vehicle_id : String
  pub pos : LatLon F
  pub timestamp : Time

pub data Outcome : Type 0 where
  ignored off_route implausible off_schedule matched : Outcome

pub data Corroboration : Type 0 where
  unavailable no_corroboration corroborated contradicted : Corroboration

pub data Reason : Type 0 where
  no_reason no_shape bad_coordinates coarse outside_window not_newer far_from_shape : Reason
  moved_backwards too_fast bad_start_date off_the_schedule : Reason

pub record VerifyInput (F : Type 0) : Type 0 where
  pub trip : Option (TripInfo F)
  pub timezone : Zone
  pub start_date : String
  pub prev : Option (AcceptedPoint F)
  pub last_accepted : Time
  pub point : Point F
  pub trusted : Option (TrustedVehicle F)
  pub trusted_along : Option F
  pub thresholds : Thresholds F
  pub now : Time

pub record Verdict (F : Type 0) : Type 0 where
  pub outcome : Outcome
  pub corroboration : Corroboration
  pub along_shape : F
  pub distance_to_shape : F
  pub schedule_deviation : Duration
  pub reason : Reason

-- `in.Trip` with its shape, where neither is nil
abbrev pub shape_of : {F : Type 0} → Option (TripInfo F) → Option (ShapeGeom F)
shape_of none = none
shape_of (some trip) = trip.shape

module _ {F : Type 0} ⦃fl : FloatOps F⦄ where
  open fl use {lit, neg, add, sub, mul, div, lt, le, abs, max, is_nan, seconds}

  pub default_thresholds : Thresholds F
  default_thresholds = record {
    max_shape_distance = lit 60;
    max_speed = lit 35;
    max_accuracy = lit 100;
    past_window = pos (10 * minute);
    future_window = pos (30 * second);
    schedule_early = pos (15 * minute);
    schedule_late = pos (90 * minute);
    point_max_age = pos (90 * second);
    max_regression = lit 50;
    corroboration_base = lit 150;
    contradiction_extra = lit 500;
  }

  -- a float differs from 0 if it is below or above it (NaN has been refused by then)
  pub plausible_pos : LatLon F → Bool
  plausible_pos p =
      if is_nan p.lat || is_nan p.lon
      then false
      else if lt p.lat (neg (lit 90))
          || lt (lit 90) p.lat
          || lt p.lon (neg (lit 180))
          || lt (lit 180) p.lon
      then false
      else lt p.lat (lit 0) || lt (lit 0) p.lat || lt p.lon (lit 0) || lt (lit 0) p.lon

  abbrev pub stale_behind : Option (AcceptedPoint F) → Time → Bool
  stale_behind none t = false
  stale_behind (some prev) t = not (after t prev.point.timestamp)

  abbrev pub is_nil : Option (ShapeGeom F) → Bool
  is_nil none = true
  is_nil (some s) = false

  pub ignore_reason : VerifyInput F → Option Reason
  unfolding plausible_pos
  ignore_reason input =
      let age = time_sub input.now input.point.timestamp in
      if is_nil (shape_of input.trip)
      then some no_shape
      else if not (plausible_pos input.point.pos)
      then some bad_coordinates
      else if lt input.thresholds.max_accuracy input.point.accuracy
      then some coarse
      else if ltb_ℤ input.thresholds.past_window age
          || ltb_ℤ age (neg_duration input.thresholds.future_window)
      then some outside_window
      else if not (is_zero input.last_accepted)
          && not (after input.point.timestamp input.last_accepted)
      then some not_newer
      else if stale_behind input.prev input.point.timestamp
      then some not_newer
      else none

  -- how far a trusted position may sit from the point and still agree with it
  pub allowance_of : Thresholds F → TrustedVehicle F → Point F → F
  allowance_of th trusted point =
      let skew = abs_duration (time_sub trusted.timestamp point.timestamp) in
      add th.corroboration_base (mul th.max_speed (seconds skew))

  pub compare_gap : Thresholds F → F → F → Corroboration
  compare_gap th gap allowance =
      if le gap allowance
      then corroborated
      else if lt (add allowance th.contradiction_extra) gap
      then contradicted
      else no_corroboration

  pub corroborate_with : Option (TrustedVehicle F) → Option F → VerifyInput F → F → Corroboration
  unfolding allowance_of compare_gap
  corroborate_with (some trusted) (some trusted_along) input along =
      compare_gap input.thresholds (abs (sub trusted_along along))
        (allowance_of input.thresholds trusted input.point)
  corroborate_with _ _ input along = unavailable

  pub corroborate : VerifyInput F → F → Corroboration
  unfolding corroborate_with
  corroborate input along = corroborate_with input.trusted input.trusted_along input along

  -- the `switch` on the movement since the previous match; `none` if neither case applies
  pub movement_fault : Thresholds F → Option (AcceptedPoint F) → F → Time → Option Reason
  movement_fault th none along t = none
  movement_fault th (some prev) along t =
      let travelled = sub along prev.along_shape in
      let elapsed = seconds (time_sub t prev.point.timestamp) in
      if lt travelled (neg th.max_regression)
      then some moved_backwards
      else if lt (lit 0) elapsed && lt th.max_speed (div (abs travelled) elapsed)
      then some too_fast
      else none

  pub deviation_of : VerifyInput F → F → Time → Duration
  deviation_of input along day_start =
      time_sub input.point.timestamp (time_add day_start (scheduled_offset_at input.trip along))

  abbrev pub off_by : Thresholds F → Duration → Bool
  off_by th deviation =
      ltb_ℤ deviation (neg_duration th.schedule_early) || ltb_ℤ th.schedule_late deviation

  abbrev ignored_verdict : Reason → Verdict F
  ignored_verdict r = record {
    outcome = ignored;
    corroboration = unavailable;
    along_shape = lit 0;
    distance_to_shape = lit 0;
    schedule_deviation = pos 0;
    reason = r;
  }

  -- the schedule test, and the corroboration of what passes it
  pub judge_schedule : VerifyInput F → Projection F → Option Time → Verdict F
  unfolding corroborate deviation_of
  judge_schedule input proj none = record {
    outcome = off_schedule;
    corroboration = unavailable;
    along_shape = proj.along_shape;
    distance_to_shape = proj.distance_to_shape;
    schedule_deviation = pos 0;
    reason = bad_start_date;
  }
  judge_schedule input proj (some day_start) =
      let deviation = deviation_of input proj.along_shape day_start in
      let off = off_by input.thresholds deviation in
      record {
        outcome = if off then off_schedule else matched;
        corroboration = if off then unavailable else corroborate input proj.along_shape;
        along_shape = proj.along_shape;
        distance_to_shape = proj.distance_to_shape;
        schedule_deviation = deviation;
        reason = if off then off_the_schedule else no_reason;
      }

  pub tolerance_of : VerifyInput F → F
  tolerance_of input = add input.thresholds.max_shape_distance (max input.point.accuracy (lit 0))

  abbrev failed_verdict : Outcome → Projection F → Reason → Verdict F
  failed_verdict o proj r = record {
    outcome = o;
    corroboration = unavailable;
    along_shape = proj.along_shape;
    distance_to_shape = proj.distance_to_shape;
    schedule_deviation = pos 0;
    reason = r;
  }

  abbrev judge_movement : VerifyInput F → Projection F → Option Reason → Verdict F
  judge_movement input proj (some r) = failed_verdict implausible proj r
  judge_movement input proj none =
      judge_schedule input proj (service_day_start input.timezone input.start_date)

  pub judge : VerifyInput F → Projection F → Verdict F
  unfolding tolerance_of movement_fault judge_schedule
  judge input proj =
      if lt (tolerance_of input) proj.distance_to_shape
      then failed_verdict off_route proj far_from_shape
      else judge_movement input proj
          (movement_fault input.thresholds input.prev proj.along_shape input.point.timestamp)

  abbrev pub hint_of : Option (AcceptedPoint F) → Option F
  hint_of none = none
  hint_of (some prev) = some prev.along_shape

  -- After `ignoreReason` the shape is there, so the first case is never taken.
  pub judge_on : Option (ShapeGeom F) → VerifyInput F → Verdict F
  unfolding judge
  judge_on none input = ignored_verdict no_shape
  judge_on (some shape) input = judge input (project shape input.point.pos (hint_of input.prev))

  abbrev verify_after : Option Reason → VerifyInput F → Verdict F
  verify_after (some r) input = ignored_verdict r
  verify_after none input = judge_on (shape_of input.trip) input

  pub verify : VerifyInput F → Verdict F
  unfolding ignore_reason judge_on
  verify input = verify_after (ignore_reason input) input
