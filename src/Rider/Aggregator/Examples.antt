-- ===== src/Rider/Aggregator/Examples.antt =====
-- rider/aggregator.go on a small registry: two verified rides on one trip, and one that is pending.
use vehicle_positions.Prelude.{
  ℕ, String, true, false, Option, none, some, [], ◌∷◌, ◌≡◌, ◌↔◌, refl, any, str_eq, keep,
}
use vehicle_positions.Prelude.Int.{ℤ, pos}
use vehicle_positions.Prelude.Float.{whole}
use vehicle_positions.Prelude.Dict.{lookup, insert}
use vehicle_positions.Rider.Geometry.{LatLon, ShapeGeom}
use vehicle_positions.Rider.Schedule.{Zone, TripInfo}
use vehicle_positions.Rider.Verify.{Thresholds, Point, Verdict, matched, unavailable, no_reason}
use vehicle_positions.Rider.Session.{TripKey, Session, trusted}
use vehicle_positions.Rider.Session.Step.{new_session, apply, summary}
use vehicle_positions.Prelude.Sort.{sort, insert_sorted}
use vehicle_positions.Rider.Session.Invariant.{Inv, new_session-Inv, apply-Inv}
use vehicle_positions.Rider.Aggregator.{
  Aggregator, new_aggregator, add, reap, live_key, live_session, same_key,
}
use vehicle_positions.Rider.Aggregator.Batch.{BatchResult, apply_batch, apply_batch_locked}
use vehicle_positions.Rider.Aggregator.Estimate.{
  TripEstimate, estimates, estimate, trip_status, estimate_from, can_estimate, group_publishable,
  trim, within, median_along, median,
}
use vehicle_positions.Rider.Aggregator.Grouping.{EstimateMember, TripGroup, groups}
use vehicle_positions.Rider.Aggregator.Registry.{RegistryInv}
use vehicle_positions.Rider.Aggregator.Moves.{Moves, here, next, added, reachable-RegistryInv}
use vehicle_positions.Rider.Aggregator.Accounting.{IsBatch, apply_batch-IsBatch}
use vehicle_positions.Rider.Aggregator.Ordering.{IsChain, apply_batch-IsChain}
use vehicle_positions.Rider.Session.Step.{last_accepted_at}
use vehicle_positions.Rider.Aggregator.Reaping.{IsOver, reap_exact}
use vehicle_positions.Rider.Aggregator.Riders.{AllApart, groups-AllApart}
use vehicle_positions.Rider.Aggregator.Status.{trip_status-estimates}
use vehicle_positions.Rider.Aggregator.Credible.{IsCredible, estimate-IsCredible}

abbrev pub key : TripKey
key = record { trip_id = "t1"; start_date = "20260101" }

abbrev zone : Zone
zone = record {
  parse_day = λ s. some 0;
  noon = λ t. t;
  hour_of = λ t. 12;
  format_day = λ t. "20260101";
  day_before = λ t. t;
  date_key = λ t. 20260101;
  weekday = λ t. 4;
}

abbrev limits : Thresholds ℤ
limits = record {
  max_shape_distance = pos 60;
  max_speed = pos 35;
  max_accuracy = pos 100;
  past_window = pos 600;
  future_window = pos 30;
  schedule_early = pos 900;
  schedule_late = pos 5400;
  point_max_age = pos 90;
  max_regression = pos 50;
  corroboration_base = pos 150;
  contradiction_extra = pos 500;
}

abbrev place : ℕ → LatLon ℤ
place n = record { lat = pos n; lon = pos n }

abbrev fix : ℕ → Point ℤ
fix t = record { pos = place 1; accuracy = pos 5; speed = pos 9; bearing = pos 0; timestamp = t }

abbrev good : Verdict ℤ
good = record {
  outcome = matched;
  corroboration = unavailable;
  along_shape = pos 40;
  distance_to_shape = pos 3;
  schedule_deviation = pos 0;
  reason = no_reason;
}

abbrev line : ShapeGeom ℤ
line = record {
  points = place 0 ∷ place 2 ∷ [];
  cumulative = pos 0 ∷ pos 80 ∷ [];
  shape_length = pos 80;
  origin = place 0;
  cos_lat = pos 1;
  local_x = pos 0 ∷ pos 80 ∷ [];
  local_y = pos 0 ∷ pos 0 ∷ [];
}

abbrev trip : TripInfo ℤ
trip = record {
  id = "t1";
  route_id = "r1";
  service_id = "daily";
  headsign = "Harbour";
  direction_id = pos 0;
  shape = some line;
  stop_times = [];
}

-- A ride on the trip that has just been verified.
abbrev boarded : String → String → Session ℤ
boarded id rider =
    (apply
      (apply (apply (new_session id rider key (some trip) trusted 100) good (fix 101)).0 good
        (fix 102)).0
      good (fix 103)).0

boarded-Inv : (id rider : String) → Inv (boarded id rider)
boarded-Inv id rider =
    apply-Inv
      (apply (apply (new_session id rider key (some trip) trusted 100) good (fix 101)).0 good
        (fix 102)).0
      good (fix 103)
      (apply-Inv (apply (new_session id rider key (some trip) trusted 100) good (fix 101)).0 good
        (fix 102)
        (apply-Inv (new_session id rider key (some trip) trusted 100) good (fix 101)
          (new_session-Inv id rider key (some trip) trusted 100)))

abbrev empty : Aggregator ℤ
empty = new_aggregator limits zone

abbrev one_ride : Aggregator ℤ
one_ride = add empty (boarded "ride1" "ann")

abbrev pub registry : Aggregator ℤ
registry = add one_ride (boarded "ride2" "bob")

moves : Moves ⦃fl = whole⦄ empty registry
unfolding add new_aggregator new_session apply lookup insert
moves =
    next {b = one_ride}
      (next {b = empty} here (added (boarded "ride1" "ann") (boarded-Inv "ride1" "ann") refl refl))
      (added (boarded "ride2" "bob") (boarded-Inv "ride2" "bob") refl refl)

registry-RegistryInv : RegistryInv registry
registry-RegistryInv = reachable-RegistryInv ⦃fl = whole⦄ limits zone registry moves

reachable-RegistryInv_example : RegistryInv registry
reachable-RegistryInv_example = reachable-RegistryInv ⦃fl = whole⦄ limits zone registry moves

-- What a batch answers, and the registry that it leaves.
abbrev ann_rides : Aggregator ℤ × Option (BatchResult ℤ)
ann_rides =
    apply_batch ⦃fl = whole⦄ registry (λ a. a) "ride1" (fix 105 ∷ fix 104 ∷ []) (λ k. none) 110

abbrev answer_or : BatchResult ℤ → Option (BatchResult ℤ) → BatchResult ℤ
answer_or r none = r
answer_or r (some s) = s

abbrev no_answer : BatchResult ℤ
no_answer = record {
  published = false;
  corroboration = unavailable;
  accepted = 0;
  ignored_count = 0;
  off_route_count = 0;
  points = [];
  ride_summary = summary (boarded "ride1" "ann");
}

apply_batch-IsBatch_example :
    IsBatch ⦃fl = whole⦄ registry registry "ride1"
      (fix 105 ∷ fix 104 ∷ [])
      (λ k. none)
      110
      ann_rides.0
      (answer_or no_answer ann_rides.1)
unfolding apply_batch apply_batch_locked live_key live_session add new_aggregator new_session apply
    lookup insert
apply_batch-IsBatch_example =
    apply_batch-IsBatch ⦃fl = whole⦄ registry (λ a. a) "ride1" (fix 105 ∷ fix 104 ∷ []) (λ k. none)
      110 ann_rides.0 (answer_or no_answer ann_rides.1) refl

apply_batch-IsChain_example : IsChain 103 (answer_or no_answer ann_rides.1).points
unfolding apply_batch apply_batch_locked live_key live_session add new_aggregator new_session apply
    lookup insert last_accepted_at
apply_batch-IsChain_example =
    apply_batch-IsChain ⦃fl = whole⦄ registry (λ a. a) "ride1" (fix 105 ∷ fix 104 ∷ []) (λ k. none)
      110 ann_rides.0 (answer_or no_answer ann_rides.1) (boarded "ride1" "ann") refl refl

-- The lock is free, and the ride goes to another registry.
abbrev swept : Aggregator ℤ × Option (BatchResult ℤ)
swept = apply_batch ⦃fl = whole⦄ registry (λ a. empty) "ride1" (fix 105 ∷ []) (λ k. none) 110

reap_exact_example :
    ((s : Session ℤ)
      → lookup "ride1" registry.sessions ≡ some s
      → (any (λ j. str_eq j "ride1") (reap registry 110).1 ≡ true) ↔ IsOver s 110)
    × (lookup "ride1" registry.sessions ≡ none
        → any (λ j. str_eq j "ride1") (reap registry 110).1 ≡ false)
reap_exact_example = reap_exact registry 110 "ride1" registry-RegistryInv.dict

abbrev ride : Session ℤ
ride = boarded "ride1" "ann"

groups-AllApart_example : AllApart (groups registry 110)
groups-AllApart_example = groups-AllApart registry 110 registry-RegistryInv

abbrev at_40 : String → EstimateMember ℤ
at_40 rider = record {
  rider_id = rider;
  along = pos 40;
  speed = pos 9;
  timestamp = 103;
  is_publishable = true;
}

trip_status-estimates_example :
    (trip_status ⦃fl = whole⦄ registry key 110 none).0
    ≡ any (λ e. same_key e.key key) (estimates ⦃fl = whole⦄ registry 110 none)
trip_status-estimates_example = trip_status-estimates ⦃fl = whole⦄ registry key 110 none

abbrev pair_group : TripGroup ℤ
pair_group = record { trip = some trip; members = at_40 "ann" ∷ at_40 "bob" ∷ [] }

abbrev where_they_are : TripEstimate ℤ
where_they_are = estimate_from ⦃fl = whole⦄ key trip line pair_group.members 110

estimate-IsCredible_example : IsCredible ⦃fl = whole⦄ pair_group key 110 where_they_are
unfolding estimate can_estimate group_publishable any trim within median_along median keep sort
    insert_sorted whole
estimate-IsCredible_example =
    estimate-IsCredible ⦃fl = whole⦄ pair_group key 110 where_they_are refl
