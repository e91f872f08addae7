-- ===== src/Rides/Examples.antt =====
-- rider_store.go at concrete tables.
use vehicle_positions.Prelude.{
  String, true, false, none, some, [], ◌∷◌, Option, ◌≡◌, ◌⊎◌, refl, String,
}
use vehicle_positions.Prelude.Int.{ℤ, pos, negsuc, ◌+ℤ◌}
use vehicle_positions.Prelude.Dict.{lookup, insert}
use vehicle_positions.Rider.Reputation.{tier_for, tier_string}
use vehicle_positions.Rides.{
  Rider, Ride, RideProgress, RideOutcome, RidePointRecord, Db, Fault, Reply, failed, ride_not_found,
  ok, find_active, find_row, rescored, int32, fresh_rider, bool_count, count_active_rides,
}
use vehicle_positions.Rides.Store.{
  register_rider, start_ride, record_ride_points, finish_ride, end_all_active_rides,
}
use vehicle_positions.Rides.Written.Start.{IsStart, start_ride-IsStart}
use vehicle_positions.Rides.Written.Record.{IsRecord, record_ride_points-IsRecord}
use vehicle_positions.Rides.Written.Finish.{IsFinish, finish_ride-IsFinish}
use vehicle_positions.Rides.Sound.{IsSound}
use vehicle_positions.Rides.Moves.{
  Txs, empty_db, here, next, registers, starts, records, reachable-IsSound,
}
use vehicle_positions.Rides.Frozen.{finish_ride_once}

abbrev well : Fault
well = λ s. false

abbrev a_ride : String → Ride
a_ride id = record {
  id = id;
  rider_id = "ann";
  trip_id = "t1";
  start_date = "20260101";
  route_id = "r1";
  vehicle_id = "";
  boarding_stop_id = "";
  destination_stop_id = "";
  status = "";
  state = "";
  is_corroborated = false;
  end_reason = "";
  points_total = pos 0;
  points_matched = pos 0;
  points_corroborated = pos 0;
  points_contradicted = pos 0;
  started_at = 0;
  ended_at = none;
}

abbrev progress : RideProgress
progress = record {
  state = "rejected";
  is_corroborated = false;
  points_total = 7;
  points_matched = 4;
  points_corroborated = 0;
  points_contradicted = 3;
}

abbrev outcome : RideOutcome
outcome = record {
  end_reason = "contradicted";
  progress = progress;
  score_delta = negsuc 2;
  is_rejected = true;
  is_corroborated = false;
}

abbrev a_point : RidePointRecord ℤ
a_point = record {
  latitude = pos 1;
  longitude = pos 2;
  accuracy = none;
  speed = some (pos 9);
  bearing = none;
  timestamp = pos 1700;
  outcome = "matched";
  corroboration = "none";
  along_shape = pos 40;
  distance_to_shape = pos 3;
  schedule_deviation_seconds = some (pos 12);
}

abbrev start : Db ℤ
start = empty_db

abbrev with_ann : Db ℤ
with_ann = (register_rider start false "ann" "phone" "ios" "app" "1" 10).0

abbrev riding : Db ℤ
riding = (start_ride with_ann false (a_ride "ride1") 20).0

abbrev over : Db ℤ
over = (finish_ride riding well "ride1" outcome 30).0

-- a rejected ride that was contradicted blocks its rider at once
ann_after : Option Rider
ann_after = lookup "ann" over.riders

tier_after : Option String
tier_after = elim ann_after [ none ↦ none | some r ↦ some r.tier ]

abbrev blocked_tier : Option String
blocked_tier = some "blocked"

test_blocked : tier_after ≡ blocked_tier
unfolding tier_after ann_after register_rider start_ride finish_ride find_active find_row rescored
    int32 lookup insert tier_for tier_string bool_count ◌+ℤ◌
test_blocked = refl

-- a second start of the same rider is refused
test_second_start : (start_ride riding false (a_ride "ride2") 25).1 ≡ Reply.active_ride_exists
unfolding register_rider start_ride find_row lookup insert
test_second_start = refl

test_int32_wraps : int32 (pos 4_294_967_297) ≡ pos 1
unfolding int32
test_int32_wraps = refl

test_int32_turns_negative : int32 (pos 2_147_483_648) ≡ negsuc 2_147_483_647
unfolding int32
test_int32_turns_negative = refl

test_restart : (end_all_active_rides riding false "server_restart" 40).1 ≡ ok 1
unfolding end_all_active_rides count_active_rides register_rider start_ride find_row lookup insert
test_restart = refl

to_riding : Txs start riding
to_riding =
    next {b = with_ann}
      (next {b = start} here (registers false "ann" "phone" "ios" "app" "1" 10 refl))
      (starts false (a_ride "ride1") 20 refl)

reachable-IsSound_example : IsSound riding
reachable-IsSound_example = reachable-IsSound riding to_riding

start_ride-IsStart_example :
    IsStart with_ann (a_ride "ride1") 20 (start_ride with_ann false (a_ride "ride1") 20)
unfolding register_rider lookup
start_ride-IsStart_example = start_ride-IsStart with_ann false (a_ride "ride1") 20 tt

finish_ride-IsFinish_example :
    IsFinish riding "ride1" outcome 30 (finish_ride riding well "ride1" outcome 30)
finish_ride-IsFinish_example = finish_ride-IsFinish riding well "ride1" outcome 30

record_ride_points-IsRecord_example :
    IsRecord riding "ride1" "ann"
      (a_point ∷ [])
      progress
      25
      (record_ride_points riding well "ride1" "ann" (a_point ∷ []) progress 25)
record_ride_points-IsRecord_example =
    record_ride_points-IsRecord riding well "ride1" "ann" (a_point ∷ []) progress 25

abbrev ann_scored : Rider
ann_scored = rescored (fresh_rider "ann" "phone" "ios" "app" "1" 10) outcome 30

-- filed, then reported to and filed again
abbrev reported_to : Db ℤ
reported_to = (record_ride_points over well "ride1" "ann" (a_point ∷ []) progress 35).0

finish_ride_once_example :
    ((finish_ride reported_to well "ride1" outcome 40).0 ≡ reported_to)
    × (((finish_ride reported_to well "ride1" outcome 40).1 ≡ failed)
        ⊎ ((finish_ride reported_to well "ride1" outcome 40).1 ≡ ride_not_found))
unfolding register_rider start_ride finish_ride find_active find_row lookup insert
finish_ride_once_example =
    finish_ride_once riding reported_to well well "ride1" outcome outcome 30 40 ann_scored refl
      (next {b = over} here (records well "ride1" "ann" (a_point ∷ []) progress 35 refl))
