-- ===== src/RiderApi/Examples.antt =====
-- rider_handlers.go at a concrete service: one rider, one trip that runs every day.
use vehicle_positions.Prelude.{arith, eq_iff, String, true, false, none, some, [], ◌∷◌, ◌≡◌, refl}
use vehicle_positions.Prelude.Int.{ℤ, pos, ◌+ℤ◌}
use vehicle_positions.Prelude.Time.{Time}
use vehicle_positions.Prelude.Float.{whole}
use vehicle_positions.Prelude.Dict.{lookup, insert, delete}
use vehicle_positions.Rider.Schedule.{Zone, Index, TripInfo}
use vehicle_positions.Rider.Verify.{Thresholds}
use vehicle_positions.Rider.Session.{Session, new}
use vehicle_positions.Rider.Session.Step.{new_session, end_session, summary}
use vehicle_positions.Rider.Aggregator.{new_aggregator, end_ride, active_for_rider_locked}
use vehicle_positions.Rides.{Ride, Db, Fault, find_row, map_rows}
use vehicle_positions.Rides.Store.{register_rider, end_all_active_rides}
use vehicle_positions.Rides.Sound.{IsSound}
use vehicle_positions.Rides.Moves.{empty_db, here, next, registers, reachable-IsSound}
use vehicle_positions.RiderApi.{StartRideRequest}
use vehicle_positions.RiderApi.Service.{Live, finish, file, new_rider_runtime}
use vehicle_positions.RiderApi.Handlers.{decoded, Call, handle_end_ride}
use vehicle_positions.RiderApi.Starts.{Starter, handle_start_ride}
use vehicle_positions.RiderApi.Positions.{Reporter, handle_positions}
use vehicle_positions.RiderApi.Foreign.{IsForeign, foreign_ride_untouched}
use vehicle_positions.RiderApi.Linked.{Linked}
use vehicle_positions.RiderApi.Steps as Steps
use vehicle_positions.RiderApi.Filing.{Interleaved}
use vehicle_positions.RiderApi.Opened.{StartInterleaved}
use vehicle_positions.RiderApi.Reachable.{Service, new_rider_runtime-Linked, one_live_ride}
use vehicle_positions.RiderApi.Reachable as Served
use vehicle_positions.RiderApi.Retry.{alone, IsRetired, finish_retried}

abbrev well : Fault
well = λ s. false

abbrev zone : Zone
zone = record {
  parse_day = λ s. some 0;
  noon = λ t. t;
  hour_of = λ t. 12;
  format_day = λ t. "20260101";
  day_before = λ t. t;
  date_key = λ t. 20260101;
  weekday = λ t. 4;
}

abbrev limits : Thresholds ℤ
limits = record {
  max_shape_distance = pos 60;
  max_speed = pos 35;
  max_accuracy = pos 100;
  past_window = pos 600;
  future_window = pos 30;
  schedule_early = pos 900;
  schedule_late = pos 5400;
  point_max_age = pos 90;
  max_regression = pos 50;
  corroboration_base = pos 150;
  contradiction_extra = pos 500;
}

abbrev trip : TripInfo ℤ
trip = record {
  id = "t1";
  route_id = "r1";
  service_id = "daily";
  headsign = "Harbour";
  direction_id = pos 0;
  shape = none;
  stop_times = [];
}

abbrev index : Index ℤ
index = record {
  trips = ("t1", trip) ∷ [];
  trips_by_route = [];
  services =
      (
        "daily",
        record {
          days = true ∷ true ∷ true ∷ true ∷ true ∷ true ∷ true ∷ [];
          start = 20250101;
          «end» = 20271231;
          added = [];
          removed = [];
        },
      )
      ∷ [];
  tz = zone;
}

abbrev start : Db ℤ
start = empty_db

abbrev with_ann : Db ℤ
with_ann = (register_rider start false "ann" "phone" "ios" "app" "1" 10).0

with_ann-IsSound : IsSound with_ann
with_ann-IsSound =
    reachable-IsSound with_ann
      (next {b = start} here (registers false "ann" "phone" "ios" "app" "1" 10 refl))

abbrev booted : Live ℤ
booted = record { agg = new_aggregator limits zone; db = with_ann }

boots : new_rider_runtime limits zone with_ann false 15 ≡ some booted
unfolding new_rider_runtime end_all_active_rides map_rows register_rider find_row insert lookup
boots = refl

abbrev by_ann : Call
by_ann = record { caller = some "ann"; allowed = true; is_uuid = λ s. true; now = 20; later = 21 }

abbrev starter : String → Starter ℤ
starter id = record {
  superseding = alone 20 20 well;
  before_load = λ st. st;
  load_fails = false;
  before_start = λ st. st;
  start_fails = false;
  db_now = 20;
  new_id = id;
}

abbrev request : StartRideRequest
request = record {
  trip_id = "t1";
  start_date = "";
  route_id = "";
  vehicle_id = "";
  boarding_stop_id = "";
  destination_stop_id = "";
}

alone-Interleaved : (now db_now : Time) (f : Fault) → Interleaved ⦃fl = whole⦄ (alone now db_now f)
alone-Interleaved now db_now f = record {
  store = λ st h. Steps.here;
  remove = λ st h. Steps.here;
  tier = λ st h. Steps.here;
}

starter-StartInterleaved : (id : String) → StartInterleaved ⦃fl = whole⦄ (starter id)
starter-StartInterleaved id = record {
  superseding = alone-Interleaved 20 20 well;
  loading = λ st h. Steps.here;
  starting = λ st h. Steps.here;
}

abbrev pub riding : Live ℤ
riding = (handle_start_ride by_ann (starter "ride1") (some index) booted (decoded request)).0

-- the second start supersedes the first
abbrev changed : Live ℤ
changed = (handle_start_ride by_ann (starter "ride2") (some index) riding (decoded request)).0

served : Service ⦃fl = whole⦄ booted changed
served =
    Served.next {b = riding}
      (Served.next {b = booted} Served.here (
        Served.starts by_ann (starter "ride1") (some index) (decoded request)
          (starter-StartInterleaved "ride1") refl))
      (Served.starts by_ann (starter "ride2") (some index) (decoded request)
        (starter-StartInterleaved "ride2") refl)

new_rider_runtime-Linked_example : Linked changed
new_rider_runtime-Linked_example =
    new_rider_runtime-Linked ⦃fl = whole⦄ limits zone with_ann false 15 booted changed
      with_ann-IsSound boots served

riding-Linked : Linked riding
riding-Linked =
    new_rider_runtime-Linked ⦃fl = whole⦄ limits zone with_ann false 15 booted riding
      with_ann-IsSound boots
      (Served.next {b = booted} Served.here (
        Served.starts by_ann (starter "ride1") (some index) (decoded request)
          (starter-StartInterleaved "ride1") refl))

abbrev session_of : String → Session ℤ
session_of id =
    new_session id "ann" (record { trip_id = "t1"; start_date = "20260101" }) (some trip) new 20

abbrev second_ride : String
second_ride = "ride2"

one_live_ride_example : second_ride ≡ second_ride
unfolding handle_start_ride active_for_rider_locked new_aggregator register_rider insert delete ◌+ℤ◌
    summary
one_live_ride_example =
    one_live_ride ⦃fl = whole⦄ limits zone with_ann false 15 booted changed second_ride second_ride
      (session_of "ride2") (session_of "ride2") with_ann-IsSound boots served refl refl refl refl
      refl

abbrev broken_write : Fault
broken_write = λ s. true

abbrev a_row : Ride
a_row = record {
  id = "ride1";
  rider_id = "ann";
  trip_id = "t1";
  start_date = "20260101";
  route_id = "r1";
  vehicle_id = "";
  boarding_stop_id = "";
  destination_stop_id = "";
  status = "active";
  state = "pending";
  is_corroborated = false;
  end_reason = "";
  points_total = pos 0;
  points_matched = pos 0;
  points_corroborated = pos 0;
  points_contradicted = pos 0;
  started_at = 20;
  ended_at = none;
}

-- the client's reason stays, though the reaper is the one that files the ride
finish_retried_example :
    IsRetired riding.db "ride1" a_row (end_session (session_of "ride1") "arrived" 50) 60 (
      finish
        (alone 60 60 well)
        "ride1"
        "idle"
        (finish (alone 50 50 broken_write) "ride1" "arrived" riding).0)
unfolding finish file end_ride handle_start_ride active_for_rider_locked new_aggregator
    register_rider insert
finish_retried_example =
    finish_retried riding "ride1" (session_of "ride1") a_row "arrived" "idle" broken_write well 50
      50 60 60 riding-Linked refl refl refl (λ s. refl)

abbrev by_bob : Call
by_bob = record by_ann { caller = some "bob" }

abbrev reporter : Reporter ℤ
reporter = record {
  lookup_trusted = λ k. none;
  before_batch = λ st. st;
  before_record = λ st. st;
  fault = well;
  db_now = 30;
  when_ended = alone 30 30 well;
  when_refused = alone 30 30 well;
}

abbrev bob : String
bob = "bob"

ann_is_not_bob : "ann" ≡ bob → ⊥
ann_is_not_bob e = ground (arith, (eq_iff "ann" bob).1 e)

riding-IsForeign : IsForeign riding "ride1" (some "bob")
unfolding handle_start_ride active_for_rider_locked new_aggregator register_rider insert lookup
    new_session
riding-IsForeign s rider c there live own =
    let same : some (session_of "ride1") ≡ some s = there in
    let named : "ann" ≡ bob = cc (same, own, c) in ann_is_not_bob named

foreign_ride_untouched_example :
    ((handle_end_ride by_bob (alone 30 30 well) riding "ride1" (decoded "arrived")).0 ≡ riding)
    × ((handle_positions ⦃fl = whole⦄ by_bob reporter riding "ride1" (decoded [])).0 ≡ riding)
foreign_ride_untouched_example =
    foreign_ride_untouched ⦃fl = whole⦄ by_bob (alone 30 30 well) reporter riding "ride1"
      (decoded "arrived") (decoded []) riding-IsForeign
