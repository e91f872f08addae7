-- ===== src/Tracker/Examples.antt =====
-- tracker.go with two buses on one trip.
use vehicle_positions.Prelude.{ℕ, String, none, some, List, [], ◌∷◌}
use vehicle_positions.Prelude.Int.{ℤ, pos}
use vehicle_positions.Tracker.{Tracker, LocationReport, update}
use vehicle_positions.Tracker.Feed.{Event, reported, cleaned}

abbrev report_of : String → ℕ → LocationReport ℤ
report_of id t = record {
  vehicle_id = id;
  trip_id = "t1";
  route_id = "r1";
  start_date = "20260101";
  latitude = pos 1;
  longitude = pos 2;
  bearing = none;
  speed = some (pos 9);
  accuracy = none;
  timestamp = pos t;
  driver_id = "d1";
}

abbrev empty : Tracker ℤ
empty = record { vehicles = []; seen = []; max_age = 60 }

abbrev events : List (Event ℤ)
events =
    reported (report_of "bus1" 100) 100 ∷ cleaned 150 ∷ reported (report_of "bus2" 155) 155 ∷ []

abbrev two_buses : Tracker ℤ
two_buses = update (update empty (report_of "bus1" 100) 100) (report_of "bus2" 155) 155

abbrev other_trip : String
other_trip = "t2"
