-- ===== src/RiderApi/Sources/Examples.antt =====
-- `trustedSources` of rider_wiring.go: two verified rides on a trip that a driver reports as well.
use vehicle_positions.Prelude.{keep, true, false, none, some, [], ◌≡◌, refl, any}
use vehicle_positions.Prelude.Int.{ℤ, pos}
use vehicle_positions.Prelude.Float.{whole}
use vehicle_positions.Prelude.Dict.{values, insert, lookup}
use vehicle_positions.Rider.Aggregator.{same_key, add, new_aggregator}
use vehicle_positions.Rider.Aggregator.Examples.{registry, key}
use vehicle_positions.Rider.Trusted.{TrustedFeed}
use vehicle_positions.Rider.Trusted.Lookup.{lookup_trusted}
use vehicle_positions.Rider.Aggregator.Estimate.{
  estimates, collect, estimate, can_estimate, group_publishable, trim, within, median_along, median,
  estimate_from,
}
use vehicle_positions.Rider.Aggregator.Grouping.{groups, group_from, member_of_locked, join}
use vehicle_positions.Prelude.Time.{time_sub}
use vehicle_positions.Rider.Session.Step.{apply, new_session}
use vehicle_positions.Prelude.Sort.{sort, insert_sorted}
use vehicle_positions.Rides.Moves.{empty_db}
use vehicle_positions.Tracker.{Tracker, LocationReport, update, state_of}
use vehicle_positions.RiderApi.Service.{Live}
use vehicle_positions.RiderApi.Handlers.{service_estimates}
use vehicle_positions.RiderApi.Sources.{TrustedSources, covers, service_estimates_uncovered}

abbrev report : LocationReport ℤ
report = record {
  vehicle_id = "bus1";
  trip_id = "t1";
  route_id = "r1";
  start_date = "20260101";
  latitude = pos 1;
  longitude = pos 2;
  bearing = none;
  speed = none;
  accuracy = none;
  timestamp = pos 100;
  driver_id = "d1";
}

abbrev tracker : Tracker ℤ
tracker = update (record { vehicles = []; seen = []; max_age = 60 }) report 100

abbrev no_feeds : TrustedFeed ℤ
no_feeds = record { max_age = pos 90; feeds = [] }

abbrev sources : TrustedSources ℤ
sources = record { feed = no_feeds; tracker = some tracker }

abbrev both_rides : Live ℤ
both_rides = record { agg = registry; db = empty_db }

-- without the driver, the riders' estimate is published
test_published :
    any
      (λ e. same_key e.key key)
      (service_estimates ⦃fl = whole⦄ both_rides
        (some (λ k. covers (record { feed = no_feeds; tracker = none }) k 110 110))
        110)
    ≡ true
unfolding any service_estimates estimates groups group_from collect estimate can_estimate trim
    within median_along median keep sort insert_sorted covers lookup_trusted member_of_locked join
    group_publishable values lookup insert add new_aggregator apply new_session time_sub whole
    estimate_from
test_published = refl

service_estimates_uncovered_example :
    any
      (λ e. same_key e.key key)
      (service_estimates ⦃fl = whole⦄ both_rides (some (λ k. covers sources k 110 110)) 110)
    ≡ false
unfolding any update insert values state_of
service_estimates_uncovered_example =
    service_estimates_uncovered ⦃fl = whole⦄ both_rides (λ k. sources) (λ k. 110) 110 key refl
