-- ===== src/Rider/Aggregator/Estimate.antt =====
-- The vehicle position that the riders of a trip add up to, in rider/aggregator.go.
use vehicle_positions.Prelude.{
  ℕ, ◌-◌, ◌/◌, ◌%◌, String, Bool, true, false, not, ◌&&◌, ◌||◌, Option, none, some, List, [], ◌∷◌,
  map, length, get_or, keep, any, is_some, ltb, ◌==◌, str_eq, if◌then◌else◌,
}
use vehicle_positions.Prelude.Time.{Time}
use vehicle_positions.Prelude.Float.{FloatOps}
use vehicle_positions.Prelude.Sort.{sort, str_leb}
use vehicle_positions.Rider.Geometry.{LatLon, ShapeGeom, point_at, bearing_at}
use vehicle_positions.Rider.Schedule.{TripInfo, StopTimeInfo}
use vehicle_positions.Rider.Verify.{shape_of}
use vehicle_positions.Rider.Session.{TripKey}
use vehicle_positions.Rider.Aggregator.{Aggregator}
use vehicle_positions.Rider.Aggregator.Grouping.{
  EstimateMember, TripGroup, Groups, groups, find_group, distinct_riders, newest_timestamp,
}

pub record TripEstimate (F : Type 0) : Type 0 where
  pub key : TripKey
  pub route_id : String
  pub pos : LatLon F
  pub bearing : F
  pub speed : Option F
  pub timestamp : Time
  pub stop_id : String
  pub stop_sequence : ℕ
  pub riders : ℕ

-- `covered` may be nil
abbrev pub is_covered : Option (TripKey → Bool) → TripKey → Bool
is_covered none key = false
is_covered (some covered) key = covered key

module _ {F : Type 0} ⦃fl : FloatOps F⦄ where
  open fl use {lit, add, sub, div, lt, le, abs}

  abbrev pub consensus_distance : F
  consensus_distance = lit 100

  abbrev pub outlier_distance : F
  outlier_distance = lit 100

  abbrev pub float_leb : F → F → Bool
  float_leb a b = not (lt b a)

  -- Its caller never passes an empty slice, on which the source would panic.
  unfoldable pub median : List F → F
  median xs =
      let sorted = sort float_leb xs in
      let n = length sorted in
      if n % 2 == 1
      then get_or sorted (n / 2) (lit 0)
      else div (add (get_or sorted (n / 2 - 1) (lit 0)) (get_or sorted (n / 2) (lit 0))) (lit 2)

  unfoldable pub median_along : List (EstimateMember F) → F
  unfolding median
  median_along members = median (map (λ m. m.along) members)

  abbrev median_of_some : List F → Option F
  median_of_some [] = none
  median_of_some (x ∷ xs) = some (median (x ∷ xs))

  unfoldable pub median_speed : List (EstimateMember F) → Option F
  unfolding median keep
  median_speed members =
      median_of_some (map (λ m. m.speed) (keep (λ m. le (lit 0) m.speed) members))

  unfoldable pub within : List (EstimateMember F) → F → F → List (EstimateMember F)
  unfolding keep
  within members along limit = keep (λ m. le (abs (sub m.along along)) limit) members

  -- two members of different riders in the same place
  abbrev pub agrees : EstimateMember F → EstimateMember F → Bool
  agrees a b =
      not (str_eq a.rider_id b.rider_id) && le (abs (sub a.along b.along)) consensus_distance

  unfoldable pub any_pair : List (EstimateMember F) → Bool
  unfolding any
  any_pair [] = false
  any_pair (m ∷ rest) = any (agrees m) rest || any_pair rest

  unfoldable pub group_publishable : List (EstimateMember F) → Bool
  unfolding any_pair
  group_publishable members = any (λ m. m.is_publishable) members || any_pair members

  unfoldable pub can_estimate : TripGroup F → Bool
  unfolding group_publishable
  can_estimate g = is_some (shape_of g.trip) && group_publishable g.members

  -- the members that the position is computed from; `none` refuses to publish
  unfoldable pub trim : List (EstimateMember F) → Option (List (EstimateMember F))
  unfolding within
  trim members =
      let kept = within members (median_along members) outlier_distance in
      if ltb (length kept) (length members)
      then (if length kept == 0 || not (group_publishable kept) then none else some kept)
      else some members

  unfoldable pub next_stop : List (StopTimeInfo F) → F → Option (StopTimeInfo F)
  next_stop [] along = none
  next_stop (st ∷ rest) along = if le along st.along_shape then some st else next_stop rest along

  abbrev stop_id_or : Option (StopTimeInfo F) → String
  stop_id_or none = ""
  stop_id_or (some st) = st.stop_id

  abbrev sequence_or : Option (StopTimeInfo F) → ℕ
  sequence_or none = 0
  sequence_or (some st) = st.sequence

  unfoldable pub estimate_from :
      TripKey → TripInfo F → ShapeGeom F → List (EstimateMember F) → Time → TripEstimate F
  estimate_from key trip shape members now =
      let median = median_along members in
      let stop = next_stop trip.stop_times median in
      record {
        key = key;
        route_id = trip.route_id;
        pos = point_at shape median;
        bearing = bearing_at shape median;
        speed = median_speed members;
        timestamp = newest_timestamp members now;
        stop_id = stop_id_or stop;
        stop_sequence = sequence_or stop;
        riders = distinct_riders members;
      }

  abbrev pub estimate_on :
      Option (TripInfo F)
      → TripKey
      → Option (List (EstimateMember F))
      → Time
      → Option (TripEstimate F)
  estimate_on none key kept now = none
  estimate_on (some trip) key none now = none
  estimate_on (some trip) key (some members) now = elim trip.shape [
    | none ↦ none
    | some shape ↦ some (estimate_from key trip shape members now)
  ]

  unfoldable pub estimate : TripGroup F → TripKey → Time → Option (TripEstimate F)
  unfolding can_estimate
  estimate g key now =
      if not (can_estimate g) then none else estimate_on g.trip key (trim g.members) now

  -- the body of the loop of `Estimates`: whether the trip is covered, and its estimate if any
  abbrev pub publish :
      Bool → Option (TripEstimate F) → List (TripEstimate F) → List (TripEstimate F)
  publish true est out = out
  publish false none out = out
  publish false (some est) out = est ∷ out

  unfoldable pub collect : Option (TripKey → Bool) → Time → Groups F → List (TripEstimate F)
  collect covered now [] = []
  collect covered now ((key, g) ∷ rest) =
      publish (is_covered covered key) (estimate g key now) (collect covered now rest)

  abbrev pub before_key : TripEstimate F → TripEstimate F → Bool
  before_key x y =
      if str_eq x.key.trip_id y.key.trip_id
      then str_leb x.key.start_date y.key.start_date
      else str_leb x.key.trip_id y.key.trip_id

  unfoldable pub estimates : Aggregator F → Time → Option (TripKey → Bool) → List (TripEstimate F)
  unfolding collect
  estimates a now covered = sort before_key (collect covered now (groups a now))

  unfoldable pub publishable_count : Aggregator F → Time → Option (TripKey → Bool) → ℕ
  unfolding estimates
  publishable_count a now covered = length (estimates a now covered)

  abbrev pub status_of : Option (TripKey → Bool) → TripKey → Time → Option (TripGroup F) → Bool × ℕ
  status_of covered key now none = (false, 0)
  status_of covered key now (some g) = (
    if is_covered covered key then false else is_some (estimate g key now),
    distinct_riders g.members,
  )

  unfoldable pub trip_status : Aggregator F → TripKey → Time → Option (TripKey → Bool) → Bool × ℕ
  trip_status a key now covered = status_of covered key now (find_group key (groups a now))
