-- ===== src/Rider/Aggregator/Grouping.antt =====
-- The trip groups of rider/aggregator.go: the live, verified rides by trip. A group holds the trip of
-- its first session.
use vehicle_positions.Prelude.{
  ℕ, String, Bool, not, ◌||◌, Option, none, some, List, [], ◌∷◌, ◌++◌, length, any, ltb, str_eq,
  if◌then◌else◌,
}
use vehicle_positions.Prelude.Time.{Time}
use vehicle_positions.Prelude.Dict.{lookup, values}
use vehicle_positions.Rider.Schedule.{TripInfo}
use vehicle_positions.Rider.Verify.{AcceptedPoint}
use vehicle_positions.Rider.Session.{TripKey, Session, is_blocked, is_verified}
use vehicle_positions.Rider.Session.Step.{fresh}
use vehicle_positions.Rider.Session.Step as Step
use vehicle_positions.Rider.Aggregator.{Aggregator, same_key, ride_of_rider}

pub record EstimateMember (F : Type 0) : Type 0 where
  pub rider_id : String
  pub along : F
  pub speed : F
  pub timestamp : Time
  pub is_publishable : Bool

pub record TripGroup (F : Type 0) : Type 0 where
  pub trip : Option (TripInfo F)
  pub members : List (EstimateMember F)

-- `map[TripKey]*tripGroup`
abbrev pub Groups : Type 0 → Type 0
Groups F = List (TripKey × TripGroup F)

module _ {F : Type 0} where
  unfoldable pub member_at : Aggregator F → Time → Session F → AcceptedPoint F → EstimateMember F
  unfolding Step.publishable
  member_at a now s matched = record {
    rider_id = s.rider_id;
    along = matched.along_shape;
    speed = matched.point.speed;
    timestamp = matched.point.timestamp;
    is_publishable = Step.publishable s now a.th.point_max_age;
  }

  unfoldable pub member_of_locked : Aggregator F → Time → Session F → Option (EstimateMember F)
  unfolding member_at fresh
  member_of_locked a now s =
      if s.ended
        || is_blocked s.tier
        || not (is_verified s.state)
        || not (fresh s now a.th.point_max_age)
      then none
      else if not (str_eq (ride_of_rider (lookup s.rider_id a.by_rider)) s.id)
      then none
      else elim s.latest_matched [ none ↦ none | some matched ↦ some (member_at a now s matched) ]

  unfoldable pub join : TripKey → Option (TripInfo F) → EstimateMember F → Groups F → Groups F
  join key trip m [] = (key, record { trip = trip; members = m ∷ [] }) ∷ []
  join key trip m ((k, g) ∷ rest) =
      let joined = join key trip m rest in
      if same_key k key
      then (k, record g { members = g.members ++ m ∷ [] }) ∷ rest
      else (k, g) ∷ joined

  abbrev pub join_member : Session F → Option (EstimateMember F) → Groups F → Groups F
  join_member s none out = out
  join_member s (some m) out = join s.key s.trip m out

  unfoldable pub group_from : Aggregator F → Time → Groups F → List (Session F) → Groups F
  unfolding join
  group_from a now out [] = out
  group_from a now out (s ∷ rest) =
      group_from a now (join_member s (member_of_locked a now s) out) rest

  unfoldable pub groups : Aggregator F → Time → Groups F
  unfolding group_from values
  groups a now = group_from a now [] (values a.sessions)

  unfoldable pub find_group : TripKey → Groups F → Option (TripGroup F)
  find_group key [] = none
  find_group key ((k, g) ∷ rest) = if same_key k key then some g else find_group key rest

  -- `len(seen)` after the loop of `distinctRiders`, `seen` being the riders met so far
  unfoldable pub distinct_from : List String → List (EstimateMember F) → ℕ
  unfolding any
  distinct_from seen [] = length seen
  distinct_from seen (m ∷ rest) =
      distinct_from (if any (λ r. str_eq r m.rider_id) seen then seen else m.rider_id ∷ seen) rest

  unfoldable pub distinct_riders : List (EstimateMember F) → ℕ
  unfolding distinct_from
  distinct_riders members = distinct_from [] members

  unfoldable pub newest_from : Time → List (EstimateMember F) → Time
  newest_from newest [] = newest
  newest_from newest (m ∷ rest) =
      newest_from (if ltb newest m.timestamp then m.timestamp else newest) rest

  -- The source reads the first member; an estimate always has one.
  unfoldable pub newest_timestamp : List (EstimateMember F) → Time → Time
  unfolding newest_from
  newest_timestamp [] now = 0
  newest_timestamp (m ∷ rest) now =
      let newest = newest_from m.timestamp rest in if ltb now newest then now else newest
