-- ===== src/Tracker/Feed.antt =====
-- tracker.go: which vehicles the feed shows, whatever reports and clean-ups came before.
use vehicle_positions.Prelude.{
  ℕ, ◌≤◌, String, Option, none, some, List, [], ◌∷◌, ◌≡◌, str_eq, if◌then◌else◌,
}
use vehicle_positions.Prelude.Time.{Time, time_back, after}
use vehicle_positions.Prelude.Dict.{Dict, lookup, IsDict}
use vehicle_positions.Tracker.{Tracker, VehicleState, LocationReport, state_of, update, cleanup}

pub data Event (F : Type 0) : Type 0 where
  reported : LocationReport F → Time → Event F
  cleaned : Time → Event F

-- Events, oldest first, each no earlier than the one before, the last no later than `now`.
abbrev pub InOrder : (F : Type 0) → Time → List (Event F) → Time → Type 0
InOrder F from [] now = from ≤ now
InOrder F from (reported loc at ∷ rest) now = (from ≤ at) × InOrder F at rest now
InOrder F from (cleaned at ∷ rest) now = (from ≤ at) × InOrder F at rest now

module _ {F : Type 0} where
  pub track : Tracker F → List (Event F) → Tracker F
  track t [] = t
  track t (reported loc at ∷ rest) = track (update t loc at) rest
  track t (cleaned at ∷ rest) = track (cleanup t at) rest

  -- The last report of a vehicle, `sofar` if there is none.
  pub last_report : String → Option (VehicleState F) → List (Event F) → Option (VehicleState F)
  last_report id sofar [] = sofar
  last_report id sofar (cleaned at ∷ rest) = last_report id sofar rest
  last_report id sofar (reported loc at ∷ rest) =
      last_report id (if str_eq loc.vehicle_id id then some (state_of loc at) else sofar) rest

  -- what the feed should show of a vehicle
  abbrev pub shown : ℕ → Time → Option (VehicleState F) → Option (VehicleState F)
  shown max_age now none = none
  shown max_age now (some v) = if after v.updated_at (time_back now max_age) then some v else none

  pub find_vehicle : String → List (VehicleState F) → Option (VehicleState F)
  find_vehicle id [] = none
  find_vehicle id (v ∷ rest) = if str_eq v.vehicle_id id then some v else find_vehicle id rest

  record TrackerInv (t : Tracker F) : Type 0 where
    dict : IsDict t.vehicles
    keyed : (id : String) (v : VehicleState F) → lookup id t.vehicles ≡ some v → v.vehicle_id ≡ id

  -- What is on file for a vehicle, as far as it can still be shown at `now`.
  abbrev filed : String → Tracker F → Time → Option (VehicleState F)
  filed id t now = shown t.max_age now (lookup id t.vehicles)
