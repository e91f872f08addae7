-- ===== src/Tracker/Status.antt =====
-- tracker.go: the numbers of the status page.
use vehicle_positions.Prelude.{
  ◌≤◌, some, List, [], ◌∷◌, ◌≡◌, refl, arith, All, length, keep, subst, if◌then◌else◌,
}
use vehicle_positions.Prelude.Time.{Time, after}
use vehicle_positions.Prelude.Dict.{values}
use vehicle_positions.Tracker.{
  Tracker, VehicleState, active_vehicles, is_active, count_active, status, latest_update,
}
use vehicle_positions.Tracker.Trip.{last_update_of}

module _ {F : Type 0} where
  count_active-keep :
      (t : Tracker F) (now : Time) (vs : List (VehicleState F))
      → count_active t now vs ≡ length (keep (is_active t now) vs)
  unfolding count_active keep
  count_active-keep t now [] = refl
  count_active-keep t now (v ∷ rest) = ground (arith, count_active-keep t now rest)

  latest_update-le :
      (latest : Time) (vs : List (VehicleState F))
      → (latest ≤ latest_update latest vs) × All (λ v. v.updated_at ≤ latest_update latest vs) vs
  unfolding latest_update
  latest_update-le latest [] = (omega arith, tt)
  latest_update-le latest (v ∷ rest) =
      let next = if after v.updated_at latest then v.updated_at else latest in
      let (above, all) = latest_update-le next rest in
      (ground (arith, above), (ground (arith, above), all))

  -- The status page counts exactly the vehicles that the feed shows, and no tracked vehicle has
  -- reported later than the last update that it gives.
  pub status_lem :
      (t : Tracker F) (now : Time)
      → ((status t now).active_vehicle_count ≡ length (active_vehicles t now))
        × ((u : Time)
            → (status t now).last_update ≡ some u
            → All (λ v. v.updated_at ≤ u) (values t.vehicles))
  unfolding status active_vehicles
  status_lem t now = (
    count_active-keep t now (values t.vehicles),
    λ u e.
        subst (λ x. All (λ v. v.updated_at ≤ x) (values t.vehicles))
          (last_update_of (latest_update 0 (values t.vehicles)) u e)
          (latest_update-le 0 (values t.vehicles)).1,
  )
