-- ===== src/Rider/Geometry/Examples.antt =====
-- rider/shape.go on a straight shape of two points.
use vehicle_positions.Prelude.{ℕ, ◌-◌, ◌<◌, true, none, [], ◌∷◌, ◌≡◌, ◌⊎◌, refl, length}
use vehicle_positions.Prelude.Int.{ℤ, pos}
use vehicle_positions.Prelude.Float.{whole, whole-OrderLaws}
use vehicle_positions.Rider.Geometry.{LatLon, ShapeGeom, project_onto, local_at, project}
use vehicle_positions.Rider.Geometry.Nearest.{project-IsNearest}

abbrev place : ℕ → LatLon ℤ
place n = record { lat = pos 0; lon = pos n }

abbrev line : ShapeGeom ℤ
line = record {
  points = place 0 ∷ place 2 ∷ [];
  cumulative = pos 0 ∷ pos 222_640 ∷ [];
  shape_length = pos 222_640;
  origin = place 0;
  cos_lat = pos 1;
  local_x = pos 0 ∷ pos 222_640 ∷ [];
  local_y = pos 0 ∷ pos 0 ∷ [];
}

project-IsNearest_example :
    ((j : ℕ)
      → j < length line.points - 1
      → whole.le
          (project ⦃fl = whole⦄ line (place 1) none).distance_to_shape
          (project_onto ⦃fl = whole⦄ line j
            (local_at ⦃fl = whole⦄ (place 0) (pos 1) (place 1)).0
            (local_at ⦃fl = whole⦄ (place 0) (pos 1) (place 1)).1).0
        ≡ true)
    × ((project ⦃fl = whole⦄ line (place 1) none
          ≡ record { along_shape = whole.lit 0; distance_to_shape = whole.inf })
        ⊎ ((j : ℕ) × (j < length line.points - 1)
            × ((
              (project ⦃fl = whole⦄ line (place 1) none).distance_to_shape,
              (project ⦃fl = whole⦄ line (place 1) none).along_shape,
            )
                ≡ project_onto ⦃fl = whole⦄ line j
                    (local_at ⦃fl = whole⦄ (place 0) (pos 1) (place 1)).0
                    (local_at ⦃fl = whole⦄ (place 0) (pos 1) (place 1)).1)))
unfolding whole
project-IsNearest_example =
    project-IsNearest ⦃fl = whole⦄ whole-OrderLaws line (place 1) refl (λ j b. refl)
