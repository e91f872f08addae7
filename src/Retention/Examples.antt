-- ===== src/Retention/Examples.antt =====
-- retention.go on five rows, three of them expired, in batches of two.
use vehicle_positions.Prelude.{false, List, [], ◌∷◌, ◌≡◌, refl, keep}
use vehicle_positions.Prelude.Int.{pos}
use vehicle_positions.Prelude.Time.{Time}
use vehicle_positions.Prelude.Sort.{sort, insert_sorted}
use vehicle_positions.Retention.{
  LocationPoint, LocationPruner, new_location_pruner, delete_location_points_before, drained,
  prune_from, prune_all,
}
use vehicle_positions.Retention.Pruning.{IsSwept, prune_all-IsSwept}

abbrev row : Time → LocationPoint
row t = record { vehicle_id = "bus"; received_at = t }

abbrev rows : List LocationPoint
rows = row 95 ∷ row 40 ∷ row 10 ∷ row 99 ∷ row 20 ∷ []

abbrev pruner : LocationPruner
pruner = record { retention = pos 50; interval = pos 60; batch_size = pos 2 }

test_oldest_first : (delete_location_points_before 50 2 rows).0 ≡ row 40 ∷ row 95 ∷ row 99 ∷ []
unfolding delete_location_points_before keep sort insert_sorted
test_oldest_first = refl

test_sweep : (prune_all pruner (λ i. false) 100 rows).1 ≡ drained 3
unfolding prune_all prune_from delete_location_points_before keep sort insert_sorted
test_sweep = refl

prune_all-IsSwept_example : IsSwept (λ i. false) 0 50 rows (prune_all pruner (λ i. false) 100 rows)
unfolding new_location_pruner
prune_all-IsSwept_example =
    prune_all-IsSwept (pos 50) (pos 60) (pos 2) pruner (λ i. false) 100 rows refl
