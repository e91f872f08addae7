-- ===== src/Retention.antt =====
-- retention.go: the pruning of location points over DeleteLocationPointsBefore of db/query.sql. A row
-- is known by when it was received; rows that arrive during a pass are younger than its cutoff.
pub mod Pruning
mod Examples
use vehicle_positions.Prelude.{
  ℕ, zero, suc, ◌+◌, String, Bool, true, false, not, ◌||◌, Option, none, some, List, [], ◌∷◌, ◌++◌,
  length, keep, leb, ltb, if◌then◌else◌,
}
use vehicle_positions.Prelude.Int.{ℤ, pos, negsuc, leb_ℤ, ltb_ℤ, pos_part}
use vehicle_positions.Prelude.Time.{Time, Duration, before, time_back}
use vehicle_positions.Prelude.Sort.{sort}

pub record LocationPoint : Type 0 where
  pub vehicle_id : String
  pub received_at : Time

pub record LocationPruner : Type 0 where
  pub retention : Duration
  pub interval : Duration
  pub batch_size : ℤ

-- `none` is an error: the settings are refused rather than replaced.
unfoldable pub new_location_pruner : Duration → Duration → ℤ → Option LocationPruner
new_location_pruner retention interval batch_size =
    if leb_ℤ retention (pos 0) || leb_ℤ interval (pos 0) || ltb_ℤ batch_size (pos 1)
    then none
    else some (record { retention = retention; interval = interval; batch_size = batch_size })

abbrev pub is_expired : Time → LocationPoint → Bool
is_expired cutoff p = before p.received_at cutoff

abbrev pub is_kept : Time → LocationPoint → Bool
is_kept cutoff p = not (is_expired cutoff p)

abbrev pub drop_first : ℕ → List LocationPoint → List LocationPoint
drop_first zero ps = ps
drop_first (suc n) [] = []
drop_first (suc n) (p ∷ ps) = drop_first n ps

abbrev pub received_before : LocationPoint → LocationPoint → Bool
received_before p q = leb p.received_at q.received_at

-- the oldest rows of those that are expired go, as many as a batch holds
unfoldable pub delete_location_points_before :
    Time → ℕ → List LocationPoint → List LocationPoint × ℕ
unfolding keep
delete_location_points_before cutoff n points =
    let expired = sort received_before (keep (is_expired cutoff) points) in
    let count = length expired in
    (drop_first n expired ++ keep (is_kept cutoff) points, if ltb n count then n else count)

-- How a sweep ended: with a pass that was not full, by a stop or an error, or, where the model gives
-- up, out of fuel.
pub data Sweep : Type 0 where
  drained : ℕ → Sweep
  stopped : ℕ → Sweep
  out_of_fuel : Sweep

-- `stops i`: before pass i the pruner is stopped, or the pass returns an error, which changes nothing
unfoldable pub prune_from :
    ℕ → (ℕ → Bool) → ℕ → ℕ → Time → ℕ → List LocationPoint → List LocationPoint × Sweep
unfolding delete_location_points_before
prune_from zero stops i total cutoff n points = (points, out_of_fuel)
prune_from (suc fuel) stops i total cutoff n points =
    let (left, deleted) = delete_location_points_before cutoff n points in
    let rest = prune_from fuel stops (suc i) (total + deleted) cutoff n left in
    if stops i
    then (points, stopped total)
    else if ltb deleted n
    then (left, drained (total + deleted))
    else rest

-- `pruneAll`, with as many passes as there are rows and one more
unfoldable pub prune_all :
    LocationPruner → (ℕ → Bool) → Time → List LocationPoint → List LocationPoint × Sweep
unfolding prune_from
prune_all p stops now points =
    prune_from (suc (length points)) stops 0 0 (time_back now (pos_part p.retention))
      (pos_part p.batch_size) points
