-- ===== src/Rides/Standing.antt =====
-- rider_store.go: what the statements write to a rider: the score, the tier and the counters.
use vehicle_positions.Prelude.{
  String, true, ◌≡◌, refl, arith, is_some, Option-cases, inl, inr, subst,
}
use vehicle_positions.Prelude.Int.{ℤ, ◌+ℤ◌, ◌≤ℤ◌, min_ℤ, max_ℤ}
use vehicle_positions.Prelude.Time.{Time}
use vehicle_positions.Prelude.Dict.{Dict, lookup, insert, insert-cases, lookup-insert}
use vehicle_positions.Rider.Reputation.{tier_for, tier_string, min_score, max_score}
use vehicle_positions.Rides.{
  Rider, Ride, RideOutcome, map_rows, touched, rescored, fresh_rider, swept, bool_count, int32,
}
use vehicle_positions.Rides.Rows.{IsInStanding, RidersInv, AreOwned, put_rider}
use vehicle_positions.Rides.Finds.{map_rows-cases}

pub AreOwned-insert_rider :
    (riders : Dict Rider) (rides : Dict Ride) (id : String) (row : Rider)
    → AreOwned riders rides
    → AreOwned (insert id row riders) rides
AreOwned-insert_rider riders rides id row h j r e =
    ground (arith, h j r e, lookup-insert id r.rider_id row riders)

pub AreOwned-insert_ride :
    (riders : Dict Rider) (rides : Dict Ride) (id : String) (row : Ride)
    → AreOwned riders rides
    → is_some (lookup row.rider_id riders) ≡ true
    → AreOwned riders (insert id row rides)
AreOwned-insert_ride riders rides id row h known j r e = elim (insert-cases id j row r rides e) [
  | inl (p, q) ↦ subst (λ (x : Ride). is_some (lookup x.rider_id riders) ≡ true) q known
  | inr (n, before) ↦ h j r before
]

pub AreOwned-sweep :
    (riders : Dict Rider) (rides : Dict Ride) (reason : String) (now : Time)
    → AreOwned riders rides
    → AreOwned riders (map_rows (swept reason now) rides)
AreOwned-sweep riders rides reason now h j r e =
    let (s, there, q) = map_rows-cases (swept reason now) j rides r e in ground (arith, h j s there)

pub fresh_rider-IsInStanding :
    (id installation platform app_id app_version : String) (now : Time)
    → IsInStanding (fresh_rider id installation platform app_id app_version now)
unfolding tier_for tier_string
fresh_rider-IsInStanding id installation platform app_id app_version now = ground arith

scored_between :
    (a : ℤ)
    → (min_score ≤ℤ min_ℤ max_score (max_ℤ min_score a))
      × (min_ℤ max_score (max_ℤ min_score a) ≤ℤ max_score)
scored_between a = ground arith

pub rescored-IsInStanding :
    (r : Rider) (outcome : RideOutcome) (now : Time)
    → IsInStanding r
    → IsInStanding (rescored r outcome now)
unfolding rescored bool_count
rescored-IsInStanding r outcome now h =
    let c = scored_between (r.score +ℤ int32 outcome.score_delta) in
    (c.0, c.1, refl, ground arith, ground arith)

pub touched-RidersInv :
    (id : String) (now : Time) (riders : Dict Rider)
    → RidersInv riders
    → RidersInv (touched id now riders)
touched-RidersInv id now riders h = elim (Option-cases (lookup id riders)) [
  | inl gone ↦ rw (gone, touched) h
  | inr (r, there) ↦
      rw (there, touched)
        (put_rider riders id r (record r { last_seen_at = now }) h there refl refl
          (h.standing id r there))
]

pub AreOwned-touched :
    (id : String) (now : Time) (riders : Dict Rider) (rides : Dict Ride)
    → AreOwned riders rides
    → AreOwned (touched id now riders) rides
AreOwned-touched id now riders rides h = elim (Option-cases (lookup id riders)) [
  | inl gone ↦ rw (gone, touched) h
  | inr (r, there) ↦
      rw (there, touched)
        (AreOwned-insert_rider riders rides id (record r { last_seen_at = now }) h)
]

pub rescored_same :
    (r : Rider) (outcome : RideOutcome) (now : Time)
    → ((rescored r outcome now).id ≡ r.id)
      × ((rescored r outcome now).installation_id ≡ r.installation_id)
unfolding rescored
rescored_same r outcome now = (refl, refl)
