-- ===== src/Rides/Finishing.antt =====
-- rider_store.go: FinishRide where no statement fails.
use vehicle_positions.Prelude.{String, false, some, ◌≡◌, refl, Option-cases, inl, inr, arith}
use vehicle_positions.Prelude.Time.{Time}
use vehicle_positions.Prelude.Dict.{lookup, insert}
use vehicle_positions.Rides.{
  Rider, Ride, RideOutcome, Db, Fault, Stage, ok, at_begin, at_end, at_outcome, at_tier, at_commit,
  find_active, closed, rescored,
}
use vehicle_positions.Rides.Finds.{find_active_lem}
use vehicle_positions.Rides.Sound.{IsSound}
use vehicle_positions.Rides.Store.{finish_ride}

-- no statement fails
abbrev pub IsQuiet : Fault → Type 0
IsQuiet fault = (s : Stage) → fault s ≡ false

module _ {F : Type 0} where
  -- What filing a ride leaves.
  abbrev pub filed_db : Db F → String → Ride → Rider → RideOutcome → Time → Db F
  filed_db db id ride rider outcome now = record db {
    rides = insert id (closed ride outcome now) db.rides;
    riders = insert ride.rider_id (rescored rider outcome now) db.riders;
  }

  pub finish_ride-ok :
      (db : Db F) (fault : Fault) (id : String) (outcome : RideOutcome) (now : Time) (ride : Ride)
      → IsSound db
      → IsQuiet fault
      → find_active id db.rides ≡ some ride
      → (rider : Rider) × (lookup ride.rider_id db.riders ≡ some rider)
        × (finish_ride db fault id outcome now
            ≡ (filed_db db id ride rider outcome now, ok (rescored rider outcome now)))
  unfolding finish_ride
  finish_ride-ok db fault id outcome now ride sound quiet live =
      let (there, active) = find_active_lem id db.rides ride live in
      let known = sound.owned id ride there in
      elim (Option-cases (lookup ride.rider_id db.riders)) [
        | inl nobody ↦ ground arith
        | inr (rider, owned) ↦ (
          rider,
          owned,
          rw
              (
                quiet at_begin,
                quiet at_end,
                live,
                quiet at_outcome,
                owned,
                quiet at_tier,
                quiet at_commit,
              )
              refl,
        )
      ]
