-- ===== src/Rides/Over.antt =====
-- rider_store.go: rides that are over, under the transactions of riders.
use vehicle_positions.Prelude.{
  ℕ, ◌+◌, ◌≤◌, String, Bool, true, false, ◌||◌, some, List, [], ◌∷◌, ◌++◌, map, length, keep, ◌≡◌,
  refl, sym, ◌∙◌, arith, str_eq, eq_iff, is_some, Option-cases, Bool-cases, inl, inr, subst,
}
use vehicle_positions.Prelude.Time.{Time}
use vehicle_positions.Prelude.Dict.{lookup, insert, lookup-insert_ne}
use vehicle_positions.Rides.{
  Rider, Ride, RideProgress, RideOutcome, RidePointRecord, PointRow, Db, Reply, failed, ok,
  ride_not_found, rider_not_found, active_ride_exists, is_active_row, find_row, closed, opened,
  rides_now, with_progress,
}
use vehicle_positions.Rides.Store.{start_ride, point_row}
use vehicle_positions.Rides.Filed.{FinishedAs, RecordedAs}

module _ {F : Type 0} where
  abbrev pub count_points : String → List (PointRow F) → ℕ
  count_points id points = length (keep (λ p. str_eq p.ride_id id) points)

  -- The ride of this id has ended with this row, and has at most this many points.
  abbrev pub IsOver : String → Ride → ℕ → Db F → Type 0
  IsOver id r n db =
      (lookup id db.rides ≡ some r) × (is_active_row r ≡ false) × (count_points id db.points ≤ n)

  count_points-append :
      (id : String) (ps qs : List (PointRow F))
      → count_points id (ps ++ qs) ≡ count_points id ps + count_points id qs
  unfolding keep
  count_points-append id [] qs = ground arith
  count_points-append id (p ∷ ps) qs = ground (arith, count_points-append id ps qs)

  count_points-other :
      (id other : String) (now : Time) (ps : List (RidePointRecord F))
      → str_eq other id ≡ false
      → count_points id (map (point_row other now) ps) ≡ 0
  unfolding keep
  count_points-other id other now [] h = refl
  count_points-other id other now (p ∷ ps) h = ground (arith, count_points-other id other now ps h)

  pub count_points-keep :
      (id : String) (q : PointRow F → Bool) (ps : List (PointRow F))
      → count_points id (keep q ps) ≤ count_points id ps
  unfolding keep
  count_points-keep id q [] = omega arith
  count_points-keep id q (p ∷ ps) = ground (arith, count_points-keep id q ps)

  -- two rides under different ids, where one is active and one is not
  apart :
      (db : Db F) (id other : String) (r s : Ride)
      → lookup id db.rides ≡ some r
      → is_active_row r ≡ false
      → lookup other db.rides ≡ some s
      → is_active_row s ≡ true
      → str_eq other id ≡ false
  apart db id other r s there over there' live = ground (arith, eq_iff other id)

  over_insert :
      (db : Db F) (id other : String) (r s row : Ride)
      → lookup id db.rides ≡ some r
      → is_active_row r ≡ false
      → lookup other db.rides ≡ some s
      → is_active_row s ≡ true
      → lookup id (insert other row db.rides) ≡ some r
  over_insert db id other r s row there over there' live =
      lookup-insert_ne other id row db.rides (apart db id other r s there over there' live) ∙ there

  pub finished-IsOver :
      (db : Db F) (other : String) (outcome : RideOutcome) (now : Time)
      (result : Db F × Reply Rider) (id : String) (r : Ride) (n : ℕ)
      → FinishedAs db other outcome now result
      → IsOver id r n db
      → IsOver id r n result.0
  finished-IsOver db other outcome now (db', ok row) id r n f (there, over, few) =
      subst (λ (d : Db F). IsOver id r n d) (sym f.stored)
        (
          over_insert db id other r f.ride (closed f.ride outcome now) there over f.there
              f.was_active,
          over,
          few,
        )
  finished-IsOver db other outcome now (db', ride_not_found) id r n f h =
      subst (λ (d : Db F). IsOver id r n d) (sym f.0) h
  finished-IsOver db other outcome now (db', rider_not_found) id r n f h =
      subst (λ (d : Db F). IsOver id r n d) (sym f.0) h
  finished-IsOver db other outcome now (db', failed) id r n f h =
      subst (λ (d : Db F). IsOver id r n d) (sym f) h
  finished-IsOver db other outcome now (db', active_ride_exists) id r n f h = elim f [ ]

  pub recorded-IsOver :
      (db : Db F) (other rider : String) (points : List (RidePointRecord F))
      (progress : RideProgress) (now : Time) (result : Db F × Reply Unit) (id : String) (r : Ride)
      (n : ℕ)
      → RecordedAs db other rider points progress now result
      → IsOver id r n db
      → IsOver id r n result.0
  recorded-IsOver db other rider points progress now (db', ok done) id r n (s, there', live, stored)
        (there, over, few) =
      let ne = apart db id other r s there over there' live in
      subst (λ (d : Db F). IsOver id r n d) (sym stored)
        (
          over_insert db id other r s (with_progress s progress) there over there' live,
          over,
          omega (
            arith,
            few,
            count_points-append id db.points (map (point_row other now) points),
            count_points-other id other now points ne,
          ),
        )
  recorded-IsOver db other rider points progress now (db', ride_not_found) id r n f h =
      subst (λ (d : Db F). IsOver id r n d) (sym f.0) h
  recorded-IsOver db other rider points progress now (db', failed) id r n f h =
      subst (λ (d : Db F). IsOver id r n d) (sym f) h
  recorded-IsOver db other rider points progress now (db', rider_not_found) id r n f h = elim f [ ]
  recorded-IsOver db other rider points progress now (db', active_ride_exists) id r n f h =
      elim f [ ]

  pub started-IsOver :
      (db : Db F) (broken : Bool) (ride : Ride) (now : Time) (id : String) (r : Ride) (n : ℕ)
      → IsOver id r n db
      → IsOver id r n (start_ride db broken ride now).0
  unfolding start_ride
  started-IsOver db broken ride now id r n (there, over, few) =
      elim (Bool-cases (broken || str_eq ride.id "" || is_some (lookup ride.id db.rides))) [
        | inl refused ↦ rw refused (there, over, few)
        | inr fine ↦ elim (Option-cases (find_row (rides_now ride.rider_id) db.rides)) [
          | inr (s, riding) ↦ rw (fine, riding) (there, over, few)
          | inl free ↦ elim (Bool-cases (is_some (lookup ride.rider_id db.riders))) [
            | inr nobody ↦ rw (fine, free, nobody) (there, over, few)
            | inl known ↦
                let other : str_eq ride.id id ≡ false = ground (arith, eq_iff ride.id id) in
                rw (fine, free, known)
                  (lookup-insert_ne ride.id id (opened ride now) db.rides other ∙ there, over, few)
          ]
        ]
      ]
