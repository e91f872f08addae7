-- ===== src/Rides/Finds.antt =====
-- The scans and sweeps of a table: which row a statement of db/query.sql finds, and the rows that
-- EndAllActiveRides leaves.
use vehicle_positions.Prelude.{
  String, Bool, true, false, not, none, some, ◌∷◌, [], ◌≡◌, refl, sym, ap, ◌∙◌, arith, eq_iff,
  eq_refl, Option-cases, Bool-cases, inl, inr, is_some,
}
use vehicle_positions.Prelude.Time.{Time}
use vehicle_positions.Prelude.Dict.{Dict, IsDict, lookup_of_Fresh, lookup}
use vehicle_positions.Rides.{Ride, is_active_row, find_row, map_rows, swept, find_active}
use vehicle_positions.Rides.Rows.{RidesInv}

-- A test that no row passes.
pub find_row-none :
    {V : Type 0} (p : V → Bool) (m : Dict V) (k : String) (v : V)
    → find_row p m ≡ none
    → lookup k m ≡ some v
    → p v ≡ false
unfolding find_row lookup
find_row-none p [] k v e h = cc h
find_row-none p ((j, w) ∷ m) k v e h = ground (arith, find_row-none p m k v)

pub find_row-some :
    {V : Type 0} (p : V → Bool) (m : Dict V) (v : V)
    → IsDict m
    → find_row p m ≡ some v
    → (k : String) × (lookup k m ≡ some v) × (p v ≡ true)
unfolding find_row lookup
find_row-some p [] v h e = cc e
find_row-some p ((j, w) ∷ m) v h e = elim (Bool-cases (p w)) [
  | inl passes ↦ (j, ground (arith, eq_refl j), ground arith)
  | inr fails ↦
      let (k, there, passes) = find_row-some p m v h.1 (ground arith) in
      (k, ground (arith, eq_iff j k, lookup_of_Fresh j m), passes)
]

pub lookup-map_rows :
    {V : Type 0} (f : V → V) (k : String) (m : Dict V)
    → lookup k (map_rows f m) ≡ elim (lookup k m) [ none ↦ none | some v ↦ some (f v) ]
unfolding lookup map_rows
lookup-map_rows f k [] = refl
lookup-map_rows f k ((j, w) ∷ m) = ground (arith, lookup-map_rows f k m)

pub map_rows-cases :
    {V : Type 0} (f : V → V) (k : String) (m : Dict V) (t : V)
    → lookup k (map_rows f m) ≡ some t
    → (s : V) × (lookup k m ≡ some s) × (f s ≡ t)
map_rows-cases f k m t e =
    let filed = sym (lookup-map_rows f k m) ∙ e in
    elim (Option-cases (lookup k m)) [
      | inl gone ↦ ground arith
      | inr (s, there) ↦ (s, there, ground arith)
    ]

pub swept-IsEnded :
    (reason : String) (now : Time) (r : Ride)
    → is_active_row r ≡ not (is_some r.ended_at)
    → (is_active_row (swept reason now r) ≡ false)
      × (is_some (swept reason now r).ended_at ≡ true)
      × ((swept reason now r).id ≡ r.id)
      × ((swept reason now r).rider_id ≡ r.rider_id)
swept-IsEnded reason now r h = elim (Bool-cases (is_active_row r)) [
  | inl live ↦ rw live (refl, refl, refl, refl)
  | inr ended ↦ rw ended (ended, ground arith, refl, refl)
]

pub sweep_rides :
    (rides : Dict Ride) (reason : String) (now : Time)
    → RidesInv rides
    → RidesInv (map_rows (swept reason now) rides)
sweep_rides rides reason now h = record {
  keyed = λ j r e.
      let (s, there, q) = map_rows-cases (swept reason now) j rides r e in
      let (over, some_end, id, rider) = swept-IsEnded reason now s (h.dated j s there) in
      ap (λ (x : Ride). x.id) (sym q) ∙ id ∙ h.keyed j s there;
  alone = λ a b r s e f live live' g.
      let (t, there, q) = map_rows-cases (swept reason now) a rides r e in
      let (over, some_end, id, rider) = swept-IsEnded reason now t (h.dated a t there) in
      cc (over, q, live);
  dated = λ j r e.
      let (s, there, q) = map_rows-cases (swept reason now) j rides r e in
      let (over, some_end, id, rider) = swept-IsEnded reason now s (h.dated j s there) in
      cc (over, some_end, q);
}

pub find_active_lem :
    (id : String) (rides : Dict Ride) (r : Ride)
    → find_active id rides ≡ some r
    → (lookup id rides ≡ some r) × (is_active_row r ≡ true)
unfolding find_active
find_active_lem id rides r e = elim (Option-cases (lookup id rides)) [
  | inl gone ↦ ground arith
  | inr (s, there) ↦ ground arith
]
