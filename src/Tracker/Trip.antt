-- ===== src/Tracker/Trip.antt =====
-- tracker.go: the driver's vehicle that speaks for a trip.
use vehicle_positions.Prelude.{
  String, Bool, true, false, not, ◌&&◌, ◌||◌, Option, none, some, List, [], ◌∷◌, ◌++◌, ◌≡◌, ◌⊎◌,
  ◌↔◌, refl, sym, ◌∙◌, ap, arith, All, str_eq, eq_iff, Option-cases, Bool-cases, inl, inr, subst,
  if◌then◌else◌,
}
use vehicle_positions.Prelude.Int.{◌≤ℤ◌, ltb_ℤ}
use vehicle_positions.Prelude.Time.{Time, is_zero}
use vehicle_positions.Prelude.Dict.{values}
use vehicle_positions.Tracker.{
  Tracker, VehicleState, is_active, fresher, freshest_from, vehicle_on_trip,
}

pub last_update_of :
    (latest u : Time) → (if is_zero latest then none else some latest) ≡ some u → latest ≡ u
last_update_of latest u e = ground arith

module _ {F : Type 0} where
  -- a vehicle on the trip that has reported lately
  abbrev pub speaks_for : Tracker F → String → Time → VehicleState F → Bool
  speaks_for t trip_id now v = str_eq v.trip_id trip_id && is_active t now v

  abbrev pub IsFrom : Tracker F → String → Time → List (VehicleState F) → VehicleState F → Type 0
  IsFrom t trip_id now vs v =
      (earlier : List (VehicleState F)) × (later : List (VehicleState F)) × (vs
        ≡ earlier ++ v ∷ later)
      × (speaks_for t trip_id now v ≡ true)

  -- `v` is the answer for the vehicles `vs`, of which `found` was the best so far.
  pub record IsFreshest (t : Tracker F) (trip_id : String) (now : Time)
      (found : Option (VehicleState F)) (vs : List (VehicleState F)) (v : VehicleState F)
      : Type 0 where
    pub origin : (found ≡ some v) ⊎ IsFrom t trip_id now vs v
    pub newest : All (λ w. speaks_for t trip_id now w ≡ true → w.timestamp ≤ℤ v.timestamp) vs
    pub beats : (f : VehicleState F) → found ≡ some f → f.timestamp ≤ℤ v.timestamp

  -- the best so far after one more vehicle
  abbrev step :
      Tracker F → String → Time → VehicleState F → Option (VehicleState F) → Option (VehicleState F)
  step t trip_id now w found =
      if not (str_eq w.trip_id trip_id) || not (is_active t now w) then found else fresher w found

  step_skip :
      (t : Tracker F) (trip_id : String) (now : Time) (w : VehicleState F)
      (found : Option (VehicleState F))
      → speaks_for t trip_id now w ≡ false
      → step t trip_id now w found ≡ found
  step_skip t trip_id now w found h = ground arith

  step_take :
      (t : Tracker F) (trip_id : String) (now : Time) (w : VehicleState F)
      (found : Option (VehicleState F))
      → speaks_for t trip_id now w ≡ true
      → step t trip_id now w found ≡ fresher w found
  step_take t trip_id now w found h = ground arith

  IsFrom-later :
      (t : Tracker F) (trip_id : String) (now : Time) (w : VehicleState F)
      (vs : List (VehicleState F)) (v : VehicleState F)
      → IsFrom t trip_id now vs v
      → IsFrom t trip_id now (w ∷ vs) v
  IsFrom-later t trip_id now w vs v (earlier, later, e, q) =
      (w ∷ earlier, later, ap (λ l. w ∷ l) e, q)

  IsFrom-first :
      (t : Tracker F) (trip_id : String) (now : Time) (w : VehicleState F)
      (vs : List (VehicleState F)) (v : VehicleState F)
      → speaks_for t trip_id now w ≡ true
      → some w ≡ some v
      → IsFrom t trip_id now (w ∷ vs) v
  IsFrom-first t trip_id now w vs v q e =
      let same : w ≡ v = cc e in
      ([], vs, ap (λ u. u ∷ vs) same, subst (λ u. speaks_for t trip_id now u ≡ true) same q)

  -- `w` takes the place of what was found
  IsFreshest-replaced :
      (t : Tracker F) (trip_id : String) (now : Time) (w : VehicleState F)
      (found : Option (VehicleState F)) (rest : List (VehicleState F)) (v : VehicleState F)
      → speaks_for t trip_id now w ≡ true
      → ((f : VehicleState F) → found ≡ some f → f.timestamp ≤ℤ w.timestamp)
      → IsFreshest t trip_id now (some w) rest v
      → IsFreshest t trip_id now found (w ∷ rest) v
  IsFreshest-replaced t trip_id now w found rest v hit below k = record {
    origin = elim k.origin [
      | inl e ↦ inr (IsFrom-first t trip_id now w rest v hit e)
      | inr m ↦ inr (IsFrom-later t trip_id now w rest v m)
    ];
    newest = (λ q. k.beats w refl, k.newest);
    beats = λ f p. omega (arith, below f p, k.beats w refl);
  }

  IsFreshest-taken :
      (t : Tracker F) (trip_id : String) (now : Time) (w : VehicleState F)
      (found : Option (VehicleState F)) (rest : List (VehicleState F)) (v : VehicleState F)
      → speaks_for t trip_id now w ≡ true
      → IsFreshest t trip_id now (fresher w found) rest v
      → IsFreshest t trip_id now found (w ∷ rest) v
  IsFreshest-taken t trip_id now w none rest v hit k =
      IsFreshest-replaced t trip_id now w none rest v hit (λ f p. cc p) k
  IsFreshest-taken t trip_id now w (some f) rest v hit k =
      elim (Bool-cases (ltb_ℤ f.timestamp w.timestamp)) [
        | inl newer ↦
            IsFreshest-replaced t trip_id now w (some f) rest v hit (λ g p. ground arith)
              (let same : fresher w (some f) ≡ some w = ground arith in
                subst (λ o. IsFreshest t trip_id now o rest v) same k)
        | inr older ↦
            let same : fresher w (some f) ≡ some f = ground arith in
            let k' = subst (λ o. IsFreshest t trip_id now o rest v) same k in
            record {
              origin = elim k'.origin [
                | inl e ↦ inl e
                | inr m ↦ inr (IsFrom-later t trip_id now w rest v m)
              ];
              newest = (λ q. ground (arith, k'.beats f refl), k'.newest);
              beats = k'.beats;
            }
      ]

  IsFreshest-step :
      (t : Tracker F) (trip_id : String) (now : Time) (w : VehicleState F)
      (found : Option (VehicleState F)) (rest : List (VehicleState F)) (v : VehicleState F)
      → IsFreshest t trip_id now (step t trip_id now w found) rest v
      → IsFreshest t trip_id now found (w ∷ rest) v
  IsFreshest-step t trip_id now w found rest v h = elim (Bool-cases (speaks_for t trip_id now w)) [
    | inl hit ↦
        IsFreshest-taken t trip_id now w found rest v hit
          (subst (λ o. IsFreshest t trip_id now o rest v) (step_take t trip_id now w found hit) h)
    | inr miss ↦
        let k =
          subst (λ o. IsFreshest t trip_id now o rest v) (step_skip t trip_id now w found miss) h in
        record {
          origin = elim k.origin [
            | inl e ↦ inl e
            | inr m ↦ inr (IsFrom-later t trip_id now w rest v m)
          ];
          newest = (λ q. ground arith, k.newest);
          beats = k.beats;
        }
  ]

  freshest_from-IsFreshest :
      (t : Tracker F) (trip_id : String) (now : Time) (found : Option (VehicleState F))
      (vs : List (VehicleState F)) (v : VehicleState F)
      → freshest_from t trip_id now found vs ≡ some v
      → IsFreshest t trip_id now found vs v
  unfolding freshest_from
  freshest_from-IsFreshest t trip_id now found [] v e = record {
    origin = inl e;
    newest = tt;
    beats = λ f p. ground arith;
  }
  freshest_from-IsFreshest t trip_id now found (w ∷ rest) v e =
      IsFreshest-step t trip_id now w found rest v
        (freshest_from-IsFreshest t trip_id now (step t trip_id now w found) rest v e)

  freshest_from-none :
      (t : Tracker F) (trip_id : String) (now : Time) (found : Option (VehicleState F))
      (vs : List (VehicleState F))
      → freshest_from t trip_id now found vs ≡ none
      → (found ≡ none) × All (λ w. speaks_for t trip_id now w ≡ false) vs
  unfolding freshest_from
  freshest_from-none t trip_id now found [] e = (e, tt)
  freshest_from-none t trip_id now found (w ∷ rest) e =
      let (gone, none_later) =
        freshest_from-none t trip_id now (step t trip_id now w found) rest e in
      elim (Bool-cases (speaks_for t trip_id now w)) [
        | inl hit ↦ elim (Option-cases found) [
          | inl first ↦ ground arith
          | inr (f, there) ↦ ground arith
        ]
        | inr miss ↦ (sym (step_skip t trip_id now w found miss) ∙ gone, (miss, none_later))
      ]

  nobody_speaks :
      (t : Tracker F) (trip_id : String) (now : Time) (vs : List (VehicleState F))
      → All (λ w. speaks_for t trip_id now w ≡ false) vs
      → freshest_from t trip_id now none vs ≡ none
  unfolding freshest_from
  nobody_speaks t trip_id now [] h = refl
  nobody_speaks t trip_id now (w ∷ rest) h =
      ap (λ o. freshest_from t trip_id now o rest) (step_skip t trip_id now w none h.0)
      ∙ nobody_speaks t trip_id now rest h.1

  -- The vehicle that is said to be on a trip is one of the tracked vehicles, has reported that trip
  -- within the age limit, and no other such vehicle has a later timestamp.
  pub vehicle_on_trip-IsFreshest :
      (t : Tracker F) (trip_id : String) (now : Time) (v : VehicleState F)
      → vehicle_on_trip t trip_id now ≡ some v
      → IsFreshest t trip_id now none (values t.vehicles) v
  unfolding vehicle_on_trip
  vehicle_on_trip-IsFreshest t trip_id now v e =
      freshest_from-IsFreshest t trip_id now none (values t.vehicles) v (ground arith)

  -- No vehicle is said to be on a trip exactly if the trip has no id or no tracked vehicle has
  -- reported it within the age limit.
  pub vehicle_on_trip-none :
      (t : Tracker F) (trip_id : String) (now : Time)
      → (vehicle_on_trip t trip_id now ≡ none)
        ↔ ((trip_id ≡ "") ⊎ All (λ w. speaks_for t trip_id now w ≡ false) (values t.vehicles))
  unfolding vehicle_on_trip
  vehicle_on_trip-none t trip_id now = elim (Bool-cases (str_eq trip_id "")) [
    | inl unnamed ↦ (λ e. inl ((eq_iff trip_id "").0 unnamed), λ m. ground arith)
    | inr named ↦ (
      λ e. inr ((freshest_from-none t trip_id now none (values t.vehicles) (ground arith)).1),
      λ m. elim m [
        | inl e ↦ ground (arith, eq_iff trip_id "")
        | inr nobody ↦
            let silent = nobody_speaks t trip_id now (values t.vehicles) nobody in
            ground (arith, silent)
      ],
    )
  ]
