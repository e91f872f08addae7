-- ===== src/Rider/Verify/Gates.antt =====
-- rider/verify.go: what a point has to pass for each verdict.
use vehicle_positions.Prelude.{
  ◌+◌, ◌≤◌, ◌<◌, ◌||◌, true, false, none, some, ◌≡◌, refl, ◌↔◌, sym, arith, subst, Option-cases,
  inl, inr,
}
use vehicle_positions.Prelude.Int.{pos, ltb_ℤ, ◌≤ℤ◌}
use vehicle_positions.Prelude.Time.{
  Time, time_add, max_duration, time_sub, neg_duration, ltb_ℤ-time_sub,
}
use vehicle_positions.Prelude.Float.{FloatOps}
use vehicle_positions.Rider.Geometry.{LatLon, ShapeGeom, Projection, project}
use vehicle_positions.Rider.Schedule.{service_day_start, scheduled_offset_at}
use vehicle_positions.Rider.Verify.{
  VerifyInput, Thresholds, AcceptedPoint, matched, shape_of, plausible_pos, ignore_reason,
  movement_fault, deviation_of, tolerance_of, hint_of, judge,
}

-- `now` is at most `future` before and at most `past` after `t`.
ahead_of_clock :
    (now t future : Time)
    → future < max_duration
    → ltb_ℤ (time_sub now t) (neg_duration (pos future)) ≡ false
    → t ≤ now + future
unfolding time_sub
ahead_of_clock now t future small h = ground arith

within_future :
    (now t future : Time)
    → future < max_duration
    → t ≤ now + future
    → ltb_ℤ (time_sub now t) (neg_duration (pos future)) ≡ false
unfolding time_sub
within_future now t future small h = ground arith

module _ {F : Type 0} ⦃fl : FloatOps F⦄ where
  open fl use {lit, lt, le, add, sub, div, neg, max, abs, seconds, is_nan}

  -- Coordinates that are numbers in their ranges and not both zero.
  pub record IsPlausible (p : LatLon F) : Type 0 where
    pub numbers : (is_nan p.lat ≡ false) × (is_nan p.lon ≡ false)
    pub lat_in_range : (lt p.lat (neg (lit 90)) ≡ false) × (lt (lit 90) p.lat ≡ false)
    pub lon_in_range : (lt p.lon (neg (lit 180)) ≡ false) × (lt (lit 180) p.lon ≡ false)
    pub not_null :
        lt p.lat (lit 0) || lt (lit 0) p.lat || lt p.lon (lit 0) || lt (lit 0) p.lon ≡ true

  plausible_pos_iff : (p : LatLon F) → (plausible_pos p ≡ true) ↔ IsPlausible p
  unfolding plausible_pos
  plausible_pos_iff p = (
    λ e. record {
      numbers = (ground arith, ground arith);
      lat_in_range = (ground arith, ground arith);
      lon_in_range = (ground arith, ground arith);
      not_null = ground arith;
    },
    λ h. ground (arith, h.numbers, h.lat_in_range, h.lon_in_range, h.not_null),
  )

  -- A point that says something about the trip, in terms of the clock and of the points before.
  pub record IsUsable (input : VerifyInput F) (past future : Time) : Type 0 where
    pub shape : ShapeGeom F
    pub on_shape : shape_of input.trip ≡ some shape
    pub placed : IsPlausible input.point.pos
    pub precise : lt input.thresholds.max_accuracy input.point.accuracy ≡ false
    pub not_old : input.now ≤ input.point.timestamp + past
    pub not_ahead : input.point.timestamp ≤ input.now + future
    pub newer : 0 < input.last_accepted → input.last_accepted < input.point.timestamp
    pub after_match :
        (prev : AcceptedPoint F)
        → input.prev ≡ some prev
        → prev.point.timestamp < input.point.timestamp

  window_passed :
      (input : VerifyInput F) (past future : Time)
      → input.thresholds.past_window ≡ pos past
      → input.thresholds.future_window ≡ pos future
      → ignore_reason input ≡ none
      → (ltb_ℤ (pos past) (time_sub input.now input.point.timestamp) ≡ false)
        × (ltb_ℤ (time_sub input.now input.point.timestamp) (neg_duration (pos future)) ≡ false)
  unfolding ignore_reason
  window_passed input past future p f h = (
    subst (λ w. ltb_ℤ w (time_sub input.now input.point.timestamp) ≡ false) p (ground arith),
    subst (λ w. ltb_ℤ (time_sub input.now input.point.timestamp) (neg_duration w) ≡ false) f
        (ground arith),
  )

  pub IsUsable-of_passed :
      (input : VerifyInput F) (past future : Time)
      → input.thresholds.past_window ≡ pos past
      → input.thresholds.future_window ≡ pos future
      → past < max_duration
      → future < max_duration
      → ignore_reason input ≡ none
      → IsUsable input past future
  unfolding ignore_reason
  IsUsable-of_passed input past future p f sp sf h =
      let old = ltb_ℤ-time_sub input.now input.point.timestamp past sp in
      let ahead = ahead_of_clock input.now input.point.timestamp future sf in
      let windows = window_passed input past future p f h in
      elim (Option-cases (shape_of input.trip)) [
        | inl gone ↦ ground arith
        | inr (shape, there) ↦ record {
          shape = shape;
          on_shape = there;
          placed = (plausible_pos_iff input.point.pos).0 (ground arith);
          precise = ground arith;
          not_old = ground arith;
          not_ahead = ahead windows.1;
          newer = ground arith;
          after_match = λ prev e. ground arith;
        }
      ]

  pub passed_of_usable :
      (input : VerifyInput F) (past future : Time)
      → input.thresholds.past_window ≡ pos past
      → input.thresholds.future_window ≡ pos future
      → past < max_duration
      → future < max_duration
      → IsUsable input past future
      → ignore_reason input ≡ none
  unfolding ignore_reason
  passed_of_usable input past future p f sp sf h =
      let old = ltb_ℤ-time_sub input.now input.point.timestamp past sp in
      let placed = (plausible_pos_iff input.point.pos).1 h.placed in
      let ahead = within_future input.now input.point.timestamp future sf h.not_ahead in
      let old' : ltb_ℤ input.thresholds.past_window (time_sub input.now input.point.timestamp)
          ≡ false =
        subst (λ w. ltb_ℤ w (time_sub input.now input.point.timestamp) ≡ false) (sym p)
          (ground (arith, h.not_old)) in
      let ahead' : ltb_ℤ (time_sub input.now input.point.timestamp)
            (neg_duration input.thresholds.future_window)
          ≡ false =
        subst (λ w. ltb_ℤ (time_sub input.now input.point.timestamp) (neg_duration w) ≡ false)
          (sym f) ahead in
      elim (Option-cases input.prev) [
        | inl first ↦ ground (arith, h.newer)
        | inr (prev, there) ↦ ground (arith, h.newer, h.after_match prev there)
      ]

  -- the trip's shape projected onto, as `verify` does it
  abbrev pub placed_at : VerifyInput F → ShapeGeom F → Projection F
  placed_at input shape = project shape input.point.pos (hint_of input.prev)

  -- The gates behind `ignored`, in terms of the distances, speeds and times that they compare.
  pub record IsMatch (input : VerifyInput F) (shape : ShapeGeom F) : Type 0 where
    pub near :
        lt
          (add input.thresholds.max_shape_distance (max input.point.accuracy (lit 0)))
          (placed_at input shape).distance_to_shape
        ≡ false
    pub forward :
        (prev : AcceptedPoint F)
        → input.prev ≡ some prev
        → lt
            (sub (placed_at input shape).along_shape prev.along_shape)
            (neg input.thresholds.max_regression)
          ≡ false
    -- in no time, any distance will do
    pub reachable :
        (prev : AcceptedPoint F)
        → input.prev ≡ some prev
        → lt (lit 0) (seconds (time_sub input.point.timestamp prev.point.timestamp)) ≡ true
        → lt input.thresholds.max_speed (
            div
              (abs (sub (placed_at input shape).along_shape prev.along_shape))
              (seconds (time_sub input.point.timestamp prev.point.timestamp)))
          ≡ false
    pub day : Time
    pub parsed : service_day_start input.timezone input.start_date ≡ some day
    pub not_early :
        neg_duration input.thresholds.schedule_early
        ≤ℤ time_sub input.point.timestamp
            (time_add day (scheduled_offset_at input.trip (placed_at input shape).along_shape))
    pub not_late :
        time_sub input.point.timestamp
          (time_add day (scheduled_offset_at input.trip (placed_at input shape).along_shape))
        ≤ℤ input.thresholds.schedule_late

  can_move :
      (th : Thresholds F) (prev : AcceptedPoint F) (along : F) (t : Time)
      → movement_fault th (some prev) along t ≡ none
      → (lt (sub along prev.along_shape) (neg th.max_regression) ≡ false)
        × (lt (lit 0) (seconds (time_sub t prev.point.timestamp)) ≡ true
            → lt th.max_speed
                (div (abs (sub along prev.along_shape)) (seconds (time_sub t prev.point.timestamp)))
              ≡ false)
  unfolding movement_fault
  can_move th prev along t e = (ground arith, λ m. ground arith)

  moves_of :
      (input : VerifyInput F) (shape : ShapeGeom F)
      → IsMatch input shape
      → movement_fault input.thresholds input.prev
          (placed_at input shape).along_shape
          input.point.timestamp
        ≡ none
  unfolding movement_fault
  moves_of input shape m = elim (Option-cases input.prev) [
    | inl first ↦ rw (first, movement_fault) refl
    | inr (prev, there) ↦ ground (arith, m.forward prev there, m.reachable prev there)
  ]

  pub judge-IsMatch :
      (input : VerifyInput F) (shape : ShapeGeom F)
      → ((judge input (placed_at input shape)).outcome ≡ matched) ↔ IsMatch input shape
  unfolding judge tolerance_of deviation_of
  judge-IsMatch input shape =
      let along = (placed_at input shape).along_shape in
      elim (Option-cases (movement_fault input.thresholds input.prev along input.point.timestamp)) [
        | inl possible ↦ elim (Option-cases (service_day_start input.timezone input.start_date)) [
          | inl unparsed ↦ (λ e. ground arith, λ m. ground (arith, m.parsed))
          | inr (day, parsed) ↦ (
            λ e. record {
              near = ground arith;
              forward = λ prev there.
                  (can_move input.thresholds prev along input.point.timestamp
                    (ground (arith, there))).0;
              reachable = λ prev there.
                  (can_move input.thresholds prev along input.point.timestamp
                    (ground (arith, there))).1;
              day = day;
              parsed = parsed;
              not_early = ground arith;
              not_late = ground arith;
            },
            λ m. ground (arith, m.near, m.not_early, m.not_late, m.parsed),
          )
        ]
        | inr (r, fault) ↦ (λ e. ground arith, λ m. cc (fault, moves_of input shape m))
      ]
