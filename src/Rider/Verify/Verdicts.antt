-- ===== src/Rider/Verify/Verdicts.antt =====
-- rider/verify.go: which points are used, and which match.
use vehicle_positions.Prelude.{
  ◌<◌, none, some, ◌≡◌, ◌≢◌, ◌↔◌, refl, sym, ◌∙◌, ap, arith, Option-cases, inl, inr,
}
use vehicle_positions.Prelude.Int.{pos}
use vehicle_positions.Prelude.Time.{Time, max_duration}
use vehicle_positions.Prelude.Float.{FloatOps}
use vehicle_positions.Rider.Geometry.{ShapeGeom, Projection}
use vehicle_positions.Rider.Schedule.{service_day_start}
use vehicle_positions.Rider.Verify.{
  VerifyInput, Reason, ignored, matched, unavailable, shape_of, ignore_reason, movement_fault,
  verify, judge, judge_on,
}
use vehicle_positions.Rider.Verify.Gates.{
  IsUsable, IsMatch, placed_at, IsUsable-of_passed, passed_of_usable, judge-IsMatch,
}

module _ {F : Type 0} ⦃fl : FloatOps F⦄ where
  pub judge-used :
      (input : VerifyInput F) (proj : Projection F) → (judge input proj).outcome ≢ ignored
  unfolding judge
  judge-used input proj e =
      elim (Option-cases
        (movement_fault input.thresholds input.prev proj.along_shape input.point.timestamp)) [
          | inl possible ↦ elim (Option-cases (service_day_start input.timezone input.start_date)) [
            | inl unparsed ↦ ground arith
            | inr (day, parsed) ↦ ground arith
          ]
          | inr (r, fault) ↦ ground arith
        ]

  passed-newer :
      (input : VerifyInput F)
      → ignore_reason input ≡ none
      → 0 < input.last_accepted
      → input.last_accepted < input.point.timestamp
  unfolding ignore_reason
  passed-newer input h n = ground arith

  verify-refused :
      (input : VerifyInput F) (r : Reason)
      → ignore_reason input ≡ some r
      → (verify input).outcome ≡ ignored
  unfolding verify
  verify-refused input r e = rw (e, verify) refl

  pub verify-silent :
      (input : VerifyInput F) (r : Reason)
      → ignore_reason input ≡ some r
      → (verify input).corroboration ≡ unavailable
  unfolding verify
  verify-silent input r e = rw (e, verify) refl

  pub verify-shapeless :
      (input : VerifyInput F)
      → ignore_reason input ≡ none
      → shape_of input.trip ≡ none
      → (verify input).corroboration ≡ unavailable
  unfolding verify judge_on
  verify-shapeless input e flat = rw (e, flat, verify, judge_on) refl

  pub verify-judged :
      (input : VerifyInput F) (shape : ShapeGeom F)
      → ignore_reason input ≡ none
      → shape_of input.trip ≡ some shape
      → verify input ≡ judge input (placed_at input shape)
  unfolding verify judge_on
  verify-judged input shape e there = rw (e, there, verify, judge_on) refl

  -- A point is not ignored exactly if its trip has a shape, its coordinates are plausible and
  -- precise enough, it lies within the two windows around the clock, and it is newer than the last
  -- accepted point and than the last match. The windows are not negative and below 292 years.
  pub verify_used_iff :
      (input : VerifyInput F) (past future : Time)
      → input.thresholds.past_window ≡ pos past
      → input.thresholds.future_window ≡ pos future
      → past < max_duration
      → future < max_duration
      → ((verify input).outcome ≢ ignored) ↔ IsUsable input past future
  verify_used_iff input past future p f sp sf = elim (Option-cases (ignore_reason input)) [
    | inl passed ↦
        let u = IsUsable-of_passed input past future p f sp sf passed in
        (
          λ n. u,
          λ v e.
              judge-used input (placed_at input u.shape)
                (ap (λ r. r.outcome) (sym (verify-judged input u.shape passed u.on_shape)) ∙ e),
        )
    | inr (r, refused) ↦ (
      λ n. elim (n (verify-refused input r refused)) [ ],
      λ v. cc (refused, passed_of_usable input past future p f sp sf v),
    )
  ]

  -- A point matches exactly if it is usable and, projected onto the shape near the last match, it is
  -- no further from the shape than the limit and its own accuracy add up to; it lies no further
  -- behind the last match than the limit, and no faster than the limit from it where time has gone
  -- by; its service date parses; and it is neither earlier nor later against the schedule at that
  -- place than the two limits allow. The windows of the clock are not negative and below 292 years.
  pub verify_matched_iff :
      (input : VerifyInput F) (past future : Time)
      → input.thresholds.past_window ≡ pos past
      → input.thresholds.future_window ≡ pos future
      → past < max_duration
      → future < max_duration
      → ((verify input).outcome ≡ matched)
        ↔ ((u : IsUsable input past future) × IsMatch input u.shape)
  verify_matched_iff input past future p f sp sf = elim (Option-cases (ignore_reason input)) [
    | inl passed ↦
        let u = IsUsable-of_passed input past future p f sp sf passed in
        (
          λ e. (
            u,
            (judge-IsMatch input u.shape).0
                (ap (λ r. r.outcome) (sym (verify-judged input u.shape passed u.on_shape)) ∙ e),
          ),
          λ m.
              ap (λ r. r.outcome) (verify-judged input m.0.shape passed m.0.on_shape)
              ∙ (judge-IsMatch input m.0.shape).1 m.1,
        )
    | inr (r, refused) ↦ (
      λ e. cc (e, verify-refused input r refused),
      λ m. cc (refused, passed_of_usable input past future p f sp sf m.0),
    )
  ]

  -- A point that is not ignored is newer than the last accepted one, if there is one.
  pub verify-newer :
      (input : VerifyInput F)
      → (verify input).outcome ≢ ignored
      → 0 < input.last_accepted
      → input.last_accepted < input.point.timestamp
  verify-newer input used n = elim (Option-cases (ignore_reason input)) [
    | inl passed ↦ passed-newer input passed n
    | inr (r, refused) ↦ elim (used (verify-refused input r refused)) [ ]
  ]
