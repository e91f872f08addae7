-- ===== src/Rider/Verify/Compared.antt =====
-- rider/verify.go: what a verdict says of the trusted feed.
use vehicle_positions.Prelude.{
  true, false, some, ◌≡◌, ◌≢◌, sym, ◌∙◌, arith, subst, Option-cases, inl, inr,
}
use vehicle_positions.Prelude.Float.{FloatOps}
use vehicle_positions.Rider.Geometry.{Projection}
use vehicle_positions.Rider.Schedule.{service_day_start}
use vehicle_positions.Rider.Verify.{
  VerifyInput, TrustedVehicle, Corroboration, matched, unavailable, corroborated, contradicted,
  shape_of, ignore_reason, allowance_of, corroborate, movement_fault, verify, judge, compare_gap,
  corroborate_with,
}
use vehicle_positions.Rider.Verify.Gates.{placed_at}
use vehicle_positions.Rider.Verify.Verdicts.{verify-silent, verify-shapeless, verify-judged}

module _ {F : Type 0} ⦃fl : FloatOps F⦄ where
  open fl use {lt, le, sub, abs}

  -- What the trusted feed says of a point at `along`.
  pub record IsCompared (input : VerifyInput F) (along : F) (c : Corroboration) : Type 0 where
    pub trusted : TrustedVehicle F
    pub trusted_along : F
    pub reported : input.trusted ≡ some trusted
    pub on_shape : input.trusted_along ≡ some trusted_along
    pub agrees :
        c ≡ corroborated
        → le (abs (sub trusted_along along)) (allowance_of input.thresholds trusted input.point)
          ≡ true
    pub conflicts :
        c ≡ contradicted
        → lt
            (fl.add
              (allowance_of input.thresholds trusted input.point)
              input.thresholds.contradiction_extra)
            (abs (sub trusted_along along))
          ≡ true
    pub not_both :
        c ≡ contradicted
        → le (abs (sub trusted_along along)) (allowance_of input.thresholds trusted input.point)
          ≡ false

  corroborate-IsCompared :
      (input : VerifyInput F) (along : F)
      → corroborate input along ≢ unavailable
      → IsCompared input along (corroborate input along)
  unfolding corroborate corroborate_with compare_gap allowance_of
  corroborate-IsCompared input along n = elim (Option-cases input.trusted) [
    | inl silent ↦ ground arith
    | inr (t, reported) ↦ elim (Option-cases input.trusted_along) [
      | inl off ↦ ground arith
      | inr (a, there) ↦ record {
        trusted = t;
        trusted_along = a;
        reported = reported;
        on_shape = there;
        agrees = λ e. ground arith;
        conflicts = λ e. ground arith;
        not_both = λ e. ground arith;
      }
    ]
  ]

  judge-corroboration :
      (input : VerifyInput F) (proj : Projection F)
      → (judge input proj).corroboration ≢ unavailable
      → ((judge input proj).outcome ≡ matched)
        × ((judge input proj).along_shape ≡ proj.along_shape)
        × ((judge input proj).corroboration ≡ corroborate input proj.along_shape)
  unfolding judge
  judge-corroboration input proj n =
      elim (Option-cases
        (movement_fault input.thresholds input.prev proj.along_shape input.point.timestamp)) [
          | inl possible ↦ elim (Option-cases (service_day_start input.timezone input.start_date)) [
            | inl unparsed ↦ ground arith
            | inr (day, parsed) ↦ ground arith
          ]
          | inr (r, fault) ↦ ground arith
        ]

  -- Only a point that matches is compared with the trusted feed: if a verdict claims anything of the
  -- feed, the point matched, the feed has the trip at a place along the shape, a corroborated point
  -- is within the allowance of that place, and a contradicted one is further away than the allowance
  -- and the extra together, and not within the allowance.
  pub verify-IsCompared :
      (input : VerifyInput F)
      → (verify input).corroboration ≢ unavailable
      → ((verify input).outcome ≡ matched)
        × IsCompared input (verify input).along_shape (verify input).corroboration
  verify-IsCompared input n = elim (Option-cases (ignore_reason input)) [
    | inl passed ↦ elim (Option-cases (shape_of input.trip)) [
      | inl flat ↦ elim (n (verify-shapeless input passed flat)) [ ]
      | inr (shape, there) ↦
          let e = verify-judged input shape passed there in
          let proj = placed_at input shape in
          subst
            (λ v.
              v.corroboration ≢ unavailable
              → (v.outcome ≡ matched) × IsCompared input v.along_shape v.corroboration)
            (sym e)
            (λ m.
              let (hit, along, same) = judge-corroboration input proj m in
              (
                hit,
                subst (λ c. IsCompared input (judge input proj).along_shape c) (sym same)
                    (subst (λ x. IsCompared input x (corroborate input proj.along_shape))
                      (sym along)
                      (corroborate-IsCompared input proj.along_shape (λ q. m (same ∙ q)))),
              ))
            n
    ]
    | inr (r, refused) ↦ elim (n (verify-silent input r refused)) [ ]
  ]
