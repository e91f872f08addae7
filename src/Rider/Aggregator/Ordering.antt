-- ===== src/Rider/Aggregator/Ordering.antt =====
-- `ApplyBatch` of rider/aggregator.go: the order of the points that a batch accepts.
use mathlib.Core.List.{append-nil, append_assoc}
use vehicle_positions.Prelude.{
  ◌<◌, ◌+◌, String, if◌then◌else◌, true, false, Option, some, List, [], ◌∷◌, ◌++◌, ◌≡◌, ◌≢◌, sym,
  ap, ◌∙◌, arith, subst, Bool-cases, Option-cases, inl, inr,
}
use vehicle_positions.Prelude.Time.{Time}
use vehicle_positions.Prelude.Float.{FloatOps}
use vehicle_positions.Prelude.Sort.{sort}
use vehicle_positions.Rider.Verify.{Point, Verdict, TrustedVehicle, ignored, verify}
use vehicle_positions.Rider.Verify.Verdicts.{verify-newer}
use vehicle_positions.Rider.Session.{TripKey, Session, same_outcome}
use vehicle_positions.Rider.Session.Step.{apply, last_accepted_at}
use vehicle_positions.Rider.Aggregator.{Aggregator, live_key, live_session}
use vehicle_positions.Rider.Aggregator.Batch.{
  BatchResult, Fold, fold_point, fold_points, fold_batch, start_of, older, input_of,
  trusted_along_of, result_of, apply_batch, apply_batch_locked,
}
use vehicle_positions.Rider.Aggregator.Folding.{fold_points_induction, apply-total}

module _ {F : Type 0} where
  -- Each point is newer than the one before, the first than `last`; a time of 0 is no time.
  abbrev pub IsChain : Time → List (Point F × Verdict F) → Type 0
  IsChain last [] = Unit
  IsChain last ((p, v) ∷ rest) =
      (0 < last → last < p.timestamp) × (v.outcome ≢ ignored) × IsChain p.timestamp rest

module _ {F : Type 0} ⦃fl : FloatOps F⦄ (judge : Session F → Point F → Verdict F) where
  abbrev AsksNewer : Type 0
  AsksNewer =
      (s : Session F) (p : Point F)
      → (judge s p).outcome ≢ ignored
      → 0 < last_accepted_at s
      → last_accepted_at s < p.timestamp

  record IsExtended (f : Fold F) (ps : List (Point F)) (g : Fold F) : Type 0 where
    new : List (Point F × Verdict F)
    extended : g.points ≡ f.points ++ new
    chain : IsChain (last_accepted_at f.session) new

  used_outcome : (v : Verdict F) → same_outcome v.outcome ignored ≡ false → v.outcome ≢ ignored
  used_outcome v h e = cc

  -- the fold after a point that is used
  abbrev after_used : Fold F → Point F → Fold F
  after_used f p = record {
    session = (apply f.session (judge f.session p) p).0;
    accepted = f.accepted + 1;
    ignored_count = f.ignored_count;
    points = f.points ++ (p, judge f.session p) ∷ [];
  }

  fold_point-skipped :
      (f : Fold F) (p : Point F)
      → same_outcome (judge f.session p).outcome ignored ≡ true
      → fold_point judge f p ≡ record f { ignored_count = f.ignored_count + 1 }
  unfolding fold_point
  fold_point-skipped f p h =
      ap (λ b. if b then record f { ignored_count = f.ignored_count + 1 } else after_used f p) h

  fold_point-used :
      (f : Fold F) (p : Point F)
      → same_outcome (judge f.session p).outcome ignored ≡ false
      → fold_point judge f p ≡ after_used f p
  unfolding fold_point
  fold_point-used f p h =
      ap (λ b. if b then record f { ignored_count = f.ignored_count + 1 } else after_used f p) h

  fold_point-IsExtended :
      AsksNewer
      → (f : Fold F) (p : Point F) (rest : List (Point F)) (g : Fold F) → f.session.ended ≡ false
      → IsExtended (fold_point judge f p) rest g
      → IsExtended f (p ∷ rest) g
  fold_point-IsExtended newer f p rest g live h =
      let v = judge f.session p in
      elim (Bool-cases (same_outcome v.outcome ignored)) [
        | inl skipped ↦
            let h' = subst (λ k. IsExtended k rest g) (fold_point-skipped f p skipped) h in
            record { new = h'.new; extended = h'.extended; chain = h'.chain }
        | inr used ↦
            let h' = subst (λ k. IsExtended k rest g) (fold_point-used f p used) h in
            record {
              new = (p, v) ∷ h'.new;
              extended = h'.extended ∙ append_assoc f.points ((p, v) ∷ []) h'.new;
              chain = (
                newer f.session p (used_outcome v used),
                used_outcome v used,
                subst (λ t. IsChain t h'.new) (apply-total f.session v p live used).1 h'.chain,
              );
            }
      ]

  fold_points-IsExtended :
      AsksNewer → (f : Fold F) (ps : List (Point F)) → IsExtended f ps (fold_points judge f ps)
  fold_points-IsExtended newer =
      fold_points_induction judge IsExtended
        (λ f ps. record { new = []; extended = sym (append-nil f.points); chain = tt })
        (fold_point-IsExtended newer)

module _ {F : Type 0} ⦃fl : FloatOps F⦄ where
  fold_batch-IsChain :
      (a : Aggregator F) (trusted : Option (TrustedVehicle F)) (now : Time) (s : Session F)
      (ps : List (Point F))
      → IsChain (last_accepted_at s) (fold_batch a trusted now s ps).points
  unfolding fold_batch input_of
  fold_batch-IsChain a trusted now s ps =
      let judge = λ (t : Session F) (p : Point F).
        verify (input_of a trusted (trusted_along_of s trusted) now t p) in
      let done =
        fold_points-IsExtended judge
          (λ t p used n.
            verify-newer (input_of a trusted (trusted_along_of s trusted) now t p) used n)
          (start_of s) (sort older ps) in
      subst (IsChain (last_accepted_at s)) (sym done.extended) done.chain

  -- The points that a batch accepts, in the order in which they are handed on for storing, are none
  -- of them ignored, and each is newer than the one before, the first of them newer than what the
  -- session had last accepted (a timestamp of zero counts as none): a batch that is posted twice, or
  -- overlaps the one before, counts no point twice, in whatever order its points arrive.
  pub apply_batch-IsChain :
      (a : Aggregator F) (between : Aggregator F → Aggregator F) (id : String) (ps : List (Point F))
      (lookup : TripKey → Option (TrustedVehicle F)) (now : Time) (a' : Aggregator F)
      (r : BatchResult F) (s : Session F)
      → apply_batch a between id ps lookup now ≡ (a', some r)
      → live_session (between a) id ≡ some s
      → IsChain (last_accepted_at s) r.points
  unfolding apply_batch apply_batch_locked result_of
  apply_batch-IsChain a between id ps lookup now a' r s e there =
      elim (Option-cases (live_key a id)) [
        | inl gone ↦ ground arith
        | inr (key, before) ↦
            let same : (fold_batch (between a) (lookup key) now s ps).points ≡ r.points =
              ground arith in
            subst (IsChain (last_accepted_at s)) same
              (fold_batch-IsChain (between a) (lookup key) now s ps)
      ]
