-- ===== src/Rider/Aggregator/Batch.antt =====
-- `ApplyBatch` of rider/aggregator.go. It reads the ride's trip under the lock, lets go of the lock
-- to ask for the trusted position, and takes it again: `between` is what other calls did to the
-- registry in the meantime.
use vehicle_positions.Prelude.{
  ℕ, ◌+◌, String, Bool, not, Option, none, some, List, [], ◌∷◌, ◌++◌, length, leb, if◌then◌else◌,
}
use vehicle_positions.Prelude.Time.{Time}
use vehicle_positions.Prelude.Float.{FloatOps}
use vehicle_positions.Prelude.Dict.{insert}
use vehicle_positions.Prelude.Sort.{sort}
use vehicle_positions.Rider.Geometry.{project}
use vehicle_positions.Rider.Verify.{
  Point, TrustedVehicle, Verdict, VerifyInput, Corroboration, ignored, verify, shape_of, hint_of,
}
use vehicle_positions.Rider.Session.{TripKey, Session, RideSummary, same_outcome}
use vehicle_positions.Rider.Session.Step.{
  apply, publishable, off_route_streak, last_accepted_at, summary,
}
use vehicle_positions.Rider.Aggregator.{Aggregator, live_key, live_session, same_key}

pub record BatchResult (F : Type 0) : Type 0 where
  pub published : Bool
  pub corroboration : Corroboration
  pub accepted : ℕ
  pub ignored_count : ℕ
  pub off_route_count : ℕ
  pub points : List (Point F × Verdict F)
  pub ride_summary : RideSummary

-- What the loop over the sorted points carries.
pub record Fold (F : Type 0) : Type 0 where
  pub session : Session F
  pub accepted : ℕ
  pub ignored_count : ℕ
  pub points : List (Point F × Verdict F)

module _ {F : Type 0} ⦃fl : FloatOps F⦄ where
  -- where the trusted position falls on the session's shape
  unfoldable pub trusted_along_of : Session F → Option (TrustedVehicle F) → Option F
  trusted_along_of s none = none
  trusted_along_of s (some trusted) = elim (shape_of s.trip) [
    | none ↦ none
    | some shape ↦ some (project shape trusted.pos (hint_of s.latest_matched)).along_shape
  ]

  unfoldable pub input_of :
      Aggregator F
      → Option (TrustedVehicle F)
      → Option F
      → Time
      → Session F
      → Point F
      → VerifyInput F
  unfolding last_accepted_at
  input_of a trusted along now s p = record {
    trip = s.trip;
    timezone = a.tz;
    start_date = s.key.start_date;
    prev = s.latest_matched;
    last_accepted = last_accepted_at s;
    point = p;
    trusted = trusted;
    trusted_along = along;
    thresholds = a.th;
    now = now;
  }

  unfoldable pub fold_point : (Session F → Point F → Verdict F) → Fold F → Point F → Fold F
  fold_point judge f p =
      let v = judge f.session p in
      if same_outcome v.outcome ignored
      then record f { ignored_count = f.ignored_count + 1 }
      else record {
        session = (apply f.session v p).0;
        accepted = f.accepted + 1;
        ignored_count = f.ignored_count;
        points = f.points ++ (p, v) ∷ [];
      }

  -- Once the session has ended, the loop breaks and counts what is left as ignored.
  unfoldable pub fold_points : (Session F → Point F → Verdict F) → Fold F → List (Point F) → Fold F
  unfolding fold_point
  fold_points judge f [] = f
  fold_points judge f (p ∷ rest) =
      let next = fold_points judge (fold_point judge f p) rest in
      if f.session.ended
      then record f { ignored_count = f.ignored_count + length (p ∷ rest) }
      else next

  abbrev pub older : Point F → Point F → Bool
  older p q = leb p.timestamp q.timestamp

  abbrev pub start_of : Session F → Fold F
  start_of s = record { session = s; accepted = 0; ignored_count = 0; points = [] }

  unfoldable pub fold_batch :
      Aggregator F → Option (TrustedVehicle F) → Time → Session F → List (Point F) → Fold F
  unfolding trusted_along_of input_of
  fold_batch a trusted now s points =
      let along = trusted_along_of s trusted in
      fold_points (λ t p. verify (input_of a trusted along now t p)) (start_of s)
        (sort older points)

  unfoldable pub result_of : Aggregator F → Time → Fold F → BatchResult F
  unfolding publishable off_route_streak summary
  result_of a now f = record {
    published = publishable f.session now a.th.point_max_age;
    corroboration = f.session.latest_corrob;
    accepted = f.accepted;
    ignored_count = f.ignored_count;
    off_route_count = off_route_streak f.session;
    points = f.points;
    ride_summary = summary f.session;
  }

  -- From the second time that the lock is taken; `none` is ErrUnknownRide.
  unfoldable pub apply_batch_locked :
      Aggregator F
      → String
      → TripKey
      → List (Point F)
      → Option (TrustedVehicle F)
      → Time
      → Aggregator F × Option (BatchResult F)
  apply_batch_locked a ride_id key points trusted now = elim (live_session a ride_id) [
    | none ↦ (a, none)
    | some s ↦
        let f = fold_batch a trusted now s points in
        if not (same_key s.key key)
        then (a, none)
        else (record a { sessions = insert ride_id f.session a.sessions }, some (result_of a now f))
  ]

  unfoldable pub apply_batch :
      Aggregator F
      → (Aggregator F → Aggregator F)
      → String
      → List (Point F)
      → (TripKey → Option (TrustedVehicle F))
      → Time
      → Aggregator F × Option (BatchResult F)
  unfolding live_key apply_batch_locked
  apply_batch a between ride_id points lookup now = elim (live_key a ride_id) [
    | none ↦ (a, none)
    | some key ↦ apply_batch_locked (between a) ride_id key points (lookup key) now
  ]
