-- ===== src/Rider/Session/Publication.antt =====
-- rider/session.go: when a ride may be published on its own.
use vehicle_positions.Prelude.{◌≤◌, true, false, some, ◌≡◌, ◌≢◌, arith, inl, inr, Option-cases}
use vehicle_positions.Prelude.Int.{leb_ℤ}
use vehicle_positions.Prelude.Time.{Time, Duration, time_sub}
use vehicle_positions.Rider.Verify.{AcceptedPoint}
use vehicle_positions.Rider.Session.{new, blocked, Session, corroborate_count, verify_streak}
use vehicle_positions.Rider.Session.Step.{publishable}
use vehicle_positions.Rider.Session.Invariant.{Inv}

module _ {F : Type 0} where
  -- What a published ride has earned.
  pub record IsCredible (s : Session F) (now : Time) (max_age : Duration) : Type 0 where
    pub point : AcceptedPoint F
    pub latest : s.latest_matched ≡ some point
    pub recent : leb_ℤ (time_sub now point.point.timestamp) max_age ≡ true
    pub live : s.ended ≡ false
    pub streak : verify_streak ≤ s.counts.matched
    pub not_blocked : s.tier ≢ blocked
    pub vouched : s.tier ≡ new → corroborate_count ≤ s.counts.corroborated

  -- A session that satisfies the invariant and is published on its own is live, its latest match is
  -- no older than the limit, at least three of its points matched, its rider is not blocked, and a
  -- new rider's ride has twelve corroborated points.
  pub publishable-IsCredible :
      (s : Session F) (now : Time) (max_age : Duration)
      → Inv s
      → publishable s now max_age ≡ true
      → IsCredible s now max_age
  unfolding publishable
  publishable-IsCredible s now max_age h e = elim (Option-cases s.latest_matched) [
    | inl gone ↦ ground arith
    | inr (p, there) ↦ record {
      point = p;
      latest = there;
      recent = ground arith;
      live = ground arith;
      streak = ground arith;
      not_blocked = ground arith;
      vouched = ground arith;
    }
  ]
