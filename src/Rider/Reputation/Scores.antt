-- ===== src/Rider/Reputation/Scores.antt =====
-- rider/reputation.go: tiers and scores.
use vehicle_positions.Prelude.{◌≤◌, true, ◌≡◌, arith}
use vehicle_positions.Prelude.Int.{ℤ, ◌≤ℤ◌, leb_ℤ}
use vehicle_positions.Rider.Session.{rejected, Session, contradict_streak, corroborate_count}
use vehicle_positions.Rider.Session.Step.{summary}
use vehicle_positions.Rider.Session.Invariant.{Inv}
use vehicle_positions.Rider.Reputation.{
  score_delta, tier_for, clamp, min_score, max_score, min_scored_ride, rejected_penalty,
  contradicted_penalty, corroborated_reward,
}

-- A clamped score lies in [-10, 10], clamping again or clamping a score that lies there changes
-- nothing, and clamping never changes the tier that a score earns.
pub clamp_lem :
    (a : ℤ)
    → (min_score ≤ℤ clamp a)
      × (clamp a ≤ℤ max_score)
      × (clamp (clamp a) ≡ clamp a)
      × (min_score ≤ℤ a → a ≤ℤ max_score → clamp a ≡ a)
      × (tier_for (clamp a) ≡ tier_for a)
unfolding clamp tier_for
clamp_lem a = ground arith

-- What a ride costs or earns is backed by its points: for a session that satisfies the invariant,
-- the heavy penalty needs three contradicted points, the reward needs twelve corroborated points
-- and a matched span of five minutes, and a rejected ride never scores 0 or more.
pub score_delta-earned :
    {F : Type 0} (s : Session F)
    → Inv s
    → (score_delta (summary s) ≡ contradicted_penalty → contradict_streak ≤ s.counts.contradicted)
      × (score_delta (summary s) ≡ corroborated_reward
          → (corroborate_count ≤ s.counts.corroborated)
            × (leb_ℤ min_scored_ride (summary s).matched_duration ≡ true))
      × (s.state ≡ rejected → score_delta (summary s) ≤ℤ rejected_penalty)
unfolding score_delta summary
score_delta-earned s h = ground arith
