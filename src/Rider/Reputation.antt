-- ===== src/Rider/Reputation.antt =====
-- rider/reputation.go: what a finished ride does to its rider's score, and the tier a score earns.
pub mod Scores
use vehicle_positions.Prelude.{◌*◌, String, ◌&&◌, if◌then◌else◌, str_eq}
use vehicle_positions.Prelude.Int.{ℤ, pos, negsuc, leb_ℤ, min_ℤ, max_ℤ}
use vehicle_positions.Prelude.Time.{minute}
use vehicle_positions.Rider.Session.{
  Tier, new, trusted, blocked, RideSummary, end_contradicted, is_rejected,
}

unfoldable pub parse_tier : String → Tier
parse_tier s = if str_eq s "trusted" then trusted else if str_eq s "blocked" then blocked else new

-- `string(t)`
unfoldable pub tier_string : Tier → String
tier_string new = "new"
tier_string trusted = "trusted"
tier_string blocked = "blocked"

abbrev pub min_scored_ride : ℤ
min_scored_ride = pos (5 * minute)

abbrev pub contradicted_penalty : ℤ
contradicted_penalty = negsuc 2

abbrev pub rejected_penalty : ℤ
rejected_penalty = negsuc 0

abbrev pub corroborated_reward : ℤ
corroborated_reward = pos 1

abbrev pub blocked_at_or_below : ℤ
blocked_at_or_below = negsuc 2

abbrev pub trusted_at_or_above : ℤ
trusted_at_or_above = pos 3

abbrev pub max_score : ℤ
max_score = pos 10

abbrev pub min_score : ℤ
min_score = negsuc 9

unfoldable pub score_delta : RideSummary → ℤ
score_delta s =
    if is_rejected s.state
    then (if str_eq s.end_reason end_contradicted then contradicted_penalty else rejected_penalty)
    else if s.is_corroborated && leb_ℤ min_scored_ride s.matched_duration
    then corroborated_reward
    else pos 0

unfoldable pub tier_for : ℤ → Tier
tier_for score =
    if leb_ℤ score blocked_at_or_below
    then blocked
    else if leb_ℤ trusted_at_or_above score
    then trusted
    else new

unfoldable pub clamp : ℤ → ℤ
clamp score = min_ℤ (max_ℤ score min_score) max_score
