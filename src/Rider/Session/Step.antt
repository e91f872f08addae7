-- ===== src/Rider/Session/Step.antt =====
-- rider/session.go: the methods of a session, in the order of the file.
use mathlib.Core.List.{reverse}
use vehicle_positions.Prelude.{
  ℕ, suc, ◌+◌, String, Bool, true, false, not, ◌&&◌, ◌||◌, Option, none, some, List, [], ◌∷◌, ◌++◌,
  length, ltb, leb, ◌==◌, str_eq, if◌then◌else◌,
}
use vehicle_positions.Prelude.Int.{pos, leb_ℤ}
use vehicle_positions.Prelude.Time.{Time, Duration, time_sub}
use vehicle_positions.Rider.Schedule.{TripInfo}
use vehicle_positions.Rider.Verify.{
  Point, AcceptedPoint, Verdict, Outcome, ignored, off_route, implausible, off_schedule, matched,
  Corroboration, unavailable, corroborated, contradicted,
}
use vehicle_positions.Rider.Session.{
  pending, verified, rejected, EndReason, end_contradicted, Tier, TripKey, Transition, quiet,
  verify_streak, reject_streak, contradict_streak, corroborate_count, Session, no_counts,
  is_pending, is_verified, is_blocked, is_trusted, same_outcome, RideSummary,
}

-- `counts[o]` after the first loop of `dominantOutcome`
unfoldable pub count_outcome : Outcome → List Outcome → ℕ
count_outcome o [] = 0
count_outcome o (x ∷ xs) =
    let rest = count_outcome o xs in if same_outcome x o then suc rest else rest

-- the second loop, which runs from the end of the streak
unfoldable pub dominant_from : List Outcome → Outcome → List Outcome → Outcome
dominant_from streak best [] = best
dominant_from streak best (o ∷ rest) =
    dominant_from streak
      (if ltb (count_outcome best streak) (count_outcome o streak) then o else best) rest

-- The source indexes the last element and would panic on an empty streak; it is called with five.
abbrev pub dominant_of_reversed : List Outcome → List Outcome → Outcome
dominant_of_reversed streak [] = ignored
dominant_of_reversed streak (last ∷ rest) = dominant_from streak last (last ∷ rest)

unfoldable pub dominant_outcome : List Outcome → Outcome
unfolding count_outcome dominant_from
dominant_outcome streak = dominant_of_reversed streak (reverse streak)

abbrev pub end_reason_for : Outcome → EndReason
end_reason_for off_route = "off_route"
end_reason_for implausible = "implausible"
end_reason_for off_schedule = "off_schedule"
end_reason_for _ = "off_route"

module _ {F : Type 0} where
  unfoldable pub new_session :
      String → String → TripKey → Option (TripInfo F) → Tier → Time → Session F
  new_session id rider_id key trip tier started_at = record {
    id = id;
    rider_id = rider_id;
    key = key;
    trip = trip;
    tier = tier;
    started_at = started_at;
    state = pending;
    is_corroborated = false;
    latest = none;
    latest_matched = none;
    latest_corrob = unavailable;
    counts = no_counts;
    match_streak = 0;
    contradictions = 0;
    non_matched_streak = [];
    first_matched_at = 0;
    last_matched_at = 0;
    ended = false;
    end_reason = "";
    ended_at = 0;
  }

  unfoldable pub set_tier : Session F → Tier → Session F
  set_tier s t = record s { tier = t }

  unfoldable pub off_route_streak : Session F → ℕ
  off_route_streak s = length s.non_matched_streak

  abbrev timestamp_or_zero : Option (AcceptedPoint F) → Time
  timestamp_or_zero none = 0
  timestamp_or_zero (some p) = p.point.timestamp

  unfoldable pub last_accepted_at : Session F → Time
  last_accepted_at s = timestamp_or_zero s.latest

  -- `(s *Session) End`
  unfoldable pub end_session : Session F → EndReason → Time → Session F
  end_session s reason at =
      if s.ended then s else record s { ended = true; end_reason = reason; ended_at = at }

  unfoldable pub reject : Session F → EndReason → Time → Session F
  unfolding end_session
  reject s reason at = end_session (record s { state = rejected }) reason at

  -- the `switch` on the corroboration of a matched point
  unfoldable pub apply_corroboration : Session F → Corroboration → Session F
  apply_corroboration s corroborated =
      let n = s.counts.corroborated + 1 in
      record s {
        counts = record s.counts { corroborated = n };
        contradictions = 0;
        is_corroborated = if leb corroborate_count n then true else s.is_corroborated;
      }
  apply_corroboration s contradicted = record s {
    counts = record s.counts { contradicted = s.counts.contradicted + 1 };
    contradictions = s.contradictions + 1;
  }
  apply_corroboration s _ = s

  -- the tests at the end of `applyMatched`
  unfoldable pub settle_matched : Session F → Time → Session F × Transition
  unfolding reject
  settle_matched s at =
      let verifies = is_pending s.state && leb verify_streak s.match_streak in
      let s' = if verifies then record s { state = verified } else s in
      let r = reject s' end_contradicted at in
      if leb contradict_streak s.contradictions
      then (r, record { state_changed = true; ended = true; end_reason = r.end_reason })
      else (s', record { state_changed = verifies; ended = false; end_reason = "" })

  unfoldable pub apply_matched : Session F → Corroboration → Time → Session F × Transition
  unfolding apply_corroboration settle_matched
  apply_matched s c at =
      let n = s.counts.matched + 1 in
      let s' = record s {
        counts = record s.counts { matched = n };
        first_matched_at = if n == 1 then at else s.first_matched_at;
        last_matched_at = at;
        non_matched_streak = [];
        match_streak = s.match_streak + 1;
      } in
      settle_matched (apply_corroboration s' c) at

  unfoldable pub apply_non_matched : Session F → Outcome → Time → Session F × Transition
  unfolding reject
  apply_non_matched s o at =
      let streak = s.non_matched_streak ++ o ∷ [] in
      let s' = record s { match_streak = 0; non_matched_streak = streak } in
      let r = reject s' (end_reason_for (dominant_outcome streak)) at in
      if ltb (length streak) reject_streak
      then (s', quiet)
      else (r, record { state_changed = true; ended = true; end_reason = r.end_reason })

  -- the body of `Apply` for a point that is not ignored
  unfoldable pub apply_accepted : Session F → Verdict F → Point F → Session F × Transition
  unfolding apply_matched apply_non_matched
  apply_accepted s v p =
      let accepted : AcceptedPoint F = record { point = p; along_shape = v.along_shape } in
      let s' = record s {
        counts = record s.counts { total = s.counts.total + 1 };
        latest = some accepted;
        latest_corrob = v.corroboration;
      } in
      if not (same_outcome v.outcome matched)
      then apply_non_matched s' v.outcome p.timestamp
      else apply_matched (record s' { latest_matched = some accepted }) v.corroboration p.timestamp

  unfoldable pub apply : Session F → Verdict F → Point F → Session F × Transition
  unfolding apply_accepted
  apply s v p =
      if s.ended
      then (s, record { state_changed = false; ended = true; end_reason = s.end_reason })
      else if same_outcome v.outcome ignored
      then (s, quiet)
      else apply_accepted s v p

  abbrev fresh_point : Time → Duration → Option (AcceptedPoint F) → Bool
  fresh_point now max_age none = false
  fresh_point now max_age (some p) = leb_ℤ (time_sub now p.point.timestamp) max_age

  unfoldable pub fresh : Session F → Time → Duration → Bool
  fresh s now max_age = fresh_point now max_age s.latest_matched

  unfoldable pub publishable : Session F → Time → Duration → Bool
  unfolding fresh
  publishable s now max_age =
      if not (is_verified s.state) || s.ended || not (fresh s now max_age)
      then false
      else not (is_blocked s.tier) && (is_trusted s.tier || s.is_corroborated)

unfoldable pub summary_ended : RideSummary → Bool
summary_ended r = not (str_eq r.end_reason "")

unfoldable pub summary : {F : Type 0} → Session F → RideSummary
summary s = record {
  state = s.state;
  end_reason = s.end_reason;
  is_corroborated = s.is_corroborated;
  matched_duration =
      if leb 2 s.counts.matched then time_sub s.last_matched_at s.first_matched_at else pos 0;
  counts = s.counts;
  duration = if s.ended then time_sub s.ended_at s.started_at else pos 0;
}
