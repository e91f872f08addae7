-- ===== src/Rider/Session/Invariant.antt =====
-- rider/session.go: what holds of a session between two calls.
use vehicle_positions.Prelude.{
  ◌+◌, ◌≤◌, ◌<◌, String, true, false, Option, [], ◌∷◌, ◌++◌, ◌≡◌, length, arith, is_some, str_eq,
  refl, length-append,
}
use vehicle_positions.Prelude.Time.{Time}
use vehicle_positions.Rider.Schedule.{TripInfo}
use vehicle_positions.Rider.Verify.{Point, Verdict, Outcome, off_route}
use vehicle_positions.Rider.Session.{
  pending, verified, rejected, EndReason, Tier, TripKey, Session, reject_streak, end_contradicted,
  contradict_streak, verify_streak, corroborate_count,
}
use vehicle_positions.Rider.Session.Step.{
  new_session, set_tier, end_session, apply_accepted, apply, dominant_outcome, end_reason_for,
}

end_reason_for-ne : (o : Outcome) → str_eq (end_reason_for o) end_contradicted ≡ false
end_reason_for-ne off_route = refl
end_reason_for-ne _ = refl

module _ {F : Type 0} where
  pub record Inv (s : Session F) : Type 0 where
    pub counts_matched : s.counts.matched ≤ s.counts.total
    pub counts_corroboration : s.counts.corroborated + s.counts.contradicted ≤ s.counts.matched
    pub streak_counted : s.match_streak ≤ s.counts.matched
    pub contradictions_counted : s.contradictions ≤ s.counts.contradicted
    pub streaks_exclusive : 0 < s.match_streak → length s.non_matched_streak ≡ 0
    pub streak_capped : length s.non_matched_streak ≤ reject_streak
    pub live_streak : s.ended ≡ false → length s.non_matched_streak < reject_streak
    pub live_contradictions : s.ended ≡ false → s.contradictions < contradict_streak
    pub live_reason : s.ended ≡ false → s.end_reason ≡ ""
    pub rejected_ended : s.state ≡ rejected → s.ended ≡ true
    pub penalty_earned :
        s.state ≡ rejected
        → str_eq s.end_reason end_contradicted ≡ true
        → contradict_streak ≤ s.counts.contradicted
    pub pending_short : s.state ≡ pending → s.match_streak < verify_streak
    pub verified_matched : s.state ≡ verified → verify_streak ≤ s.counts.matched
    pub matched_point : 0 < s.counts.matched → is_some s.latest_matched ≡ true
    pub flag_sound : s.is_corroborated ≡ true → corroborate_count ≤ s.counts.corroborated
    pub flag_complete : corroborate_count ≤ s.counts.corroborated → s.is_corroborated ≡ true

  pub new_session-Inv :
      (id rider_id : String) (key : TripKey) (trip : Option (TripInfo F)) (tier : Tier) (t : Time)
      → Inv (new_session id rider_id key trip tier t)
  unfolding new_session
  new_session-Inv id rider_id key trip tier t = ground arith

  pub set_tier-Inv : (s : Session F) (t : Tier) → Inv s → Inv (set_tier s t)
  unfolding set_tier
  set_tier-Inv s t h = ground arith

  pub end_session-Inv : (s : Session F) (r : EndReason) (t : Time) → Inv s → Inv (end_session s r t)
  unfolding end_session
  end_session-Inv s r t h = ground arith

  apply_accepted-Inv :
      (s : Session F) (v : Verdict F) (p : Point F)
      → Inv s
      → s.ended ≡ false
      → Inv (apply_accepted s v p).0
  unfolding apply_accepted
  apply_accepted-Inv s v p h live = ground (
    arith,
    length-append s.non_matched_streak (v.outcome ∷ []),
    end_reason_for-ne (dominant_outcome (s.non_matched_streak ++ v.outcome ∷ [])),
  )

  pub apply-Inv : (s : Session F) (v : Verdict F) (p : Point F) → Inv s → Inv (apply s v p).0
  unfolding apply
  apply-Inv s v p h = ground (arith, apply_accepted-Inv s v p)
