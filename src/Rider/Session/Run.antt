-- ===== src/Rider/Session/Run.antt =====
-- rider/session.go: a session under any sequence of calls, and what an end fixes for good.
use vehicle_positions.Prelude.{
  String, Bool, true, false, Option, List, [], ◌∷◌, ◌++◌, ◌≡◌, refl, arith, str_eq, not, All,
  eq_iff, any, subst, Bool-cases, inl, inr, ap, sym, ◌∙◌, ◌⊎◌,
}
use vehicle_positions.Prelude.Time.{Time}
use vehicle_positions.Rider.Schedule.{TripInfo}
use vehicle_positions.Rider.Verify.{Point, Verdict, Outcome, off_route}
use vehicle_positions.Rider.Session.{
  EndReason, Tier, TripKey, Session, parse_end_reason, parse_client_end_reason, end_contradicted,
  client_end_reasons,
}
use vehicle_positions.Rider.Session.Step.{
  new_session, set_tier, end_session, apply, summary, summary_ended, dominant_outcome,
  end_reason_for,
}
use vehicle_positions.Rider.Session.Invariant.{
  Inv, new_session-Inv, set_tier-Inv, end_session-Inv, apply-Inv,
}

-- The calls that change a session.
pub data Call (F : Type 0) : Type 0 where
  report : Verdict F → Point F → Call F
  stop : EndReason → Time → Call F
  retier : Tier → Call F

abbrev is_named : EndReason → Bool
is_named r = not (str_eq r "")

end_reason_for-named : (o : Outcome) → is_named (end_reason_for o) ≡ true
end_reason_for-named off_route = refl
end_reason_for-named _ = refl

module _ {F : Type 0} where
  pub step : Session F → Call F → Session F
  step s (report v p) = (apply s v p).0
  step s (stop r t) = end_session s r t
  step s (retier t) = set_tier s t

  pub run : Session F → List (Call F) → Session F
  run s [] = s
  run s (c ∷ cs) = run (step s c) cs

  step-Inv : (s : Session F) (c : Call F) → Inv s → Inv (step s c)
  unfolding step
  step-Inv s (report v p) h = apply-Inv s v p h
  step-Inv s (stop r t) h = end_session-Inv s r t h
  step-Inv s (retier t) h = set_tier-Inv s t h

  run_from-Inv : (s : Session F) (cs : List (Call F)) → Inv s → Inv (run s cs)
  unfolding run
  run_from-Inv s [] h = h
  run_from-Inv s (c ∷ cs) h = run_from-Inv (step s c) cs (step-Inv s c h)

  -- Whatever calls a new session receives, it satisfies the invariant `Inv`: its counts are
  -- ordered, its two streaks are exclusive and below the limits while it lives, a rejected session
  -- has ended, one rejected as contradicted has three contradicted points, a verified one has at
  -- least three matched points, and it is flagged as corroborated exactly from the twelfth
  -- corroborated point on.
  pub run-Inv :
      (id rider_id : String) (key : TripKey) (trip : Option (TripInfo F)) (tier : Tier) (t : Time)
      (cs : List (Call F))
      → Inv (run (new_session id rider_id key trip tier t) cs)
  run-Inv id rider_id key trip tier t cs =
      run_from-Inv (new_session id rider_id key trip tier t) cs
        (new_session-Inv id rider_id key trip tier t)

  step_ended :
      (s : Session F) (c : Call F) → s.ended ≡ true → step s c ≡ record s { tier = (step s c).tier }
  unfolding step apply end_session set_tier
  step_ended s (report v p) h = ground arith
  step_ended s (stop r t) h = ground arith
  step_ended s (retier t) h = refl

  -- The first end wins: once a session has ended, no sequence of calls changes anything of it but
  -- the rider's tier.
  pub run_ended :
      (s : Session F) (cs : List (Call F))
      → s.ended ≡ true
      → run s cs ≡ record s { tier = (run s cs).tier }
  unfolding run
  run_ended s [] h = refl
  run_ended s (c ∷ cs) h = ground (arith, step_ended s c h, run_ended (step s c) cs)

  -- The end reason that a call carries is not the empty string.
  abbrev IsNamed : Call F → Type 0
  IsNamed (report v p) = Unit
  IsNamed (stop r t) = str_eq r "" ≡ false
  IsNamed (retier t) = Unit

  -- A session has an end reason exactly if it has ended.
  abbrev IsReasoned : Session F → Type 0
  IsReasoned s = not (str_eq s.end_reason "") ≡ s.ended

  -- A report leaves the end and its reason alone, or ends the session with one of two reasons.
  apply_reason :
      (s : Session F) (v : Verdict F) (p : Point F)
      → ((apply s v p).0.end_reason ≡ s.end_reason) × ((apply s v p).0.ended ≡ s.ended)
        ⊎ ((apply s v p).0.ended ≡ true)
          × (((apply s v p).0.end_reason ≡ end_contradicted)
              ⊎ ((apply s v p).0.end_reason
                  ≡ end_reason_for (dominant_outcome (s.non_matched_streak ++ v.outcome ∷ []))))
  unfolding apply
  apply_reason s v p = ground arith

  step-IsReasoned : (s : Session F) (c : Call F) → IsNamed c → IsReasoned s → IsReasoned (step s c)
  unfolding step end_session set_tier
  step-IsReasoned s (report v p) n h = elim (apply_reason s v p) [
    | inl (e, f) ↦ ap is_named e ∙ h ∙ sym f
    | inr (f, inl e) ↦ ap is_named e ∙ sym f
    | inr (f, inr e) ↦ ap is_named e ∙ end_reason_for-named _ ∙ sym f
  ]
  step-IsReasoned s (stop r t) n h = ground arith
  step-IsReasoned s (retier t) n h = h

  run_from-IsReasoned :
      (s : Session F) (cs : List (Call F)) → All IsNamed cs → IsReasoned s → IsReasoned (run s cs)
  unfolding run
  run_from-IsReasoned s [] n h = h
  run_from-IsReasoned s (c ∷ cs) n h =
      run_from-IsReasoned (step s c) cs n.1 (step-IsReasoned s c n.0 h)

  -- The summary of a ride says that it has ended exactly if its session has, whatever calls the
  -- session has received, as long as no caller ends it with the empty reason.
  summary_ended-run :
      (id rider_id : String) (key : TripKey) (trip : Option (TripInfo F)) (tier : Tier) (t : Time)
      (cs : List (Call F))
      → All IsNamed cs
      → let s = run (new_session id rider_id key trip tier t) cs in
        summary_ended (summary s) ≡ s.ended
  unfolding summary summary_ended
  summary_ended-run id rider_id key trip tier t cs n =
      run_from-IsReasoned (new_session id rider_id key trip tier t) cs n
        (unfold new_session in refl)

any_elim :
    (P : EndReason → Type 0) (rs : List EndReason) (s : String)
    → any (λ r. str_eq r s) rs ≡ true
    → All P rs
    → P s
unfolding any
any_elim P [] s h a = cc
any_elim P (r ∷ rs) s h a = elim (Bool-cases (str_eq r s)) [
  | inl e ↦ subst P ((eq_iff r s).0 e) a.0
  | inr n ↦ any_elim P rs s (rw n at h) a.1
]

-- What holds of a reason that a client may send.
abbrev IsClientReason : EndReason → Type 0
IsClientReason s =
    ((parse_end_reason s).1 ≡ true)
    × (str_eq s "" ≡ false)
    × (str_eq s "contradicted" ≡ false)
    × (str_eq s "superseded" ≡ false)
    × (str_eq s "idle" ≡ false)

each-IsClientReason : All IsClientReason client_end_reasons
unfolding parse_end_reason
each-IsClientReason = (
  (refl, refl, refl, refl, refl),
  (
    (refl, refl, refl, refl, refl),
    (
      (refl, refl, refl, refl, refl),
      (
        (refl, refl, refl, refl, refl),
        (
          (refl, refl, refl, refl, refl),
          (
            (refl, refl, refl, refl, refl),
            ((refl, refl, refl, refl, refl), ((refl, refl, refl, refl, refl), tt)),
          ),
        ),
      ),
    ),
  ),
)

-- A reason that a client may send is one of the server's reasons, is not empty, and is not
-- `contradicted`, `superseded` or `idle`, which only the server decides.
parse_client_end_reason-IsClientReason :
    (s : String) → (parse_client_end_reason s).1 ≡ true → IsClientReason s
unfolding parse_client_end_reason
parse_client_end_reason-IsClientReason s h =
    any_elim IsClientReason client_end_reasons s h each-IsClientReason
