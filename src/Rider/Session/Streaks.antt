-- ===== src/Rider/Session/Streaks.antt =====
-- rider/session.go: the runs of points that verify a session and that reject it.
use mathlib.Core.List.{append-nil, append_assoc}
use vehicle_positions.Prelude.{
  ℕ, suc, subst, ◌+◌, ◌≤◌, ◌<◌, Bool, true, false, ◌&&◌, List, [], ◌∷◌, ◌++◌, ◌≡◌, ◌≢◌, ◌↔◌, refl,
  arith, length, length-append, ap, ◌∙◌, sym, if◌then◌else◌, leb, Bool-cases, inl, inr,
}
use vehicle_positions.Rider.Verify.{
  Point, Verdict, Outcome, ignored, matched, Corroboration, corroborated, contradicted,
}
use vehicle_positions.Rider.Session.{
  pending, verified, rejected, Session, same_outcome, reject_streak, verify_streak,
  contradict_streak,
}
use vehicle_positions.Rider.Session.Step.{apply, dominant_outcome, end_reason_for}
use vehicle_positions.Rider.Session.Dominant.{IsBlamed, dominant_outcome-IsBlamed}
use vehicle_positions.Rider.Session.Invariant.{Inv, apply-Inv}

abbrev pub is_contradicted : Corroboration → Bool
is_contradicted contradicted = true
is_contradicted _ = false

abbrev pub is_agreement : Corroboration → Bool
is_agreement corroborated = true
is_agreement _ = false

snoc_some : (xs : List Outcome) (o : Outcome) → xs ++ o ∷ [] ≢ []
snoc_some [] o e = cc e
snoc_some (x ∷ xs) o e = cc e

-- Points with their verdicts, oldest first.
abbrev pub Reports : Type 0 → Type 0
Reports F = List (Verdict F × Point F)

module _ {F : Type 0} where
  pub apply_all : Session F → Reports F → Session F
  apply_all s [] = s
  apply_all s ((v, p) ∷ rest) = apply_all (apply s v p).0 rest

  abbrev pub outcomes : Reports F → List Outcome
  outcomes [] = []
  outcomes ((v, p) ∷ rest) = v.outcome ∷ outcomes rest

  length-outcomes : (rs : Reports F) → length (outcomes rs) ≡ length rs
  length-outcomes [] = refl
  length-outcomes ((v, p) ∷ rest) = ap suc (length-outcomes rest)

  -- Every verdict is a failure: neither ignored nor matched.
  abbrev pub AllFail : Reports F → Type 0
  AllFail [] = Unit
  AllFail ((v, p) ∷ rest) = (v.outcome ≢ ignored) × (v.outcome ≢ matched) × AllFail rest

  apply_failing :
      (s : Session F) (v : Verdict F) (p : Point F)
      → s.ended ≡ false
      → v.outcome ≢ ignored
      → v.outcome ≢ matched
      → length s.non_matched_streak + 1 < reject_streak
      → ((apply s v p).0.ended ≡ false)
        × ((apply s v p).0.non_matched_streak ≡ s.non_matched_streak ++ v.outcome ∷ [])
        × ((apply s v p).0.state ≡ s.state)
  unfolding apply
  apply_failing s v p live hi hm short =
      ground (arith, length-append s.non_matched_streak (v.outcome ∷ []))

  apply_last_failing :
      (s : Session F) (v : Verdict F) (p : Point F)
      → s.ended ≡ false
      → v.outcome ≢ ignored
      → v.outcome ≢ matched
      → length s.non_matched_streak + 1 ≡ reject_streak
      → ((apply s v p).0.ended ≡ true)
        × ((apply s v p).0.state ≡ rejected)
        × ((apply s v p).0.end_reason
            ≡ end_reason_for (dominant_outcome (s.non_matched_streak ++ v.outcome ∷ [])))
        × ((apply s v p).0.ended_at ≡ p.timestamp)
  unfolding apply
  apply_last_failing s v p live hi hm full =
      ground (arith, length-append s.non_matched_streak (v.outcome ∷ []))

  apply_all_failing :
      (s : Session F) (rs : Reports F)
      → s.ended ≡ false
      → AllFail rs
      → length s.non_matched_streak + length rs < reject_streak
      → ((apply_all s rs).ended ≡ false)
        × ((apply_all s rs).non_matched_streak ≡ s.non_matched_streak ++ outcomes rs)
        × ((apply_all s rs).state ≡ s.state)
  unfolding apply_all
  apply_all_failing s [] live fail short = (live, sym (append-nil s.non_matched_streak), refl)
  apply_all_failing s ((v, p) ∷ rest) live fail short =
      let (live', streak, kept) = apply_failing s v p live fail.0 fail.1 (omega arith) in
      let grown = length-append s.non_matched_streak (v.outcome ∷ []) in
      let (live'', streak', kept') =
        apply_all_failing (apply s v p).0 rest live' fail.2
          (omega (arith, ap (length {A = Outcome}) streak, grown)) in
      (
        live'',
        streak'
            ∙ ap (λ xs. xs ++ outcomes rest) streak
            ∙ append_assoc s.non_matched_streak (v.outcome ∷ []) (outcomes rest),
        kept' ∙ kept,
      )

  apply_all-append :
      (s : Session F) (xs ys : Reports F) → apply_all s (xs ++ ys) ≡ apply_all (apply_all s xs) ys
  unfolding apply_all
  apply_all-append s [] ys = refl
  apply_all-append s ((v, p) ∷ xs) ys = apply_all-append (apply s v p).0 xs ys

  -- Failed points that bring the run of failures of a live session to exactly five, the last of
  -- them `v` at `p`, end it as rejected at the time of `p`, blamed on the outcome that occurs most
  -- often among the five, and of several on the newest; one point earlier the session is live, in
  -- the state that it had, with the failed points added to its run in their order.
  pub failures_reject :
      (s : Session F) (rs : Reports F) (v : Verdict F) (p : Point F)
      → s.ended ≡ false
      → AllFail rs
      → v.outcome ≢ ignored
      → v.outcome ≢ matched
      → length s.non_matched_streak + length rs + 1 ≡ 5
      → ((apply_all s rs).ended ≡ false)
        × ((apply_all s rs).state ≡ s.state)
        × ((apply_all s rs).non_matched_streak ≡ s.non_matched_streak ++ outcomes rs)
        × ((apply (apply_all s rs) v p).0.ended ≡ true)
        × ((apply (apply_all s rs) v p).0.state ≡ rejected)
        × IsBlamed
            ((s.non_matched_streak ++ outcomes rs) ++ v.outcome ∷ [])
            (apply (apply_all s rs) v p).0.end_reason
        × ((apply (apply_all s rs) v p).0.ended_at ≡ p.timestamp)
  failures_reject s rs v p live fail hi hm full =
      let (live', streak, kept) = apply_all_failing s rs live fail (omega arith) in
      let size = length-append s.non_matched_streak (outcomes rs) in
      let run = (s.non_matched_streak ++ outcomes rs) ++ v.outcome ∷ [] in
      let (over, state, reason, at) =
        apply_last_failing (apply_all s rs) v p live' hi hm
          (omega (arith, ap (length {A = Outcome}) streak, size, length-outcomes rs)) in
      (
        live',
        kept,
        streak,
        over,
        state,
        subst (IsBlamed run)
            (sym
              (reason ∙ ap (λ xs. end_reason_for (dominant_outcome (xs ++ v.outcome ∷ []))) streak))
            (dominant_outcome-IsBlamed run
              (snoc_some (s.non_matched_streak ++ outcomes rs) v.outcome)),
        at,
      )

  -- A point verifies a pending session exactly if it matches, it is the third match in a row, and
  -- it is not the third contradiction, which would reject the session.
  pub verifies_iff :
      (s : Session F) (v : Verdict F) (p : Point F)
      → Inv s
      → s.ended ≡ false
      → s.state ≡ pending
      → ((apply s v p).0.state ≡ verified) ↔ (
          (v.outcome ≡ matched)
          × (s.match_streak + 1 ≡ verify_streak)
          × ((is_contradicted v.corroboration && leb 2 s.contradictions) ≡ false))
  unfolding apply
  verifies_iff s v p h live wait = (λ e. ground arith, λ e. ground arith)

  -- In a run of points without agreement: the number that a trusted position contradicts.
  abbrev pub NoAgreement : Reports F → Type 0
  NoAgreement [] = Unit
  NoAgreement ((v, p) ∷ rest) =
      ((same_outcome v.outcome matched && is_agreement v.corroboration) ≡ false) × NoAgreement rest

  abbrev pub contradicted_matches : Reports F → ℕ
  contradicted_matches [] = 0
  contradicted_matches ((v, p) ∷ rest) =
      let n = contradicted_matches rest in
      if same_outcome v.outcome matched && is_contradicted v.corroboration then suc n else n

  apply_ended : (s : Session F) (v : Verdict F) (p : Point F) → s.ended ≡ true → (apply s v p).0 ≡ s
  unfolding apply
  apply_ended s v p h = ground arith

  apply_all_ended : (s : Session F) (rs : Reports F) → s.ended ≡ true → apply_all s rs ≡ s
  unfolding apply_all
  apply_all_ended s [] h = refl
  apply_all_ended s ((v, p) ∷ rest) h = rw (apply_ended s v p h) (apply_all_ended s rest h)

  apply_contradictions :
      (s : Session F) (v : Verdict F) (p : Point F)
      → s.ended ≡ false
      → (same_outcome v.outcome matched && is_agreement v.corroboration) ≡ false
      → (apply s v p).0.contradictions ≡ (
          if same_outcome v.outcome matched && is_contradicted v.corroboration
          then s.contradictions + 1
          else s.contradictions)
  unfolding apply
  apply_contradictions s v p live h = ground arith

  -- A contradiction streak is not absolved by silence: if the points that a session receives
  -- contain no corroborated match, and the contradicted matches among them bring its count to
  -- three, then it has ended, whatever other points come in between.
  pub contradictions_end :
      (s : Session F) (rs : Reports F)
      → Inv s
      → NoAgreement rs
      → contradict_streak ≤ s.contradictions + contradicted_matches rs
      → (apply_all s rs).ended ≡ true
  unfolding apply_all
  contradictions_end s [] h quiet n = ground (arith, h.live_contradictions)
  contradictions_end s ((v, p) ∷ rest) h quiet n = elim (Bool-cases s.ended) [
    | inl over ↦ ap (λ (t : Session F). t.ended) (apply_all_ended s ((v, p) ∷ rest) over) ∙ over
    | inr live ↦
        contradictions_end (apply s v p).0 rest (apply-Inv s v p h) quiet.1
          (ground (arith, apply_contradictions s v p live quiet.0))
  ]
