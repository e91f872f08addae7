-- ===== src/Rider/Session/Examples.antt =====
-- Runs of rider/session.go and rider/reputation.go at concrete points.
use vehicle_positions.Prelude.{ℕ, true, false, none, List, [], ◌∷◌, ◌++◌, ◌≡◌, refl, arith}
use vehicle_positions.Prelude.Time.{time_sub}
use vehicle_positions.Prelude.Int.{ℤ, pos}
use vehicle_positions.Rider.Verify.{
  Point, Verdict, Outcome, Corroboration, off_route, implausible, matched, unavailable,
  corroborated, contradicted, no_reason,
}
use vehicle_positions.Rider.Session.{TripKey, Session, trusted, blocked, rejected}
use vehicle_positions.Rider.Session.Step.{new_session, end_session, apply, publishable, fresh}
use vehicle_positions.Rider.Session.Invariant.{Inv, new_session-Inv, apply-Inv}
use vehicle_positions.Rider.Session.Run.{Call, report, stop, retier, run, run-Inv}
use vehicle_positions.Rider.Session.Dominant.{IsBlamed}
use vehicle_positions.Rider.Session.Streaks.{
  Reports, apply_all, failures_reject, contradictions_end, outcomes,
}
use vehicle_positions.Rider.Session.Publication.{IsCredible, publishable-IsCredible}

abbrev key : TripKey
key = record { trip_id = "t1"; start_date = "20260101" }

abbrev ride : Session ℤ
ride = new_session "ride" "ann" key none trusted 100

abbrev fix : ℕ → Point ℤ
fix t = record {
  pos = record { lat = pos 1; lon = pos 2 };
  accuracy = pos 5;
  speed = pos 9;
  bearing = pos 0;
  timestamp = t;
}

abbrev says : Outcome → Corroboration → Verdict ℤ
says o c = record {
  outcome = o;
  corroboration = c;
  along_shape = pos 40;
  distance_to_shape = pos 3;
  schedule_deviation = pos 0;
  reason = no_reason;
}

abbrev good : Verdict ℤ
good = says matched unavailable

abbrev bad : Verdict ℤ
bad = says off_route unavailable

abbrev calls : List (Call ℤ)
calls =
    report good (fix 101)
    ∷ report (says matched corroborated) (fix 102)
    ∷ retier blocked
    ∷ report bad (fix 103)
    ∷ stop "arrived" 104
    ∷ report good (fix 105)
    ∷ []

run-Inv_example : Inv (run ride calls)
run-Inv_example = run-Inv "ride" "ann" key none trusted 100 calls

abbrev closed : Session ℤ
closed = end_session ride "arrived" 120

abbrev mixed : List Outcome
mixed = off_route ∷ implausible ∷ implausible ∷ off_route ∷ off_route ∷ []

abbrev four : Reports ℤ
four =
    (bad, fix 101)
    ∷ (says implausible unavailable, fix 102)
    ∷ (says implausible unavailable, fix 103)
    ∷ (bad, fix 104)
    ∷ []

failures_reject_example :
    ((apply_all ride four).ended ≡ false)
    × ((apply_all ride four).state ≡ ride.state)
    × ((apply_all ride four).non_matched_streak ≡ ride.non_matched_streak ++ outcomes four)
    × ((apply (apply_all ride four) bad (fix 105)).0.ended ≡ true)
    × ((apply (apply_all ride four) bad (fix 105)).0.state ≡ rejected)
    × IsBlamed
        ((ride.non_matched_streak ++ outcomes four) ++ off_route ∷ [])
        (apply (apply_all ride four) bad (fix 105)).0.end_reason
    × ((apply (apply_all ride four) bad (fix 105)).0.ended_at ≡ 105)
unfolding new_session
failures_reject_example =
    failures_reject ride four bad (fix 105) refl
      (
        (λ e. cc),
        (λ e. cc),
        ((λ e. cc), (λ e. cc), ((λ e. cc), (λ e. cc), ((λ e. cc), (λ e. cc), tt))),
      )
      (λ e. cc) (λ e. cc) refl

abbrev two_matches : Session ℤ
two_matches = (apply (apply ride good (fix 101)).0 good (fix 102)).0

two_matches-Inv : Inv two_matches
two_matches-Inv =
    apply-Inv (apply ride good (fix 101)).0 good (fix 102)
      (apply-Inv ride good (fix 101) (new_session-Inv "ride" "ann" key none trusted 100))

abbrev denials : Reports ℤ
denials =
    (says matched contradicted, fix 101)
    ∷ (good, fix 102)
    ∷ (says matched contradicted, fix 103)
    ∷ (bad, fix 104)
    ∷ (says matched contradicted, fix 105)
    ∷ []

contradictions_end_example : (apply_all ride denials).ended ≡ true
unfolding new_session
contradictions_end_example =
    contradictions_end ride denials (new_session-Inv "ride" "ann" key none trusted 100)
      (refl, (refl, (refl, (refl, (refl, tt))))) (omega arith)

abbrev three_matches : Session ℤ
three_matches = (apply two_matches good (fix 103)).0

publishable-IsCredible_example : IsCredible three_matches 110 (pos 60)
unfolding apply new_session publishable fresh time_sub
publishable-IsCredible_example =
    publishable-IsCredible three_matches 110 (pos 60)
      (apply-Inv two_matches good (fix 103) two_matches-Inv) refl
