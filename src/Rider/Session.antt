-- ===== src/Rider/Session.antt =====
-- rider/session.go: the state machine of one ride. This file has its data; the methods are in
-- `Step`, where a method on `*Session` returns the new record.
pub mod Step
pub mod Invariant
pub mod Run
pub mod Dominant
pub mod Streaks
pub mod Publication
mod Examples
use vehicle_positions.Prelude.{
  ℕ, String, Bool, true, false, Option, List, [], ◌∷◌, ◌++◌, str_eq, any,
}
use vehicle_positions.Prelude.Time.{Time, Duration}
use vehicle_positions.Rider.Schedule.{TripInfo}
use vehicle_positions.Rider.Verify.{
  AcceptedPoint, Outcome, ignored, off_route, implausible, off_schedule, matched, Corroboration,
}

pub data State : Type 0 where
  pending verified rejected : State

-- `type EndReason string`; the empty string stands for a ride that has not ended.
abbrev pub EndReason : Type 0
EndReason = String

abbrev pub end_contradicted : EndReason
end_contradicted = "contradicted"

abbrev pub end_max_duration : EndReason
end_max_duration = "max_duration"

abbrev pub end_idle : EndReason
end_idle = "idle"

abbrev pub client_end_reasons : List EndReason
client_end_reasons =
    "user_requested" ∷ "arrived" ∷ "stationary" ∷ "max_duration" ∷ "location_unavailable"
    ∷ "authorization_denied" ∷ "network_failure" ∷ "app_terminated" ∷ []

abbrev pub end_reasons : List EndReason
end_reasons =
    client_end_reasons
    ++ "off_route" ∷ "contradicted" ∷ "implausible" ∷ "off_schedule" ∷ "superseded"
      ∷ "server_restart" ∷ "idle" ∷ []

unfoldable pub parse_end_reason : String → EndReason × Bool
unfolding any
parse_end_reason s = (s, any (λ r. str_eq r s) end_reasons)

unfoldable pub parse_client_end_reason : String → EndReason × Bool
unfolding any
parse_client_end_reason s = (s, any (λ r. str_eq r s) client_end_reasons)

-- `type Tier string`, of which `ParseTier` admits three values.
pub data Tier : Type 0 where
  new trusted blocked : Tier

pub record TripKey : Type 0 where
  pub trip_id : String
  pub start_date : String

pub record Counts : Type 0 where
  pub total : ℕ
  pub matched : ℕ
  pub corroborated : ℕ
  pub contradicted : ℕ

pub record Transition : Type 0 where
  pub state_changed : Bool
  pub ended : Bool
  pub end_reason : EndReason

abbrev pub verify_streak : ℕ
verify_streak = 3

abbrev pub reject_streak : ℕ
reject_streak = 5

abbrev pub contradict_streak : ℕ
contradict_streak = 3

abbrev pub corroborate_count : ℕ
corroborate_count = 12

pub record Session (F : Type 0) : Type 0 where
  pub id : String
  pub rider_id : String
  pub key : TripKey
  pub trip : Option (TripInfo F)
  pub tier : Tier
  pub started_at : Time
  pub state : State
  pub is_corroborated : Bool
  pub latest : Option (AcceptedPoint F)
  pub latest_matched : Option (AcceptedPoint F)
  pub latest_corrob : Corroboration
  pub counts : Counts
  pub match_streak : ℕ
  pub contradictions : ℕ
  pub non_matched_streak : List Outcome
  pub first_matched_at : Time
  pub last_matched_at : Time
  pub ended : Bool
  pub end_reason : EndReason
  pub ended_at : Time

abbrev pub no_counts : Counts
no_counts = record { total = 0; matched = 0; corroborated = 0; contradicted = 0 }

abbrev pub quiet : Transition
quiet = record { state_changed = false; ended = false; end_reason = "" }

abbrev pub is_pending : State → Bool
is_pending pending = true
is_pending _ = false

abbrev pub is_verified : State → Bool
is_verified verified = true
is_verified _ = false

abbrev pub is_rejected : State → Bool
is_rejected rejected = true
is_rejected _ = false

abbrev pub is_blocked : Tier → Bool
is_blocked blocked = true
is_blocked _ = false

abbrev pub is_trusted : Tier → Bool
is_trusted trusted = true
is_trusted _ = false

abbrev pub same_outcome : Outcome → Outcome → Bool
same_outcome ignored ignored = true
same_outcome off_route off_route = true
same_outcome implausible implausible = true
same_outcome off_schedule off_schedule = true
same_outcome matched matched = true
same_outcome _ _ = false

pub record RideSummary : Type 0 where
  pub state : State
  pub end_reason : EndReason
  pub is_corroborated : Bool
  pub matched_duration : Duration
  pub counts : Counts
  pub duration : Duration
